-- ===== src/Driver/Modes/Handover.antt =====
-- What a joint's command is after a switch of command modes.
use robstride_ros.Prelude.{
  ℕ, zero, suc, ◌+◌, ◌*◌, ◌≤◌, true, false, some, List, [], ◌∷◌, ◌≡◌, refl, arith, inl, inr,
  Bool-cases, get_elem?, length, has_value, ◌==◌, ==_iff, &&-eq-true, subst,
}
use robstride_ros.Clock.{ms}
use robstride_ros.Double.{Double, nought}
use robstride_ros.Joint.{
  JointData, ClaimedInterfaces, contains_position, checked_joint_to_motor_position,
  joint_position_range, motor_position_within_roundoff,
}
use robstride_ros.Driver.State.{Driver}
use robstride_ros.Driver.Modes.{
  may_claim, may_claim_all, validate_command_modes, claim, claim_all, apply_command_modes,
}

module _ {W : Type 0} ⦃d : Double W⦄ where
  -- The joint `j` becomes `k` when it is given the claims `mode`.
  pub IsHandedOver : ℕ → ℕ → JointData W → ClaimedInterfaces → JointData W → Type 0
  IsHandedOver feedback_timeout now j mode k =
      (k.claimed ≡ mode)
      × (k.feedback ≡ j.feedback)
      × ((j.claimed.position ≡ false)
          → (mode.position ≡ true)
          → (k.command.position ≡ j.feedback.position)
            × (contains_position k.command_limits k.command.position ≡ true)
            × (has_value (checked_joint_to_motor_position k k.command.position) ≡ true)
            × (j.feedback_status.received ≡ true)
            × (now ≤ j.feedback_status.timestamp + feedback_timeout * 1_000_000))
      × ((j.claimed.position ≡ true) → k.command.position ≡ j.command.position)
      × ((j.claimed.velocity ≡ false) → (mode.velocity ≡ true) → k.command.velocity ≡ nought)
      × ((j.claimed.effort ≡ false) → (mode.effort ≡ true) → k.command.effort ≡ nought)

  -- The transform reads neither the claims nor the command.
  checked_joint_to_motor_position-claim :
      (j : JointData W) (mode : ClaimedInterfaces) (x : W)
      → checked_joint_to_motor_position (claim j mode) x ≡ checked_joint_to_motor_position j x
  unfolding checked_joint_to_motor_position joint_position_range motor_position_within_roundoff
  checked_joint_to_motor_position-claim j mode x = refl

  claim-IsHandedOver :
      (timeout now : ℕ) (j : JointData W) (mode : ClaimedInterfaces)
      → may_claim timeout now j mode ≡ true
      → IsHandedOver timeout now j mode (claim j mode)
  unfolding IsHandedOver may_claim
  claim-IsHandedOver timeout now j mode h =
      ground (arith, ms, checked_joint_to_motor_position-claim j mode j.feedback.position)

  claim_all-IsHandedOver :
      (timeout now : ℕ) (joints : List (JointData W)) (modes : List ClaimedInterfaces)
      → may_claim_all timeout now joints modes ≡ true
      → length modes ≡ length joints
      → (i : ℕ) (j : JointData W) → get_elem? joints i ≡ some j
      → (mode : ClaimedInterfaces) × (k : JointData W) × (get_elem? modes i ≡ some mode)
        × (get_elem? (claim_all joints modes) i ≡ some k)
        × IsHandedOver timeout now j mode k
  unfolding may_claim_all claim_all
  claim_all-IsHandedOver timeout now [] modes h same i j found = ground arith
  claim_all-IsHandedOver timeout now (x ∷ joints) [] h same i j found = ground arith
  claim_all-IsHandedOver timeout now (x ∷ joints) (mode ∷ modes) h same zero j found =
      let handed = claim-IsHandedOver timeout now x mode (&&-eq-true _ _ h).0 in
      let x≡j : x ≡ j = ground arith in
      (
        mode,
        claim x mode,
        refl,
        refl,
        subst (λ y. IsHandedOver timeout now y mode (claim x mode)) x≡j handed,
      )
  claim_all-IsHandedOver timeout now (x ∷ joints) (mode ∷ modes) h same (suc i) j found =
      claim_all-IsHandedOver timeout now joints modes (&&-eq-true _ _ h).1 (ground arith) i j found

  validate_command_modes_parts :
      (now : ℕ) (modes : List ClaimedInterfaces) (v : Driver W)
      → validate_command_modes now modes v ≡ true
      → (length modes ≡ length v.joints)
        × (may_claim_all v.settings.feedback_timeout now v.joints modes ≡ true)
  unfolding validate_command_modes
  validate_command_modes_parts now modes v h =
      let (same, rest) = &&-eq-true (length modes == length v.joints) _ h in
      ((==_iff _ _).0 same, rest)

  -- After a switch of command modes that succeeds every joint has its new claims; a position that
  -- is newly claimed has fresh feedback and starts at the measured position, which is within the
  -- command limits and has a motor position; one that stays claimed keeps its command; a newly
  -- claimed velocity or effort starts at zero.
  pub apply_command_modes_hands_over :
      (now : ℕ) (modes : List ClaimedInterfaces) (v : Driver W)
      → (apply_command_modes now modes v).1 ≡ true
      → (i : ℕ) (j : JointData W) → get_elem? v.joints i ≡ some j
      → (mode : ClaimedInterfaces) × (k : JointData W) × (get_elem? modes i ≡ some mode)
        × (get_elem? (apply_command_modes now modes v).0.joints i ≡ some k)
        × IsHandedOver v.settings.feedback_timeout now j mode k
  unfolding apply_command_modes
  apply_command_modes_hands_over now modes v ok i j found =
      elim (Bool-cases (validate_command_modes now modes v)) [
        | inl valid ↦
            let (same, all_may) = validate_command_modes_parts now modes v valid in
            rw valid (
              claim_all-IsHandedOver v.settings.feedback_timeout now v.joints modes all_may same i j
                found)
        | inr invalid ↦ ground (arith, invalid)
      ]

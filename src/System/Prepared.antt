-- ===== src/System/Prepared.antt =====
-- A switch of command modes that was prepared, performed.
use robstride_ros.Prelude.{
  ℕ, Bool, true, false, List, [], ◌∷◌, ◌≡◌, ◌⊎◌, inl, inr, refl, ap, arith, Bool-cases, ==_iff,
  ◌==◌, &&-eq-true, length, Text, All, map,
}
use robstride_ros.Double.{Double}
use robstride_ros.Joint.{JointData, ClaimedInterfaces}
use robstride_ros.CommandMode.{validate_command_mode_switch, command_modes_after_switch}
use robstride_ros.CommandMode.Exclusive.{IsExclusive, validate_command_mode_switch_iff}
use robstride_ros.Driver.State.{Driver}
use robstride_ros.Driver.Modes.{
  command_modes, validate_command_modes, apply_command_modes, claim_all,
}
use robstride_ros.System.State.{System, current_command_modes}
use robstride_ros.System.Bindings.{command_value, publish_selected}
use robstride_ros.System.Cycle.{ok, error}
use robstride_ros.System.Switch.{
  claimed_by, initialized_commands, prepare_command_mode_switch, perform_command_mode_switch,
}

module _ {W : Type 0} ⦃d : Double W⦄ where
  claim_all-claimed :
      (joints : List (JointData W)) (modes : List ClaimedInterfaces)
      → length modes ≡ length joints
      → map (λ j. j.claimed) (claim_all joints modes) ≡ modes
  unfolding claim_all
  claim_all-claimed [] [] e = refl
  claim_all-claimed [] (mode ∷ modes) e = ground arith
  claim_all-claimed (j ∷ joints) [] e = ground arith
  claim_all-claimed (j ∷ joints) (mode ∷ modes) e =
      ap (λ ms. mode ∷ ms) (claim_all-claimed joints modes (omega arith))

  validated-length :
      (now : ℕ) (modes : List ClaimedInterfaces) (v : Driver W)
      → validate_command_modes now modes v ≡ true
      → length modes ≡ length v.joints
  unfolding validate_command_modes
  validated-length now modes v h =
      (==_iff _ _).0 (&&-eq-true (length modes == length v.joints) _ h).0

  apply_command_modes-validated :
      (now : ℕ) (modes : List ClaimedInterfaces) (v : Driver W)
      → validate_command_modes now modes v ≡ true
      → let (after, applied) = apply_command_modes now modes v in
        (applied ≡ true) × (command_modes after ≡ modes)
  unfolding apply_command_modes command_modes
  apply_command_modes-validated now modes v h =
      rw h (refl, claim_all-claimed v.joints modes (validated-length now modes v h))

  -- If a switch of command modes was accepted when it was prepared, and no synchronisation has
  -- failed before, then performing it in the same state at the same time makes every joint claim
  -- what the switch results in, at most one interface of each joint; it succeeds, unless the values
  -- of the new commands could not be published, and that is remembered.
  pub perform-prepare :
      (now : ℕ) (free : ℕ → Bool) (start stop : List Text) (s : System W)
      → s.command_sync_failed ≡ false
      → prepare_command_mode_switch now start stop s ≡ ok
      → let (after, result) = perform_command_mode_switch now free start stop s in
        let states = command_modes_after_switch (current_command_modes s.driver) start stop in
        (command_modes after.driver ≡ claimed_by states)
        × All IsExclusive states
        × (((result ≡ ok) × (after.command_sync_failed ≡ false))
            ⊎ ((result ≡ error) × (after.command_sync_failed ≡ true)))
  unfolding perform_command_mode_switch prepare_command_mode_switch
  perform-prepare now free start stop s synced prepared =
      let states = current_command_modes s.driver in
      let modes = claimed_by (command_modes_after_switch states start stop) in
      let accepted : validate_command_mode_switch states start stop ≡ true = ground arith in
      let valid : validate_command_modes now modes s.driver ≡ true = ground arith in
      let (applied, claimed) = apply_command_modes-validated now modes s.driver valid in
      let exclusive = ((validate_command_mode_switch_iff states start stop).0 accepted).2 in
      let after = (apply_command_modes now modes s.driver).0 in
      let sync =
        publish_selected (command_value after.joints) free
          (initialized_commands states (command_modes_after_switch states start stop)) 0 s.commands
          s.command_values in
      elim (Bool-cases sync.1) [
        | inl published ↦ rw (synced, applied, published) (claimed, exclusive, inl (refl, refl))
        | inr failed ↦ rw (synced, applied, failed) (claimed, exclusive, inr (refl, refl))
      ]

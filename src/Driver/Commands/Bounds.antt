-- ===== src/Driver/Commands/Bounds.antt =====
-- The motor values that `send_commands` lets pass.
use robstride_ros.Prelude.{
  true, false, none, some, ◌≡◌, arith, inl, inr, Option-cases, if◌then◌else◌,
}
use robstride_ros.Double.{Double, nought, ◌≼◌, IsFinite}
use robstride_ros.Double.Laws.{IsIeee}
use robstride_ros.Joint.{
  JointData, contains_position, contains_velocity, contains_effort, invalid_neutral_range,
  checked_joint_to_motor_position, joint_to_motor_effort,
}
use robstride_ros.Joint.Position.{checked_joint_to_motor_position_sound}
use robstride_ros.Joint.Neutral.{invalid_neutral_range_iff}
use robstride_ros.Driver.Commands.{Targets, motor_targets, checked_targets}

module _ {W : Type 0} ⦃d : Double W⦄ where
  abbrev IsWithin : W → W → W → Type 0
  IsWithin lo hi x = IsFinite x × (lo ≼ x) × (x ≼ hi)

  -- What the values of an accepted command satisfy.
  pub IsSafe : JointData W → Targets W → Type 0
  IsSafe j x =
      IsWithin j.limits.velocity_min j.limits.velocity_max x.velocity
      × IsWithin j.limits.effort_min j.limits.effort_max x.effort
      × IsWithin j.limits.effort_wire_min j.limits.effort_wire_max x.effort
      × ((j.claimed.position ≡ true)
          → IsWithin j.limits.position_min j.limits.position_max x.position
            × IsWithin j.command_limits.position_min j.command_limits.position_max
                j.command.position)
      × ((j.claimed.velocity ≡ true)
          → IsWithin j.command_limits.velocity_min j.command_limits.velocity_max j.command.velocity)
      × ((j.claimed.effort ≡ true)
          → IsWithin j.command_limits.effort_min j.command_limits.effort_max j.command.effort)
      × ((j.claimed.position ≡ false) → x.kp ≡ nought)
      × ((j.claimed.position ≡ false) → (j.claimed.velocity ≡ false) → x.kd ≡ nought)

  checked_targets_sound :
      IsIeee W
      → (j : JointData W) (p v e : W) (x : Targets W) → invalid_neutral_range j ≡ none
      → checked_targets j p v e ≡ some x
      → (x.position ≡ p)
        × IsWithin j.limits.velocity_min j.limits.velocity_max x.velocity
        × IsWithin j.limits.effort_min j.limits.effort_max x.effort
        × IsWithin j.limits.effort_wire_min j.limits.effort_wire_max x.effort
        × ((j.claimed.position ≡ false) → x.kp ≡ nought)
        × ((j.claimed.position ≡ false) → (j.claimed.velocity ≡ false) → x.kd ≡ nought)
  checked_targets_sound laws j p v e x neutral h =
      let (_, _, (fvl, fvh, _, _, _), (fel, feh, _, _, _), (fwl, fwh, _, _, _)) =
        (invalid_neutral_range_iff j).0 neutral in
      ground (
        arith,
        laws.lt-eq-not-le v j.limits.velocity_min,
        laws.lt-eq-not-le j.limits.velocity_max v,
        laws.lt-eq-not-le e j.limits.effort_min,
        laws.lt-eq-not-le j.limits.effort_max e,
        laws.lt-eq-not-le e j.limits.effort_wire_min,
        laws.lt-eq-not-le j.limits.effort_wire_max e,
      )

  -- The tests that come before.
  motor_targets_tests :
      (j : JointData W) (x : Targets W)
      → motor_targets j ≡ some x
      → (p : W) × (v : W) × (e : W) × (checked_targets j p v e ≡ some x)
        × ((j.claimed.position ≡ true)
            → (contains_position j.command_limits j.command.position ≡ true)
              × (checked_joint_to_motor_position j j.command.position ≡ some p))
        × ((j.claimed.velocity ≡ true)
            → contains_velocity j.command_limits j.command.velocity ≡ true)
        × ((j.claimed.effort ≡ true) → contains_effort j.command_limits j.command.effort ≡ true)
  unfolding motor_targets
  motor_targets_tests j x h =
      let velocity : W =
        if j.claimed.velocity
        then d.times (d.times j.direction j.command.velocity) j.gear_ratio
        else nought in
      let effort : W =
        if j.claimed.effort then joint_to_motor_effort j j.command.effort else nought in
      elim (Option-cases (
        if j.claimed.position
        then checked_joint_to_motor_position j j.command.position
        else some nought)) [
          | inl absent ↦ ground (arith, absent)
          | inr (p, found) ↦ (
            p,
            velocity,
            effort,
            ground (arith, found),
            (λ c. ground (arith, found)),
            (λ c. ground (arith, found)),
            λ c. ground (arith, found),
          )
        ]

  -- An accepted command of a joint without a complaint of `invalid_neutral_range`: the motor velocity
  -- and effort are finite and within the motor's limits, the effort within the range of the wire too;
  -- for each claimed interface the joint command lies within its command limits; a claimed position
  -- lies within the motor's limits; and without a claim of position kp is 0, and kd is 0
  -- if velocity is not claimed either.
  pub motor_targets_sound :
      IsIeee W
      → (j : JointData W) (x : Targets W) → invalid_neutral_range j ≡ none
      → motor_targets j ≡ some x
      → IsSafe j x
  unfolding IsSafe contains_position contains_velocity contains_effort
  motor_targets_sound laws j x neutral h =
      let (p, v, e, checked, position, velocity, effort) = motor_targets_tests j x h in
      let (same, a, b, c, kp, kd) = checked_targets_sound laws j p v e x neutral checked in
      ground (arith, checked_joint_to_motor_position_sound laws j j.command.position p)

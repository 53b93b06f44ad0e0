-- ===== src/Driver/Commands/Motion.antt =====
-- What the frame of an acceptable command says.
use robstride_ros.Prelude.{
  ℕ, ◌+◌, ◌*◌, ◌/◌, ◌%◌, ◌^◌, ◌||◌, ◌++◌, true, false, some, List, [], ◌∷◌, ◌≡◌, ap, arith, inl,
  inr, Option-cases, if◌then◌else◌,
}
use robstride_ros.Double.{Double, nought, clamp}
use robstride_ros.Protocol.{Frame, encode_u16, make_motion_command, base_id, put_be16}
use robstride_ros.Joint.{JointData, checked_joint_to_motor_position, joint_to_motor_effort}
use robstride_ros.Driver.Commands.{Targets, motor_targets, checked_targets, command_frame}

module _ {W : Type 0} ⦃d : Double W⦄ where
  abbrev commanded_velocity : JointData W → W
  commanded_velocity j =
      if j.claimed.velocity
      then d.times (d.times j.direction j.command.velocity) j.gear_ratio
      else nought

  abbrev commanded_effort : JointData W → W
  commanded_effort j =
      if j.claimed.effort
      then d.over (d.times j.direction j.command.effort) j.gear_ratio
      else nought

  abbrev word : W → W → W → List ℕ
  word x lo hi = encode_u16 x lo hi / 2 ^ 8 ∷ encode_u16 x lo hi % 2 ^ 8 ∷ []

  -- The frame of a command: position, velocity and both gains as big-endian words of the payload, the
  -- effort as the data field of the id. An unclaimed position, velocity or effort is 0, a claimed one
  -- is in motor coordinates, and the gains are those of the claims they serve.
  pub IsMotion : JointData W → Frame → Type 0
  IsMotion j f =
      (position : W) × ((j.claimed.position ≡ true)
        → checked_joint_to_motor_position j j.command.position ≡ some position)
      × ((j.claimed.position ≡ false) → position ≡ nought)
      × (f.id
          ≡ 1 * 2 ^ 24
            + encode_u16 (clamp (commanded_effort j) j.limits.effort_min j.limits.effort_max)
                j.limits.effort_wire_min j.limits.effort_wire_max
              * 2 ^ 8
            + j.can_id)
      × (f.payload
          ≡ word position j.limits.position_min j.limits.position_max
            ++ word (commanded_velocity j) j.limits.velocity_min j.limits.velocity_max
            ++ word (if j.claimed.position then j.kp else nought) nought j.limits.kp_max
            ++ word (if j.claimed.position || j.claimed.velocity then j.kd else nought) nought
                j.limits.kd_max)

  checked_targets_values :
      (j : JointData W) (p v e : W) (x : Targets W)
      → checked_targets j p v e ≡ some x
      → x ≡ record {
        position = p;
        velocity = v;
        effort = e;
        kp = if j.claimed.position then j.kp else nought;
        kd = if j.claimed.position || j.claimed.velocity then j.kd else nought;
      }
  checked_targets_values j p v e x h = ground arith

  pub motor_targets_values :
      (j : JointData W) (x : Targets W)
      → motor_targets j ≡ some x
      → (position : W) × ((j.claimed.position ≡ true)
          → checked_joint_to_motor_position j j.command.position ≡ some position)
        × ((j.claimed.position ≡ false) → position ≡ nought)
        × (x ≡ record {
          position = position;
          velocity = commanded_velocity j;
          effort = commanded_effort j;
          kp = if j.claimed.position then j.kp else nought;
          kd = if j.claimed.position || j.claimed.velocity then j.kd else nought;
        })
  unfolding motor_targets joint_to_motor_effort
  motor_targets_values j x h =
      elim (Option-cases (
        if j.claimed.position
        then checked_joint_to_motor_position j j.command.position
        else some nought)) [
          | inl absent ↦ ground (arith, absent)
          | inr (p, found) ↦
              let checked : checked_targets j p (commanded_velocity j) (commanded_effort j)
                  ≡ some x =
                ground (arith, found) in
              (
                p,
                (λ c. ground (arith, found)),
                (λ c. ground (arith, found)),
                checked_targets_values j p (commanded_velocity j) (commanded_effort j) x checked,
              )
        ]

  pub command_frame-IsMotion :
      (j : JointData W) (x : Targets W) → motor_targets j ≡ some x → IsMotion j (command_frame j x)
  unfolding IsMotion make_motion_command base_id put_be16
  command_frame-IsMotion j x h =
      let (p, claimed, unclaimed, values) = motor_targets_values j x h in
      (
        p,
        claimed,
        unclaimed,
        ap (λ y. (command_frame j y).id) values,
        ap (λ y. (command_frame j y).payload) values,
      )

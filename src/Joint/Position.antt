-- ===== src/Joint/Position.antt =====
-- `checked_joint_to_motor_position`: which positions it accepts and what it returns.
use robstride_ros.Prelude.{true, ◌≡◌, ◌⊎◌, some, arith, inl, inr, Option-cases}
use robstride_ros.Double.{Double, one, minus_one, ◌≼◌, IsFinite}
use robstride_ros.Double.Laws.{IsIeee, clamp_bounds, clamp-IsFinite, le_of_lt}
use robstride_ros.Joint.{
  JointData, joint_position_range, checked_joint_to_motor_position, motor_position_within_roundoff,
  to_motor, checked_in,
}

module _ {W : Type 0} ⦃d : Double W⦄ where
  -- A range is only given for a direction of 1 or -1, finite ordered motor limits and finite
  -- transform parameters, and it is itself finite and ordered.
  pub joint_position_range_sound :
      (j : JointData W) (low high : W)
      → joint_position_range j ≡ some (low, high)
      → ((d.eq j.direction one ≡ true) ⊎ (d.eq j.direction minus_one ≡ true))
        × IsFinite j.gear_ratio
        × IsFinite j.limits.position_min
        × IsFinite j.limits.position_max
        × (d.lt j.limits.position_min j.limits.position_max ≡ true)
        × IsFinite low
        × IsFinite high
        × (d.lt low high ≡ true)
  unfolding joint_position_range
  joint_position_range_sound j low high e = ground arith

  module _ (laws : IsIeee W) where
    checked_in_sound :
        (j : JointData W) (position m low high : W)
        → joint_position_range j ≡ some (low, high)
        → checked_in j position (low, high) ≡ some m
        → IsFinite m
          × (j.limits.position_min ≼ m)
          × (m ≼ j.limits.position_max)
          × IsFinite position
          × (low ≼ position)
          × (position ≼ high)
    unfolding motor_position_within_roundoff
    checked_in_sound j position m low high range e =
        let (_, _, flo, fhi, ordered, fl, fh, _) = joint_position_range_sound j low high range in
        let lo = j.limits.position_min in
        let hi = j.limits.position_max in
        let target = to_motor j position in
        let lo≼hi = le_of_lt laws lo hi flo fhi ordered in
        ground (
          arith,
          clamp_bounds laws target lo hi,
          clamp-IsFinite laws target lo hi,
          laws.lt-eq-not-le position low,
          laws.lt-eq-not-le high position,
        )

    -- If a motor position is returned, then the joint has a range, the joint position is finite and
    -- lies in that range, and the motor position is finite and lies within the motor's limits.
    pub checked_joint_to_motor_position_sound :
        (j : JointData W) (position m : W)
        → checked_joint_to_motor_position j position ≡ some m
        → (low : W) × (high : W) × (joint_position_range j ≡ some (low, high))
          × IsFinite m
          × (j.limits.position_min ≼ m)
          × (m ≼ j.limits.position_max)
          × IsFinite position
          × (low ≼ position)
          × (position ≼ high)
    unfolding checked_joint_to_motor_position
    checked_joint_to_motor_position_sound j position m e =
        elim (Option-cases (joint_position_range j)) [
          | inl missing ↦ ground arith
          | inr ((low, high), range) ↦
              let found : checked_in j position (low, high) ≡ some m = ground arith in
              let (a, b, c, f, g, h) = checked_in_sound j position m low high range found in
              (low, high, range, a, b, c, f, g, h)
        ]

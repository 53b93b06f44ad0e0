-- ===== src/Joint/Neutral.antt =====
-- `invalid_neutral_range`.
use robstride_ros.Prelude.{true, ◌≡◌, ◌↔◌, none, arith}
use robstride_ros.Double.{Double, nought, ◌≼◌, IsFinite}
use robstride_ros.Joint.{JointData, invalid_neutral_range}

module _ {W : Type 0} ⦃d : Double W⦄ where
  -- A range that is finite and ordered and holds zero.
  abbrev pub IsNeutral : W → W → Type 0
  IsNeutral lo hi = IsFinite lo × IsFinite hi × (d.lt lo hi ≡ true) × (lo ≼ nought) × (nought ≼ hi)

  -- Five ranges of a joint are checked, those of velocity and effort in its command limits and of
  -- velocity, effort and wire effort in the motor's; there is no complaint exactly when each of
  -- them is finite, ordered and holds zero.
  pub invalid_neutral_range_iff :
      (j : JointData W)
      → (invalid_neutral_range j ≡ none) ↔ (
          IsNeutral j.command_limits.velocity_min j.command_limits.velocity_max
          × IsNeutral j.command_limits.effort_min j.command_limits.effort_max
          × IsNeutral j.limits.velocity_min j.limits.velocity_max
          × IsNeutral j.limits.effort_min j.limits.effort_max
          × IsNeutral j.limits.effort_wire_min j.limits.effort_wire_max)
  unfolding invalid_neutral_range
  invalid_neutral_range_iff j = ground arith

-- ===== src/Driver/Modes.antt =====
-- robstride_driver/src/driver.cpp: `command_modes`, `feedback_received`,
-- `validate_command_modes_locked`, `validate_command_modes` and `apply_command_modes`. The error
-- messages are left out.
pub mod Handover
use robstride_ros.Prelude.{
  ℕ, Bool, true, false, not, ◌&&◌, ◌||◌, List, [], ◌∷◌, if◌then◌else◌, ◌==◌, ltb, length, map,
  has_value,
}
use robstride_ros.Clock.{ms, exceeded}
use robstride_ros.Double.{Double, nought}
use robstride_ros.Joint.{
  JointData, CommandValues, ClaimedInterfaces, contains_position, checked_joint_to_motor_position,
}
use robstride_ros.Driver.State.{Driver}

unfoldable pub command_modes : {W : Type 0} → Driver W → List ClaimedInterfaces
command_modes v = map (λ j. j.claimed) v.joints

unfoldable pub feedback_received : {W : Type 0} → Driver W → List Bool
feedback_received v = map (λ j. j.feedback_status.received) v.joints

module _ {W : Type 0} ⦃d : Double W⦄ where
  -- The body of the loop in `validate_command_modes_locked`: `false` for an early return.
  unfoldable pub may_claim : ℕ → ℕ → JointData W → ClaimedInterfaces → Bool
  may_claim feedback_timeout now j mode =
      if j.claimed.position || not mode.position
      then true
      else if not j.feedback_status.received
          || ltb now j.feedback_status.timestamp
          || exceeded j.feedback_status.timestamp now (ms feedback_timeout)
      then false
      else contains_position j.command_limits j.feedback.position
        && has_value (checked_joint_to_motor_position j j.feedback.position)

  unfoldable pub may_claim_all : ℕ → ℕ → List (JointData W) → List ClaimedInterfaces → Bool
  may_claim_all feedback_timeout now [] modes = true
  may_claim_all feedback_timeout now (j ∷ joints) [] = true
  may_claim_all feedback_timeout now (j ∷ joints) (mode ∷ modes) =
      may_claim feedback_timeout now j mode && may_claim_all feedback_timeout now joints modes

  unfoldable pub validate_command_modes : ℕ → List ClaimedInterfaces → Driver W → Bool
  validate_command_modes now modes v =
      length modes == length v.joints
      && may_claim_all v.settings.feedback_timeout now v.joints modes

  -- The body of the loop in `apply_command_modes`.
  abbrev pub claim : JointData W → ClaimedInterfaces → JointData W
  claim j mode = record j {
    claimed = mode;
    command = record {
      position =
          if not j.claimed.position && mode.position
          then j.feedback.position
          else j.command.position;
      velocity = if not j.claimed.velocity && mode.velocity then nought else j.command.velocity;
      effort = if not j.claimed.effort && mode.effort then nought else j.command.effort;
    };
  }

  unfoldable pub claim_all : List (JointData W) → List ClaimedInterfaces → List (JointData W)
  claim_all [] modes = []
  claim_all (j ∷ joints) [] = j ∷ joints
  claim_all (j ∷ joints) (mode ∷ modes) = claim j mode ∷ claim_all joints modes

  unfoldable pub apply_command_modes : ℕ → List ClaimedInterfaces → Driver W → Driver W × Bool
  apply_command_modes now modes v =
      if not (validate_command_modes now modes v)
      then (v, false)
      else (record v { joints = claim_all v.joints modes }, true)

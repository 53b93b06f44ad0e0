-- ===== src/Config/Joints.antt =====
-- robstride_ros2_control/src/driver_config.cpp: `parse_joint`, and the loop over the joints.
use robstride_ros.Prelude.{
  ℕ, not, Option, some, List, [], ◌∷◌, ◌==◌, any, Text, bytes, ◌>>=◌, ◌>>◌, require,
}
use robstride_ros.Double.{Double}
use robstride_ros.Joint.{JointData}
use robstride_ros.Config.Parameters.{ComponentInfo}
use robstride_ros.Config.Interfaces.{has, commands_are_valid, states_of}
use robstride_ros.Config.Ranges.{parse_motor, parse_commands}

module _ {W : Type 0} ⦃d : Double W⦄ (stod : Text → Option (W × ℕ)) where
  unfoldable pub parse_joint : ComponentInfo → Option (JointData W)
  parse_joint info = do
    motor ← parse_motor stod info
    joint ← parse_commands stod info.parameters motor
    commands_are_valid info.command_interfaces
    states ← states_of info.state_interfaces
    some (record joint {
      exports_temperature = has states (bytes "temperature");
      exports_fault = has states (bytes "fault");
    })

  -- The loop over the joints, for the CAN ids that have been seen.
  unfoldable pub parse_joints : List ℕ → List ComponentInfo → Option (List (JointData W))
  parse_joints can_ids [] = some []
  parse_joints can_ids (info ∷ infos) = do
    joint ← parse_joint info
    require (not (any (λ id. id == joint.can_id) can_ids))
    joints ← parse_joints (joint.can_id ∷ can_ids) infos
    some (joint ∷ joints)

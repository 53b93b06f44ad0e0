-- ===== src/CommandMode/Tests.antt =====
-- robstride_ros2_control/src/command_mode.cpp at concrete inputs.
use robstride_ros.Prelude.{
  ◌≡◌, ◌↔◌, refl, true, false, List, [], ◌∷◌, All, Text, bytes, text_eq, map,
}
use robstride_ros.CommandMode.{
  CommandModeState, validate_command_mode_switch, command_modes_after_switch,
}
use robstride_ros.CommandMode.Keys.{IsAcceptable}
use robstride_ros.CommandMode.Switch.{IsDistinct, state_after, command_modes_after_switch_lem}
use robstride_ros.CommandMode.Exclusive.{IsExclusive, validate_command_mode_switch_iff}

abbrev leg : List CommandModeState
leg =
    record {
      joint_name = bytes "hip";
      position_active = true;
      velocity_active = false;
      effort_active = false;
    }
    ∷ record {
      joint_name = bytes "knee";
      position_active = false;
      velocity_active = false;
      effort_active = false;
    }
    ∷ []

abbrev to_velocity : List Text
to_velocity = bytes "hip/velocity" ∷ bytes "arm/gripper" ∷ []

abbrev from_position : List Text
from_position = bytes "hip/position" ∷ []

accepted : validate_command_mode_switch leg to_velocity from_position ≡ true
unfolding validate_command_mode_switch text_eq
accepted = refl

two_at_once : validate_command_mode_switch leg to_velocity [] ≡ false
unfolding validate_command_mode_switch text_eq
two_at_once = refl

unknown : validate_command_mode_switch leg (bytes "knee/gripper" ∷ []) [] ≡ false
unfolding validate_command_mode_switch text_eq
unknown = refl

validate_command_mode_switch_example :
    (validate_command_mode_switch leg to_velocity from_position ≡ true) ↔ (
      All (IsAcceptable leg) from_position
      × All (IsAcceptable leg) to_velocity
      × All IsExclusive (command_modes_after_switch leg to_velocity from_position))
validate_command_mode_switch_example =
    validate_command_mode_switch_iff leg to_velocity from_position

leg-IsDistinct : IsDistinct leg
leg-IsDistinct = ((λ e. cc, tt), (tt, tt))

command_modes_after_switch_example :
    command_modes_after_switch leg to_velocity from_position
    ≡ map (state_after to_velocity from_position) leg
command_modes_after_switch_example =
    command_modes_after_switch_lem leg to_velocity from_position leg-IsDistinct

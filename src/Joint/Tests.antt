-- ===== src/Joint/Tests.antt =====
-- robstride_driver/include/robstride_driver/joint_data.hpp at concrete inputs.
use robstride_ros.Prelude.{◌≡◌, refl, false, none, some, bytes}
use robstride_ros.Prelude.Int.{pos, negsuc}
use robstride_ros.Double.{IsFinite, ◌≼◌}
use robstride_ros.Double.Fixed.{Fixed, fixed_double, Fixed-IsIeee}
use robstride_ros.Protocol.Tests.{limits}
use robstride_ros.Recovery.{fresh}
use robstride_ros.Joint.{
  JointData, CommandLimits, no_state, no_command, joint_position_range,
  checked_joint_to_motor_position,
}
use robstride_ros.Joint.Position.{checked_joint_to_motor_position_sound}

abbrev pub command_limits : CommandLimits Fixed
command_limits = record {
  position_min = some (negsuc 2999);
  position_max = some (pos 3000);
  velocity_min = some (negsuc 999);
  velocity_max = some (pos 1000);
  effort_min = some (negsuc 1999);
  effort_max = some (pos 2000);
}

-- A joint that turns against its motor, with a gear of 2 and an offset of 0.5.
abbrev pub joint : JointData Fixed
joint = record {
  name = bytes "knee";
  can_id = 7;
  limits = limits;
  direction = some (negsuc 999);
  gear_ratio = some (pos 2000);
  position_offset = some (pos 500);
  kp = some (pos 20000);
  kd = some (pos 1000);
  can_timeout_ticks = 20000;
  command_limits = command_limits;
  exports_temperature = false;
  exports_fault = false;
  state = no_state;
  feedback = no_state;
  command = no_command;
  claimed = record { position = false; velocity = false; effort = false };
  feedback_status = record { received = false; mode = 0; timestamp = 0 };
  parameter_status = record { received = false; index = 0; value = 0; timestamp = 0 };
  recovery = fresh;
}

range_of_joint : joint_position_range joint ≡ some (some (negsuc 5499), some (pos 6500))
unfolding joint_position_range
range_of_joint = refl

motor_position : checked_joint_to_motor_position joint (some (pos 1500)) ≡ some (some (negsuc 1999))
unfolding checked_joint_to_motor_position
motor_position = refl

outside : checked_joint_to_motor_position joint (some (pos 6501)) ≡ none
unfolding checked_joint_to_motor_position
outside = refl

checked_joint_to_motor_position_example :
    (low : Fixed) × (high : Fixed) × (joint_position_range joint ≡ some (low, high))
    × IsFinite {W = Fixed} (some (negsuc 1999))
    × (joint.limits.position_min ≼ some (negsuc 1999))
    × (some (negsuc 1999) ≼ joint.limits.position_max)
    × IsFinite {W = Fixed} (some (pos 1500))
    × (low ≼ some (pos 1500))
    × (some (pos 1500) ≼ high)
checked_joint_to_motor_position_example =
    checked_joint_to_motor_position_sound Fixed-IsIeee joint (some (pos 1500)) (some (negsuc 1999))
      motor_position

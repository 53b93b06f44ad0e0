-- ===== src/Config/Tests.antt =====
-- A hardware description with one joint, and what becomes of it.
use robstride_ros.Prelude.{
  ℕ, none, some, Option, List, [], ◌∷◌, ◌≡◌, refl, arith, Text, bytes, length, inl, ◌==◌,
  if◌then◌else◌, text_eq,
}
use robstride_ros.Double.Fixed.{Fixed, fixed_double}
use robstride_ros.Driver.State.{DriverConfiguration}
use robstride_ros.Driver.Tests.{configuration}
use robstride_ros.Config.Numbers.{
  read_digits, parse_integer, trimmed, is_blank, parse_bool, drop_last_spaces, drop_spaces,
  parse_number, stoull,
}
use robstride_ros.Config.Parameters.{
  InterfaceInfo, ComponentInfo, HardwareInfo, hardware_parameter_or, required_number,
  number_or_value, number_or_parameter, required_value,
}
use robstride_ros.Config.Hardware.{parse_driver_configuration, parse_settings, integer}
use robstride_ros.Config.Joints.{parse_joint, parse_joints}
use robstride_ros.Config.Ranges.{
  parse_motor, parse_limits, agrees, command_limits_of, commands_are_ordered, commands_are_within,
  contains_range, gains_are_valid, parse_commands, custom_limits,
}
use robstride_ros.Config.Interfaces.{commands_are_valid, has, names_of, states_of}
use robstride_ros.Profile.{motor_profile, find_profile, profiles, profile, limits_of}
use robstride_ros.Double.{clamp, max_of, min_of}
use robstride_ros.Joint.{
  checked_joint_to_motor_position, invalid_neutral_range, joint_position_range,
  joint_to_motor_effort, motor_position_within_roundoff, motor_to_joint_effort,
}
use robstride_ros.Protocol.{Limits}
use robstride_ros.Config.Digits.{value_of, parse_integer-decimal}
use robstride_ros.Config.Accepted.{IsNamed, IsTimed, IsStartable, parse_driver_configuration-bounds}

-- `std::stod` for whole numbers without a sign.
abbrev pub whole_number : Text → Option (Fixed × ℕ)
whole_number text =
    let (value, count) = read_digits 10 0 text in
    if count == 0 then none else some (fixed_double.of_ℕ value, count)

abbrev of_double : Text → InterfaceInfo
of_double name = record { name = name; data_type = bytes "double" }

abbrev three : List InterfaceInfo
three =
    of_double (bytes "position") ∷ of_double (bytes "velocity") ∷ of_double (bytes "effort") ∷ []

abbrev joint_info : ComponentInfo
joint_info = record {
  name = bytes "hip";
  parameters =
      (bytes "can_id", bytes "0x7f")
      ∷ (bytes "model", bytes "RS02")
      ∷ (bytes "kp", bytes "40")
      ∷ (bytes "kd", bytes "1")
      ∷ (bytes "can_timeout_ticks", bytes "20000")
      ∷ [];
  command_interfaces = three;
  state_interfaces = of_double (bytes "fault") ∷ three;
}

abbrev pub hardware : HardwareInfo
hardware = record {
  name = bytes "leg";
  hardware_parameters =
      (bytes "feedback_timeout_ms", bytes " 250 ") ∷ (bytes "startup_retries", bytes "5") ∷ [];
  joints = joint_info ∷ [];
}

abbrev no_configuration : DriverConfiguration Fixed
no_configuration = configuration

abbrev got : Option (DriverConfiguration Fixed) → DriverConfiguration Fixed
got none = no_configuration
got (some c) = c

pub parsed : DriverConfiguration Fixed
unfolding parse_driver_configuration parse_settings parse_integer trimmed hardware_parameter_or
    read_digits is_blank integer parse_bool parse_joints parse_joint parse_motor parse_limits
    motor_profile agrees required_number number_or_value commands_are_valid has names_of states_of
    drop_last_spaces drop_spaces parse_number stoull number_or_parameter required_value
    command_limits_of commands_are_ordered commands_are_within contains_range gains_are_valid
    parse_commands clamp max_of min_of checked_joint_to_motor_position invalid_neutral_range
    joint_position_range joint_to_motor_effort motor_position_within_roundoff motor_to_joint_effort
    find_profile profiles text_eq custom_limits
parsed = got (parse_driver_configuration whole_number hardware)

pub parses : parse_driver_configuration whole_number hardware ≡ some parsed
unfolding parsed parse_driver_configuration parse_settings parse_integer trimmed
    hardware_parameter_or read_digits is_blank integer parse_bool parse_joints parse_joint
    parse_motor parse_limits motor_profile agrees required_number number_or_value commands_are_valid
    has names_of states_of drop_last_spaces drop_spaces parse_number stoull number_or_parameter
    required_value command_limits_of commands_are_ordered commands_are_within contains_range
    gains_are_valid parse_commands clamp max_of min_of checked_joint_to_motor_position
    invalid_neutral_range joint_position_range joint_to_motor_effort motor_position_within_roundoff
    motor_to_joint_effort find_profile profiles text_eq custom_limits
parses = refl

abbrev edulite_limits : Limits Fixed
edulite_limits = limits_of (
    profile (bytes "EL05") (fixed_double.of_ℕ 50) (fixed_double.of_ℕ 6) (fixed_double.of_ℕ 500)
      (fixed_double.of_ℕ 5))

edulite_found : motor_profile (bytes "EduLite05") ≡ some edulite_limits
unfolding motor_profile find_profile profiles text_eq
edulite_found = refl

parse_driver_configuration-bounds_example :
    IsNamed parsed.settings
    × IsTimed parsed.settings
    × IsStartable parsed.settings
    × (length parsed.joints ≡ 1)
    × (parsed.settings.motor_count ≡ 1)
parse_driver_configuration-bounds_example =
    parse_driver_configuration-bounds whole_number hardware parsed parses

-- Within the bounds.
parse_integer-decimal_example : parse_integer (bytes " 250 ") 1 4096 10 ≡ some 250
unfolding value_of
parse_integer-decimal_example =
    parse_integer-decimal (bytes " ") (bytes " ") (bytes "50") b'2' 1 4096 10 refl refl
      (omega arith, omega arith) ((omega arith, omega arith), ((omega arith, omega arith), tt))
      (inl refl) (omega arith)

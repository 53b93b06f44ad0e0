-- ===== src/Config/Hardware.antt =====
-- robstride_ros2_control/src/driver_config.cpp: `parse_driver_configuration`.
use robstride_ros.Prelude.{
  ℕ, ◌-◌, ◌^◌, ◌%◌, Bool, not, ◌||◌, Option, some, [], ◌++◌, ltb, length, is_empty, Text, bytes,
  u8_mod, ◌>>=◌, ◌>>◌, require,
}
use robstride_ros.Double.{Double}
use robstride_ros.Driver.State.{DriverSettings, DriverConfiguration}
use robstride_ros.Config.Numbers.{is_blank, parse_integer, parse_bool}
use robstride_ros.Config.Parameters.{HardwareInfo, hardware_parameter_or}
use robstride_ros.Config.Joints.{parse_joints}

-- The lambda `integer`: a decimal number of the type `int`.
unfoldable pub integer : HardwareInfo → Text → Text → ℕ → Option ℕ
integer info key fallback minimum =
    parse_integer (hardware_parameter_or info key fallback) minimum (2 ^ 31 - 1) 10

abbrev boolean : HardwareInfo → Text → Text → Option Bool
boolean info key fallback = parse_bool (hardware_parameter_or info key fallback)

-- Everything but the joints; `motor_count` is set after them.
unfoldable pub parse_settings : HardwareInfo → Option DriverSettings
parse_settings info = do
  host_can_id ←
      parse_integer (hardware_parameter_or info (bytes "host_can_id") (bytes "253")) 0 255 0
  let transmit_topic = hardware_parameter_or info (bytes "can_tx_topic") (bytes "to_can_bus")
  let receive_topic = hardware_parameter_or info (bytes "can_rx_topic") (bytes "from_can_bus")
  require (not (is_blank transmit_topic || is_blank receive_topic))
  depth ←
      parse_integer (hardware_parameter_or info (bytes "can_rx_qos_depth") (bytes "32")) 1 4096 10
  feedback_timeout ← integer info (bytes "feedback_timeout_ms") (bytes "3000") 1
  fail_on_timeout ← boolean info (bytes "fail_on_feedback_timeout") (bytes "true")
  transmit_timeout ← integer info (bytes "transmit_failure_timeout_ms") (bytes "1000") 1
  recovery_timeout ← integer info (bytes "run_mode_recovery_timeout_ms") (bytes "500") 1
  retry_interval ← integer info (bytes "run_mode_recovery_retry_interval_ms") (bytes "100") 1
  clear_faults ← boolean info (bytes "clear_faults_on_activate") (bytes "true")
  set_zero ← boolean info (bytes "set_zero_on_activate") (bytes "false")
  stop_repetitions ← integer info (bytes "shutdown_stop_repetitions") (bytes "3") 1
  stop_interval ← integer info (bytes "shutdown_stop_interval_ms") (bytes "20") 0
  stop_timeout ← integer info (bytes "shutdown_confirmation_timeout_ms") (bytes "300") 0
  connection_timeout ← integer info (bytes "startup_connection_timeout_ms") (bytes "3000") 1
  startup_timeout ← integer info (bytes "startup_confirmation_timeout_ms") (bytes "500") 1
  retries ← integer info (bytes "startup_retries") (bytes "3") 1
  require (not (ltb recovery_timeout retry_interval))
  some (record {
    host_id = host_can_id % u8_mod;
    node_name = info.name ++ bytes "_can_transport";
    transmit_topic = transmit_topic;
    receive_topic = receive_topic;
    receive_qos_depth = depth;
    motor_count = 0;
    feedback_timeout = feedback_timeout;
    fail_on_feedback_timeout = fail_on_timeout;
    transmit_failure_timeout = transmit_timeout;
    recovery_timeout = recovery_timeout;
    recovery_retry_interval = retry_interval;
    clear_faults_on_start = clear_faults;
    set_zero_on_start = set_zero;
    stop_repetitions = stop_repetitions;
    stop_interval = stop_interval;
    stop_confirmation_timeout = stop_timeout;
    connection_timeout = connection_timeout;
    startup_confirmation_timeout = startup_timeout;
    startup_retries = retries;
  })

module _ {W : Type 0} ⦃d : Double W⦄ (stod : Text → Option (W × ℕ)) where
  unfoldable pub parse_driver_configuration : HardwareInfo → Option (DriverConfiguration W)
  parse_driver_configuration info = do
    settings ← parse_settings info
    require (not (is_empty info.joints))
    joints ← parse_joints stod [] info.joints
    some (record { settings = record settings { motor_count = length joints }; joints = joints })

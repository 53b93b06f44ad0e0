-- ===== src/Diagnostics.antt =====
-- robstride_driver/src/can_transport.cpp: what `publish_diagnostics` publishes for the driver's
-- metrics, and `publish_failure_diagnostic`, if there is a publisher. A value stands here as what
-- is written to a stream: how a stream prints a number is left out.
pub mod Levels
pub mod Tests
use robstride_ros.Prelude.{
  ℕ, Bool, true, false, not, ◌&&◌, ◌||◌, List, [], ◌∷◌, ◌++◌, if◌then◌else◌, ◌==◌, map, Text, bytes,
}
use robstride_ros.Double.{Double}
use robstride_ros.Protocol.{motor_mode_run}
use robstride_ros.Transport.State.{Transport}
use robstride_ros.Transport.Health.{CanTransportHealth, healthy}
use robstride_ros.Metrics.{
  MotorFeedbackMetrics, DriverMetrics, transmitted_frames, received_frames, transmit_rate_hz,
  receive_rate_hz, motor_mode_name, transport_health_name, motor_fault_summary,
}

pub data Level : Type 0 where
  ok warn error : Level

-- What `value`, `decimal` and `hex_value` write; a `milliseconds` is a time in nanoseconds that
-- `decimal` writes in milliseconds.
pub data Datum (W : Type 0) : Type 0 where
  text : Text → Datum W
  flag : Bool → Datum W
  count : ℕ → Datum W
  hex : ℕ → Datum W
  decimal : W → Datum W
  milliseconds : ℕ → Datum W

pub record DiagnosticStatus (W : Type 0) : Type 0 where
  pub level : Level
  pub name : Text
  pub hardware_id : Text
  pub message : Text
  pub values : List (Text × Datum W)

abbrev is_healthy : CanTransportHealth → Bool
is_healthy h = elim h.state [ healthy ↦ true | _ ↦ false ]

unfoldable pub transport_level : {W : Type 0} → DriverMetrics W → Level
transport_level m =
    if is_healthy m.transport_health
    then ok
    else if m.transport_health.persistent && m.hardware_active
    then error
    else warn

abbrev has_fault : {W : Type 0} → MotorFeedbackMetrics W → Bool
has_fault motor = not (motor.fault_flags == 0)

abbrev unexpected_mode : {W : Type 0} → Bool → MotorFeedbackMetrics W → Bool
unexpected_mode hardware_active motor =
    hardware_active && motor.feedback_received && not (motor.mode == motor_mode_run)

unfoldable pub motor_level : {W : Type 0} → Bool → MotorFeedbackMetrics W → Level
motor_level hardware_active motor =
    if has_fault motor || motor.feedback_stale
    then error
    else if not motor.feedback_received
        || unexpected_mode hardware_active motor
        || motor.recovery_active
    then warn
    else ok

unfoldable pub motor_message : {W : Type 0} → Bool → MotorFeedbackMetrics W → Text
motor_message hardware_active motor =
    if has_fault motor
    then bytes "Motor fault: " ++ motor_fault_summary motor.fault_flags
    else if motor.feedback_stale
    then bytes "Motor feedback is stale"
    else if not motor.feedback_received
    then bytes "No feedback received"
    else if motor.recovery_active
    then bytes "Recovering motor to Run mode"
    else if unexpected_mode hardware_active motor
    then bytes "Unexpected motor mode: " ++ motor_mode_name motor.mode
    else bytes "Motor feedback is healthy"

-- `publish_failure_diagnostic`.
unfoldable pub failure_status : {W : Type 0} → Text → Text → Transport → DiagnosticStatus W
failure_status transmit_topic receive_topic t = record {
  level = error;
  name = bytes "robstride_driver/CAN traffic";
  hardware_id = transmit_topic ++ bytes " -> " ++ receive_topic;
  message = if t.executor_failed then bytes "executor failed" else bytes "worker stopped";
  values = [];
}

-- `to_string` is `std::to_string`.
module _ {W : Type 0} ⦃d : Double W⦄ (to_string : ℕ → Text) where
  abbrev transport_status : Text → Text → DriverMetrics W → DiagnosticStatus W
  transport_status transmit_topic receive_topic m = record {
    level = transport_level m;
    name = bytes "robstride_driver/CAN traffic";
    hardware_id = transmit_topic ++ bytes " -> " ++ receive_topic;
    message = transport_health_name m.transport_health.state;
    values =
        (bytes "health", text (transport_health_name m.transport_health.state))
        ∷ (bytes "failure_persistent", flag m.transport_health.persistent)
        ∷ (bytes "health_duration_ms", milliseconds m.transport_health.duration)
        ∷ (bytes "tx_frames", count (transmitted_frames m.transport))
        ∷ (bytes "tx_rate_hz", decimal (transmit_rate_hz m.transport))
        ∷ (bytes "tx_motion_frames", count m.transport.motion_frames_transmitted)
        ∷ (bytes "tx_recovery_frames", count m.transport.recovery_frames_transmitted)
        ∷ (bytes "tx_transaction_frames", count m.transport.transaction_frames_transmitted)
        ∷ (bytes "coalesced_motion_frames", count m.transport.motion_frames_coalesced)
        ∷ (bytes "rx_robstride_frames", count (received_frames m))
        ∷ (bytes "rx_robstride_rate_hz", decimal (receive_rate_hz m))
        ∷ [];
  }

  abbrev motor_status : Bool → MotorFeedbackMetrics W → DiagnosticStatus W
  motor_status hardware_active motor = record {
    level = motor_level hardware_active motor;
    name = bytes "robstride_driver/" ++ motor.joint_name;
    hardware_id = bytes "CAN ID " ++ to_string motor.can_id;
    message = motor_message hardware_active motor;
    values =
        (bytes "mode", text (motor_mode_name motor.mode))
        ∷ (bytes "mode_raw", count motor.mode)
        ∷ (bytes "temperature_c", decimal motor.temperature)
        ∷ (bytes "fault_flags_raw", hex motor.fault_flags)
        ∷ (bytes "faults", text (motor_fault_summary motor.fault_flags))
        ∷ (bytes "feedback_stale", flag motor.feedback_stale)
        ∷ (bytes "recovery_active", flag motor.recovery_active)
        ∷ (bytes "recovery_attempts", count motor.recovery_attempts)
        ∷ (bytes "feedback_frames", count motor.feedback_frames_received)
        ∷ (bytes "feedback_rate_hz", decimal motor.feedback_rate_hz)
        ∷ (bytes "current_feedback_age_ms", milliseconds motor.current_feedback_age)
        ∷ (bytes "maximum_feedback_age_ms", milliseconds motor.maximum_feedback_age)
        ∷ [];
  }

  unfoldable pub diagnostics : Text → Text → DriverMetrics W → List (DiagnosticStatus W)
  diagnostics transmit_topic receive_topic m =
      transport_status transmit_topic receive_topic m
      ∷ map (motor_status m.hardware_active) m.motors

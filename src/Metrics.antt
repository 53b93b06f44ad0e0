-- ===== src/Metrics.antt =====
-- robstride_driver/src/metrics.cpp and include/robstride_driver/metrics.hpp: the counters that the
-- driver reports, their rates, and the names that diagnostics show.
pub mod Sequence
pub mod Sound
pub mod Whole
pub mod Faults
pub mod Tests
use robstride_ros.Prelude.{
  ℕ, ◌+◌, ◌*◌, ◌/◌, ◌%◌, ◌^◌, Bool, true, false, not, List, [], ◌∷◌, ◌++◌, if◌then◌else◌, ◌==◌,
  Text, bytes, u64_mod,
}
use robstride_ros.Double.{Double, nought}
use robstride_ros.Transport.Health.{
  CanTransportMetrics, CanTransportHealth, CanTransportHealthState, healthy, bridge_unavailable,
  transmit_stalled, worker_stopped, executor_failed, context_shutdown,
}

pub record MotorFeedbackMetrics (W : Type 0) : Type 0 where
  pub joint_name : Text
  pub can_id : ℕ
  pub feedback_frames_received : ℕ
  pub feedback_received : Bool
  pub current_feedback_age : ℕ
  pub maximum_feedback_age : ℕ
  pub feedback_rate_hz : W
  pub temperature : W
  pub mode : ℕ
  pub fault_flags : ℕ
  pub feedback_stale : Bool
  pub recovery_active : Bool
  pub recovery_attempts : ℕ

pub record DriverMetrics (W : Type 0) : Type 0 where
  pub transport : CanTransportMetrics
  pub feedback_frames_received : ℕ
  pub parameter_frames_received : ℕ
  pub observation_period : ℕ
  pub hardware_active : Bool
  pub transport_health : CanTransportHealth
  pub motors : List (MotorFeedbackMetrics W)

abbrev pub transmitted_frames : CanTransportMetrics → ℕ
transmitted_frames m =
    (m.motion_frames_transmitted + m.recovery_frames_transmitted + m.transaction_frames_transmitted)
    % u64_mod

abbrev pub received_frames : {W : Type 0} → DriverMetrics W → ℕ
received_frames m = (m.feedback_frames_received + m.parameter_frames_received) % u64_mod

module _ {W : Type 0} ⦃d : Double W⦄ where
  open d use {of_ℕ, lt, over}

  -- `rate` here and `rate_hz` of driver.cpp, which are the same; a period is in nanoseconds.
  abbrev pub rate_hz : ℕ → ℕ → W
  rate_hz count period =
      let seconds = over (of_ℕ period) (of_ℕ 1_000_000_000) in
      if lt nought seconds then over (of_ℕ count) seconds else nought

  abbrev pub transmit_rate_hz : CanTransportMetrics → W
  transmit_rate_hz m = rate_hz (transmitted_frames m) m.observation_period

  abbrev pub motion_rate_hz : CanTransportMetrics → W
  motion_rate_hz m = rate_hz m.motion_frames_transmitted m.observation_period

  abbrev pub receive_rate_hz : DriverMetrics W → W
  receive_rate_hz m = rate_hz (received_frames m) m.observation_period

abbrev pub motor_mode_name : ℕ → Text
motor_mode_name mode =
    if mode == 0
    then bytes "Reset"
    else if mode == 1
    then bytes "Calibration"
    else if mode == 2
    then bytes "Run"
    else bytes "Unknown"

unfoldable pub transport_health_name : CanTransportHealthState → Text
transport_health_name healthy = bytes "healthy"
transport_health_name bridge_unavailable = bytes "bridge unavailable"
transport_health_name transmit_stalled = bytes "transmit stalled"
transport_health_name worker_stopped = bytes "worker stopped"
transport_health_name executor_failed = bytes "executor failed"
transport_health_name context_shutdown = bytes "ROS context shutdown"

-- `kNames`.
abbrev pub fault_names : List Text
fault_names =
    bytes "undervoltage"
    ∷ bytes "overcurrent"
    ∷ bytes "over-temperature"
    ∷ bytes "encoder fault"
    ∷ bytes "stall overload"
    ∷ bytes "encoder uncalibrated"
    ∷ []

-- The loop over the bits, from `bit` on.
unfoldable pub names_from : ℕ → List Text → ℕ → List Text
names_from bit [] fault_flags = []
names_from bit (name ∷ names) fault_flags =
    let rest = names_from (bit + 1) names fault_flags in
    if not (fault_flags / 2 ^ bit % 2 == 0) then name ∷ rest else rest

unfoldable pub motor_fault_names : ℕ → List Text
unfolding names_from
motor_fault_names fault_flags = names_from 0 fault_names fault_flags

-- The loop over the names after the first.
abbrev pub comma_separated : List Text → Text
comma_separated [] = []
comma_separated (name ∷ names) = bytes ", " ++ name ++ comma_separated names

abbrev pub joined : List Text → Text
joined [] = bytes "none"
joined (name ∷ names) = name ++ comma_separated names

unfoldable pub motor_fault_summary : ℕ → Text
unfolding motor_fault_names
motor_fault_summary fault_flags = joined (motor_fault_names fault_flags)

-- ===== src/Driver/Measure.antt =====
-- robstride_driver/src/driver.cpp: `metrics`, at the time `now`.
use robstride_ros.Prelude.{
  ℕ, ◌-◌, Bool, false, ◌&&◌, Option, none, some, List, [], ◌∷◌, if◌then◌else◌, ltb, max,
}
use robstride_ros.Clock.{ms}
use robstride_ros.Double.{Double}
use robstride_ros.Joint.{JointData}
use robstride_ros.Transport.State.{Transport}
use robstride_ros.Transport.Health as Health
use robstride_ros.Transport.Health.{
  CanTransportMetrics, CanTransportHealth, healthy, elapsed_since, health,
}
use robstride_ros.Driver.State.{MotorFeedbackSample, RecoveryMetrics, Driver}
use robstride_ros.Metrics.{MotorFeedbackMetrics, DriverMetrics, rate_hz}

abbrev transport_metrics : ℕ → Option Transport → CanTransportMetrics
transport_metrics now (some t) = Health.metrics now t
transport_metrics now none = record {
  motion_frames_transmitted = 0;
  recovery_frames_transmitted = 0;
  transaction_frames_transmitted = 0;
  motion_frames_coalesced = 0;
  observation_period = 0;
}

abbrev transport_health : ℕ → ℕ → Option Transport → CanTransportHealth
transport_health failure_timeout now (some t) = health failure_timeout now t
transport_health failure_timeout now none = record {
  state = healthy;
  duration = 0;
  persistent = false;
}

module _ {W : Type 0} ⦃d : Double W⦄ where
  -- The body of the loop over the joints.
  unfoldable pub motor_metrics :
      ℕ → ℕ → ℕ → JointData W → MotorFeedbackSample W → RecoveryMetrics → MotorFeedbackMetrics W
  motor_metrics feedback_timeout observation_period now j feedback recovery = record {
    joint_name = j.name;
    can_id = j.can_id;
    feedback_frames_received = feedback.count;
    feedback_received = received;
    current_feedback_age = current_age;
    maximum_feedback_age =
        if received then max current_age feedback.maximum_gap_ns else observation_period;
    feedback_rate_hz = rate_hz feedback.count observation_period;
    temperature = feedback.temperature;
    mode = feedback.mode;
    fault_flags = feedback.fault_flags;
    feedback_stale = received && ltb (ms feedback_timeout) current_age;
    recovery_active = recovery.active;
    recovery_attempts = recovery.attempts;
  }
    where
      received : Bool
      received = ltb 0 feedback.last_received_at_ns

      current_age : ℕ
      current_age = if received then now - feedback.last_received_at_ns else observation_period

  unfoldable pub all_motor_metrics :
      ℕ
      → ℕ
      → ℕ
      → List (JointData W)
      → List (MotorFeedbackSample W)
      → List RecoveryMetrics
      → List (MotorFeedbackMetrics W)
  all_motor_metrics feedback_timeout period now (j ∷ joints) (s ∷ samples) (r ∷ recoveries) =
      motor_metrics feedback_timeout period now j s r
      ∷ all_motor_metrics feedback_timeout period now joints samples recoveries
  all_motor_metrics feedback_timeout period now _ _ _ = []

  unfoldable pub metrics : ℕ → Driver W → DriverMetrics W
  metrics now v = record {
    transport = transport_metrics now v.transport;
    feedback_frames_received = v.feedback_frames_received;
    parameter_frames_received = v.parameter_frames_received;
    observation_period = observation_period;
    hardware_active = v.active;
    transport_health = transport_health v.settings.transmit_failure_timeout now v.transport;
    motors =
        all_motor_metrics v.settings.feedback_timeout observation_period now v.joints
          v.feedback_metrics v.recovery_metrics;
  }
    where
      observation_period : ℕ
      observation_period = elapsed_since now v.metrics_started_at_ns

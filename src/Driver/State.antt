-- ===== src/Driver/State.antt =====
-- robstride_driver/include/robstride_driver/config.hpp and driver.hpp: the settings and the members
-- of a `RobStrideDriver`. A null `transport_` is `none`; the two metrics of a joint are read and
-- written as whole values; `can_id_to_joint_` is an association list, the newest entry first.
use robstride_ros.Prelude.{
  ℕ, zero, suc, Bool, Option, none, some, List, [], ◌∷◌, if◌then◌else◌, ◌==◌, Text,
}
use robstride_ros.Joint.{JointData}
use robstride_ros.Transport.State.{MotorFrame, Transport}

-- The options of `CanTransportOptions` stand here among the others; the ROS context is left out.
pub record DriverSettings : Type 0 where
  pub host_id : ℕ
  pub node_name : Text
  pub transmit_topic : Text
  pub receive_topic : Text
  pub receive_qos_depth : ℕ
  pub motor_count : ℕ
  pub feedback_timeout : ℕ
  pub fail_on_feedback_timeout : Bool
  pub transmit_failure_timeout : ℕ
  pub recovery_timeout : ℕ
  pub recovery_retry_interval : ℕ
  pub clear_faults_on_start : Bool
  pub set_zero_on_start : Bool
  pub stop_repetitions : ℕ
  pub stop_interval : ℕ
  pub stop_confirmation_timeout : ℕ
  pub connection_timeout : ℕ
  pub startup_confirmation_timeout : ℕ
  pub startup_retries : ℕ

pub record DriverConfiguration (W : Type 0) : Type 0 where
  pub settings : DriverSettings
  pub joints : List (JointData W)

pub record MotorFeedbackSample (W : Type 0) : Type 0 where
  pub count : ℕ
  pub last_received_at_ns : ℕ
  pub maximum_gap_ns : ℕ
  pub mode : ℕ
  pub fault_flags : ℕ
  pub temperature : W

pub record RecoveryMetrics : Type 0 where
  pub active : Bool
  pub attempts : ℕ

pub record Driver (W : Type 0) : Type 0 where
  pub settings : DriverSettings
  pub joints : List (JointData W)
  pub can_id_to_joint : List (ℕ × ℕ)
  pub command_snapshot : List MotorFrame
  pub active : Bool
  pub command_rejected : Bool
  pub activated_at : ℕ
  pub transport : Option Transport
  pub feedback_frames_received : ℕ
  pub parameter_frames_received : ℕ
  pub metrics_started_at_ns : ℕ
  pub feedback_metrics : List (MotorFeedbackSample W)
  pub recovery_metrics : List RecoveryMetrics

-- A call through `transport_`; without a transport there is no effect.
abbrev pub on_transport : (Transport → Transport) → Option Transport → Option Transport
on_transport f none = none
on_transport f (some t) = some (f t)

-- `can_id_to_joint_.find`.
abbrev pub find : List (ℕ × ℕ) → ℕ → Option ℕ
find [] id = none
find ((key, index) ∷ entries) id =
    let rest = find entries id in if key == id then some index else rest

-- An assignment through a reference to an element.
abbrev pub modify {ℓ} : {A : Type ℓ} → List A → ℕ → (A → A) → List A
modify [] i f = []
modify (x ∷ xs) zero f = f x ∷ xs
modify (x ∷ xs) (suc i) f = x ∷ modify xs i f

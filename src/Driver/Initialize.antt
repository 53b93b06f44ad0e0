-- ===== src/Driver/Initialize.antt =====
-- robstride_driver/src/driver.cpp: `initialize` and `reset_metrics`, at the time `now`.
pub mod Valid
use robstride_ros.Prelude.{
  ℕ, ◌+◌, Bool, true, false, not, ◌&&◌, ◌||◌, List, [], ◌∷◌, if◌then◌else◌, ◌==◌, length, is_empty,
  has_value, any,
}
use robstride_ros.Double.{Double}
use robstride_ros.Protocol.{blank}
use robstride_ros.Joint.{JointData, invalid_neutral_range}
use robstride_ros.Transport.State.{MotorFrame}
use robstride_ros.Driver.State.{
  DriverSettings, DriverConfiguration, MotorFeedbackSample, RecoveryMetrics, Driver,
}

module _ {W : Type 0} ⦃d : Double W⦄ where
  open d use {isfinite, lt}

  abbrev is_ordered : W → W → Bool
  is_ordered lo hi = isfinite lo && isfinite hi && lt lo hi

  -- The body of the loop over the joints, for the ids that have been seen: `false` for its returns.
  unfoldable pub joint_is_valid : List ℕ → JointData W → Bool
  joint_is_valid can_ids j =
      if has_value (invalid_neutral_range j)
      then false
      else not (
          j.can_id == 0
          || j.can_timeout_ticks == 0
          || any (λ id. id == j.can_id) can_ids
          || not (is_ordered j.command_limits.position_min j.command_limits.position_max)
          || not (is_ordered j.command_limits.velocity_min j.command_limits.velocity_max)
          || not (is_ordered j.command_limits.effort_min j.command_limits.effort_max))

  unfoldable pub joints_are_valid : List ℕ → List (JointData W) → Bool
  joints_are_valid can_ids [] = true
  joints_are_valid can_ids (j ∷ joints) =
      joint_is_valid can_ids j && joints_are_valid (j.can_id ∷ can_ids) joints

  -- `can_id_to_joint_[joints_[index].can_id] = index` for all joints, from `index` on.
  unfoldable pub index_joints : ℕ → List (JointData W) → List (ℕ × ℕ) → List (ℕ × ℕ)
  index_joints index [] entries = entries
  index_joints index (j ∷ joints) entries =
      index_joints (index + 1) joints ((j.can_id, index) ∷ entries)

  unfoldable pub empty_snapshot : ℕ → List (JointData W) → List MotorFrame
  empty_snapshot index [] = []
  empty_snapshot index (j ∷ joints) =
      record { motor_index = index; frame = blank } ∷ empty_snapshot (index + 1) joints

  -- `MotorFeedbackSample{}`.
  abbrev pub no_sample : MotorFeedbackSample W
  no_sample = record {
    count = 0;
    last_received_at_ns = 0;
    maximum_gap_ns = 0;
    mode = 0;
    fault_flags = 0;
    temperature = d.nan;
  }

  abbrev pub no_samples : List (JointData W) → List (MotorFeedbackSample W)
  no_samples [] = []
  no_samples (j ∷ joints) = no_sample ∷ no_samples joints

  abbrev pub no_attempts : List (JointData W) → List RecoveryMetrics
  no_attempts [] = []
  no_attempts (j ∷ joints) = record { active = false; attempts = 0 } ∷ no_attempts joints

  unfoldable pub reset_metrics : ℕ → Driver W → Driver W
  reset_metrics now v = record v {
    feedback_frames_received = 0;
    parameter_frames_received = 0;
    metrics_started_at_ns = now;
    feedback_metrics = no_samples v.joints;
    recovery_metrics = no_attempts v.joints;
  }

  -- The assignments after the checks.
  abbrev pub configured : DriverConfiguration W → Driver W → Driver W
  configured c v = record v {
    settings = record c.settings { motor_count = length c.joints };
    joints = c.joints;
    can_id_to_joint = index_joints 0 c.joints [];
    command_snapshot = empty_snapshot 0 c.joints;
  }

  unfoldable pub initialize : ℕ → DriverConfiguration W → Driver W → Driver W × Bool
  initialize now c v =
      if is_empty c.joints
      then (v, false)
      else if is_empty c.settings.node_name || c.settings.receive_qos_depth == 0
      then (v, false)
      else if not (joints_are_valid [] c.joints)
      then (v, false)
      else (reset_metrics now (configured c v), true)

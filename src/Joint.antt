-- ===== src/Joint.antt =====
-- robstride_driver/include/robstride_driver/joint_data.hpp: the data of a joint, its limits and the
-- transforms between joint and motor coordinates. A `const char *` result is an optional text.
pub mod Position
pub mod Neutral
pub mod Tests
use robstride_ros.Prelude.{
  ℕ, zero, suc, Bool, true, false, not, ◌&&◌, ◌||◌, Option, none, some, if◌then◌else◌, Text, bytes,
  has_value,
}
use robstride_ros.Double.{Double, nought, one, minus_one, clamp}
use robstride_ros.Protocol.{Limits}
use robstride_ros.Recovery.{RecoveryState}

pub record StateValues (W : Type 0) : Type 0 where
  pub position : W
  pub velocity : W
  pub effort : W
  pub temperature : W
  pub fault : W

pub record CommandValues (W : Type 0) : Type 0 where
  pub position : W
  pub velocity : W
  pub effort : W

pub record CommandLimits (W : Type 0) : Type 0 where
  pub position_min : W
  pub position_max : W
  pub velocity_min : W
  pub velocity_max : W
  pub effort_min : W
  pub effort_max : W

pub record ClaimedInterfaces : Type 0 where
  pub position : Bool
  pub velocity : Bool
  pub effort : Bool

pub record FeedbackStatus : Type 0 where
  pub received : Bool
  pub mode : ℕ
  pub timestamp : ℕ

pub record ParameterStatus : Type 0 where
  pub received : Bool
  pub index : ℕ
  pub value : ℕ
  pub timestamp : ℕ

pub record JointData (W : Type 0) : Type 0 where
  pub name : Text
  pub can_id : ℕ
  pub limits : Limits W
  pub direction : W
  pub gear_ratio : W
  pub position_offset : W
  pub kp : W
  pub kd : W
  pub can_timeout_ticks : ℕ
  pub command_limits : CommandLimits W
  pub exports_temperature : Bool
  pub exports_fault : Bool
  pub state : StateValues W
  pub feedback : StateValues W
  pub command : CommandValues W
  pub claimed : ClaimedInterfaces
  pub feedback_status : FeedbackStatus
  pub parameter_status : ParameterStatus
  pub recovery : RecoveryState

module _ {W : Type 0} ⦃d : Double W⦄ where
  open d use {isfinite, le, lt, eq, plus, minus, times, over, next_down, next_up}

  -- `StateValues{}` and `CommandValues{}`.
  abbrev pub no_state : StateValues W
  no_state = record {
    position = d.nan;
    velocity = d.nan;
    effort = d.nan;
    temperature = d.nan;
    fault = nought;
  }

  abbrev pub no_command : CommandValues W
  no_command = record { position = d.nan; velocity = nought; effort = nought }

  unfoldable pub contains_position : CommandLimits W → W → Bool
  contains_position l value = isfinite value && le l.position_min value && le value l.position_max

  unfoldable pub contains_velocity : CommandLimits W → W → Bool
  contains_velocity l value = isfinite value && le l.velocity_min value && le value l.velocity_max

  unfoldable pub contains_effort : CommandLimits W → W → Bool
  contains_effort l value = isfinite value && le l.effort_min value && le value l.effort_max

  -- The lambda `valid` of `invalid_neutral_range`.
  abbrev valid : W → W → Bool
  valid minimum maximum =
      isfinite minimum
      && isfinite maximum
      && lt minimum maximum
      && le minimum nought
      && le nought maximum

  unfoldable pub invalid_neutral_range : JointData W → Option Text
  invalid_neutral_range j =
      if not (valid c.velocity_min c.velocity_max)
      then some (bytes "command_velocity_min/max")
      else if not (valid c.effort_min c.effort_max)
      then some (bytes "command_effort_min/max")
      else if not (valid l.velocity_min l.velocity_max)
      then some (bytes "velocity_min/max")
      else if not (valid l.effort_min l.effort_max)
      then some (bytes "effort_min/max")
      else if not (valid l.effort_wire_min l.effort_wire_max)
      then some (bytes "effort_wire_min/max")
      else none
    where
      c : CommandLimits W
      c = j.command_limits

      l : Limits W
      l = j.limits

  -- A step of `std::nextafter`, `n` times.
  abbrev repeated : ℕ → (W → W) → W → W
  repeated zero f x = x
  repeated (suc n) f x = repeated n f (f x)

  unfoldable pub motor_position_within_roundoff : JointData W → W → Bool
  motor_position_within_roundoff j position =
      if not (isfinite position)
        || not (isfinite j.limits.position_min)
        || not (isfinite j.limits.position_max)
        || not (lt j.limits.position_min j.limits.position_max)
      then false
      else le (repeated 8 next_down j.limits.position_min) position
        && le position (repeated 8 next_up j.limits.position_max)

  -- `direction * (position - position_offset) * gear_ratio`.
  abbrev pub to_motor : JointData W → W → W
  to_motor j position = times (times j.direction (minus position j.position_offset)) j.gear_ratio

  -- `direction * (position / gear_ratio) + position_offset`.
  abbrev pub to_joint : JointData W → W → W
  to_joint j position = plus (times j.direction (over position j.gear_ratio)) j.position_offset

  -- `std::minmax`.
  abbrev minmax : W → W → W × W
  minmax a b = if lt b a then (b, a) else (a, b)

  unfoldable pub joint_position_range : JointData W → Option (W × W)
  unfolding motor_position_within_roundoff
  joint_position_range j =
      if (not (eq j.direction one) && not (eq j.direction minus_one))
        || not (isfinite j.gear_ratio)
        || le j.gear_ratio nought
        || not (isfinite j.position_offset)
        || not (isfinite j.limits.position_min)
        || not (isfinite j.limits.position_max)
        || not (lt j.limits.position_min j.limits.position_max)
      then none
      else if not (isfinite range.0)
          || not (isfinite range.1)
          || not (lt range.0 range.1)
          || not (motor_position_within_roundoff j (to_motor j range.0))
          || not (motor_position_within_roundoff j (to_motor j range.1))
      then none
      else some range
    where
      range : W × W
      range = minmax (to_joint j j.limits.position_min) (to_joint j j.limits.position_max)

  -- The part of `checked_joint_to_motor_position` after the test that there is a range.
  abbrev pub checked_in : JointData W → W → W × W → Option W
  checked_in j position (low, high) =
      if not (isfinite position) || lt position low || lt high position
      then none
      else if not (motor_position_within_roundoff j (to_motor j position))
      then none
      else some (clamp (to_motor j position) j.limits.position_min j.limits.position_max)

  unfoldable pub checked_joint_to_motor_position : JointData W → W → Option W
  unfolding joint_position_range clamp
  checked_joint_to_motor_position j position = elim (joint_position_range j) [
    | none ↦ none
    | some range ↦ checked_in j position range
  ]

  unfoldable pub joint_to_motor_effort : JointData W → W → W
  joint_to_motor_effort j joint_effort = over (times j.direction joint_effort) j.gear_ratio

  unfoldable pub motor_to_joint_effort : JointData W → W → W
  motor_to_joint_effort j motor_effort = times (times j.direction motor_effort) j.gear_ratio

-- ===== src/Driver/Receive.antt =====
-- robstride_driver/src/driver.cpp: `receive_frame` and `record_feedback`, at the time `now`.
pub mod Addressed
use robstride_ros.Prelude.{
  ℕ, ◌+◌, ◌-◌, ◌/◌, ◌%◌, ◌^◌, Bool, true, false, not, ◌&&◌, ◌||◌, Option, none, some, List, [], ◌∷◌,
  if◌then◌else◌, ltb, max, bump_u64, get_elem?,
}
use robstride_ros.Double.{Double}
use robstride_ros.Protocol.{Feedback, ParameterResponse, decode_feedback, decode_parameter_response}
use robstride_ros.Joint.{JointData, motor_to_joint_effort}
use robstride_ros.Driver.State.{MotorFeedbackSample, Driver, find, modify}

-- `can_msgs::msg::Frame`, as far as the program reads it.
pub record Message : Type 0 where
  pub id : ℕ
  pub payload : List ℕ
  pub dlc : ℕ
  pub is_error : Bool
  pub is_rtr : Bool
  pub is_extended : Bool

-- `data_area & 0xff`: the motor that sent the message.
abbrev pub sender : Message → ℕ
sender msg = msg.id / 2 ^ 8 % 2 ^ 16 % 2 ^ 8

module _ {W : Type 0} ⦃d : Double W⦄ where
  open d use {of_ℕ, plus, times, over}

  -- `record_feedback` on the sample of its joint.
  abbrev pub next_sample : ℕ → ℕ → Feedback W → MotorFeedbackSample W → MotorFeedbackSample W
  next_sample metrics_started_at now feedback sample = record {
    count = bump_u64 sample.count;
    last_received_at_ns = now;
    maximum_gap_ns = max sample.maximum_gap_ns (now - reference);
    mode = feedback.mode;
    fault_flags = feedback.fault_flags;
    temperature = feedback.temperature;
  }
    where
      reference : ℕ
      reference =
          if ltb 0 sample.last_received_at_ns
          then sample.last_received_at_ns
          else metrics_started_at

  unfoldable pub record_feedback : ℕ → ℕ → Feedback W → Driver W → Driver W
  record_feedback index now feedback v = record v {
    feedback_metrics =
        modify v.feedback_metrics index (next_sample v.metrics_started_at_ns now feedback);
  }

  abbrev pub store_parameter : ℕ → ParameterResponse → JointData W → JointData W
  store_parameter now parameter j = record j {
    parameter_status = record {
      received = true;
      index = parameter.index;
      value = parameter.value;
      timestamp = now;
    };
  }

  abbrev pub store_feedback : ℕ → Feedback W → JointData W → JointData W
  store_feedback now decoded j = record j {
    feedback = record {
      position = plus (times j.direction (over decoded.position j.gear_ratio)) j.position_offset;
      velocity = times j.direction (over decoded.velocity j.gear_ratio);
      effort = motor_to_joint_effort j decoded.effort;
      temperature = decoded.temperature;
      fault = of_ℕ decoded.fault_flags;
    };
    feedback_status = record { received = true; mode = decoded.mode; timestamp = now };
  }

  -- After the joint has been found: a parameter response, else a feedback, else nothing.
  unfoldable pub receive_for : ℕ → Message → ℕ → JointData W → Driver W → Driver W
  receive_for now msg index j v =
      elim (decode_parameter_response msg.id msg.payload msg.dlc msg.is_extended
        v.settings.host_id) [
          | some parameter ↦ record v {
            parameter_frames_received = bump_u64 v.parameter_frames_received;
            joints = modify v.joints index (store_parameter now parameter);
          }
          | none ↦
              elim (decode_feedback msg.id msg.payload msg.dlc msg.is_extended v.settings.host_id
                j.limits) [
                  | none ↦ v
                  | some decoded ↦
                      let u = record_feedback index now decoded v in
                      record u {
                        feedback_frames_received = bump_u64 v.feedback_frames_received;
                        joints = modify v.joints index (store_feedback now decoded);
                      }
                ]
        ]

  unfoldable pub receive_frame : ℕ → Message → Driver W → Driver W
  receive_frame now msg v =
      if msg.is_error || msg.is_rtr then v else elim (find v.can_id_to_joint (sender msg)) [
        | none ↦ v
        | some index ↦ elim (get_elem? v.joints index) [
          | none ↦ v
          | some j ↦ receive_for now msg index j v
        ]
      ]

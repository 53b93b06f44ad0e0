-- ===== src/Driver/Tests.antt =====
-- robstride_driver/src/driver.cpp at concrete inputs, with the joint of Joint.Tests.
use robstride_ros.Prelude.{
  ◌≡◌, ◌≢◌, ◌↔◌, refl, sym, true, false, none, some, List, [], ◌∷◌, All, get_elem?, bytes, arith,
}
use robstride_ros.Prelude.Int.{pos, negsuc}
use robstride_ros.Double.Fixed.{Fixed, fixed_double, Fixed-IsIeee}
use robstride_ros.Protocol.Tests.{reply_id, reply_bytes, reply_feedback}
use robstride_ros.Joint.{
  JointData, ClaimedInterfaces, invalid_neutral_range, contains_position,
  checked_joint_to_motor_position,
}
use robstride_ros.Joint.Tests.{joint}
use robstride_ros.Transport.State.{MotorFrame, disable_active_commands, create}
use robstride_ros.Transport.Queue.{queue_motion_frames}
use robstride_ros.Driver.State.{DriverSettings, DriverConfiguration, Driver, on_transport}
use robstride_ros.Driver.Initialize.{initialize, reset_metrics, joints_are_valid, joint_is_valid}
use robstride_ros.Driver.Initialize.Valid.{IsReady, IsValidJoint, initialize_accepts}
use robstride_ros.Driver.Receive.{Message, store_feedback, receive_frame}
use robstride_ros.Driver.Receive.Addressed.{IsFeedback, receive_frame_others, receive_frame_stores}
use robstride_ros.Driver.Modes.{
  apply_command_modes, validate_command_modes, may_claim_all, may_claim,
}
use robstride_ros.Driver.Modes.Handover.{IsHandedOver, apply_command_modes_hands_over}
use robstride_ros.Driver.Commands.{Targets, command_frame, motor_targets, send_commands}
use robstride_ros.Driver.Commands.Bounds.{IsSafe, motor_targets_sound}
use robstride_ros.Driver.Commands.Batch.{
  AreMotions, batch, send_commands_sends, send_commands_rejects,
}
use robstride_ros.Driver.Commands.Carried.{IsCarried}
use robstride_ros.Driver.Commands.Latched.{Event, received, updated, sent, stopped, happen_all}
use robstride_ros.Driver.Update.{update_state}
use robstride_ros.Driver.Update.Passes.{IsPassing, update_state_iff}

abbrev settings : DriverSettings
settings = record {
  host_id = 253;
  node_name = bytes "can";
  transmit_topic = bytes "to_can_bus";
  receive_topic = bytes "from_can_bus";
  receive_qos_depth = 32;
  motor_count = 0;
  feedback_timeout = 3000;
  fail_on_feedback_timeout = true;
  transmit_failure_timeout = 1000;
  recovery_timeout = 500;
  recovery_retry_interval = 100;
  clear_faults_on_start = true;
  set_zero_on_start = false;
  stop_repetitions = 3;
  stop_interval = 20;
  stop_confirmation_timeout = 300;
  connection_timeout = 3000;
  startup_confirmation_timeout = 500;
  startup_retries = 3;
}

abbrev pub configuration : DriverConfiguration Fixed
configuration = record { settings = settings; joints = joint ∷ [] }

abbrev pub blank_driver : Driver Fixed
blank_driver = record {
  settings = settings;
  joints = [];
  can_id_to_joint = [];
  command_snapshot = [];
  active = false;
  command_rejected = false;
  activated_at = 0;
  transport = none;
  feedback_frames_received = 0;
  parameter_frames_received = 0;
  metrics_started_at_ns = 0;
  feedback_metrics = [];
  recovery_metrics = [];
}

abbrev ready : Driver Fixed
ready = (initialize 5 configuration blank_driver).0

accepted : (initialize 5 configuration blank_driver).1 ≡ true
unfolding initialize joints_are_valid joint_is_valid invalid_neutral_range
accepted = refl

initialize_accepts_example :
    (configuration.joints ≢ [])
    × All IsValidJoint configuration.joints
    × (ready.joints ≡ configuration.joints)
    × IsReady ready
initialize_accepts_example = initialize_accepts 5 configuration blank_driver accepted

ready-IsReady : IsReady ready
ready-IsReady = (initialize_accepts 5 configuration blank_driver accepted).3

ready_joints : get_elem? ready.joints 0 ≡ some joint
unfolding initialize reset_metrics joints_are_valid joint_is_valid invalid_neutral_range
ready_joints = refl

abbrev pub message : Message
message = record {
  id = reply_id;
  payload = reply_bytes;
  dlc = 8;
  is_error = false;
  is_rtr = false;
  is_extended = true;
}

host : ready.settings.host_id ≡ 253
unfolding initialize reset_metrics joints_are_valid joint_is_valid invalid_neutral_range
host = refl

receive_frame_stores_example :
    (k : JointData Fixed) × (get_elem? (receive_frame 9 message ready).joints 0 ≡ some k)
    × IsFeedback 9 message joint k
receive_frame_stores_example =
    receive_frame_stores 9 message ready ready-IsReady.0 0 joint ready_joints refl refl refl refl
      refl (sym host)

abbrev stranger : Message
stranger = record message { id = 0x02850afd }

receive_frame_others_example : get_elem? (receive_frame 9 stranger ready).joints 0 ≡ some joint
receive_frame_others_example =
    receive_frame_others 9 stranger ready ready-IsReady.0 0 joint ready_joints (λ e. omega arith)

abbrev pub position_only : ClaimedInterfaces
position_only = record { position = true; velocity = false; effort = false }

abbrev pub heard_joint : JointData Fixed
heard_joint = store_feedback 9 reply_feedback joint

abbrev pub heard : Driver Fixed
heard = record blank_driver { joints = heard_joint ∷ [] }

switched : (apply_command_modes 20 (position_only ∷ []) heard).1 ≡ true
unfolding apply_command_modes validate_command_modes may_claim_all may_claim contains_position
    checked_joint_to_motor_position
switched = refl

apply_command_modes_hands_over_example :
    (mode : ClaimedInterfaces) × (k : JointData Fixed) × (get_elem? (position_only ∷ []) 0
      ≡ some mode)
    × (get_elem? (apply_command_modes 20 (position_only ∷ []) heard).0.joints 0 ≡ some k)
    × IsHandedOver heard.settings.feedback_timeout 20 heard_joint mode k
apply_command_modes_hands_over_example =
    apply_command_modes_hands_over 20 (position_only ∷ []) heard switched 0 heard_joint refl

abbrev commanded_joint : JointData Fixed
commanded_joint = record joint {
  claimed = position_only;
  command = record { position = some (pos 1500); velocity = some (pos 0); effort = some (pos 0) };
}

abbrev targets : Targets Fixed
targets = record {
  position = some (negsuc 1999);
  velocity = some (pos 0);
  effort = some (pos 0);
  kp = some (pos 20000);
  kd = some (pos 1000);
}

targets_pass : motor_targets commanded_joint ≡ some targets
unfolding motor_targets contains_position checked_joint_to_motor_position
targets_pass = refl

neutral : invalid_neutral_range commanded_joint ≡ none
unfolding invalid_neutral_range
neutral = refl

motor_targets_sound_example : IsSafe commanded_joint targets
motor_targets_sound_example =
    motor_targets_sound Fixed-IsIeee commanded_joint targets neutral targets_pass

abbrev slot : MotorFrame
slot = record { motor_index = 0; frame = record { id = 0; payload = [] } }

abbrev running : Driver Fixed
running = record blank_driver {
  joints = commanded_joint ∷ [];
  command_snapshot = slot ∷ [];
  active = true;
  transport = some (create 1);
  recovery_metrics = record { active = false; attempts = 0 } ∷ [];
}

abbrev frames : List MotorFrame
frames = record { motor_index = 0; frame = command_frame commanded_joint targets } ∷ []

one_frame : batch 0 running.joints ≡ some frames
unfolding batch motor_targets contains_position checked_joint_to_motor_position
one_frame = refl

send_commands_sends_example :
    let result = send_commands 7 running in
    AreMotions 0 running.joints frames
    × (result.0.transport ≡ on_transport (queue_motion_frames frames 7) running.transport)
    × (result.0.command_snapshot ≡ frames)
    × (result.0.joints ≡ running.joints)
    × ((result.1 ≡ true) ↔ IsCarried 7 result.0)
send_commands_sends_example =
    send_commands_sends 7 running frames refl refl (omega arith) (refl, tt) tt one_frame

-- A position outside the command limits.
abbrev astray : Driver Fixed
astray = record running {
  joints =
      record commanded_joint {
        command = record {
          position = some (pos 3001);
          velocity = some (pos 0);
          effort = some (pos 0);
        };
      }
      ∷ [];
}

no_frame : batch 0 astray.joints ≡ none
unfolding batch motor_targets contains_position
no_frame = refl

-- A message, a cycle and a stop.
abbrev events : List Event
events = received 8 message ∷ updated 9 ∷ sent 9 ∷ stopped (λ t. t) ∷ []

send_commands_rejects_example :
    let result = send_commands 7 astray in
    (result.0.transport ≡ on_transport disable_active_commands astray.transport)
    × (result.1 ≡ false)
    × (send_commands 10 (happen_all events result.0) ≡ (happen_all events result.0, false))
send_commands_rejects_example =
    send_commands_rejects 7 10 events astray refl refl (refl, tt) tt no_frame

update_state_iff_example :
    ((update_state 8 running).2 ≡ true)
    ↔ (IsCarried 8 running × All (IsPassing running.settings running.activated_at 8) running.joints)
update_state_iff_example = update_state_iff 8 running refl refl (omega arith) (omega arith)

-- ===== src/Driver/Start/Tests.antt =====
-- `start` of robstride_driver/src/driver.cpp with motors that answer at once.
use robstride_ros.Prelude.{ℕ, ◌≡◌, refl, true, false, some, [], ◌∷◌}
use robstride_ros.Double.Fixed.{Fixed, fixed_double}
use robstride_ros.Protocol.{base_id, type_read_parameter, make_write_u32, decode_parameter_response}
use robstride_ros.Joint.Tests.{joint}
use robstride_ros.Transport.State.{create}
use robstride_ros.Driver.State.{Driver}
use robstride_ros.Driver.Receive.{Message, receive_frame, receive_for, store_feedback}
use robstride_ros.Transport.Publish.{Endpoint}
use robstride_ros.Driver.Start.{
  Waits, write_and_confirm_parameter, write_and_confirm, parameter_confirmed, hear, activate_joint,
}
use robstride_ros.Joint.{JointData}
use robstride_ros.Protocol.Tests.{reply_feedback}
use robstride_ros.Driver.Tests.{blank_driver, message}

-- Every request is answered at once.
abbrev parameter_message : ℕ → ℕ → Message
parameter_message index value = record {
  id = base_id type_read_parameter 7 253;
  payload = (make_write_u32 7 253 index value).payload;
  dlc = 8;
  is_error = false;
  is_rtr = false;
  is_extended = true;
}

abbrev sink : Endpoint
sink = record {
  has_probe = false;
  has_sink = true;
  has_publisher = false;
  probe_says = false;
  has_subscription = false;
  probe_throws = false;
  publish_throws = false;
}

abbrev pub waits : Waits
waits = record {
  endpoint = sink;
  polls = [];
  watchdog =
      λ i attempt. record { requested_at = 10; heard = (11, parameter_message 0x7028 20000) ∷ [] };
  run_mode =
      λ i attempt. record { requested_at = 12; heard = (13, parameter_message 0x7005 0) ∷ [] };
  enable = λ attempt. record { requested_at = 14; heard = (15, message) ∷ [] };
  unlocked = [];
  closing = [];
  meanwhile = λ t. t;
  activated_at = 16;
}

abbrev pub connected : Driver Fixed
connected = record blank_driver {
  joints = joint ∷ [];
  can_id_to_joint = (7, 0) ∷ [];
  transport = some (record (create 1) { running = true });
}

-- The joint as the feedback in Run mode leaves it.
abbrev started_joint : JointData Fixed
started_joint = activate_joint (
    store_feedback 15 reply_feedback (record joint {
      parameter_status = record { received = true; index = 0x7005; value = 0; timestamp = 13 };
    }))

confirmed : (write_and_confirm_parameter (waits.watchdog 0) 0 joint 0x7028 20000 connected).1 ≡ true
unfolding write_and_confirm_parameter write_and_confirm parameter_confirmed hear receive_frame
    base_id receive_for decode_parameter_response make_write_u32
confirmed = refl

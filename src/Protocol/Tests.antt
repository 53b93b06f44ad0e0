-- ===== src/Protocol/Tests.antt =====
-- robstride_driver/src/protocol.cpp at concrete inputs.
use robstride_ros.Prelude.{
  ℕ, ◌+◌, ◌*◌, ◌/◌, ◌%◌, ◌^◌, ◌≤◌, ◌<◌, ◌≡◌, refl, true, some, List, [], ◌∷◌, arith,
}
use robstride_ros.Prelude.Int.{pos, negsuc}
use robstride_ros.Double.{◌≼◌}
use robstride_ros.Double.Fixed.{Fixed, fixed_double, Fixed-IsIeee}
use robstride_ros.Protocol.{
  Limits, Feedback, base_id, make_motion_command, make_write_u32, make_stop, decode_feedback,
  decode_parameter_response, encode_u16, type_read_parameter, type_feedback,
}
use robstride_ros.Protocol.Layout.{parameter_roundtrip, decode_feedback_sound}
use robstride_ros.Protocol.Quantise.{encode_u16_mono, encode_u16_saturates}

abbrev low : Fixed
low = some (negsuc 11999)

abbrev high : Fixed
high = some (pos 12000)

abbrev pub limits : Limits Fixed
limits = record {
  position_min = low;
  position_max = high;
  velocity_min = low;
  velocity_max = high;
  effort_min = low;
  effort_max = high;
  effort_wire_min = low;
  effort_wire_max = high;
  kp_max = some (pos 500000);
  kd_max = some (pos 5000);
}

stop_frame : (make_stop 7 253 true).id ≡ 0x0400fd07
unfolding make_stop
stop_frame = refl

neutral_payload :
    (make_motion_command 7 limits
      (some (pos 0))
      (some (pos 0))
      (some (pos 0))
      (some (pos 0))
      (some (pos 0))).payload
    ≡ 0x80 ∷ 0 ∷ 0x80 ∷ 0 ∷ 0 ∷ 0 ∷ 0 ∷ 0 ∷ []
unfolding make_motion_command
neutral_payload = refl

parameter_roundtrip_example :
    decode_parameter_response
      (base_id type_read_parameter 7 253)
      (make_write_u32 7 253 0x7028 0x12345678).payload
      8
      true
      253
    ≡ some (record { motor_id = 7; index = 0x7028; value = 0x12345678 })
parameter_roundtrip_example =
    parameter_roundtrip 7 253 0x7028 0x12345678 (omega arith) (omega arith) (omega arith)
      (omega arith)

abbrev pub reply_bytes : List ℕ
reply_bytes = 0x80 ∷ 0 ∷ 0x80 ∷ 0 ∷ 0x80 ∷ 0 ∷ 1 ∷ 0x2c ∷ []

abbrev pub reply_id : ℕ
reply_id = 0x028507fd

abbrev pub reply_feedback : Feedback Fixed
reply_feedback = record {
  motor_id = 7;
  mode = 2;
  fault_flags = 5;
  position = some (pos 0);
  velocity = some (pos 0);
  effort = some (pos 0);
  temperature = some (pos 30000);
}

pub reply_decodes : decode_feedback reply_id reply_bytes 8 true 253 limits ≡ some reply_feedback
unfolding decode_feedback
reply_decodes = refl

decode_feedback_sound_example :
    (true ≡ true)
    × (◌≡◌ {A = ℕ} 8 8)
    × (reply_id / 2 ^ 24 % 2 ^ 5 ≡ type_feedback)
    × (reply_id % 2 ^ 8 ≡ 253)
    × (reply_feedback.motor_id < 2 ^ 8)
    × (reply_feedback.mode < 2 ^ 2)
    × (reply_feedback.fault_flags < 2 ^ 6)
    × (reply_id / 2 ^ 8 % 2 ^ 16
        ≡ reply_feedback.mode * 2 ^ 14
          + reply_feedback.fault_flags * 2 ^ 8
          + reply_feedback.motor_id)
decode_feedback_sound_example =
    decode_feedback_sound reply_id reply_bytes 8 true 253 limits reply_feedback reply_decodes

encode_u16_mono_example :
    encode_u16 {W = Fixed} (some (negsuc 99)) low high
    ≤ encode_u16 {W = Fixed} (some (pos 300)) low high
encode_u16_mono_example =
    encode_u16_mono Fixed-IsIeee low high refl refl refl refl (some (negsuc 99)) (some (pos 300))
      refl refl refl

encode_u16_saturates_example :
    (some (pos 13000) ≼ low → encode_u16 {W = Fixed} (some (pos 13000)) low high ≡ 0)
    × (high ≼ some (pos 13000) → encode_u16 {W = Fixed} (some (pos 13000)) low high ≡ 65535)
encode_u16_saturates_example =
    encode_u16_saturates Fixed-IsIeee low high refl refl refl refl (some (pos 13000)) refl

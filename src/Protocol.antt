-- ===== src/Protocol.antt =====
-- robstride_driver/include/robstride_driver/protocol.hpp and robstride_driver/src/protocol.cpp: the
-- CAN frames of the motors. Bytes and words are numbers; a shift is a product or a quotient by a power
-- of two, a mask of k ones a remainder, and `|` of fields that share no bit a sum. An array of
-- eight bytes is a list of length eight.
pub mod Layout
pub mod Quantise
pub mod Tests
use robstride_ros.Prelude.{
  ℕ, ◌+◌, ◌*◌, ◌/◌, ◌%◌, ◌^◌, Bool, true, false, not, ◌||◌, Option, none, some, List, if◌then◌else◌,
  ◌==◌, get_or, set, replicate,
}
use robstride_ros.Prelude.Int.{to_u16}
use robstride_ros.Double.{Double, nought, clamp}

pub record Limits (W : Type 0) : Type 0 where
  pub position_min : W
  pub position_max : W
  pub velocity_min : W
  pub velocity_max : W
  pub effort_min : W
  pub effort_max : W
  pub effort_wire_min : W
  pub effort_wire_max : W
  pub kp_max : W
  pub kd_max : W

-- The payload field `data` of the source.
pub record Frame : Type 0 where
  pub id : ℕ
  pub payload : List ℕ

pub record Feedback (W : Type 0) : Type 0 where
  pub motor_id : ℕ
  pub mode : ℕ
  pub fault_flags : ℕ
  pub position : W
  pub velocity : W
  pub effort : W
  pub temperature : W

pub record ParameterResponse : Type 0 where
  pub motor_id : ℕ
  pub index : ℕ
  pub value : ℕ

abbrev pub type_motion_control : ℕ
type_motion_control = 1

abbrev pub type_feedback : ℕ
type_feedback = 2

abbrev pub type_enable : ℕ
type_enable = 3

abbrev pub type_stop : ℕ
type_stop = 4

abbrev pub type_set_zero : ℕ
type_set_zero = 6

abbrev pub type_read_parameter : ℕ
type_read_parameter = 17

abbrev pub type_write_parameter : ℕ
type_write_parameter = 18

abbrev pub motor_mode_reset : ℕ
motor_mode_reset = 0

abbrev pub motor_mode_run : ℕ
motor_mode_run = 2

abbrev pub index_run_mode : ℕ
index_run_mode = 0x7005

abbrev pub index_can_timeout : ℕ
index_can_timeout = 0x7028

-- `Frame{}`: identifier zero, eight zero bytes.
abbrev pub blank : Frame
blank = record { id = 0; payload = replicate 8 0 }

-- The three fields do not overlap: five bits of type, sixteen of `area`, eight of `destination`.
unfoldable pub base_id : ℕ → ℕ → ℕ → ℕ
base_id type area destination = (type % 2 ^ 5) * 2 ^ 24 + area * 2 ^ 8 + destination

unfoldable pub put_be16 : List ℕ → ℕ → ℕ → List ℕ
put_be16 bytes offset value = set (set bytes offset (value / 2 ^ 8)) (offset + 1) (value % 2 ^ 8)

-- `get_be16` of `decode_feedback`.
unfoldable pub get_be16 : List ℕ → ℕ → ℕ
get_be16 bytes offset = get_or bytes offset 0 * 2 ^ 8 + get_or bytes (offset + 1) 0

-- The low two bytes of every parameter frame hold the index, low byte first.
abbrev put_index : ℕ → List ℕ → List ℕ
put_index index bytes = set (set bytes 0 (index % 2 ^ 8)) 1 (index / 2 ^ 8)

-- `data[4 + i] = (value >> (8 * i)) & 0xff` for i below 4.
abbrev put_le32 : ℕ → List ℕ → List ℕ
put_le32 value bytes =
    set
      (set (set (set bytes 4 (value % 2 ^ 8)) 5 (value / 2 ^ 8 % 2 ^ 8)) 6 (value / 2 ^ 16 % 2 ^ 8))
      7 (value / 2 ^ 24 % 2 ^ 8)

unfoldable pub make_enable : ℕ → ℕ → Frame
unfolding base_id
make_enable motor_id host_id = record blank { id = base_id type_enable host_id motor_id }

unfoldable pub make_stop : ℕ → ℕ → Bool → Frame
unfolding base_id
make_stop motor_id host_id clear_fault = record {
  id = base_id type_stop host_id motor_id;
  payload = set (replicate 8 0) 0 (if clear_fault then 1 else 0);
}

unfoldable pub make_set_zero : ℕ → ℕ → Frame
unfolding base_id
make_set_zero motor_id host_id = record {
  id = base_id type_set_zero host_id motor_id;
  payload = set (replicate 8 0) 0 1;
}

unfoldable pub make_read_parameter : ℕ → ℕ → ℕ → Frame
unfolding base_id
make_read_parameter motor_id host_id index = record {
  id = base_id type_read_parameter host_id motor_id;
  payload = put_index index (replicate 8 0);
}

unfoldable pub make_write_u8 : ℕ → ℕ → ℕ → ℕ → Frame
unfolding base_id
make_write_u8 motor_id host_id index value = record {
  id = base_id type_write_parameter host_id motor_id;
  payload = set (put_index index (replicate 8 0)) 4 value;
}

unfoldable pub make_write_u32 : ℕ → ℕ → ℕ → ℕ → Frame
unfolding make_write_u8
make_write_u32 motor_id host_id index value =
    let frame = make_write_u8 motor_id host_id index 0 in
    record frame { payload = put_le32 value frame.payload }

-- The `float` is given by its bit pattern, which is all that the code reads of it.
unfoldable pub make_write_float : ℕ → ℕ → ℕ → ℕ → Frame
unfolding make_write_u8
make_write_float motor_id host_id index raw =
    let frame = make_write_u8 motor_id host_id index 0 in
    record frame { payload = put_le32 raw frame.payload }

-- The guard of both decoders: an extended frame of eight bytes, of this type, for this host.
abbrev is_reply : ℕ → ℕ → ℕ → Bool → ℕ → Bool
is_reply type id dlc is_extended expected_host_id = not (
    not is_extended
    || not (dlc == 8)
    || not (id / 2 ^ 24 % 2 ^ 5 == type)
    || not (id % 2 ^ 8 == expected_host_id))

unfoldable pub decode_parameter_response : ℕ → List ℕ → ℕ → Bool → ℕ → Option ParameterResponse
decode_parameter_response id bytes dlc is_extended expected_host_id =
    if is_reply type_read_parameter id dlc is_extended expected_host_id
    then (if area / 2 ^ 8 == 0
        then some (record {
          motor_id = area % 2 ^ 8;
          index = get_or bytes 0 0 + get_or bytes 1 0 * 2 ^ 8;
          value =
              get_or bytes 4 0
              + get_or bytes 5 0 * 2 ^ 8
              + get_or bytes 6 0 * 2 ^ 16
              + get_or bytes 7 0 * 2 ^ 24;
        })
        else none)
    else none
  where
    area : ℕ
    area = id / 2 ^ 8 % 2 ^ 16

module _ {W : Type 0} ⦃d : Double W⦄ where
  open d use {of_ℕ, isfinite, lt, plus, minus, times, over, lround, tenth}

  unfoldable pub encode_u16 : W → W → W → ℕ
  unfolding to_u16 clamp
  encode_u16 value minimum maximum =
      if not (isfinite value) || not (lt minimum maximum)
      then 0
      else to_u16 (lround (times normalized (of_ℕ 65535)))
    where
      normalized : W
      normalized = over (minus (clamp value minimum maximum) minimum) (minus maximum minimum)

  unfoldable pub decode_u16 : ℕ → W → W → W
  decode_u16 value minimum maximum =
      plus minimum (times (over (of_ℕ value) (of_ℕ 65535)) (minus maximum minimum))

  unfoldable pub make_motion_command : ℕ → Limits W → W → W → W → W → W → Frame
  unfolding base_id put_be16 encode_u16
  make_motion_command motor_id limits position velocity effort kp kd = record {
    id = base_id type_motion_control effort_raw motor_id;
    payload = put_be16 (put_be16 (put_be16 (put_be16 (replicate 8 0) 0 p) 2 v) 4 p_gain) 6 d_gain;
  }
    where
      open limits use {
        position_min, position_max, velocity_min, velocity_max, effort_min, effort_max,
        effort_wire_min, effort_wire_max, kp_max, kd_max,
      }

      effort_raw : ℕ
      effort_raw = encode_u16 (clamp effort effort_min effort_max) effort_wire_min effort_wire_max

      p : ℕ
      p = encode_u16 position position_min position_max

      v : ℕ
      v = encode_u16 velocity velocity_min velocity_max

      p_gain : ℕ
      p_gain = encode_u16 kp nought kp_max

      d_gain : ℕ
      d_gain = encode_u16 kd nought kd_max

  unfoldable pub decode_feedback : ℕ → List ℕ → ℕ → Bool → ℕ → Limits W → Option (Feedback W)
  unfolding get_be16 decode_u16
  decode_feedback id bytes dlc is_extended expected_host_id limits =
      if is_reply type_feedback id dlc is_extended expected_host_id
      then some (record {
        motor_id = area % 2 ^ 8;
        mode = area / 2 ^ 14 % 2 ^ 2;
        fault_flags = area / 2 ^ 8 % 2 ^ 6;
        position = decode_u16 (get_be16 bytes 0) limits.position_min limits.position_max;
        velocity = decode_u16 (get_be16 bytes 2) limits.velocity_min limits.velocity_max;
        effort = decode_u16 (get_be16 bytes 4) limits.effort_wire_min limits.effort_wire_max;
        temperature = times (of_ℕ (get_be16 bytes 6)) tenth;
      })
      else none
    where
      area : ℕ
      area = id / 2 ^ 8 % 2 ^ 16

-- ===== src/Protocol/Layout.antt =====
-- robstride_driver/src/protocol.cpp: the bit layout of identifiers and payloads.
use robstride_ros.Prelude.{
  ℕ, ◌+◌, ◌*◌, ◌/◌, ◌%◌, ◌^◌, ◌<◌, ◌≡◌, Bool, true, none, some, List, arith, ◌⊎◌,
}
use robstride_ros.Double.{Double}
use robstride_ros.Protocol.{
  Limits, Feedback, base_id, make_write_u32, decode_parameter_response, decode_feedback,
  type_read_parameter, type_feedback,
}

-- For a type of five bits, a data area of 16 and a destination of eight, `base_id` is a 29-bit
-- extended identifier, and each field can be read back from its own bits.
pub base_id_fields :
    (type area destination : ℕ)
    → type < 2 ^ 5
    → area < 2 ^ 16
    → destination < 2 ^ 8
    → (base_id type area destination < 2 ^ 29)
      × (base_id type area destination / 2 ^ 24 % 2 ^ 5 ≡ type)
      × (base_id type area destination / 2 ^ 8 % 2 ^ 16 ≡ area)
      × (base_id type area destination % 2 ^ 8 ≡ destination)
unfolding base_id
base_id_fields type area destination ht ha hd = omega arith

-- A motor that answers a read with the parameter's index and value where `make_write_u32` puts them
-- is understood: for a motor and a host of eight bits, an index of 16 and a value of 32, the reply to
-- this host decodes to that motor, index and value.
pub parameter_roundtrip :
    (motor host index value : ℕ)
    → motor < 2 ^ 8
    → host < 2 ^ 8
    → index < 2 ^ 16
    → value < 2 ^ 32
    → decode_parameter_response
        (base_id type_read_parameter motor host)
        (make_write_u32 motor host index value).payload
        8
        true
        host
      ≡ some (record { motor_id = motor; index = index; value = value })
unfolding base_id make_write_u32 decode_parameter_response
parameter_roundtrip motor host index value hm hh hi hv = ground arith

-- The two decoders never both accept a frame, whatever host and limits they are given.
module _ {W : Type 0} ⦃d : Double W⦄ where
  pub decoders_exclusive :
      (id : ℕ) (bytes : List ℕ) (dlc : ℕ) (is_extended : Bool) (host host' : ℕ) (limits : Limits W)
      → (decode_parameter_response id bytes dlc is_extended host ≡ none)
        ⊎ (decode_feedback id bytes dlc is_extended host' limits ≡ none)
  unfolding decode_parameter_response decode_feedback
  decoders_exclusive id bytes dlc is_extended host host' limits = ground arith

  -- A feedback frame is accepted only if it is extended, has eight bytes and the feedback type and
  -- names this host; the motor's id then has eight bits, the mode two and the fault flags six, and
  -- they are the fields of the identifier's data area.
  pub decode_feedback_sound :
      (id : ℕ) (bytes : List ℕ) (dlc : ℕ) (is_extended : Bool) (host : ℕ) (limits : Limits W)
      (f : Feedback W)
      → decode_feedback id bytes dlc is_extended host limits ≡ some f
      → (is_extended ≡ true)
        × (dlc ≡ 8)
        × (id / 2 ^ 24 % 2 ^ 5 ≡ type_feedback)
        × (id % 2 ^ 8 ≡ host)
        × (f.motor_id < 2 ^ 8)
        × (f.mode < 2 ^ 2)
        × (f.fault_flags < 2 ^ 6)
        × (id / 2 ^ 8 % 2 ^ 16 ≡ f.mode * 2 ^ 14 + f.fault_flags * 2 ^ 8 + f.motor_id)
  unfolding decode_feedback
  decode_feedback_sound id bytes dlc is_extended host limits f e = ground arith

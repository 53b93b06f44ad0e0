-- ===== src/Metrics/Faults.antt =====
-- The names of the faults that a feedback tells of.
use robstride_ros.Prelude.{
  ℕ, ◌+◌, ◌/◌, ◌%◌, ◌^◌, ◌<◌, Bool, some, List, [], ◌∷◌, ◌≡◌, ◌≢◌, arith, ==_iff, Text,
}
use robstride_ros.Double.{Double}
use robstride_ros.Protocol.{Limits, Feedback, decode_feedback}
use robstride_ros.Metrics.{motor_fault_names, names_from, fault_names}

-- None of the bits that have these names is set.
abbrev IsClear : ℕ → List Text → ℕ → Type 0
IsClear bit [] f = Unit
IsClear bit (name ∷ names) f = (f / 2 ^ bit % 2 ≡ 0) × IsClear (bit + 1) names f

names_from-nil :
    (bit : ℕ) (names : List Text) (f : ℕ) → names_from bit names f ≡ [] → IsClear bit names f
unfolding names_from
names_from-nil bit [] f h = tt
names_from-nil bit (name ∷ names) f h =
    let first : (f / 2 ^ bit % 2 ≡ 0) × (names_from (bit + 1) names f ≡ []) =
      ground (arith, ==_iff (f / 2 ^ bit % 2) 0) in
    (first.0, names_from-nil (bit + 1) names f first.1)

-- Six bits that are all 0.
bits-zero :
    (f : ℕ)
    → f < 64
    → f % 2 ≡ 0
    → f / 2 % 2 ≡ 0
    → f / 4 % 2 ≡ 0
    → f / 8 % 2 ≡ 0
    → f / 16 % 2 ≡ 0
    → f / 32 % 2 ≡ 0
    → f ≡ 0
bits-zero f small a b c e g h = omega arith

motor_fault_names-nil : (f : ℕ) → f < 64 → motor_fault_names f ≡ [] → f ≡ 0
unfolding motor_fault_names
motor_fault_names-nil f small h =
    let (b0, (b1, (b2, (b3, (b4, (b5, _)))))) = names_from-nil 0 fault_names f h in
    bits-zero f small (omega arith) b1 b2 b3 b4 b5

-- A feedback that tells of a fault has a name for one: its six bits are those that have names.
pub motor_fault_names-decode_feedback :
    {W : Type 0} ⦃d : Double W⦄ (id : ℕ) (payload : List ℕ) (dlc : ℕ) (is_extended : Bool)
    (host_id : ℕ) (limits : Limits W) (feedback : Feedback W)
    → decode_feedback id payload dlc is_extended host_id limits ≡ some feedback
    → feedback.fault_flags ≢ 0
    → motor_fault_names feedback.fault_flags ≢ []
unfolding decode_feedback
motor_fault_names-decode_feedback id payload dlc is_extended host_id limits feedback h fault empty =
    let small : feedback.fault_flags < 64 = ground arith in
    fault (motor_fault_names-nil feedback.fault_flags small empty)

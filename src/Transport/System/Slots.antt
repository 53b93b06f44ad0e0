-- ===== src/Transport/System/Slots.antt =====
-- The slots of the latest frames: which motor a pending or extracted frame is for.
pub mod Moves
pub mod Sound
pub mod Turns
use robstride_ros.Prelude.{
  ℕ, zero, suc, ◌+◌, ◌≤◌, ◌<◌, ◌≡◌, inl, inr, refl, Bool, true, false, Option, none, some, List, [],
  ◌∷◌, ◌++◌, arith, length, set, replicate, map, Bool-cases, leb, ltb, has_value, length-set,
  length-map, length-replicate, ◌||◌, not, ◌&&◌, ◌==◌,
}
use robstride_ros.Transport.State.{
  ActiveFrame, Sent, MotorFrame, RecoveryUpdate, Transport, cleared, update_endpoint_status,
  has_sendable_active_frame, record_failure,
}
use robstride_ros.Transport.Publish.{
  Endpoint, Outcome, withheld, published, thrown, publish_unlocked, publish_transaction,
  publish_active, sent_as,
}
use robstride_ros.Transport.Queue.{
  send_transaction, place_motion, place_motions, queue_motion_frames_locked, mark_recovery,
  place_recovery, place_recoveries, mark_one, apply_recovery_updates_locked,
}
use robstride_ros.Transport.Worker.{
  Batch, present, free_motion, held_motion, take_batch, unless_thrown, note_progress,
}

-- From slot `k` on, each slot that is filled has the frame of its own motor.
abbrev pub InPlace : ℕ → List (Option ActiveFrame) → Type 0
InPlace k [] = Unit
InPlace k (none ∷ slots) = InPlace (k + 1) slots
InPlace k (some frame ∷ slots) = (frame.motor_index ≡ k) × InPlace (k + 1) slots

-- Frames of different motors, in the order of the motors, none before `low` or from `count` on.
abbrev pub Ascend : ℕ → ℕ → List ActiveFrame → Type 0
Ascend low count [] = Unit
Ascend low count (frame ∷ frames) =
    (low ≤ frame.motor_index)
    × (frame.motor_index < count)
    × Ascend (frame.motor_index + 1) count frames

pub Ascend-le :
    (low low' count : ℕ) (frames : List ActiveFrame)
    → low' ≤ low
    → Ascend low count frames
    → Ascend low' count frames
Ascend-le low low' count [] le a = tt
Ascend-le low low' count (frame ∷ frames) le (above, below, rest) = (omega arith, below, rest)

pub InPlace-set :
    (k i : ℕ) (slots : List (Option ActiveFrame)) (frame : ActiveFrame)
    → frame.motor_index ≡ k + i
    → InPlace k slots
    → InPlace k (set slots i (some frame))
InPlace-set k i [] frame e p = tt
InPlace-set k zero (none ∷ slots) frame e p = (omega arith, p)
InPlace-set k zero (some old ∷ slots) frame e (_, p) = (omega arith, p)
InPlace-set k (suc i) (none ∷ slots) frame e p = InPlace-set (k + 1) i slots frame (omega arith) p
InPlace-set k (suc i) (some old ∷ slots) frame e (here, p) =
    (here, InPlace-set (k + 1) i slots frame (omega arith) p)

pub InPlace-reset :
    (k i : ℕ) (slots : List (Option ActiveFrame)) → InPlace k slots → InPlace k (set slots i none)
InPlace-reset k i [] p = tt
InPlace-reset k zero (none ∷ slots) p = p
InPlace-reset k zero (some old ∷ slots) (_, p) = p
InPlace-reset k (suc i) (none ∷ slots) p = InPlace-reset (k + 1) i slots p
InPlace-reset k (suc i) (some old ∷ slots) (here, p) = (here, InPlace-reset (k + 1) i slots p)

pub InPlace-cleared : (k : ℕ) (slots : List (Option ActiveFrame)) → InPlace k (cleared slots)
InPlace-cleared k [] = tt
InPlace-cleared k (slot ∷ slots) = InPlace-cleared (k + 1) slots

pub InPlace-replicate : (k n : ℕ) → InPlace k (replicate n none)
InPlace-replicate k zero = tt
InPlace-replicate k (suc n) = InPlace-replicate (k + 1) n

-- What the worker takes from slots in place is in order.
pub present-Ascend :
    (k count : ℕ) (slots : List (Option ActiveFrame))
    → k + length slots ≤ count
    → InPlace k slots
    → Ascend k count (present slots)
present-Ascend k count [] le p = tt
present-Ascend k count (none ∷ slots) le p =
    Ascend-le (k + 1) k count (present slots) (omega arith)
      (present-Ascend (k + 1) count slots (omega arith) p)
present-Ascend k count (some frame ∷ slots) le (here, p) =
    (omega arith, omega arith, rw here (present-Ascend (k + 1) count slots (omega arith) p))

pub free_motion-Ascend :
    (k count : ℕ) (slots : List (Option ActiveFrame)) (flags : List Bool)
    → k + length slots ≤ count
    → InPlace k slots
    → Ascend k count (free_motion slots flags)
free_motion-Ascend k count [] flags le p = tt
free_motion-Ascend k count (none ∷ slots) [] le p =
    Ascend-le (k + 1) k count (free_motion slots []) (omega arith)
      (free_motion-Ascend (k + 1) count slots [] (omega arith) p)
free_motion-Ascend k count (some frame ∷ slots) [] le (here, p) =
    (omega arith, omega arith, rw here (free_motion-Ascend (k + 1) count slots [] (omega arith) p))
free_motion-Ascend k count (none ∷ slots) (true ∷ flags) le p =
    Ascend-le (k + 1) k count (free_motion slots flags) (omega arith)
      (free_motion-Ascend (k + 1) count slots flags (omega arith) p)
free_motion-Ascend k count (none ∷ slots) (false ∷ flags) le p =
    Ascend-le (k + 1) k count (free_motion slots flags) (omega arith)
      (free_motion-Ascend (k + 1) count slots flags (omega arith) p)
free_motion-Ascend k count (some frame ∷ slots) (true ∷ flags) le (_, p) =
    Ascend-le (k + 1) k count (free_motion slots flags) (omega arith)
      (free_motion-Ascend (k + 1) count slots flags (omega arith) p)
free_motion-Ascend k count (some frame ∷ slots) (false ∷ flags) le (here, p) = (
  omega arith,
  omega arith,
  rw here (free_motion-Ascend (k + 1) count slots flags (omega arith) p),
)

pub held_motion-InPlace :
    (k : ℕ) (slots : List (Option ActiveFrame)) (flags : List Bool)
    → InPlace k slots
    → InPlace k (held_motion slots flags)
held_motion-InPlace k [] flags p = tt
held_motion-InPlace k (none ∷ slots) [] p = held_motion-InPlace (k + 1) slots [] p
held_motion-InPlace k (some frame ∷ slots) [] (_, p) = held_motion-InPlace (k + 1) slots [] p
held_motion-InPlace k (none ∷ slots) (true ∷ flags) p = held_motion-InPlace (k + 1) slots flags p
held_motion-InPlace k (none ∷ slots) (false ∷ flags) p = held_motion-InPlace (k + 1) slots flags p
held_motion-InPlace k (some frame ∷ slots) (true ∷ flags) (here, p) =
    (here, held_motion-InPlace (k + 1) slots flags p)
held_motion-InPlace k (some frame ∷ slots) (false ∷ flags) (_, p) =
    held_motion-InPlace (k + 1) slots flags p

pub length-held_motion :
    (slots : List (Option ActiveFrame)) (flags : List Bool)
    → length (held_motion slots flags) ≡ length slots
length-held_motion [] flags = refl
length-held_motion (slot ∷ slots) [] = omega (arith, length-held_motion slots [])
length-held_motion (slot ∷ slots) (flag ∷ flags) = omega (arith, length-held_motion slots flags)

-- One slot of each kind and one flag for every motor, and frames in the slots of their motors.
pub record Slotted (n motor_count : ℕ) (motions recoveries : List (Option ActiveFrame))
    (flags : List Bool) : Type 0 where
  pub counted : motor_count ≡ n
  pub motion_slots : length motions ≡ n
  pub recovery_slots : length recoveries ≡ n
  pub recovery_flags : length flags ≡ n
  pub motions_placed : InPlace 0 motions
  pub recoveries_placed : InPlace 0 recoveries

abbrev pub IsSlotted : ℕ → Transport → Type 0
IsSlotted n t =
    Slotted n t.motor_count t.pending_motion_frames t.pending_recovery_frames t.recovery_active

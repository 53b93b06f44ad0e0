-- ===== src/Transport/Worker.antt =====
-- robstride_driver/src/can_transport.cpp: `transmit_pending_frames`, the loop of the transmit thread,
-- in the steps between which other threads may run.
use robstride_ros.Prelude.{
  ℕ, ◌+◌, ◌-◌, Bool, true, false, not, ◌&&◌, ◌||◌, Option, none, some, List, [], ◌∷◌, ◌++◌,
  if◌then◌else◌, length, is_empty,
}
use robstride_ros.Protocol.{Frame}
use robstride_ros.Transport.State.{
  ActiveFrame, Transport, has_failed, has_sendable_active_frame, cleared, record_failure,
}
use robstride_ros.Transport.Publish.{
  Endpoint, Outcome, withheld, published, thrown, publish_transaction, publish_active,
}

-- The local `transactions`, `recovery_frames` and `motion_frames`, less what has been published.
pub record Batch : Type 0 where
  pub transactions : List Frame
  pub recovery_frames : List ActiveFrame
  pub motion_frames : List ActiveFrame

-- Where the thread stands. `taken` is the size that `transactions` had.
pub data Worker : Type 0 where
  waiting : Worker
  sending : Batch → ℕ → Worker
  settling : Worker
  exited : Worker

-- The wait predicate of the loop.
abbrev pub is_awake : Transport → Bool
is_awake t = not t.running || not (is_empty t.pending_transactions) || has_sendable_active_frame t

-- The condition of its `break`.
abbrev pub must_exit : Transport → Bool
must_exit t = has_failed t || (not t.running && is_empty t.pending_transactions)

abbrev pub present : List (Option ActiveFrame) → List ActiveFrame
present [] = []
present (none ∷ slots) = present slots
present (some frame ∷ slots) = frame ∷ present slots

-- The motion frames that are taken, and the slots that stay: those of motors in recovery.
abbrev pub free_motion : List (Option ActiveFrame) → List Bool → List ActiveFrame
free_motion [] flags = []
free_motion (slot ∷ slots) [] = present (slot ∷ []) ++ free_motion slots []
free_motion (slot ∷ slots) (flag ∷ flags) =
    (if flag then [] else present (slot ∷ [])) ++ free_motion slots flags

abbrev pub held_motion : List (Option ActiveFrame) → List Bool → List (Option ActiveFrame)
held_motion [] flags = []
held_motion (slot ∷ slots) [] = none ∷ held_motion slots []
held_motion (slot ∷ slots) (flag ∷ flags) = (if flag then slot else none) ∷ held_motion slots flags

-- The critical section that fills the three local queues.
unfoldable pub take_batch : Transport → Transport × Batch
take_batch t =
    if t.running
    then (
      record u {
        pending_recovery_frames = cleared t.pending_recovery_frames;
        pending_motion_frames = held_motion t.pending_motion_frames t.recovery_active;
      },
      record {
        transactions = t.pending_transactions;
        recovery_frames = present t.pending_recovery_frames;
        motion_frames = free_motion t.pending_motion_frames t.recovery_active;
      },
    )
    else (
      u,
      record { transactions = t.pending_transactions; recovery_frames = []; motion_frames = [] },
    )
  where
    u : Transport
    u = record t {
      pending_transactions = [];
      transactions_in_flight = t.transactions_in_flight + length t.pending_transactions;
    }

-- The thread wakes up.
unfoldable pub wake : Transport → Transport × Worker
wake t =
    if must_exit t
    then (t, exited)
    else (let (u, batch) = take_batch t in (u, sending batch (length batch.transactions)))

-- After a call of `publish_active` that did not throw.
abbrev pub note_progress : ℕ → Transport × Outcome → Transport × Outcome
note_progress now (t, withheld) = (record t { active_work_progress_ns = now }, withheld)
note_progress now (t, published) = (record t { active_work_progress_ns = now }, published)
note_progress now (t, thrown) = (t, thrown)

-- The `catch` of the loop: the thread ends, and so it does not settle what it has taken.
abbrev pub unless_thrown : Transport × Outcome → Worker → Transport × Worker
unless_thrown (t, withheld) next = (t, next)
unless_thrown (t, published) next = (t, next)
unless_thrown (t, thrown) next = (record_failure false t, exited)

-- `if (!transactions.empty()) {...}` after the three loops.
abbrev pub settle_transactions : ℕ → Transport → Transport
settle_transactions taken t = record t { transactions_in_flight = t.transactions_in_flight - taken }

-- The next call of the three loops over transactions, recovery frames and motion frames.
unfoldable pub send_next : Endpoint → ℕ → Batch → ℕ → Transport → Transport × Worker
send_next e now batch taken t = elim batch.transactions [
  | frame ∷ rest ↦
      unless_thrown (publish_transaction e now frame t)
        (sending (record batch { transactions = rest }) taken)
  | [] ↦ elim batch.recovery_frames [
    | frame ∷ rest ↦
        unless_thrown (note_progress now (publish_active e now frame true t))
          (sending (record batch { recovery_frames = rest }) taken)
    | [] ↦ elim batch.motion_frames [
      | frame ∷ rest ↦
          unless_thrown (note_progress now (publish_active e now frame false t))
            (sending (record batch { motion_frames = rest }) taken)
      | [] ↦ (settle_transactions taken t, settling)
    ]
  ]
]

-- The last critical section of a round.
unfoldable pub settle_progress : Transport → Transport × Worker
settle_progress t =
    if has_sendable_active_frame t
    then (t, waiting)
    else (record t { active_work_progress_ns = 0 }, waiting)

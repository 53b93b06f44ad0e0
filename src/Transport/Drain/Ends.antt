-- ===== src/Transport/Drain/Ends.antt =====
-- A stop hands on every accepted transaction, and the thread ends.
use robstride_ros.Prelude.{
  ℕ, ◌+◌, ◌≤◌, Bool, true, false, List, [], ◌∷◌, append-nil, ◌≡◌, ◌⊎◌, inl, inr, refl, ◌∙◌, arith,
  length,
}
use robstride_ros.Protocol.{Frame}
use robstride_ros.Transport.State.{ActiveFrame, Transport, transaction}
use robstride_ros.Transport.Publish.{
  Endpoint, withheld, published, publish_transaction, publish_active,
}
use robstride_ros.Transport.Worker.{
  Batch, Worker, waiting, sending, settling, exited, wake, take_batch, send_next, settle_progress,
}
use robstride_ros.Transport.Drain.{
  worker_step, work, owed, handed, wait_steps, steps_left, IsHalted, IsServing,
}

-- The thread has exited with nothing left to do, or not at all.
abbrev pub IsDone : Transport → Worker → Type 0
IsDone t exited = t.pending_transactions ≡ []
IsDone t _ = Unit

-- A step that keeps what is owed, and is one fewer to go.
abbrev IsProgress : Transport → Worker → Transport × Worker → Type 0
IsProgress t w next =
    IsHalted next.0
    × (handed (owed next.0 next.1) next.0.sent ≡ handed (owed t w) t.sent)
    × IsDone next.0 next.1
    × (steps_left next.0 next.1 + 1 ≤ steps_left t w)

List-cases :
    (frames : List Frame)
    → (frames ≡ []) ⊎ ((frame : Frame) × (rest : List Frame) × (frames ≡ frame ∷ rest))
List-cases [] = inl refl
List-cases (frame ∷ rest) = inr (frame, rest, refl)

publish_transaction-serving :
    (e : Endpoint) (now : ℕ) (frame : Frame) (t : Transport)
    → IsServing e
    → IsHalted t
    → let (u, outcome) = publish_transaction e now frame t in
      (outcome ≡ published)
      × IsHalted u
      × (u.sent ≡ transaction frame ∷ t.sent)
      × (u.pending_transactions ≡ t.pending_transactions)
unfolding publish_transaction
publish_transaction-serving e now frame t serving halted = ground arith

publish_active-halted :
    (e : Endpoint) (now : ℕ) (frame : ActiveFrame) (is_recovery : Bool) (t : Transport)
    → IsHalted t
    → publish_active e now frame is_recovery t ≡ (t, withheld)
unfolding publish_active
publish_active-halted e now frame is_recovery t halted = ground arith

waiting-IsProgress :
    (e : Endpoint) (now : ℕ) (t : Transport)
    → IsHalted t
    → IsProgress t waiting (worker_step e now t waiting)
unfolding worker_step wake take_batch
waiting-IsProgress e now t halted = elim (List-cases t.pending_transactions) [
  | inl none_left ↦ ground (arith, halted, none_left)
  | inr (frame, frames, some_left) ↦
      ground (arith, halted, some_left, append-nil t.pending_transactions)
]

settling-IsProgress :
    (e : Endpoint) (now : ℕ) (t : Transport)
    → IsHalted t
    → IsProgress t settling (worker_step e now t settling)
unfolding worker_step settle_progress
settling-IsProgress e now t halted = ground arith

abbrev batch_of : List Frame → List ActiveFrame → List ActiveFrame → Batch
batch_of transactions recoveries motions = record {
  transactions = transactions;
  recovery_frames = recoveries;
  motion_frames = motions;
}

-- The three loops.
transaction-IsProgress :
    (e : Endpoint) (now taken : ℕ) (frame : Frame) (rest : List Frame)
    (recoveries motions : List ActiveFrame) (t : Transport)
    → IsServing e
    → IsHalted t
    → let batch = batch_of (frame ∷ rest) recoveries motions in
      IsProgress t (sending batch taken) (send_next e now batch taken t)
unfolding send_next
transaction-IsProgress e now taken frame rest recoveries motions t serving halted =
    let sent = publish_transaction-serving e now frame t serving halted in ground (arith, sent)

active-IsProgress :
    (e : Endpoint) (now taken : ℕ) (recoveries motions : List ActiveFrame) (t : Transport)
    → IsHalted t
    → let batch = batch_of [] recoveries motions in
      IsProgress t (sending batch taken) (send_next e now batch taken t)
unfolding send_next
active-IsProgress e now taken (frame ∷ recoveries) motions t halted =
    rw (publish_active-halted e now frame true t halted) (halted, refl, tt, omega arith)
active-IsProgress e now taken [] (frame ∷ motions) t halted =
    rw (publish_active-halted e now frame false t halted) (halted, refl, tt, omega arith)
active-IsProgress e now taken [] [] t halted = (halted, refl, tt, omega arith)

sending-IsProgress :
    (e : Endpoint) (now taken : ℕ) (transactions : List Frame)
    (recoveries motions : List ActiveFrame) (t : Transport)
    → IsServing e
    → IsHalted t
    → let batch = batch_of transactions recoveries motions in
      IsProgress t (sending batch taken) (send_next e now batch taken t)
sending-IsProgress e now taken [] recoveries motions t serving halted =
    active-IsProgress e now taken recoveries motions t halted
sending-IsProgress e now taken (frame ∷ rest) recoveries motions t serving halted =
    transaction-IsProgress e now taken frame rest recoveries motions t serving halted

wait_steps-pos : (frames : List Frame) → 1 ≤ wait_steps frames
wait_steps-pos [] = omega arith
wait_steps-pos (frame ∷ frames) = omega arith

work-exited : (e : Endpoint) (times : List ℕ) (t : Transport) → work e times t exited ≡ (t, exited)
unfolding work worker_step
work-exited e [] t = refl
work-exited e (now ∷ times) t = work-exited e times t

-- Once the transport has been stopped without a failure and as long as the endpoint takes frames,
-- the transmit thread ends, wherever it stood (unless it had ended with transactions pending),
-- after at most `steps_left` steps of its own: by then it has handed on every accepted transaction,
-- in order, and no motion or recovery frame.
pub work-ends :
    (e : Endpoint) (times : List ℕ) (t : Transport) (w : Worker)
    → IsServing e
    → IsHalted t
    → IsDone t w
    → steps_left t w ≤ length times
    → let (u, x) = work e times t w in
      (x ≡ exited) × (u.pending_transactions ≡ []) × (u.sent ≡ handed (owed t w) t.sent)
unfolding work worker_step
work-ends e times t exited serving halted done enough =
    rw (work-exited e times t) (refl, done, rw done refl)
work-ends e [] t waiting serving halted done enough =
    absurd (ground (arith, wait_steps-pos t.pending_transactions))
work-ends e [] t (sending batch taken) serving halted done enough = absurd (omega arith)
work-ends e [] t settling serving halted done enough = absurd (omega arith)
work-ends e (now ∷ times) t waiting serving halted done enough =
    let (halted', same, done', fewer) = waiting-IsProgress e now t halted in
    let (over, none_left, all_sent) = work-ends e times _ _ serving halted' done' (omega arith) in
    (over, none_left, all_sent ∙ same)
work-ends e (now ∷ times) t (sending batch taken) serving halted done enough =
    let (halted', same, done', fewer) =
      sending-IsProgress e now taken batch.transactions batch.recovery_frames batch.motion_frames t
        serving halted in
    let (over, none_left, all_sent) = work-ends e times _ _ serving halted' done' (omega arith) in
    (over, none_left, all_sent ∙ same)
work-ends e (now ∷ times) t settling serving halted done enough =
    let (halted', same, done', fewer) = settling-IsProgress e now t halted in
    let (over, none_left, all_sent) = work-ends e times _ _ serving halted' done' (omega arith) in
    (over, none_left, all_sent ∙ same)

-- ===== src/Transport/System/Flight.antt =====
-- What `wait_for_transaction_acknowledgements` waits for.
use robstride_ros.Prelude.{
  ℕ, ◌≤◌, ◌≡◌, inl, inr, refl, true, false, List, [], ◌∷◌, ◌++◌, arith, has_value, Bool-cases,
  length, is_empty, ◌&&◌, ◌==◌, &&-eq-true, ==_iff,
}
use robstride_ros.Protocol.{Frame}
use robstride_ros.Transport.State.{
  ActiveFrame, RecoveryUpdate, Transport, has_failed, close_active_commands, next_generation,
  clear_recovery, discard_pending_active_frames, clear_progress, open_active_commands,
  record_failure, executor_shutdown, update_endpoint_status, has_sendable_active_frame,
}
use robstride_ros.Transport.Publish.{
  Endpoint, Outcome, withheld, published, thrown, publish_transaction, publish_active,
}
use robstride_ros.Transport.Queue.{
  send_transaction, queue_motion_frames_locked, mark_recovery, apply_recovery_updates_locked,
}
use robstride_ros.Transport.Worker.{
  Batch, Worker, waiting, sending, settling, exited, must_exit, wake, send_next, settle_progress,
  unless_thrown, note_progress,
}
use robstride_ros.Transport.Lifecycle.{halt, request_executor_stop, finish_stop, drained}
use robstride_ros.Transport.System.{
  System, Step, wakes, sends, settles, submits, queues, marks, recovers, closes, advances, clears,
  discards, rests, opens, fails, shuts_down, probes, halts, requests_stop, finishes, starts, after,
  created, Reach, here, next,
}
use robstride_ros.Transport.System.Keeps.{
  KeepsTransactions, take_batch_transactions, publish_transaction-Logs, publish_active-Logs,
  note_progress-Keeps, mark_recovery-Keeps, queue_motion_frames_locked-Keeps,
  apply_recovery_updates_locked-Keeps, update_endpoint_status-Keeps, reset-Keeps,
}
use robstride_ros.Transport.System.Fifo.{view, in_hand}

-- The counter of transactions in flight is the size of what the worker has taken, of which it may have
-- handed some on; of a worker that has ended nothing is said.
abbrev Counts : ℕ → Worker → Type 0
Counts in_flight waiting = in_flight ≡ 0
Counts in_flight (sending batch taken) = (in_flight ≡ taken) × (length batch.transactions ≤ taken)
Counts in_flight settling = in_flight ≡ 0
Counts in_flight exited = Unit

abbrev pub IsCounted : System → Type 0
IsCounted s = Counts s.transport.transactions_in_flight s.worker

of_keeps :
    (s : System) (u : Transport)
    → KeepsTransactions s.transport u
    → IsCounted s
    → IsCounted (record s { transport = u })
of_keeps s u (_, same) c = rw same c

-- After a call of a publisher.
unless_thrown-IsCounted :
    (p : Transport × Outcome) (batch : Batch) (taken : ℕ)
    → p.0.transactions_in_flight ≡ taken
    → length batch.transactions ≤ taken
    → IsCounted (after (unless_thrown p (sending batch taken)))
unless_thrown-IsCounted (t, withheld) batch taken e le = (e, le)
unless_thrown-IsCounted (t, published) batch taken e le = (e, le)
unless_thrown-IsCounted (t, thrown) batch taken e le = tt

send_active-IsCounted :
    (e : Endpoint) (now taken : ℕ) (recoveries motions : List ActiveFrame) (t : Transport)
    → t.transactions_in_flight ≡ taken
    → IsCounted (
        after (
          send_next e now
            (record { transactions = []; recovery_frames = recoveries; motion_frames = motions })
            taken
            t))
unfolding send_next
send_active-IsCounted e now taken [] [] t same = omega arith
send_active-IsCounted e now taken [] (frame ∷ rest) t same =
    let (_, _, (_, kept)) = publish_active-Logs e now frame false t in
    let (_, (_, noted)) = note_progress-Keeps now (publish_active e now frame false t) in
    unless_thrown-IsCounted (note_progress now (publish_active e now frame false t)) _ taken
      (omega arith) (omega arith)
send_active-IsCounted e now taken (frame ∷ rest) motions t same =
    let (_, _, (_, kept)) = publish_active-Logs e now frame true t in
    let (_, (_, noted)) = note_progress-Keeps now (publish_active e now frame true t) in
    unless_thrown-IsCounted (note_progress now (publish_active e now frame true t)) _ taken
      (omega arith) (omega arith)

send_next-IsCounted :
    (e : Endpoint) (now taken : ℕ) (transactions : List Frame)
    (recoveries motions : List ActiveFrame) (t : Transport)
    → t.transactions_in_flight ≡ taken
    → length transactions ≤ taken
    → IsCounted (
        after (
          send_next e now
            (record {
              transactions = transactions;
              recovery_frames = recoveries;
              motion_frames = motions;
            })
            taken
            t))
unfolding send_next
send_next-IsCounted e now taken [] recoveries motions t same le =
    send_active-IsCounted e now taken recoveries motions t same
send_next-IsCounted e now taken (frame ∷ rest) recoveries motions t same le =
    let (_, _, (_, kept)) = publish_transaction-Logs e now frame t in
    unless_thrown-IsCounted (publish_transaction e now frame t) _ taken (omega arith) (omega arith)

wake-IsCounted : (t : Transport) → t.transactions_in_flight ≡ 0 → IsCounted (after (wake t))
unfolding wake
wake-IsCounted t zero' =
    let (taken, _, counted, _) = take_batch_transactions t in
    elim (Bool-cases (must_exit t)) [
      | inl out ↦ rw (out, wake) tt
      | inr on ↦ rw (on, wake) (rw taken (omega arith), omega arith)
    ]

settle-IsCounted :
    (t : Transport) → t.transactions_in_flight ≡ 0 → IsCounted (after (settle_progress t))
unfolding settle_progress
settle-IsCounted t zero' = elim (Bool-cases (has_sendable_active_frame t)) [
  | inl more ↦ rw (more, settle_progress) zero'
  | inr idle ↦ rw (idle, settle_progress) zero'
]

send_transaction-Counts :
    (frame : Frame) (t : Transport)
    → (send_transaction frame t).transactions_in_flight ≡ t.transactions_in_flight
unfolding send_transaction
send_transaction-Counts frame t = ground arith

Step-IsCounted : {s u : System} → Step s u → IsCounted s → IsCounted u
unfolding close_active_commands next_generation clear_recovery discard_pending_active_frames
    clear_progress open_active_commands record_failure executor_shutdown halt request_executor_stop
    finish_stop
Step-IsCounted {s} (wakes w a e) c = rw e (wake-IsCounted s.transport (rw w at c))
Step-IsCounted {s} (sends ep now taken batch w room e) c =
    let (same, le) : Counts s.transport.transactions_in_flight (sending batch taken) = rw w at c in
    rw e (
      send_next-IsCounted ep now taken batch.transactions batch.recovery_frames batch.motion_frames
        s.transport same le)
Step-IsCounted {s} (settles w e) c = rw e (settle-IsCounted s.transport (rw w at c))
Step-IsCounted {s} (submits frame e) c = rw (e, send_transaction-Counts frame s.transport) c
Step-IsCounted {s} (queues generation now frames e) c = rw e (
    of_keeps s (queue_motion_frames_locked generation frames now s.transport)
      (queue_motion_frames_locked-Keeps generation frames now s.transport).1 c)
Step-IsCounted {s} (marks updates e) c =
    let flag = λ (update : RecoveryUpdate). has_value update.frame in
    rw e (
      of_keeps s (mark_recovery updates flag s.transport)
        (mark_recovery-Keeps updates flag s.transport).1 c)
Step-IsCounted {s} (recovers generation now updates e) c = rw e (
    of_keeps s (apply_recovery_updates_locked generation updates now s.transport)
      (apply_recovery_updates_locked-Keeps generation updates now s.transport).1 c)
Step-IsCounted {s} (closes e) c = rw e c
Step-IsCounted {s} (advances room e) c = rw e c
Step-IsCounted {s} (clears e) c = rw e c
Step-IsCounted {s} (discards e) c = rw e c
Step-IsCounted {s} (rests e) c = rw e c
Step-IsCounted {s} (opens e) c = rw e c
Step-IsCounted {s} (fails b room e) c = rw e c
Step-IsCounted {s} (shuts_down e) c = rw e c
Step-IsCounted {s} (probes available now e) c = rw e (
    of_keeps s (update_endpoint_status available now s.transport)
      (update_endpoint_status-Keeps available now s.transport).1 c)
Step-IsCounted {s} (halts e) c = rw e c
Step-IsCounted {s} (requests_stop e) c = rw e c
Step-IsCounted {s} (finishes w e) c = rw (e, w) tt
Step-IsCounted {s} (starts ep now w e) c =
    let (_, (_, same)) = reset-Keeps ep now (finish_stop s.transport) in rw e same

pub Reach-IsCounted : {s u : System} → IsCounted s → Reach s u → IsCounted u
Reach-IsCounted c here = c
Reach-IsCounted c (next r st) = Step-IsCounted st (Reach-IsCounted c r)

no_more : (frames : List Frame) → length frames ≤ 0 → frames ≡ []
no_more [] h = refl
no_more (f ∷ frames) h = absurd (omega arith)

drained_by :
    (w : Worker) (pending : List Frame) (n : ℕ)
    → Counts n w
    → n ≡ 0
    → pending ≡ []
    → in_hand w ++ pending ≡ []
drained_by waiting pending n c e e' = e'
drained_by (sending batch taken) pending n (same, le) e e' =
    rw (no_more batch.transactions (omega arith), e')
drained_by settling pending n c e e' = e'
drained_by exited pending n c e e' = e'

is_empty-nil : {A : Type 0} (xs : List A) → is_empty xs ≡ true → xs ≡ []
is_empty-nil [] h = refl
is_empty-nil (x ∷ xs) h = cc

drained-view :
    (s : System)
    → IsCounted s
    → has_failed s.transport ≡ false
    → drained s.transport ≡ true
    → (view s).outstanding ≡ []
drained-view s c ok d =
    let t = s.transport in
    let both : (is_empty t.pending_transactions && t.transactions_in_flight == 0) ≡ true =
      rw ok at d in
    let (pending, none) =
      &&-eq-true (is_empty t.pending_transactions) (t.transactions_in_flight == 0) both in
    drained_by s.worker t.pending_transactions t.transactions_in_flight c ((==_iff _ _).0 none)
      (is_empty-nil t.pending_transactions pending)

-- From a new transport on, whatever the threads do: once the predicate that
-- `wait_for_transaction_acknowledgements` waits for holds and nothing has failed, no accepted
-- transaction is left, neither in the queue nor in the worker's hands.
pub drained_sound :
    (motor_count : ℕ) (u : System)
    → Reach (created motor_count) u
    → has_failed u.transport ≡ false
    → drained u.transport ≡ true
    → (view u).outstanding ≡ []
drained_sound motor_count u r ok d = drained-view u (Reach-IsCounted tt r) ok d

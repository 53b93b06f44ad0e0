-- ===== src/Transport/System/Fifo.antt =====
-- The transaction queue of a `CanTransport` refines a plain queue.
use robstride_ros.Prelude.{
  ℕ, ◌≡◌, inl, inr, refl, sym, ap, ◌∙◌, Bool, true, false, List, [], ◌∷◌, ◌++◌, append_assoc,
  append-nil, arith, has_value, Bool-cases,
}
use robstride_ros.Protocol.{Frame}
use robstride_ros.Transport.State.{
  ActiveFrame, RecoveryUpdate, Sent, transaction, recovery, motion, Transport,
  close_active_commands, next_generation, clear_recovery, discard_pending_active_frames,
  clear_progress, open_active_commands, record_failure, executor_shutdown, update_endpoint_status,
  has_sendable_active_frame,
}
use robstride_ros.Transport.Publish.{
  Endpoint, Outcome, withheld, published, thrown, publish_transaction, publish_active, sent_as,
}
use robstride_ros.Transport.Queue.{
  send_transaction, queue_motion_frames_locked, mark_recovery, apply_recovery_updates_locked,
}
use robstride_ros.Transport.Worker.{
  Batch, Worker, waiting, sending, settling, exited, must_exit, wake, send_next, settle_progress,
  unless_thrown, note_progress,
}
use robstride_ros.Transport.Lifecycle.{halt, request_executor_stop, finish_stop}
use robstride_ros.Transport.System.{
  System, Step, wakes, sends, settles, submits, queues, marks, recovers, closes, advances, clears,
  discards, rests, opens, fails, shuts_down, probes, halts, requests_stop, finishes, starts,
  HasRoom, after,
}
use robstride_ros.Transport.System.Keeps.{
  KeepsTransactions, take_batch_transactions, Logs, publish_transaction-Logs,
  publish_transaction-thrown, publish_active-Logs, unless_thrown-Keeps, note_progress-Keeps,
  mark_recovery-Keeps, queue_motion_frames_locked-Keeps, apply_recovery_updates_locked-Keeps,
  update_endpoint_status-Keeps, reset-Keeps,
}

-- The transactions in a log, newest first.
abbrev pub transactions_of : List Sent → List Frame
transactions_of [] = []
transactions_of (transaction frame ∷ log) = frame ∷ transactions_of log
transactions_of (recovery frame ∷ log) = transactions_of log
transactions_of (motion frame ∷ log) = transactions_of log

-- The transactions that the worker has taken and not yet handed on.
abbrev pub in_hand : Worker → List Frame
in_hand waiting = []
in_hand (sending batch taken) = batch.transactions
in_hand settling = []
in_hand exited = []

-- A queue and what was delivered from it, newest first.
pub record View : Type 0 where
  pub outstanding : List Frame
  pub delivered : List Frame

abbrev pub view : System → View
view s = record {
  outstanding = in_hand s.worker ++ s.transport.pending_transactions;
  delivered = transactions_of s.transport.sent;
}

-- A frame is put in at the back; the frame in front is delivered; or frames in front are lost.
pub data Move (v w : View) : Type 0 where
  keep : w.outstanding ≡ v.outstanding → w.delivered ≡ v.delivered → Move v w
  push :
      (frame : Frame)
      → w.outstanding ≡ v.outstanding ++ frame ∷ []
      → w.delivered ≡ v.delivered
      → Move v w
  deliver :
      (frame : Frame)
      → v.outstanding ≡ frame ∷ w.outstanding
      → w.delivered ≡ frame ∷ v.delivered
      → Move v w
  lose :
      (lost : List Frame)
      → v.outstanding ≡ lost ++ w.outstanding
      → w.delivered ≡ v.delivered
      → Move v w

of_keeps :
    (s : System) (u : Transport)
    → u.sent ≡ s.transport.sent
    → u.pending_transactions ≡ s.transport.pending_transactions
    → Move (view s) (view (record s { transport = u }))
of_keeps s u log pending = keep (rw pending) (rw log)

-- The worker hands its first transaction on.
transaction-Move :
    (p : Transport × Outcome) (frame : Frame) (batch : Batch) (rest : List Frame) (taken : ℕ)
    (t : Transport)
    → Logs (transaction frame) (Unit {0}) t p.0
    → KeepsTransactions t p.0
    → (p.1 ≡ thrown → p.0.sent ≡ t.sent)
    → Move
        (record {
          outstanding = frame ∷ rest ++ t.pending_transactions;
          delivered = transactions_of t.sent;
        })
        (view (after (unless_thrown p (sending (record batch { transactions = rest }) taken))))
unfolding record_failure
transaction-Move (u, withheld) frame batch rest taken t (inl same) (kept, _) none =
    lose (frame ∷ []) (rw kept) (rw same)
transaction-Move (u, withheld) frame batch rest taken t (inr (entry, _)) (kept, _) none =
    deliver frame (rw kept) (rw entry)
transaction-Move (u, published) frame batch rest taken t (inl same) (kept, _) none =
    lose (frame ∷ []) (rw kept) (rw same)
transaction-Move (u, published) frame batch rest taken t (inr (entry, _)) (kept, _) none =
    deliver frame (rw kept) (rw entry)
transaction-Move (u, thrown) frame batch rest taken t logged (kept, _) none =
    lose (frame ∷ rest) (rw kept) (rw (none refl))

-- An entry of an active frame is no transaction.
transactions_of-active :
    {A : Type 0} (is_recovery : Bool) (frame : ActiveFrame) (t u : Transport)
    → Logs (sent_as is_recovery frame) A t u
    → transactions_of u.sent ≡ transactions_of t.sent
transactions_of-active is_recovery frame t u (inl same) = rw same
transactions_of-active true frame t u (inr (entry, _)) = rw entry
transactions_of-active false frame t u (inr (entry, _)) = rw entry

in_hand-unless_thrown :
    (p : Transport × Outcome) (w : Worker) → in_hand w ≡ [] → in_hand (unless_thrown p w).1 ≡ []
in_hand-unless_thrown (t, withheld) w h = h
in_hand-unless_thrown (t, published) w h = h
in_hand-unless_thrown (t, thrown) w h = refl

-- The worker hands an active frame on, with no transaction in hand.
active-Move :
    (e : Endpoint) (now : ℕ) (frame : ActiveFrame) (is_recovery : Bool) (batch : Batch) (taken : ℕ)
    (t : Transport)
    → HasRoom t
    → batch.transactions ≡ []
    → Move
        (record { outstanding = t.pending_transactions; delivered = transactions_of t.sent })
        (view (
          after (
            unless_thrown
              (note_progress now (publish_active e now frame is_recovery t))
              (sending batch taken))))
active-Move e now frame is_recovery batch taken t room b =
    let p = publish_active e now frame is_recovery t in
    let (logged, same, (pending, _)) = publish_active-Logs e now frame is_recovery t in
    let ((noted, same'), (pending', _)) = note_progress-Keeps now p in
    let (kept, _, (pending'', _)) =
      unless_thrown-Keeps (note_progress now p) (sending batch taken) (omega arith) in
    keep
      (rw (in_hand-unless_thrown (note_progress now p) (sending batch taken) b)
        (pending'' ∙ pending' ∙ pending))
      (ap transactions_of (kept ∙ noted) ∙ transactions_of-active is_recovery frame t p.0 logged)

send_active-Move :
    (e : Endpoint) (now taken : ℕ) (recoveries motions : List ActiveFrame) (t : Transport)
    → HasRoom t
    → Move
        (record { outstanding = t.pending_transactions; delivered = transactions_of t.sent })
        (view (
          after (
            send_next e now
              (record { transactions = []; recovery_frames = recoveries; motion_frames = motions })
              taken
              t)))
unfolding send_next
send_active-Move e now taken [] [] t room = keep refl refl
send_active-Move e now taken [] (frame ∷ rest) t room =
    active-Move e now frame false _ taken t room refl
send_active-Move e now taken (frame ∷ rest) motions t room =
    active-Move e now frame true _ taken t room refl

send_next-Move :
    (e : Endpoint) (now taken : ℕ) (transactions : List Frame)
    (recoveries motions : List ActiveFrame) (t : Transport)
    → HasRoom t
    → let batch : Batch = record {
      transactions = transactions;
      recovery_frames = recoveries;
      motion_frames = motions;
    } in
      Move
        (view (record { transport = t; worker = sending batch taken }))
        (view (after (send_next e now batch taken t)))
unfolding send_next
send_next-Move e now taken [] recoveries motions t room =
    send_active-Move e now taken recoveries motions t room
send_next-Move e now taken (frame ∷ rest) recoveries motions t room =
    let (logged, _, kept) = publish_transaction-Logs e now frame t in
    transaction-Move (publish_transaction e now frame t) frame
      (record { transactions = []; recovery_frames = recoveries; motion_frames = motions }) rest
      taken t logged kept (publish_transaction-thrown e now frame t)

wake-Move :
    (t : Transport)
    → Move (view (record { transport = t; worker = waiting })) (view (after (wake t)))
unfolding wake
wake-Move t =
    let (taken, none, _, (log, _)) = take_batch_transactions t in
    elim (Bool-cases (must_exit t)) [
      | inl out ↦ rw (out, wake) (keep refl refl)
      | inr on ↦
          rw (on, wake)
            (keep (rw (taken, none) (append-nil t.pending_transactions)) (ap transactions_of log))
    ]

send_transaction-Move :
    (frame : Frame) (s : System)
    → Move (view s) (view (record s { transport = send_transaction frame s.transport }))
unfolding send_transaction
send_transaction-Move frame s = elim (Bool-cases s.transport.running) [
  | inl on ↦
      rw (on, send_transaction)
        (push frame
          (sym (append_assoc (in_hand s.worker) s.transport.pending_transactions (frame ∷ [])))
          refl)
  | inr off ↦ rw (off, send_transaction) (keep refl refl)
]

settle-Move :
    (t : Transport)
    → Move (view (record { transport = t; worker = settling })) (view (after (settle_progress t)))
unfolding settle_progress
settle-Move t = elim (Bool-cases (has_sendable_active_frame t)) [
  | inl more ↦ rw (more, settle_progress) (keep refl refl)
  | inr idle ↦ rw (idle, settle_progress) (keep refl refl)
]

at_worker :
    (s : System) (w : Worker) (v : View)
    → s.worker ≡ w
    → Move (view (record s { worker = w })) v
    → Move (view s) v
at_worker s w v e m = rw e m

-- Every step of every thread leaves the transactions as they are, or adds one at the back, or delivers
-- the one in front, or loses some in front: what reaches the bus of the accepted transactions is in
-- the order of acceptance, and none is sent twice. The generation counter is not to wrap.
pub Step-Move : {s u : System} → Step s u → Move (view s) (view u)
unfolding close_active_commands next_generation clear_recovery discard_pending_active_frames
    clear_progress open_active_commands record_failure executor_shutdown halt request_executor_stop
    finish_stop
Step-Move {s} (wakes w a e) =
    rw e (at_worker s waiting (view (after (wake s.transport))) w (wake-Move s.transport))
Step-Move {s} (sends ep now taken batch w room e) = rw e (
    at_worker s (sending batch taken) (view (after (send_next ep now batch taken s.transport))) w (
      send_next-Move ep now taken batch.transactions batch.recovery_frames batch.motion_frames
        s.transport room))
Step-Move {s} (settles w e) =
    rw e (
      at_worker s settling (view (after (settle_progress s.transport))) w (settle-Move s.transport))
Step-Move {s} (submits frame e) = rw e (send_transaction-Move frame s)
Step-Move {s} (queues generation now frames e) =
    let ((log, _), (pending, _)) =
      queue_motion_frames_locked-Keeps generation frames now s.transport in
    rw e (of_keeps s (queue_motion_frames_locked generation frames now s.transport) log pending)
Step-Move {s} (marks updates e) =
    let flag = λ (update : RecoveryUpdate). has_value update.frame in
    let ((log, _), (pending, _)) = mark_recovery-Keeps updates flag s.transport in
    rw e (of_keeps s (mark_recovery updates flag s.transport) log pending)
Step-Move {s} (recovers generation now updates e) =
    let ((log, _), (pending, _)) =
      apply_recovery_updates_locked-Keeps generation updates now s.transport in
    rw e (of_keeps s (apply_recovery_updates_locked generation updates now s.transport) log pending)
Step-Move {s} (closes e) = rw e (keep refl refl)
Step-Move {s} (advances room e) = rw e (keep refl refl)
Step-Move {s} (clears e) = rw e (keep refl refl)
Step-Move {s} (discards e) = rw e (keep refl refl)
Step-Move {s} (rests e) = rw e (keep refl refl)
Step-Move {s} (opens e) = rw e (keep refl refl)
Step-Move {s} (fails b room e) = rw e (keep refl refl)
Step-Move {s} (shuts_down e) = rw e (keep refl refl)
Step-Move {s} (probes available now e) =
    let ((log, _), (pending, _)) = update_endpoint_status-Keeps available now s.transport in
    rw e (of_keeps s (update_endpoint_status available now s.transport) log pending)
Step-Move {s} (halts e) = rw e (keep refl refl)
Step-Move {s} (requests_stop e) = rw e (keep refl refl)
Step-Move {s} (finishes w e) =
    rw (e, w) (lose s.transport.pending_transactions (sym (append-nil _)) refl)
Step-Move {s} (starts ep now w e) =
    let ((log, _), (pending, _)) = reset-Keeps ep now (finish_stop s.transport) in
    rw (e, w)
      (lose s.transport.pending_transactions (rw pending (sym (append-nil _)))
        (ap transactions_of log))

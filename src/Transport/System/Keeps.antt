-- ===== src/Transport/System/Keeps.antt =====
-- What the single operations do to the log and the generation.
use robstride_ros.Prelude.{
  length, [], ◌+◌, ℕ, ◌≤◌, ◌≡◌, ◌⊎◌, inl, inr, refl, Bool, true, false, List, [], ◌∷◌, arith,
  has_value, ◌||◌,
}
use robstride_ros.Protocol.{Frame}
use robstride_ros.Transport.State.{
  ActiveFrame, Sent, transaction, recovery, motion, Transport, MotorFrame, RecoveryUpdate,
  record_failure, update_endpoint_status,
}
use robstride_ros.Transport.Publish.{
  Endpoint, publish_unlocked, publish_transaction, publish_active, sent_as, Outcome, thrown,
  withheld, published,
}
use robstride_ros.Transport.Queue.{
  send_transaction, place_motion, place_motions, queue_motion_frames_locked, mark_recovery,
  place_recovery, place_recoveries, mark_one, apply_recovery_updates_locked,
}
use robstride_ros.Transport.Worker.{
  take_batch, Worker, wake, send_next, settle_progress, unless_thrown, note_progress,
}
use robstride_ros.Transport.Lifecycle.{reset}
use robstride_ros.Transport.System.{HasRoom}

-- An entry of the log that is not older than a generation; transactions have none.
abbrev pub IsSince : ℕ → Sent → Type 0
IsSince g (transaction frame) = Unit
IsSince g (recovery frame) = g ≤ frame.generation
IsSince g (motion frame) = g ≤ frame.generation

-- Neither the log nor the generation changes.
abbrev pub KeepsLog : Transport → Transport → Type 0
KeepsLog t u = (u.sent ≡ t.sent) × (u.active_generation ≡ t.active_generation)

-- What is pending and in flight of the transactions does not change.
abbrev pub KeepsTransactions : Transport → Transport → Type 0
KeepsTransactions t u =
    (u.pending_transactions ≡ t.pending_transactions)
    × (u.transactions_in_flight ≡ t.transactions_in_flight)

abbrev pub Keeps : Transport → Transport → Type 0
Keeps t u = KeepsLog t u × KeepsTransactions t u

-- The log grows by one entry at most, of the present generation, and the generation does not fall.
abbrev pub Grows : Transport → Transport → Type 0
Grows t u =
    ((u.sent ≡ t.sent) ⊎ ((x : Sent) × (u.sent ≡ x ∷ t.sent) × IsSince t.active_generation x))
    × (t.active_generation ≤ u.active_generation)

publish_unlocked-Keeps :
    (e : Endpoint) (now : ℕ) (x : Sent) (t : Transport)
    → let u = (publish_unlocked e now x t).0 in
      ((u.sent ≡ t.sent) ⊎ (u.sent ≡ x ∷ t.sent))
      × (u.active_generation ≡ t.active_generation)
      × KeepsTransactions t u
unfolding publish_unlocked
publish_unlocked-Keeps e now x t = ground arith

-- What a call of a publisher does to the log: it stays, or it gets this entry, and then `A` holds.
abbrev pub Logs {ℓ} : Sent → Type ℓ → Transport → Transport → Type ℓ
Logs x A t u = (u.sent ≡ t.sent) ⊎ ((u.sent ≡ x ∷ t.sent) × A)

pub publish_transaction-Logs :
    (e : Endpoint) (now : ℕ) (frame : Frame) (t : Transport)
    → let u = (publish_transaction e now frame t).0 in
      Logs (transaction frame) (Unit {0}) t u
      × (u.active_generation ≡ t.active_generation)
      × KeepsTransactions t u
unfolding publish_transaction
publish_transaction-Logs e now frame t =
    ground (arith, publish_unlocked-Keeps e now (transaction frame) t)

-- An exception leaves the log as it was.
pub publish_transaction-thrown :
    (e : Endpoint) (now : ℕ) (frame : Frame) (t : Transport)
    → (publish_transaction e now frame t).1 ≡ thrown
    → (publish_transaction e now frame t).0.sent ≡ t.sent
unfolding publish_transaction
publish_transaction-thrown e now frame t h = ground arith

pub publish_active-Logs :
    (e : Endpoint) (now : ℕ) (frame : ActiveFrame) (is_recovery : Bool) (t : Transport)
    → let u = (publish_active e now frame is_recovery t).0 in
      Logs (sent_as is_recovery frame) (t.active_generation ≤ frame.generation) t u
      × (u.active_generation ≡ t.active_generation)
      × KeepsTransactions t u
unfolding publish_active
publish_active-Logs e now frame true t =
    ground (arith, publish_unlocked-Keeps e now (recovery frame) t)
publish_active-Logs e now frame false t =
    ground (arith, publish_unlocked-Keeps e now (motion frame) t)

-- A step with an entry that is not too old grows the log as it may.
grows :
    (x : Sent) (A : Type 0) (t u : Transport)
    → (A → IsSince t.active_generation x)
    → Logs x A t u
    → t.active_generation ≤ u.active_generation
    → Grows t u
grows x A t u since (inl same) le = (inl same, le)
grows x A t u since (inr (entry, a)) le = (inr (x, entry, since a), le)

-- What follows a call of a publisher keeps the log, and at most a new generation begins.
pub unless_thrown-Keeps :
    (p : Transport × Outcome) (w : Worker)
    → HasRoom p.0
    → ((unless_thrown p w).0.sent ≡ p.0.sent)
      × (p.0.active_generation ≤ (unless_thrown p w).0.active_generation)
      × KeepsTransactions p.0 (unless_thrown p w).0
unfolding record_failure
unless_thrown-Keeps (t, withheld) w room = (refl, omega arith, (refl, refl))
unless_thrown-Keeps (t, published) w room = (refl, omega arith, (refl, refl))
unless_thrown-Keeps (t, thrown) w room = (refl, omega arith, (refl, refl))

pub note_progress-Keeps : (now : ℕ) (p : Transport × Outcome) → Keeps p.0 (note_progress now p).0
note_progress-Keeps now (t, withheld) = ((refl, refl), (refl, refl))
note_progress-Keeps now (t, published) = ((refl, refl), (refl, refl))
note_progress-Keeps now (t, thrown) = ((refl, refl), (refl, refl))

after_transaction-Grows :
    (e : Endpoint) (now : ℕ) (frame : Frame) (t : Transport) (w : Worker)
    → HasRoom t
    → Grows t (unless_thrown (publish_transaction e now frame t) w).0
after_transaction-Grows e now frame t w room =
    let p = publish_transaction e now frame t in
    let (logged, same, _) = publish_transaction-Logs e now frame t in
    let (kept, le, _) = unless_thrown-Keeps p w (omega arith) in
    grows (transaction frame) (Unit {0}) t (unless_thrown p w).0 (λ _. tt) (rw kept logged)
      (omega arith)

after_active-Grows :
    (e : Endpoint) (now : ℕ) (frame : ActiveFrame) (is_recovery : Bool) (t : Transport) (w : Worker)
    → (t.active_generation ≤ frame.generation
        → IsSince t.active_generation (sent_as is_recovery frame))
    → HasRoom t
    → Grows t (unless_thrown (note_progress now (publish_active e now frame is_recovery t)) w).0
after_active-Grows e now frame is_recovery t w since room =
    let p = publish_active e now frame is_recovery t in
    let (logged, same, _) = publish_active-Logs e now frame is_recovery t in
    let ((noted, same'), _) = note_progress-Keeps now p in
    let (kept, le, _) = unless_thrown-Keeps (note_progress now p) w (omega arith) in
    grows (sent_as is_recovery frame) (t.active_generation ≤ frame.generation) t
      (unless_thrown (note_progress now p) w).0 since (rw (kept, noted) logged) (omega arith)

send_active-Grows :
    (e : Endpoint) (now taken : ℕ) (recoveries motions : List ActiveFrame) (t : Transport)
    → HasRoom t
    → Grows t
        (send_next e now
          (record { transactions = []; recovery_frames = recoveries; motion_frames = motions })
          taken
          t).0
unfolding send_next
send_active-Grows e now taken [] [] t room = (inl refl, omega arith)
send_active-Grows e now taken [] (frame ∷ rest) t room =
    after_active-Grows e now frame false t _ (λ h. h) room
send_active-Grows e now taken (frame ∷ rest) motions t room =
    after_active-Grows e now frame true t _ (λ h. h) room

pub send_next-Grows :
    (e : Endpoint) (now taken : ℕ) (transactions : List Frame)
    (recoveries motions : List ActiveFrame) (t : Transport)
    → HasRoom t
    → Grows t
        (send_next e now
          (record {
            transactions = transactions;
            recovery_frames = recoveries;
            motion_frames = motions;
          })
          taken
          t).0
unfolding send_next
send_next-Grows e now taken [] recoveries motions t room =
    send_active-Grows e now taken recoveries motions t room
send_next-Grows e now taken (frame ∷ rest) recoveries motions t room =
    after_transaction-Grows e now frame t _ room

place_motions-Keeps :
    (frames : List MotorFrame) (generation : ℕ) (enqueued : Bool) (t : Transport)
    → Keeps t (place_motions frames generation enqueued t).0
unfolding place_motions
place_motions-Keeps [] generation enqueued t = ((refl, refl), (refl, refl))
place_motions-Keeps (update ∷ frames) generation enqueued t = ground (
  arith,
  place_motions-Keeps frames generation enqueued t,
  place_motions-Keeps frames generation true (place_motion update generation t),
)

pub mark_recovery-Keeps :
    (updates : List RecoveryUpdate) (flag : RecoveryUpdate → Bool) (t : Transport)
    → Keeps t (mark_recovery updates flag t)
unfolding mark_recovery
mark_recovery-Keeps [] flag t = ((refl, refl), (refl, refl))
mark_recovery-Keeps (update ∷ updates) flag t =
    ground (arith, mark_recovery-Keeps updates flag (mark_one update (flag update) t))

place_recoveries-Keeps :
    (updates : List RecoveryUpdate) (generation : ℕ) (enqueued : Bool) (t : Transport)
    → Keeps t (place_recoveries updates generation enqueued t).0
unfolding place_recoveries
place_recoveries-Keeps [] generation enqueued t = ((refl, refl), (refl, refl))
place_recoveries-Keeps (update ∷ updates) generation enqueued t = ground (
  arith,
  place_recoveries-Keeps updates generation enqueued t,
  place_recoveries-Keeps updates generation (enqueued || has_value update.frame)
      (place_recovery update generation t),
)

pub queue_motion_frames_locked-Keeps :
    (generation : ℕ) (frames : List MotorFrame) (now : ℕ) (t : Transport)
    → Keeps t (queue_motion_frames_locked generation frames now t)
unfolding queue_motion_frames_locked
queue_motion_frames_locked-Keeps generation frames now t =
    ground (arith, place_motions-Keeps frames generation false t)

pub apply_recovery_updates_locked-Keeps :
    (generation : ℕ) (updates : List RecoveryUpdate) (now : ℕ) (t : Transport)
    → Keeps t (apply_recovery_updates_locked generation updates now t)
unfolding apply_recovery_updates_locked
apply_recovery_updates_locked-Keeps generation updates now t = ground (
  arith,
  mark_recovery-Keeps updates (λ _. false) t,
  place_recoveries-Keeps updates generation false t,
)

pub of_keeps : (t u : Transport) → KeepsLog t u → Grows t u
of_keeps t u (same, generation) = (inl same, omega arith)

-- The worker takes all pending transactions and counts them as in flight.
pub take_batch_transactions :
    (t : Transport)
    → let (u, batch) = take_batch t in
      (batch.transactions ≡ t.pending_transactions)
      × (u.pending_transactions ≡ [])
      × (u.transactions_in_flight ≡ t.transactions_in_flight + length t.pending_transactions)
      × KeepsLog t u
unfolding take_batch
take_batch_transactions t = ground arith

pub wake-Keeps : (t : Transport) → KeepsLog t (wake t).0
unfolding wake
wake-Keeps t = ground (arith, take_batch_transactions t)

pub send_transaction-Keeps : (frame : Frame) (t : Transport) → KeepsLog t (send_transaction frame t)
unfolding send_transaction
send_transaction-Keeps frame t = ground arith

pub settle_progress-Keeps : (t : Transport) → Keeps t (settle_progress t).0
unfolding settle_progress
settle_progress-Keeps t = ground arith

pub update_endpoint_status-Keeps :
    (available : Bool) (now : ℕ) (t : Transport) → Keeps t (update_endpoint_status available now t)
unfolding update_endpoint_status
update_endpoint_status-Keeps available now t = ground arith

pub reset-Keeps : (e : Endpoint) (now : ℕ) (t : Transport) → Keeps t (reset e now t)
unfolding reset
reset-Keeps e now t = ground arith

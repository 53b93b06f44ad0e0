-- ===== src/Transport/System/Fresh.antt =====
-- No active frame outlives its generation: what `disable_active_commands` promises.
use robstride_ros.Prelude.{
  ℕ, ◌+◌, ◌≤◌, ◌≡◌, inl, inr, refl, List, [], ◌∷◌, ◌++◌, All, arith, bump_u64, subst, has_value,
  ◌∙◌,
}
use robstride_ros.Transport.State.{
  Sent, transaction, recovery, motion, close_active_commands, next_generation, clear_recovery,
  discard_pending_active_frames, clear_progress, open_active_commands, record_failure,
  executor_shutdown, disable_active_commands, update_endpoint_status,
}
use robstride_ros.Transport.Lifecycle.{halt, request_executor_stop, finish_stop}
use robstride_ros.Transport.System.{
  System, Step, wakes, sends, settles, submits, queues, marks, recovers, closes, advances, clears,
  discards, rests, opens, fails, shuts_down, probes, halts, requests_stop, finishes, starts, Reach,
  here, next, HasRoom,
}
use robstride_ros.Transport.Queue.{
  send_transaction, queue_motion_frames_locked, mark_recovery, apply_recovery_updates_locked,
}
use robstride_ros.Transport.Worker.{wake, settle_progress}
use robstride_ros.Transport.System.Keeps.{
  IsSince, Grows, send_next-Grows, mark_recovery-Keeps, queue_motion_frames_locked-Keeps,
  apply_recovery_updates_locked-Keeps, of_keeps, wake-Keeps, send_transaction-Keeps,
  settle_progress-Keeps, update_endpoint_status-Keeps, reset-Keeps,
}

-- Every step of every thread lets the log grow by one entry of the present generation at most.
pub Step-Grows : {s u : System} → Step s u → Grows s.transport u.transport
unfolding close_active_commands next_generation clear_recovery discard_pending_active_frames
    clear_progress open_active_commands record_failure executor_shutdown halt request_executor_stop
    finish_stop
Step-Grows {s} (wakes w a e) =
    rw e (of_keeps s.transport (wake s.transport).0 (wake-Keeps s.transport))
Step-Grows {s} (sends ep now taken batch w room e) = rw e (
    send_next-Grows ep now taken batch.transactions batch.recovery_frames batch.motion_frames
      s.transport room)
Step-Grows {s} (settles w e) =
    rw e
      (of_keeps s.transport (settle_progress s.transport).0 (settle_progress-Keeps s.transport).0)
Step-Grows {s} (submits frame e) = rw e (
    of_keeps s.transport (send_transaction frame s.transport)
      (send_transaction-Keeps frame s.transport))
Step-Grows {s} (queues generation now frames e) = rw e (
    of_keeps s.transport (queue_motion_frames_locked generation frames now s.transport)
      (queue_motion_frames_locked-Keeps generation frames now s.transport).0)
Step-Grows {s} (marks updates e) = rw e (
    of_keeps s.transport (mark_recovery updates (λ update. has_value update.frame) s.transport)
      (mark_recovery-Keeps updates (λ update. has_value update.frame) s.transport).0)
Step-Grows {s} (recovers generation now updates e) = rw e (
    of_keeps s.transport (apply_recovery_updates_locked generation updates now s.transport)
      (apply_recovery_updates_locked-Keeps generation updates now s.transport).0)
Step-Grows {s} (closes e) = rw e (inl refl, omega arith)
Step-Grows {s} (advances room e) = rw e (inl refl, omega arith)
Step-Grows {s} (clears e) = rw e (inl refl, omega arith)
Step-Grows {s} (discards e) = rw e (inl refl, omega arith)
Step-Grows {s} (rests e) = rw e (inl refl, omega arith)
Step-Grows {s} (opens e) = rw e (inl refl, omega arith)
Step-Grows {s} (fails b room e) = rw e (inl refl, omega arith)
Step-Grows {s} (shuts_down e) = rw e (inl refl, omega arith)
Step-Grows {s} (probes available now e) = rw e (
    of_keeps s.transport (update_endpoint_status available now s.transport)
      (update_endpoint_status-Keeps available now s.transport).0)
Step-Grows {s} (halts e) = rw e (inl refl, omega arith)
Step-Grows {s} (requests_stop e) = rw e (inl refl, omega arith)
Step-Grows {s} (finishes w e) = rw e (inl refl, omega arith)
Step-Grows {s} (starts ep now w e) =
    let ((log, generation), _) = reset-Keeps ep now (finish_stop s.transport) in
    rw e (inl log, omega arith)

IsSince-mono : (g h : ℕ) → g ≤ h → (x : Sent) → IsSince h x → IsSince g x
IsSince-mono g h le (transaction frame) p = tt
IsSince-mono g h le (recovery frame) p = omega arith
IsSince-mono g h le (motion frame) p = omega arith

Reach-Grows :
    {s u : System}
    → Reach s u
    → (new : List Sent) × (u.transport.sent ≡ new ++ s.transport.sent)
      × All (IsSince s.transport.active_generation) new
      × (s.transport.active_generation ≤ u.transport.active_generation)
Reach-Grows here = ([], refl, tt, omega arith)
Reach-Grows {s} {u} (next {t = t} r st) = extend (Reach-Grows r) (Step-Grows st)
  where
    extend :
        (new : List Sent) × (t.transport.sent ≡ new ++ s.transport.sent)
          × All (IsSince s.transport.active_generation) new
          × (s.transport.active_generation ≤ t.transport.active_generation)
        → Grows t.transport u.transport
        → (new : List Sent) × (u.transport.sent ≡ new ++ s.transport.sent)
          × All (IsSince s.transport.active_generation) new
          × (s.transport.active_generation ≤ u.transport.active_generation)
    extend (new, e, since, le) (inl same, le') = (new, same ∙ e, since, omega arith)
    extend (new, e, since, le) (inr (x, entry, recent), le') =
        (x ∷ new, rw (entry, e), (IsSince-mono _ _ le x recent, since), omega arith)

-- After `disable_active_commands` no motion or recovery frame of the generation that it ended, or of
-- an earlier one, reaches the bus any more: whatever the threads do afterwards, in whatever order,
-- enabling again included, all that is sent then is transactions and frames of later generations.
-- The generation counter is not to wrap.
pub disable_active_commands_final :
    (s u : System)
    → HasRoom s.transport
    → let t = disable_active_commands s.transport in
      Reach (record s { transport = t }) u
      → (new : List Sent) × (u.transport.sent ≡ new ++ s.transport.sent)
        × All (IsSince (s.transport.active_generation + 1)) new
unfolding disable_active_commands
disable_active_commands_final s u room r =
    let g = s.transport.active_generation in
    let (new, e, since, _) = Reach-Grows r in
    let later : bump_u64 g ≡ g + 1 = omega arith in
    (new, e, subst (λ n. All (IsSince n) new) later since)

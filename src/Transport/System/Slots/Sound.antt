-- ===== src/Transport/System/Slots/Sound.antt =====
-- The slots at every step of the threads.
use robstride_ros.Prelude.{ℕ, refl, false, has_value, length, length-replicate}
use robstride_ros.Transport.State.{
  RecoveryUpdate, create, close_active_commands, next_generation, clear_progress,
  open_active_commands, record_failure, executor_shutdown,
}
use robstride_ros.Transport.Worker.{sending}
use robstride_ros.Transport.Lifecycle.{halt, request_executor_stop, finish_stop}
use robstride_ros.Transport.System.{
  System, Step, wakes, sends, settles, submits, queues, marks, recovers, closes, advances, clears,
  discards, rests, opens, fails, shuts_down, probes, halts, requests_stop, finishes, starts,
  created, Reach, here, next,
}
use robstride_ros.Transport.System.Slots.{IsSlotted, InPlace-replicate}
use robstride_ros.Transport.System.Slots.Moves
use robstride_ros.Transport.System.Slots.Turns.{
  IsOrdered, IsTidy, send_next-IsTidy, wake-IsTidy, settle_progress-IsTidy,
}

module _ (n : ℕ) where
  create-IsSlotted : IsSlotted n (create n)
  unfolding create
  create-IsSlotted = record {
    counted = refl;
    motion_slots = length-replicate n _;
    recovery_slots = length-replicate n _;
    recovery_flags = length-replicate n false;
    motions_placed = InPlace-replicate 0 n;
    recoveries_placed = InPlace-replicate 0 n;
  }

  Step-IsTidy : {s u : System} → Step s u → IsTidy n s → IsTidy n u
  unfolding close_active_commands next_generation clear_progress open_active_commands record_failure
      executor_shutdown halt request_executor_stop
  Step-IsTidy {s} (wakes w a e) (c, o) = rw e (wake-IsTidy n s.transport c)
  Step-IsTidy {s} (sends ep now taken batch w room e) (c, o) =
      let (r, m) : IsOrdered n (sending batch taken) = rw w at o in
      rw e (
        send_next-IsTidy n ep now taken batch.transactions batch.recovery_frames batch.motion_frames
          s.transport c r m)
  Step-IsTidy {s} (settles w e) (c, o) = rw e (settle_progress-IsTidy n s.transport c)
  Step-IsTidy {s} (submits frame e) (c, o) =
      rw e (Moves.send_transaction-IsSlotted n frame s.transport c, o)
  Step-IsTidy {s} (queues generation now frames e) (c, o) =
      rw e (Moves.queue_motion_frames_locked-IsSlotted n generation frames now s.transport c, o)
  Step-IsTidy {s} (marks updates e) (c, o) =
      let flag = λ (update : RecoveryUpdate). has_value update.frame in
      rw e (Moves.mark_recovery-IsSlotted n updates flag s.transport c, o)
  Step-IsTidy {s} (recovers generation now updates e) (c, o) =
      rw e (Moves.apply_recovery_updates_locked-IsSlotted n generation updates now s.transport c, o)
  Step-IsTidy {s} (closes e) c = rw e c
  Step-IsTidy {s} (advances room e) c = rw e c
  Step-IsTidy {s} (clears e) (c, o) = rw e (Moves.clear_recovery-IsSlotted n s.transport c, o)
  Step-IsTidy {s} (discards e) (c, o) = rw e (Moves.discard-IsSlotted n s.transport c, o)
  Step-IsTidy {s} (rests e) c = rw e c
  Step-IsTidy {s} (opens e) c = rw e c
  Step-IsTidy {s} (fails b room e) c = rw e c
  Step-IsTidy {s} (shuts_down e) c = rw e c
  Step-IsTidy {s} (probes available now e) (c, o) =
      rw e (Moves.update_endpoint_status-IsSlotted n available now s.transport c, o)
  Step-IsTidy {s} (halts e) c = rw e c
  Step-IsTidy {s} (requests_stop e) c = rw e c
  Step-IsTidy {s} (finishes w e) (c, o) = rw e (Moves.finish_stop-IsSlotted n s.transport c, o)
  Step-IsTidy {s} (starts ep now w e) (c, o) =
      let kept = Moves.finish_stop-IsSlotted n s.transport c in
      rw e (Moves.reset-IsSlotted n ep now (finish_stop s.transport) kept, tt)

  Reach-IsTidy : {s u : System} → IsTidy n s → Reach s u → IsTidy n u
  Reach-IsTidy c here = c
  Reach-IsTidy c (next r st) = Step-IsTidy st (Reach-IsTidy c r)

-- From a new transport on, whatever the threads do: there is one slot of each kind and one recovery
-- flag for every motor, a slot that is filled has the frame of its own motor, and the motion frames
-- and the recovery frames in the worker's hands are each for different motors, in ascending order,
-- whose recovery flags exist: `publish_active` reads no flag out of bounds.
pub Reach-IsOrdered :
    (motor_count : ℕ) (u : System)
    → Reach (created motor_count) u
    → IsSlotted motor_count u.transport × IsOrdered (length u.transport.recovery_active) u.worker
Reach-IsOrdered motor_count u r =
    let (slotted, ordered) = Reach-IsTidy motor_count (create-IsSlotted motor_count, tt) r in
    (slotted, rw slotted.recovery_flags ordered)

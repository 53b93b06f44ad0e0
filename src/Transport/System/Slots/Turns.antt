-- ===== src/Transport/System/Slots/Turns.antt =====
-- The steps of the worker keep the slots in order, and so are the frames in its hands.
use robstride_ros.Prelude.{
  ℕ, ◌+◌, ◌∙◌, inl, inr, Bool, true, false, List, [], ◌∷◌, arith, Bool-cases, length-map,
}
use robstride_ros.Protocol.{Frame}
use robstride_ros.Transport.State.{
  ActiveFrame, Sent, transaction, recovery, motion, Transport, has_sendable_active_frame,
  record_failure,
}
use robstride_ros.Transport.Publish.{
  Endpoint, Outcome, withheld, published, thrown, publish_unlocked, publish_transaction,
  publish_active,
}
use robstride_ros.Transport.Worker.{
  Worker, waiting, sending, settling, exited, must_exit, take_batch, unless_thrown, note_progress,
  settle_progress, wake, send_next,
}
use robstride_ros.Transport.System.{System, after}
use robstride_ros.Transport.System.Slots.{
  Ascend, IsSlotted, InPlace-cleared, present-Ascend, free_motion-Ascend, held_motion-InPlace,
  length-held_motion, Ascend-le,
}

-- The frames that the worker has still to send, of each kind, are for different motors that exist.
abbrev pub IsOrdered : ℕ → Worker → Type 0
IsOrdered n waiting = Unit
IsOrdered n (sending batch taken) =
    Ascend 0 n batch.recovery_frames × Ascend 0 n batch.motion_frames
IsOrdered n settling = Unit
IsOrdered n exited = Unit

module _ (n : ℕ) where
  abbrev pub IsTidy : System → Type 0
  IsTidy s = IsSlotted n s.transport × IsOrdered n s.worker

  publish_unlocked-IsSlotted :
      (e : Endpoint) (now : ℕ) (x : Sent) (t : Transport)
      → IsSlotted n t
      → IsSlotted n (publish_unlocked e now x t).0
  unfolding publish_unlocked
  publish_unlocked-IsSlotted e now x t s = ground arith

  publish_transaction-IsSlotted :
      (e : Endpoint) (now : ℕ) (frame : Frame) (t : Transport)
      → IsSlotted n t
      → IsSlotted n (publish_transaction e now frame t).0
  unfolding publish_transaction
  publish_transaction-IsSlotted e now frame t s =
      let kept = publish_unlocked-IsSlotted e now (transaction frame) t s in ground arith

  publish_active-IsSlotted :
      (e : Endpoint) (now : ℕ) (frame : ActiveFrame) (is_recovery : Bool) (t : Transport)
      → IsSlotted n t
      → IsSlotted n (publish_active e now frame is_recovery t).0
  unfolding publish_active
  publish_active-IsSlotted e now frame true t s =
      let kept = publish_unlocked-IsSlotted e now (recovery frame) t s in ground arith
  publish_active-IsSlotted e now frame false t s =
      let kept = publish_unlocked-IsSlotted e now (motion frame) t s in ground arith

  note_progress-IsSlotted :
      (now : ℕ) (p : Transport × Outcome) → IsSlotted n p.0 → IsSlotted n (note_progress now p).0
  note_progress-IsSlotted now (t, withheld) s = s
  note_progress-IsSlotted now (t, published) s = s
  note_progress-IsSlotted now (t, thrown) s = s

  unless_thrown-IsTidy :
      (p : Transport × Outcome) (w : Worker)
      → IsSlotted n p.0
      → IsOrdered n w
      → IsTidy (after (unless_thrown p w))
  unfolding record_failure
  unless_thrown-IsTidy (t, withheld) w s o = (s, o)
  unless_thrown-IsTidy (t, published) w s o = (s, o)
  unless_thrown-IsTidy (t, thrown) w s o = (s, tt)

  after_active :
      (e : Endpoint) (now : ℕ) (frame : ActiveFrame) (is_recovery : Bool) (t : Transport)
      (w : Worker)
      → IsSlotted n t
      → IsOrdered n w
      → IsTidy
          (after (unless_thrown (note_progress now (publish_active e now frame is_recovery t)) w))
  after_active e now frame is_recovery t w s =
      unless_thrown-IsTidy (note_progress now (publish_active e now frame is_recovery t)) w (
        note_progress-IsSlotted now (publish_active e now frame is_recovery t)
          (publish_active-IsSlotted e now frame is_recovery t s))

  later :
      (frame : ActiveFrame) (frames : List ActiveFrame)
      → Ascend 0 n (frame ∷ frames)
      → Ascend 0 n frames
  later frame frames (_, _, rest) = Ascend-le (frame.motor_index + 1) 0 n frames (omega arith) rest

  send_active-IsTidy :
      (e : Endpoint) (now taken : ℕ) (recoveries motions : List ActiveFrame) (t : Transport)
      → IsSlotted n t
      → Ascend 0 n recoveries
      → Ascend 0 n motions
      → IsTidy (
          after (
            send_next e now
              (record { transactions = []; recovery_frames = recoveries; motion_frames = motions })
              taken
              t))
  unfolding send_next
  send_active-IsTidy e now taken [] [] t s r m = (s, tt)
  send_active-IsTidy e now taken [] (frame ∷ rest) t s r m =
      after_active e now frame false t _ s (r, later frame rest m)
  send_active-IsTidy e now taken (frame ∷ rest) motions t s r m =
      after_active e now frame true t _ s (later frame rest r, m)

  pub send_next-IsTidy :
      (e : Endpoint) (now taken : ℕ) (transactions : List Frame)
      (recoveries motions : List ActiveFrame) (t : Transport)
      → IsSlotted n t
      → Ascend 0 n recoveries
      → Ascend 0 n motions
      → IsTidy (
          after (
            send_next e now
              (record {
                transactions = transactions;
                recovery_frames = recoveries;
                motion_frames = motions;
              })
              taken
              t))
  unfolding send_next
  send_next-IsTidy e now taken [] recoveries motions t s r m =
      send_active-IsTidy e now taken recoveries motions t s r m
  send_next-IsTidy e now taken (frame ∷ rest) recoveries motions t s r m =
      unless_thrown-IsTidy (publish_transaction e now frame t) _
        (publish_transaction-IsSlotted e now frame t s) (r, m)

  take_batch-IsSlotted :
      (t : Transport)
      → IsSlotted n t
      → let (u, batch) = take_batch t in
        IsSlotted n u × Ascend 0 n batch.recovery_frames × Ascend 0 n batch.motion_frames
  unfolding take_batch
  take_batch-IsSlotted t s = elim (Bool-cases t.running) [
    | inr stopped ↦ rw (stopped, take_batch) (s, tt, tt)
    | inl on ↦
        rw (on, take_batch)
          (
            record {
              counted = s.counted;
              motion_slots =
                  length-held_motion t.pending_motion_frames t.recovery_active ∙ s.motion_slots;
              recovery_slots = length-map _ t.pending_recovery_frames ∙ s.recovery_slots;
              recovery_flags = s.recovery_flags;
              motions_placed =
                  held_motion-InPlace 0 t.pending_motion_frames t.recovery_active s.motions_placed;
              recoveries_placed = InPlace-cleared 0 t.pending_recovery_frames;
            },
            present-Ascend 0 n t.pending_recovery_frames (omega (arith, s.recovery_slots))
                s.recoveries_placed,
            free_motion-Ascend 0 n t.pending_motion_frames t.recovery_active
                (omega (arith, s.motion_slots)) s.motions_placed,
          )
  ]

  pub wake-IsTidy : (t : Transport) → IsSlotted n t → IsTidy (after (wake t))
  unfolding wake
  wake-IsTidy t s =
      let (kept, recoveries, motions) = take_batch-IsSlotted t s in
      elim (Bool-cases (must_exit t)) [
        | inl out ↦ rw (out, wake) (s, tt)
        | inr on ↦ rw (on, wake) (kept, (recoveries, motions))
      ]

  pub settle_progress-IsTidy : (t : Transport) → IsSlotted n t → IsTidy (after (settle_progress t))
  unfolding settle_progress
  settle_progress-IsTidy t s = elim (Bool-cases (has_sendable_active_frame t)) [
    | inl more ↦ rw (more, settle_progress) (s, tt)
    | inr idle ↦ rw (idle, settle_progress) (s, tt)
  ]

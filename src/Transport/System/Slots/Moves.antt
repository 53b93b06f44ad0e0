-- ===== src/Transport/System/Slots/Moves.antt =====
-- The single operations keep the slots in order.
use robstride_ros.Prelude.{
  ℕ, ◌∙◌, inl, inr, Bool, true, false, none, some, List, [], ◌∷◌, arith, Bool-cases, leb, ltb,
  has_value, length-set, length-map, ◌||◌,
}
use robstride_ros.Protocol.{Frame}
use robstride_ros.Transport.State.{
  MotorFrame, RecoveryUpdate, Transport, update_endpoint_status, clear_recovery,
  discard_pending_active_frames,
}
use robstride_ros.Transport.Publish.{Endpoint}
use robstride_ros.Transport.Queue.{
  send_transaction, place_motion, place_motions, queue_motion_frames_locked, mark_recovery,
  place_recovery, place_recoveries, mark_one, apply_recovery_updates_locked, note_work,
}
use robstride_ros.Transport.Lifecycle.{finish_stop, reset}
use robstride_ros.Transport.System.Slots.{
  InPlace, IsSlotted, InPlace-set, InPlace-reset, InPlace-cleared,
}

module _ (n : ℕ) where
  pub clear_recovery-IsSlotted : (t : Transport) → IsSlotted n t → IsSlotted n (clear_recovery t)
  unfolding clear_recovery
  clear_recovery-IsSlotted t s = record {
    counted = s.counted;
    motion_slots = s.motion_slots;
    recovery_slots = s.recovery_slots;
    recovery_flags =
        omega (arith, s.recovery_flags, length-map (λ (b : Bool). false) t.recovery_active);
    motions_placed = s.motions_placed;
    recoveries_placed = s.recoveries_placed;
  }

  pub discard-IsSlotted :
      (t : Transport) → IsSlotted n t → IsSlotted n (discard_pending_active_frames t)
  unfolding discard_pending_active_frames
  discard-IsSlotted t s = record {
    counted = s.counted;
    motion_slots = length-map _ t.pending_motion_frames ∙ s.motion_slots;
    recovery_slots = length-map _ t.pending_recovery_frames ∙ s.recovery_slots;
    recovery_flags = s.recovery_flags;
    motions_placed = InPlace-cleared 0 t.pending_motion_frames;
    recoveries_placed = InPlace-cleared 0 t.pending_recovery_frames;
  }

  pub finish_stop-IsSlotted : (t : Transport) → IsSlotted n t → IsSlotted n (finish_stop t)
  unfolding finish_stop discard_pending_active_frames
  finish_stop-IsSlotted = discard-IsSlotted

  pub send_transaction-IsSlotted :
      (frame : Frame) (t : Transport) → IsSlotted n t → IsSlotted n (send_transaction frame t)
  unfolding send_transaction
  send_transaction-IsSlotted frame t s = ground arith

  pub update_endpoint_status-IsSlotted :
      (available : Bool) (now : ℕ) (t : Transport)
      → IsSlotted n t
      → IsSlotted n (update_endpoint_status available now t)
  unfolding update_endpoint_status
  update_endpoint_status-IsSlotted true now t s = s
  update_endpoint_status-IsSlotted false now t s = s

  pub reset-IsSlotted :
      (e : Endpoint) (now : ℕ) (t : Transport) → IsSlotted n t → IsSlotted n (reset e now t)
  unfolding reset
  reset-IsSlotted e now t s = ground arith

  place_motion-IsSlotted :
      (update : MotorFrame) (generation : ℕ) (t : Transport)
      → IsSlotted n t
      → IsSlotted n (place_motion update generation t)
  place_motion-IsSlotted update generation t s = record {
    counted = s.counted;
    motion_slots = length-set t.pending_motion_frames update.motor_index _ ∙ s.motion_slots;
    recovery_slots = s.recovery_slots;
    recovery_flags = s.recovery_flags;
    motions_placed =
        InPlace-set 0 update.motor_index t.pending_motion_frames _ (omega arith) s.motions_placed;
    recoveries_placed = s.recoveries_placed;
  }

  place_motions-IsSlotted :
      (frames : List MotorFrame) (generation : ℕ) (enqueued : Bool) (t : Transport)
      → IsSlotted n t
      → IsSlotted n (place_motions frames generation enqueued t).0
  unfolding place_motions
  place_motions-IsSlotted [] generation enqueued t s = s
  place_motions-IsSlotted (update ∷ frames) generation enqueued t s =
      let placed = place_motion-IsSlotted update generation t s in
      elim (Bool-cases (leb t.motor_count update.motor_index)) [
        | inl out ↦ rw out (place_motions-IsSlotted frames generation enqueued t s)
        | inr inside ↦ rw inside (
            place_motions-IsSlotted frames generation true (place_motion update generation t)
              placed)
      ]

  note_work-IsSlotted :
      (now : ℕ) (p : Transport × Bool) → IsSlotted n p.0 → IsSlotted n (note_work now p)
  note_work-IsSlotted now (t, true) s = s
  note_work-IsSlotted now (t, false) s = s

  pub queue_motion_frames_locked-IsSlotted :
      (generation : ℕ) (frames : List MotorFrame) (now : ℕ) (t : Transport)
      → IsSlotted n t
      → IsSlotted n (queue_motion_frames_locked generation frames now t)
  unfolding queue_motion_frames_locked
  queue_motion_frames_locked-IsSlotted generation frames now t s =
      let placed = place_motions-IsSlotted frames generation false t s in
      let noted = note_work-IsSlotted now (place_motions frames generation false t) placed in
      ground arith

  mark_one-IsSlotted :
      (update : RecoveryUpdate) (flag : Bool) (t : Transport)
      → IsSlotted n t
      → IsSlotted n (mark_one update flag t)
  mark_one-IsSlotted update flag t s =
      let set' = length-set t.recovery_active update.motor_index flag in
      elim (Bool-cases (ltb update.motor_index t.motor_count)) [
        | inr out ↦ rw out s
        | inl inside ↦ rw inside (record {
          counted = s.counted;
          motion_slots = s.motion_slots;
          recovery_slots = s.recovery_slots;
          recovery_flags = set' ∙ s.recovery_flags;
          motions_placed = s.motions_placed;
          recoveries_placed = s.recoveries_placed;
        })
      ]

  pub mark_recovery-IsSlotted :
      (updates : List RecoveryUpdate) (flag : RecoveryUpdate → Bool) (t : Transport)
      → IsSlotted n t
      → IsSlotted n (mark_recovery updates flag t)
  unfolding mark_recovery
  mark_recovery-IsSlotted [] flag t s = s
  mark_recovery-IsSlotted (update ∷ updates) flag t s =
      mark_recovery-IsSlotted updates flag (mark_one update (flag update) t)
        (mark_one-IsSlotted update (flag update) t s)

  placed_slot :
      (update : RecoveryUpdate) (generation : ℕ) (t : Transport)
      → IsSlotted n t
      → InPlace 0 (place_recovery update generation t).pending_recovery_frames
  placed_slot update generation t s =
      elim update.frame
        as (λ frame.
          InPlace 0
            (place_recovery (record update { frame = frame }) generation
              t).pending_recovery_frames) [
                | none ↦
                    InPlace-reset 0 update.motor_index t.pending_recovery_frames s.recoveries_placed
                | some frame ↦
                    InPlace-set 0 update.motor_index t.pending_recovery_frames _ (omega arith)
                      s.recoveries_placed
              ]

  place_recovery-IsSlotted :
      (update : RecoveryUpdate) (generation : ℕ) (t : Transport)
      → IsSlotted n t
      → IsSlotted n (place_recovery update generation t)
  place_recovery-IsSlotted update generation t s = record {
    counted = s.counted;
    motion_slots = s.motion_slots;
    recovery_slots = length-set t.pending_recovery_frames update.motor_index _ ∙ s.recovery_slots;
    recovery_flags = s.recovery_flags;
    motions_placed = s.motions_placed;
    recoveries_placed = placed_slot update generation t s;
  }

  place_recoveries-IsSlotted :
      (updates : List RecoveryUpdate) (generation : ℕ) (enqueued : Bool) (t : Transport)
      → IsSlotted n t
      → IsSlotted n (place_recoveries updates generation enqueued t).0
  unfolding place_recoveries
  place_recoveries-IsSlotted [] generation enqueued t s = s
  place_recoveries-IsSlotted (update ∷ updates) generation enqueued t s =
      let placed = place_recovery-IsSlotted update generation t s in
      elim (Bool-cases (leb t.motor_count update.motor_index)) [
        | inl out ↦ rw out (place_recoveries-IsSlotted updates generation enqueued t s)
        | inr inside ↦ rw inside (
            place_recoveries-IsSlotted updates generation (enqueued || has_value update.frame)
              (place_recovery update generation t) placed)
      ]

  pub apply_recovery_updates_locked-IsSlotted :
      (generation : ℕ) (updates : List RecoveryUpdate) (now : ℕ) (t : Transport)
      → IsSlotted n t
      → IsSlotted n (apply_recovery_updates_locked generation updates now t)
  unfolding apply_recovery_updates_locked
  apply_recovery_updates_locked-IsSlotted generation updates now t s =
      let marked = mark_recovery-IsSlotted updates (λ _. false) t s in
      let placed = place_recoveries-IsSlotted updates generation false t s in
      let noted = note_work-IsSlotted now (place_recoveries updates generation false t) placed in
      ground arith

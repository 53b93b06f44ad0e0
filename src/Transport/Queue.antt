-- ===== src/Transport/Queue.antt =====
-- robstride_driver/src/can_transport.cpp: what the driver's threads do to the queues.
pub mod Latest
use robstride_ros.Prelude.{
  ℕ, Bool, true, false, not, ◌||◌, none, some, List, [], ◌∷◌, ◌++◌, if◌then◌else◌, ◌==◌, leb, ltb,
  get_or, set, bump_u64, has_value, is_empty,
}
use robstride_ros.Protocol.{Frame}
use robstride_ros.Transport.State.{MotorFrame, RecoveryUpdate, Transport, set_if_zero}

unfoldable pub send_transaction : Frame → Transport → Transport
send_transaction frame t =
    if not t.running
    then t
    else record t { pending_transactions = t.pending_transactions ++ frame ∷ [] }

-- A round of the loop of `queue_motion_frames`, for a motor that exists.
abbrev pub place_motion : MotorFrame → ℕ → Transport → Transport
place_motion update generation t = record t {
  motion_frames_coalesced =
      if has_value (get_or t.pending_motion_frames update.motor_index none)
      then bump_u64 t.motion_frames_coalesced
      else t.motion_frames_coalesced;
  pending_motion_frames = set t.pending_motion_frames update.motor_index (
      some (record {
        frame = update.frame;
        motor_index = update.motor_index;
        generation = generation;
      }));
}

-- The loop, with the flag `enqueued`.
unfoldable pub place_motions : List MotorFrame → ℕ → Bool → Transport → Transport × Bool
place_motions [] generation enqueued t = (t, enqueued)
place_motions (update ∷ frames) generation enqueued t =
    let skip = place_motions frames generation enqueued t in
    let place = place_motions frames generation true (place_motion update generation t) in
    if leb t.motor_count update.motor_index then skip else place

abbrev pub note_work : ℕ → Transport × Bool → Transport
note_work now (t, enqueued) =
    if enqueued
    then record t { active_work_progress_ns = set_if_zero t.active_work_progress_ns now }
    else t

-- The critical section of `queue_motion_frames`, for the generation that was read before it.
unfoldable pub queue_motion_frames_locked : ℕ → List MotorFrame → ℕ → Transport → Transport
unfolding place_motions
queue_motion_frames_locked generation frames now t =
    if not t.active_commands_enabled || not (generation == t.active_generation)
    then t
    else note_work now (place_motions frames generation false t)

unfoldable pub queue_motion_frames : List MotorFrame → ℕ → Transport → Transport
unfolding queue_motion_frames_locked
queue_motion_frames frames now t =
    if not t.active_commands_enabled || is_empty frames
    then t
    else queue_motion_frames_locked t.active_generation frames now t

abbrev pub mark_one : RecoveryUpdate → Bool → Transport → Transport
mark_one update flag t =
    if ltb update.motor_index t.motor_count
    then record t { recovery_active = set t.recovery_active update.motor_index flag }
    else t

-- `recovery_active_[i] = flag` for each update whose motor exists.
unfoldable pub mark_recovery : List RecoveryUpdate → (RecoveryUpdate → Bool) → Transport → Transport
mark_recovery [] flag t = t
mark_recovery (update ∷ updates) flag t =
    mark_recovery updates flag (mark_one update (flag update) t)

abbrev pub place_recovery : RecoveryUpdate → ℕ → Transport → Transport
place_recovery update generation t = record t {
  pending_recovery_frames = set t.pending_recovery_frames update.motor_index (elim update.frame [
    | none ↦ none
    | some frame ↦
        some (record { frame = frame; motor_index = update.motor_index; generation = generation })
  ]);
}

-- The second loop of `apply_recovery_updates`, with the flag `enqueued`.
unfoldable pub place_recoveries : List RecoveryUpdate → ℕ → Bool → Transport → Transport × Bool
place_recoveries [] generation enqueued t = (t, enqueued)
place_recoveries (update ∷ updates) generation enqueued t =
    let skip = place_recoveries updates generation enqueued t in
    let place =
      place_recoveries updates generation (enqueued || has_value update.frame)
        (place_recovery update generation t) in
    if leb t.motor_count update.motor_index then skip else place

-- The critical section of `apply_recovery_updates`, for the generation that was read before it.
unfoldable pub apply_recovery_updates_locked : ℕ → List RecoveryUpdate → ℕ → Transport → Transport
unfolding mark_recovery place_recoveries
apply_recovery_updates_locked generation updates now t =
    if not t.active_commands_enabled || not (generation == t.active_generation)
    then mark_recovery updates (λ _. false) t
    else note_work now (place_recoveries updates generation false t)

unfoldable pub apply_recovery_updates : List RecoveryUpdate → ℕ → Transport → Transport
unfolding mark_recovery apply_recovery_updates_locked
apply_recovery_updates updates now t =
    if is_empty updates
    then t
    else apply_recovery_updates_locked t.active_generation updates now
        (mark_recovery updates (λ update. has_value update.frame) t)

unfoldable pub queue_motion_frame : ℕ → Frame → ℕ → Transport → Transport
unfolding queue_motion_frames
queue_motion_frame motor_index frame =
    queue_motion_frames (record { motor_index = motor_index; frame = frame } ∷ [])

unfoldable pub queue_recovery_frame : ℕ → Frame → ℕ → Transport → Transport
unfolding apply_recovery_updates
queue_recovery_frame motor_index frame =
    apply_recovery_updates (record { motor_index = motor_index; frame = some frame } ∷ [])

unfoldable pub complete_recovery : ℕ → ℕ → Transport → Transport
unfolding apply_recovery_updates
complete_recovery motor_index =
    apply_recovery_updates (record { motor_index = motor_index; frame = none } ∷ [])

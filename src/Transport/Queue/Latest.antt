-- ===== src/Transport/Queue/Latest.antt =====
-- Which frame of a motor waits after `queue_motion_frames`.
use robstride_ros.Prelude.{
  ℕ, ◌<◌, ◌≡◌, ◌≢◌, ◌∙◌, inl, inr, refl, Bool, true, false, some, List, [], ◌∷◌, ◌++◌, arith, All,
  Bool-cases, get_elem?, length, length-set, get_elem?-set_self, get_elem?-set_ne, leb, is_empty,
  ◌==◌, ==_iff,
}
use robstride_ros.Transport.State.{ActiveFrame, MotorFrame, Transport}
use robstride_ros.Transport.Queue.{
  place_motion, place_motions, note_work, queue_motion_frames_locked, queue_motion_frames,
}

-- The frame as it waits in the slot of its motor.
abbrev pub placed : MotorFrame → ℕ → ActiveFrame
placed update generation = record {
  frame = update.frame;
  motor_index = update.motor_index;
  generation = generation;
}

-- Frames for other motors leave a slot as it is.
place_motions-others :
    (frames : List MotorFrame) (generation i : ℕ) (enqueued : Bool) (t : Transport)
    → All (λ update. update.motor_index ≢ i) frames
    → get_elem? (place_motions frames generation enqueued t).0.pending_motion_frames i
      ≡ get_elem? t.pending_motion_frames i
unfolding place_motions
place_motions-others [] generation i enqueued t others = refl
place_motions-others (update ∷ frames) generation i enqueued t (other, others) =
    let kept =
      get_elem?-set_ne t.pending_motion_frames update.motor_index i
        (some (placed update generation)) other in
    elim (Bool-cases (leb t.motor_count update.motor_index)) [
      | inl out ↦ rw out (place_motions-others frames generation i enqueued t others)
      | inr inside ↦ rw inside (
          place_motions-others frames generation i true (place_motion update generation t) others
          ∙ kept)
    ]

place_motions-last :
    (before after : List MotorFrame) (update : MotorFrame) (generation : ℕ) (enqueued : Bool)
    (t : Transport)
    → length t.pending_motion_frames ≡ t.motor_count
    → update.motor_index < t.motor_count
    → All (λ other. other.motor_index ≢ update.motor_index) after
    → get_elem?
        (place_motions (before ++ update ∷ after) generation enqueued t).0.pending_motion_frames
        update.motor_index
      ≡ some (some (placed update generation))
unfolding place_motions
place_motions-last [] after update generation enqueued t sized exists others =
    let within : leb t.motor_count update.motor_index ≡ false = ground arith in
    rw within (
      place_motions-others after generation update.motor_index true
        (place_motion update generation t) others
      ∙ get_elem?-set_self t.pending_motion_frames update.motor_index
          (some (placed update generation)) (omega arith))
place_motions-last (first ∷ before) after update generation enqueued t sized exists others =
    let kept =
      length-set t.pending_motion_frames first.motor_index (some (placed first generation)) in
    elim (Bool-cases (leb t.motor_count first.motor_index)) [
      | inl out ↦
          rw out (place_motions-last before after update generation enqueued t sized exists others)
      | inr inside ↦ rw inside (
          place_motions-last before after update generation true (place_motion first generation t)
            (kept ∙ sized) exists others)
    ]

note_work-motions :
    (now : ℕ) (p : Transport × Bool)
    → (note_work now p).pending_motion_frames ≡ p.0.pending_motion_frames
note_work-motions now (t, true) = refl
note_work-motions now (t, false) = refl

-- While active commands are enabled, the last frame that a call has for a motor that exists waits
-- in the slot of that motor after it, with the present generation, whatever frame waited there
-- before and whatever other frames the call has.
pub queue_motion_frames_last :
    (before after : List MotorFrame) (update : MotorFrame) (now : ℕ) (t : Transport)
    → t.active_commands_enabled ≡ true
    → length t.pending_motion_frames ≡ t.motor_count
    → update.motor_index < t.motor_count
    → All (λ other. other.motor_index ≢ update.motor_index) after
    → get_elem?
        (queue_motion_frames (before ++ update ∷ after) now t).pending_motion_frames
        update.motor_index
      ≡ some (some (placed update t.active_generation))
unfolding queue_motion_frames queue_motion_frames_locked
queue_motion_frames_last before after update now t enabled sized exists others =
    let frames = before ++ update ∷ after in
    let generation = t.active_generation in
    let last = place_motions-last before after update generation false t sized exists others in
    let noted = note_work-motions now (place_motions frames generation false t) in
    let some_frame : is_empty frames ≡ false = is_empty-append before update after in
    let same : (generation == generation) ≡ true = (==_iff generation generation).1 refl in
    ground (arith, some_frame, same, noted, last)
  where
    is_empty-append :
        (xs : List MotorFrame) (x : MotorFrame) (ys : List MotorFrame)
        → is_empty (xs ++ x ∷ ys) ≡ false
    is_empty-append [] x ys = refl
    is_empty-append (y ∷ xs) x ys = refl

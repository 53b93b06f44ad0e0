-- ===== src/Metrics/Sound.antt =====
-- The invariant of `AtomicMotorFeedback`, and that every access keeps it.
use robstride_ros.Prelude.{
  ℕ, ◌%◌, ◌<◌, true, List, [], ◌∷◌, ◌≡◌, ◌⊎◌, inl, inr, refl, sym, subst, arith, Bool-cases, ◌&&◌,
  not, ltb, bump_u64,
}
use robstride_ros.Double.{Double}
use robstride_ros.Driver.State.{MotorFeedbackSample}
use robstride_ros.Metrics.Sequence.{
  Done, nothing, with, all_done, copy_member, Storing, idle, writing, Lock, Move, call_store, write,
  call_load, read, begin_store, continue_store, continue_load, move, run, fresh_lock,
}

-- The wrap of the counter keeps what is odd and what is even.
bump_even : (n : ℕ) → n % 2 ≡ 0 → bump_u64 n % 2 ≡ 1
bump_even n h = omega arith

bump_odd : (n : ℕ) → n % 2 ≡ 1 → bump_u64 n % 2 ≡ 0
bump_odd n h = omega arith

module _ {W : Type 0} where
  -- The members that have been accessed are the same in two samples.
  abbrev pub Agrees : Done → MotorFeedbackSample W → MotorFeedbackSample W → Type 0
  Agrees f x y =
      (f 0 ≡ true → x.count ≡ y.count)
      × (f 1 ≡ true → x.last_received_at_ns ≡ y.last_received_at_ns)
      × (f 2 ≡ true → x.maximum_gap_ns ≡ y.maximum_gap_ns)
      × (f 3 ≡ true → x.mode ≡ y.mode)
      × (f 4 ≡ true → x.fault_flags ≡ y.fault_flags)
      × (f 5 ≡ true → x.temperature ≡ y.temperature)

  pub copy_member-Agrees :
      (k : ℕ) (f : Done) (x y : MotorFeedbackSample W)
      → k < 6
      → Agrees f x y
      → Agrees (with k f) (copy_member k y x) y
  unfolding copy_member
  copy_member-Agrees k f x y small (a, b, c, e, g, h) = (
    λ is. ground (arith, a),
    λ is. ground (arith, b),
    λ is. ground (arith, c),
    λ is. ground (arith, e),
    λ is. ground (arith, g),
    λ is. ground (arith, h),
  )

  pub Agrees-all :
      (f : Done) (x y : MotorFeedbackSample W) → all_done f ≡ true → Agrees f x y → x ≡ y
  Agrees-all f x y done (a, b, c, e, g, h) =
      let count = a (ground arith) in
      let last = b (ground arith) in
      let gap = c (ground arith) in
      let mode = e (ground arith) in
      let flags = g (ground arith) in
      let temperature = h (ground arith) in cc (count, last, gap, mode, flags, temperature)

  abbrev pub IsNewest : MotorFeedbackSample W → List (MotorFeedbackSample W) → Type 0
  IsNewest x [] = ⊥
  IsNewest x (y ∷ stored) = x ≡ y

  -- Outside of `store` the sequence is even and memory holds the newest sample.
  abbrev pub IsStoring :
      ℕ → MotorFeedbackSample W → List (MotorFeedbackSample W) → Storing W → Type 0
  IsStoring sequence sample stored idle = (sequence % 2 ≡ 0) × IsNewest sample stored
  IsStoring sequence sample stored (writing s f) = (sequence % 2 ≡ 1) × Agrees f sample s

  abbrev pub IsSound : Lock W → Type 0
  IsSound l = IsStoring l.sequence l.sample l.stored l.storing

  Storing-cases :
      (w : Storing W) → (w ≡ idle) ⊎ ((s : MotorFeedbackSample W) × (f : Done) × (w ≡ writing s f))
  Storing-cases idle = inl refl
  Storing-cases (writing s f) = inr (s, f, refl)

  begin_store-IsSound :
      (s : MotorFeedbackSample W) (l : Lock W) → IsSound l → IsSound (begin_store s l)
  unfolding begin_store
  begin_store-IsSound s l sound = elim (Storing-cases l.storing) [
    | inr (x, f, busy) ↦
        let same : begin_store s l ≡ l = rw busy refl in subst IsSound (sym same) sound
    | inl free ↦
        let begun = record l { sequence = bump_u64 l.sequence; storing = writing s nothing } in
        let (even, newest) = subst (IsStoring l.sequence l.sample l.stored) free sound in
        let same : begin_store s l ≡ begun = rw free refl in
        subst IsSound (sym same) (
          bump_even l.sequence even,
          (
            (λ h. ground arith),
            (λ h. ground arith),
            (λ h. ground arith),
            (λ h. ground arith),
            (λ h. ground arith),
            λ h. ground arith,
          ),
        )
  ]

  continue_store-IsSound : (k : ℕ) (l : Lock W) → IsSound l → IsSound (continue_store k l)
  unfolding continue_store
  continue_store-IsSound k l sound = elim (Storing-cases l.storing) [
    | inl free ↦ let same : continue_store k l ≡ l = rw free refl in subst IsSound (sym same) sound
    | inr (s, f, busy) ↦
        let (odd, agrees) = subst (IsStoring l.sequence l.sample l.stored) busy sound in
        elim (Bool-cases (all_done f)) [
          | inl done ↦
              let ended = record l {
                sequence = bump_u64 l.sequence;
                storing = idle;
                stored = s ∷ l.stored;
              } in
              let same : continue_store k l ≡ ended = rw (busy, done) refl in
              subst IsSound (sym same)
                (bump_odd l.sequence odd, Agrees-all f l.sample s done agrees)
          | inr more ↦ elim (Bool-cases (ltb k 6 && not (f k))) [
            | inl new ↦
                let after = record l {
                  sample = copy_member k s l.sample;
                  storing = writing s (with k f);
                } in
                let same : continue_store k l ≡ after = rw (busy, more, new) refl in
                subst IsSound (sym same)
                  (odd, copy_member-Agrees k f l.sample s (ground arith) agrees)
            | inr old ↦
                let same : continue_store k l ≡ l = rw (busy, more, old) refl in
                subst IsSound (sym same) sound
          ]
        ]
  ]

module _ {W : Type 0} ⦃d : Double W⦄ where
  -- A `load` changes nothing that a `store` does.
  pub continue_load-memory :
      (k : ℕ) (l : Lock W)
      → ((continue_load k l).sequence ≡ l.sequence)
        × ((continue_load k l).sample ≡ l.sample)
        × ((continue_load k l).storing ≡ l.storing)
        × ((continue_load k l).stored ≡ l.stored)
  unfolding continue_load
  continue_load-memory k l = ground arith

  move-IsSound : (m : Move W) (l : Lock W) → IsSound l → IsSound (move m l)
  unfolding move
  move-IsSound (call_store s) l sound = begin_store-IsSound s l sound
  move-IsSound (write k) l sound = continue_store-IsSound k l sound
  move-IsSound call_load l sound = sound
  move-IsSound (read k) l sound =
      let (sequence, sample, storing, stored) = continue_load-memory k l in
      rw (sequence, sample, storing, stored) sound

  pub run-IsSound : (moves : List (Move W)) (l : Lock W) → IsSound l → IsSound (run moves l)
  unfolding run
  run-IsSound [] l sound = sound
  run-IsSound (m ∷ moves) l sound = run-IsSound moves (move m l) (move-IsSound m l sound)

  pub fresh_lock-IsSound : IsSound (fresh_lock {W = W})
  fresh_lock-IsSound = (refl, refl)

-- ===== src/Metrics/Whole.antt =====
-- What a `load` of `AtomicMotorFeedback` returns when no `store` comes in between.
use robstride_ros.Prelude.{
  ℕ, ◌%◌, ◌&&◌, ◌||◌, true, false, some, Option, none, List, [], ◌∷◌, ◌≡◌, ◌⊎◌, refl, sym, ◌∙◌, ap,
  subst, arith, ◌<◌, Bool, Bool-cases, inl, inr, Option-cases, ==_iff, ◌==◌, ltb, all, any, map,
  has_value,
}
use robstride_ros.Double.{Double}
use robstride_ros.Driver.State.{MotorFeedbackSample}
use robstride_ros.Driver.Initialize.{no_sample}
use robstride_ros.Metrics.Sequence.{
  Done, nothing, with, all_done, copy_member, idle, Loading, waiting, reading, returned, Lock, Move,
  call_load, read, compare, continue_load, move, run, fresh_lock,
}
use robstride_ros.Metrics.Sound.{
  Agrees, copy_member-Agrees, Agrees-all, IsNewest, IsStoring, continue_load-memory, run-IsSound,
  fresh_lock-IsSound,
}

-- Every access that a `load` makes after the first is among these numbers.
unfoldable pub is_complete : List ℕ → Bool
is_complete ks = all (λ k. any (λ n. n == k) ks) (0 ∷ 1 ∷ 2 ∷ 3 ∷ 4 ∷ 5 ∷ 6 ∷ [])

abbrev noted : List ℕ → Done → Done
noted [] g = g
noted (k ∷ ks) g = noted ks (with k g)

noted-any :
    (ks : List ℕ) (g : Done) (k : ℕ) → (any (λ n. n == k) ks || g k) ≡ true → noted ks g k ≡ true
noted-any [] g k h = h
noted-any (n ∷ ks) g k h =
    noted-any ks (with n g) k (ground (arith, h, (==_iff n k).0, (==_iff k n).1))

is_complete-every :
    (ks : List ℕ) → is_complete ks ≡ true → (k : ℕ) → k < 7 → noted ks nothing k ≡ true
unfolding is_complete
is_complete-every ks h k small = noted-any ks nothing k (ground (arith, h))

-- What is noted has been done.
abbrev Covers : Done → Done → Type 0
Covers g f = (k : ℕ) → k < 6 → g k ≡ true → f k ≡ true

module _ {W : Type 0} ⦃d : Double W⦄ where
  -- A `load` that has been asked for the accesses in `g`, on a memory that did not change.
  abbrev IsUndisturbed : Done → ℕ → MotorFeedbackSample W → Loading W → Type 0
  IsUndisturbed g sequence sample waiting = ⊥
  IsUndisturbed g sequence sample (reading before x f after) =
      (before ≡ sequence)
      × Agrees f x sample
      × Covers g f
      × (g 6 ≡ true → has_value after ≡ true)
      × ((n : ℕ) → after ≡ some n → n ≡ sequence)
      × ((all_done f && has_value after) ≡ false)
  IsUndisturbed g sequence sample (returned x) = x ≡ sample

  Loading-cases :
      (w : Loading W)
      → (w ≡ waiting)
        ⊎ ((before : ℕ) × (x : MotorFeedbackSample W) × (f : Done) × (after : Option ℕ) × (w
              ≡ reading before x f after))
        ⊎ ((x : MotorFeedbackSample W) × (w ≡ returned x))
  Loading-cases waiting = inl refl
  Loading-cases (reading before x f after) = inr (inl (before, x, f, after, refl))
  Loading-cases (returned x) = inr (inr (x, refl))

  compare-IsUndisturbed :
      (g : Done) (sequence : ℕ) (sample : MotorFeedbackSample W) (before : ℕ)
      (x : MotorFeedbackSample W) (f : Done) (after : Option ℕ)
      → before ≡ sequence
      → Agrees f x sample
      → Covers g f
      → (g 6 ≡ true → has_value after ≡ true)
      → ((n : ℕ) → after ≡ some n → n ≡ sequence)
      → IsUndisturbed g sequence sample (compare before x f after)
  compare-IsUndisturbed g sequence sample before x f none same agrees covers last seen =
      (same, agrees, covers, last, seen, ground arith)
  compare-IsUndisturbed g sequence sample before x f (some n) same agrees covers last seen =
      elim (Bool-cases (all_done f)) [
        | inr more ↦ rw more (same, agrees, covers, last, seen, ground (arith, more))
        | inl done ↦
            let unchanged : (before == n) ≡ true = (==_iff before n).1 (same ∙ sym (seen n refl)) in
            rw (done, unchanged) (Agrees-all f x sample done agrees)
      ]

  continue_load-IsUndisturbed :
      (k : ℕ) (g : Done) (l : Lock W)
      → IsUndisturbed g l.sequence l.sample l.loading
      → IsUndisturbed (with k g) l.sequence l.sample (continue_load k l).loading
  unfolding continue_load
  continue_load-IsUndisturbed k g l h = elim (Loading-cases l.loading) [
    | inl head ↦ absurd (subst (IsUndisturbed g l.sequence l.sample) head h)
    | inr (inr (x, over)) ↦ rw over (subst (IsUndisturbed g l.sequence l.sample) over h)
    | inr (inl (before, x, f, after, within)) ↦
        let (same, agrees, covers, last, seen, open') =
          subst (IsUndisturbed g l.sequence l.sample) within h in
        elim (Bool-cases (ltb k 6)) [
          | inl member ↦ elim (Bool-cases (f k)) [
            | inl old ↦
                rw (within, member, old)
                  (
                    same,
                    agrees,
                    (λ i small is. ground (arith, covers i small, old, (==_iff i k).0)),
                    (λ is. ground (arith, last)),
                    seen,
                    open',
                  )
            | inr new ↦
                rw (within, member, new)
                  (compare-IsUndisturbed (with k g) l.sequence l.sample before
                    (copy_member k l.sample x) (with k f) after same
                    (copy_member-Agrees k f x l.sample (ground (arith, member)) agrees)
                    (λ i small is. ground (arith, covers i small)) (λ is. ground (arith, last))
                    seen)
          ]
          | inr check ↦
              let others : Covers (with k g) f =
                λ i small is. ground (arith, covers i small, (==_iff i k).0) in
              elim (Option-cases after) [
                | inr (n, there) ↦
                    rw (within, check, there)
                      (same, agrees, others, (λ is. ap has_value there), seen, open')
                | inl absent ↦
                    rw (within, check, absent)
                      (compare-IsUndisturbed (with k g) l.sequence l.sample before x f
                        (some l.sequence) same agrees others (λ is. refl)
                        (λ n e. ground (arith, e)))
              ]
        ]
  ]

  reads-IsUndisturbed :
      (ks : List ℕ) (g : Done) (l : Lock W)
      → IsUndisturbed g l.sequence l.sample l.loading
      → IsUndisturbed (noted ks g) l.sequence l.sample (run (map read ks) l).loading
  unfolding run move
  reads-IsUndisturbed [] g l h = h
  reads-IsUndisturbed (k ∷ ks) g l h =
      let u = continue_load k l in
      let (sequence, sample, _, _) = continue_load-memory k l in
      let next = continue_load-IsUndisturbed k g l h in
      subst (λ n. IsUndisturbed (noted (k ∷ ks) g) n l.sample (run (map read ks) u).loading)
        sequence
        (subst (λ y. IsUndisturbed (noted (k ∷ ks) g) u.sequence y (run (map read ks) u).loading)
          sample (reads-IsUndisturbed ks (with k g) u (rw (sequence, sample) next)))

  complete_returns :
      (g : Done) (sequence : ℕ) (sample : MotorFeedbackSample W) (w : Loading W)
      → ((k : ℕ) → k < 7 → g k ≡ true)
      → IsUndisturbed g sequence sample w
      → w ≡ returned sample
  complete_returns g sequence sample waiting every h = elim h [ ]
  complete_returns g sequence sample (returned x) every h = ap returned h
  complete_returns g sequence sample (reading before x f after) every
        (same, agrees, covers, last, seen, open') =
      let done : (k : ℕ) → k < 6 → f k ≡ true = λ k small. covers k small (every k (omega arith)) in
      absurd (
        ground (
          arith,
          open',
          last (every 6 (omega arith)),
          done 0 (omega arith),
          done 1 (omega arith),
          done 2 (omega arith),
          done 3 (omega arith),
          done 4 (omega arith),
          done 5 (omega arith),
        ))

  -- After any run: a `load` that is called while no `store` is under way, and that none comes in
  -- between, returns the newest sample once it has loaded the sequence, and then each of the six members
  -- and the sequence again, in whatever order these relaxed and last loads take effect.
  pub run-load :
      (moves : List (Move W)) (ks : List ℕ)
      → (run moves fresh_lock).storing ≡ idle
      → is_complete ks ≡ true
      → (x : MotorFeedbackSample W) × ((run
            (call_load ∷ read 6 ∷ map read ks)
            (run moves fresh_lock)).loading
          ≡ returned x)
        × IsNewest x (run moves fresh_lock).stored
  unfolding run move continue_load
  run-load moves ks free complete =
      let l = run moves fresh_lock in
      let sound = run-IsSound moves fresh_lock fresh_lock-IsSound in
      let (even, newest) = subst (IsStoring l.sequence l.sample l.stored) free sound in
      let is_even : (l.sequence % 2 == 0) ≡ true = (==_iff _ _).1 even in
      let begun = record l { loading = reading l.sequence no_sample nothing none } in
      let first : continue_load 6 (record l { loading = waiting }) ≡ begun = rw is_even refl in
      let whole =
        complete_returns (noted ks nothing) l.sequence l.sample (run (map read ks) begun).loading
          (is_complete-every ks complete)
          (reads-IsUndisturbed ks nothing begun (
            refl,
            (
              (λ h. ground arith),
              (λ h. ground arith),
              (λ h. ground arith),
              (λ h. ground arith),
              (λ h. ground arith),
              λ h. ground arith,
            ),
            (λ k small h. ground arith),
            (λ h. ground arith),
            (λ n e. ground arith),
            refl,
          )) in
      (l.sample, ap (λ m. (run (map read ks) m).loading) first ∙ whole, newest)

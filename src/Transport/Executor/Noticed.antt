-- ===== src/Transport/Executor/Noticed.antt =====
-- The end of the executor's thread is noticed.
use robstride_ros.Prelude.{
  ℕ, Bool, true, false, List, [], ◌∷◌, ◌≡◌, inl, inr, refl, arith, Bool-cases, All, if◌then◌else◌,
}
use robstride_ros.Transport.State.{Transport, has_failed, record_failure, executor_shutdown}
use robstride_ros.Transport.Health.{health}
use robstride_ros.Transport.Executor.{Round, guarded_callback, caught, spin, run_executor}

-- The transport sends no active frame any more and says that it has failed.
pub record IsDown (t : Transport) : Type 0 where
  pub stopped : t.running ≡ false
  pub closed : t.active_commands_enabled ≡ false
  pub failed : has_failed t ≡ true

-- A stop of the executor is requested only by a failure, not by the owner.
abbrev pub IsUnasked : Transport → Type 0
IsUnasked t = t.executor_stop_requested ≡ true → IsDown t

record_failure-IsDown :
    (executor_failure : Bool) (t : Transport) → IsDown (record_failure executor_failure t)
unfolding record_failure
record_failure-IsDown executor_failure t = ground arith

executor_shutdown-IsDown : (t : Transport) → IsDown (executor_shutdown t)
unfolding executor_shutdown
executor_shutdown-IsDown t = ground arith

-- A callback that throws takes the transport down.
pub guarded_callback-IsUnasked :
    (throws : Bool) (called : Transport → Transport) (t : Transport)
    → IsUnasked (called t)
    → IsUnasked (guarded_callback throws called t)
unfolding guarded_callback
guarded_callback-IsUnasked true called t h = λ _. record_failure-IsDown true (called t)
guarded_callback-IsUnasked false called t h = h

choose-IsDown :
    (b : Bool) (t u : Transport) → (b ≡ true → IsDown t) → IsDown u → IsDown (if b then t else u)
choose-IsDown true t u asked other = asked refl
choose-IsDown false t u asked other = other

caught-IsDown : (context_ok : Bool) (t : Transport) → IsDown (caught context_ok t)
caught-IsDown true t = record_failure-IsDown true t
caught-IsDown false t = executor_shutdown-IsDown t

spin-IsDown :
    (rounds : List Round) (t : Transport)
    → All (λ round. (u : Transport) → IsUnasked u → IsUnasked (round.meanwhile u)) rounds
    → IsUnasked t
    → (spin rounds t).1 ≡ true
    → IsDown (spin rounds t).0
unfolding spin
spin-IsDown [] t all unasked ended = cc
spin-IsDown (round ∷ rounds) t (keeps, all) unasked ended =
    let u = round.meanwhile t in
    let left =
      choose-IsDown u.executor_stop_requested u (executor_shutdown u) (keeps t unasked)
        (executor_shutdown-IsDown u) in
    let thrown = caught-IsDown round.context_ok_after u in
    let later = spin-IsDown rounds u all (keeps t unasked) in
    elim (Bool-cases t.executor_stop_requested) [
      | inl asked ↦ simp asked (unasked asked)
      | inr on ↦ elim (Bool-cases round.context_ok) [
        | inr gone ↦ simp (on, gone) left
        | inl valid ↦ elim (Bool-cases round.throws) [
          | inl throws ↦ simp (on, valid, throws) thrown
          | inr fine ↦ simp (on, valid, fine) (later (ground (arith, on, valid, fine, ended)))
        ]
      ]
    ]

health-IsDown :
    (failure_timeout now : ℕ) (t : Transport)
    → IsDown t
    → (health failure_timeout now t).persistent ≡ true
unfolding health
health-IsDown failure_timeout now t down =
    let stopped = down.stopped in let failed = down.failed in ground arith

-- Unless the owner requests it, the executor's thread does not end unnoticed: once it has ended,
-- whatever the callbacks and the other threads did, the transport no longer runs, active commands
-- are disabled, a failure is recorded, and the health is a persistent failure at any time.
pub run_executor-IsDown :
    (rounds : List Round) (t : Transport) (failure_timeout now : ℕ)
    → All (λ round. (u : Transport) → IsUnasked u → IsUnasked (round.meanwhile u)) rounds
    → IsUnasked t
    → (run_executor rounds t).1 ≡ true
    → IsDown (run_executor rounds t).0
      × ((health failure_timeout now (run_executor rounds t).0).persistent ≡ true)
unfolding run_executor
run_executor-IsDown rounds t failure_timeout now all unasked ended =
    let down = spin-IsDown rounds t all unasked ended in
    (down, health-IsDown failure_timeout now (spin rounds t).0 down)

-- ===== src/Transport/Executor/Tests.antt =====
-- The executor's thread at concrete inputs.
use robstride_ros.Prelude.{true, false, [], ◌∷◌, ◌≡◌, refl, arith}
use robstride_ros.Transport.State.{Transport, create, record_failure}
use robstride_ros.Transport.Health.{health}
use robstride_ros.Transport.Executor.{Round, guarded_callback, run_executor}
use robstride_ros.Transport.Executor.Noticed.{
  IsDown, guarded_callback-IsUnasked, run_executor-IsDown,
}

-- A round in which the receive callback throws, and the one after it.
abbrev failing : Round
failing = record {
  context_ok = true;
  meanwhile = guarded_callback true λ t. t;
  throws = false;
  context_ok_after = true;
}

abbrev quiet : Round
quiet = record { context_ok = true; meanwhile = λ t. t; throws = false; context_ok_after = true }

abbrev serving : Transport
serving = record (create 1) { running = true; active_commands_enabled = true }

still_serving : run_executor (quiet ∷ []) serving ≡ (serving, false, false)
unfolding run_executor create
still_serving = refl

ended : (run_executor (failing ∷ quiet ∷ []) serving).1 ≡ true
unfolding run_executor create guarded_callback record_failure
ended = refl

unasked : serving.executor_stop_requested ≡ true → IsDown serving
unfolding create
unasked h = ground arith

run_executor-IsDown_example :
    IsDown (run_executor (failing ∷ quiet ∷ []) serving).0
    × ((health 100 9 (run_executor (failing ∷ quiet ∷ []) serving).0).persistent ≡ true)
run_executor-IsDown_example =
    run_executor-IsDown (failing ∷ quiet ∷ []) serving 100 9
      (λ u. guarded_callback-IsUnasked true (λ t. t) u, (λ u h. h, tt)) unasked ended

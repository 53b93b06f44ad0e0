-- ===== src/Transport/Executor.antt =====
-- robstride_driver/src/can_transport.cpp: `run_executor`, and the wrappers of the callbacks that its
-- thread calls. ROS is not part of the program: whether its context is valid, whether a call
-- throws and what the other threads and the callbacks do meanwhile are arguments.
pub mod Noticed
pub mod Tests
use robstride_ros.Prelude.{Bool, true, false, not, ◌&&◌, ◌||◌, List, [], ◌∷◌, if◌then◌else◌}
use robstride_ros.Transport.State.{Transport, record_failure, executor_shutdown}

-- The lambda of the subscription, and that of the timer: `called` is what the callback does until it
-- returns or throws.
unfoldable pub guarded_callback : Bool → (Transport → Transport) → Transport → Transport
guarded_callback throws called t = if throws then record_failure true (called t) else called t

-- A round of the loop: whether the context is valid at its test, what happens until the next test
-- of `executor_stop_requested_`, whether `spin_once` throws, and whether the context is valid in
-- the handler.
pub record Round : Type 0 where
  pub context_ok : Bool
  pub meanwhile : Transport → Transport
  pub throws : Bool
  pub context_ok_after : Bool

-- After the loop.
abbrev pub left_loop : Transport → Transport
left_loop t = if t.executor_stop_requested then t else executor_shutdown t

-- The handler.
abbrev pub caught : Bool → Transport → Transport
caught context_ok t = if context_ok then record_failure true t else executor_shutdown t

-- The state after the rounds, and whether the thread has left the `try` statement.
unfoldable pub spin : List Round → Transport → Transport × Bool
spin [] t = (t, false)
spin (round ∷ rounds) t =
    let u = round.meanwhile t in
    let rest = spin rounds u in
    if t.executor_stop_requested
    then (t, true)
    else if not round.context_ok
    then (left_loop u, true)
    else if round.throws
    then (caught round.context_ok_after u, true)
    else rest

-- The state, whether the thread has ended, and whether it calls `publish_failure_diagnostic`.
unfoldable pub run_executor : List Round → Transport → Transport × Bool × Bool
unfolding spin
run_executor rounds t =
    let (u, ended) = spin rounds t in (u, ended, ended && (u.executor_failed || u.worker_failed))

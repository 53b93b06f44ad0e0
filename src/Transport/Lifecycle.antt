-- ===== src/Transport/Lifecycle.antt =====
-- robstride_driver/src/can_transport.cpp: `start`, `stop`, and the two waits. What other threads do
-- while a call waits is an argument; so are the polls of a wait and the answers of ROS.
use robstride_ros.Prelude.{
  ℕ, ◌+◌, Bool, true, false, not, ◌&&◌, ◌||◌, List, [], ◌∷◌, if◌then◌else◌, ◌==◌, ltb, leb,
  is_empty,
}
use robstride_ros.Clock.{ms}
use robstride_ros.Transport.State.{
  Transport, has_failed, cleared, disable_active_commands, record_failure, reset_metrics,
  update_endpoint_status,
}
use robstride_ros.Transport.Publish.{Endpoint}

-- `stop` up to the join of the worker: the first critical section, then `executor_stop_requested_`.
unfoldable pub halt : Transport → Transport
halt t = record t { running = false }

unfoldable pub request_executor_stop : Transport → Transport
request_executor_stop t = record t { executor_stop_requested = true }

unfoldable pub begin_stop : Transport → Transport
unfolding halt request_executor_stop disable_active_commands
begin_stop t = disable_active_commands (request_executor_stop (halt t))

-- `stop` after the join of the worker.
unfoldable pub finish_stop : Transport → Transport
finish_stop t = record t {
  pending_transactions = [];
  transactions_in_flight = 0;
  pending_motion_frames = cleared t.pending_motion_frames;
  pending_recovery_frames = cleared t.pending_recovery_frames;
}

-- `joined` is what the other threads do until they have ended.
unfoldable pub stop : (Transport → Transport) → Transport → Transport
unfolding begin_stop finish_stop
stop joined t = finish_stop (joined (begin_stop t))

-- The assignments of `start` after its call of `stop`.
unfoldable pub reset : Endpoint → ℕ → Transport → Transport
unfolding reset_metrics update_endpoint_status
reset e now t = update_endpoint_status (e.has_sink && not e.has_probe) now (record u {
  worker_failed = false;
  executor_failed = false;
  context_shutdown = false;
  executor_stop_requested = false;
  bridge_available = false;
  bridge_unavailable_since_ns = 0;
  active_work_progress_ns = 0;
})
  where
    u : Transport
    u = reset_metrics now t

-- `created` says whether the ROS entities and the threads could be made; if not, `start` throws.
unfoldable pub start : Endpoint → ℕ → Bool → (Transport → Transport) → Transport → Transport × Bool
unfolding stop reset record_failure
start e now created joined t =
    if t.running && not (has_failed t)
    then (t, true)
    else let u = reset e now (stop joined t) in
      if created
      then (record u { running = true }, true)
      else (stop joined (record_failure true u), false)

-- A round of the wait for endpoints: `running_`, the time, and whether both endpoints are connected.
pub record Poll : Type 0 where
  pub running : Bool
  pub now : ℕ
  pub connected : Bool

pub poll_until : List Poll → ℕ → ℕ → Transport → Transport × Bool
unfolding update_endpoint_status
poll_until [] deadline last t = (update_endpoint_status false last t, false)
poll_until (p ∷ polls) deadline last t =
    let rest = poll_until polls deadline p.now t in
    if p.running && ltb p.now deadline
    then (if p.connected then (update_endpoint_status true p.now t, true) else rest)
    else (update_endpoint_status false p.now t, false)

unfoldable pub wait_for_endpoints : Endpoint → List Poll → ℕ → ℕ → Transport → Transport × Bool
unfolding poll_until update_endpoint_status
wait_for_endpoints e polls timeout now t =
    if e.has_sink
    then (update_endpoint_status available now t, available)
    else poll_until polls (now + ms timeout) now t
  where
    available : Bool
    available = t.running && (if e.has_probe then not e.probe_throws && e.probe_says else true)

-- The predicate of `wait_for_transaction_acknowledgements`.
abbrev pub drained : Transport → Bool
drained t = has_failed t || (is_empty t.pending_transactions && t.transactions_in_flight == 0)

-- The result, for the state `t` and the time `now` at which the wait on the predicate has ended, and
-- the answer `acked` of the publisher's own wait.
unfoldable pub wait_for_transaction_acknowledgements : Endpoint → ℕ → ℕ → Bool → Transport → Bool
wait_for_transaction_acknowledgements e now deadline acked t =
    if not (drained t)
    then false
    else if has_failed t
    then false
    else if e.has_sink
    then true
    else if leb deadline now
    then false
    else if not e.has_publisher || not e.has_subscription
    then false
    else acked

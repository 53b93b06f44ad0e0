-- ===== src/Transport/Drain.antt =====
-- robstride_driver/src/can_transport.cpp: the transmit thread alone, once `stop` has cleared
-- `running_`.
pub mod Ends
use robstride_ros.Prelude.{
  ℕ, ◌+◌, Bool, true, false, not, ◌&&◌, ◌||◌, List, [], ◌∷◌, ◌++◌, ◌≡◌, if◌then◌else◌, length,
  is_empty,
}
use robstride_ros.Protocol.{Frame}
use robstride_ros.Transport.State.{Sent, transaction, Transport, has_failed}
use robstride_ros.Transport.Publish.{Endpoint, endpoint_available}
use robstride_ros.Transport.Worker.{
  Worker, waiting, sending, settling, exited, is_awake, wake, send_next, settle_progress,
}

-- The next step of the thread at the time `now`, if it has one.
unfoldable pub worker_step : Endpoint → ℕ → Transport → Worker → Transport × Worker
worker_step e now t waiting = if is_awake t then wake t else (t, waiting)
worker_step e now t (sending batch taken) = send_next e now batch taken t
worker_step e now t settling = settle_progress t
worker_step e now t exited = (t, exited)

-- One step at each of these times.
unfoldable pub work : Endpoint → List ℕ → Transport → Worker → Transport × Worker
work e [] t w = (t, w)
work e (now ∷ times) t w = let (u, x) = worker_step e now t w in work e times u x

-- The transactions that have been accepted and not yet handed on, oldest first.
abbrev pub owed : Transport → Worker → List Frame
owed t (sending batch taken) = batch.transactions ++ t.pending_transactions
owed t _ = t.pending_transactions

-- What has been handed on, newest first, after these frames as well.
abbrev pub handed : List Frame → List Sent → List Sent
handed [] sent = sent
handed (frame ∷ frames) sent = handed frames (transaction frame ∷ sent)

-- The steps that are left before the thread ends.
abbrev pub wait_steps : List Frame → ℕ
wait_steps [] = 1
wait_steps (frame ∷ frames) = length frames + 5

abbrev pub steps_left : Transport → Worker → ℕ
steps_left t waiting = wait_steps t.pending_transactions
steps_left t (sending batch taken) =
    length batch.transactions
    + length batch.recovery_frames
    + length batch.motion_frames
    + 2
    + wait_steps t.pending_transactions
steps_left t settling = 1 + wait_steps t.pending_transactions
steps_left t exited = 0

-- The transport has been stopped without a failure.
abbrev pub IsHalted : Transport → Type 0
IsHalted t = (t.running ≡ false) × (has_failed t ≡ false)

-- The endpoint is there and takes every frame.
abbrev pub IsServing : Endpoint → Type 0
IsServing e =
    (endpoint_available e ≡ true)
    × ((e.has_probe && e.probe_throws) ≡ false)
    × ((e.has_sink || e.has_publisher) ≡ true)
    × (e.publish_throws ≡ false)

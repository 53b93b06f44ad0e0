-- ===== src/Transport/System.antt =====
-- The threads of a `CanTransport` together: the transmit worker, the driver's threads, the executor
-- and the owner. A step is a critical section with the writes of atomics that go with it, or a
-- write of an atomic, and the steps come in any order. A publication holds `publisher_mutex_` from
-- its guards on, and is one step; so is a failure's or a shutdown's report of itself, and so is
-- what `start` sets while no thread of the transport runs.
pub mod Keeps
pub mod Fresh
pub mod Fifo
pub mod Flight
pub mod Slots
use robstride_ros.Prelude.{ℕ, ◌+◌, ◌≤◌, ◌<◌, ◌≡◌, Bool, true, List, u64_mod, has_value}
use robstride_ros.Protocol.{Frame}
use robstride_ros.Transport.State.{
  MotorFrame, RecoveryUpdate, Transport, create, close_active_commands, next_generation,
  clear_recovery, discard_pending_active_frames, clear_progress, open_active_commands,
  record_failure, executor_shutdown, update_endpoint_status,
}
use robstride_ros.Transport.Publish.{Endpoint}
use robstride_ros.Transport.Queue.{
  send_transaction, queue_motion_frames_locked, mark_recovery, apply_recovery_updates_locked,
}
use robstride_ros.Transport.Worker.{
  Batch, Worker, waiting, sending, settling, exited, is_awake, wake, send_next, settle_progress,
}
use robstride_ros.Transport.Lifecycle.{halt, request_executor_stop, finish_stop, reset}

pub record System : Type 0 where
  pub transport : Transport
  pub worker : Worker

-- The system after a step of the worker.
abbrev pub after : Transport × Worker → System
after (t, w) = record { transport = t; worker = w }

-- The generation is a 64-bit counter; the runs considered are those in which it does not wrap.
abbrev pub HasRoom : Transport → Type 0
HasRoom t = t.active_generation + 1 < u64_mod

pub data Step (s u : System) : Type 0 where
  wakes : s.worker ≡ waiting → is_awake s.transport ≡ true → u ≡ after (wake s.transport) → Step s u
  sends :
      (e : Endpoint) (now taken : ℕ) (batch : Batch)
      → s.worker ≡ sending batch taken
      → HasRoom s.transport
      → u ≡ after (send_next e now batch taken s.transport)
      → Step s u
  settles : s.worker ≡ settling → u ≡ after (settle_progress s.transport) → Step s u
  submits :
      (frame : Frame) → u ≡ record s { transport = send_transaction frame s.transport } → Step s u
  -- A producer has read the generation earlier.
  queues :
      (generation now : ℕ) (frames : List MotorFrame)
      → u ≡ record s { transport = queue_motion_frames_locked generation frames now s.transport }
      → Step s u
  marks :
      (updates : List RecoveryUpdate)
      → u ≡ record s {
        transport = mark_recovery updates (λ update. has_value update.frame) s.transport;
      }
      → Step s u
  recovers :
      (generation now : ℕ) (updates : List RecoveryUpdate)
      → u
        ≡ record s { transport = apply_recovery_updates_locked generation updates now s.transport }
      → Step s u
  closes : u ≡ record s { transport = close_active_commands s.transport } → Step s u
  advances :
      HasRoom s.transport → u ≡ record s { transport = next_generation s.transport } → Step s u
  clears : u ≡ record s { transport = clear_recovery s.transport } → Step s u
  discards : u ≡ record s { transport = discard_pending_active_frames s.transport } → Step s u
  rests : u ≡ record s { transport = clear_progress s.transport } → Step s u
  opens : u ≡ record s { transport = open_active_commands s.transport } → Step s u
  fails :
      (executor_failure : Bool)
      → HasRoom s.transport
      → u ≡ record s { transport = record_failure executor_failure s.transport }
      → Step s u
  shuts_down : u ≡ record s { transport = executor_shutdown s.transport } → Step s u
  probes :
      (available : Bool) (now : ℕ)
      → u ≡ record s { transport = update_endpoint_status available now s.transport }
      → Step s u
  halts : u ≡ record s { transport = halt s.transport } → Step s u
  requests_stop : u ≡ record s { transport = request_executor_stop s.transport } → Step s u
  -- The owner has joined the worker.
  finishes : s.worker ≡ exited → u ≡ record s { transport = finish_stop s.transport } → Step s u
  -- The owner starts again, with a new worker; `start` calls `stop` before it resets the state.
  starts :
      (e : Endpoint) (now : ℕ)
      → s.worker ≡ exited
      → u ≡ record {
        transport = record (reset e now (finish_stop s.transport)) { running = true };
        worker = waiting;
      }
      → Step s u

-- The system of a new transport, before its first start.
abbrev pub created : ℕ → System
created motor_count = record { transport = create motor_count; worker = exited }

pub data Reach (s : System) : System → Type 0 where
  here : Reach s s
  next : {t u : System} → Reach s t → Step t u → Reach s u

-- ===== src/Transport/State.antt =====
-- robstride_driver/include/robstride_driver/can_transport.hpp: the state of a `CanTransport`, and the
-- operations that only set it. An atomic member is a field, a slot of one pending frame per motor an
-- option, an array of flags a list. Times are nanoseconds, with 0 for "none" as in the source.
use robstride_ros.Prelude.{
  ℕ, Bool, true, false, not, ◌&&◌, ◌||◌, Option, none, some, List, [], ◌∷◌, if◌then◌else◌, ◌==◌,
  map, replicate, bump_u64, has_value, any, is_empty, Text,
}
use robstride_ros.Protocol.{Frame}

-- The ROS context is left out.
pub record CanTransportOptions : Type 0 where
  pub node_name : Text
  pub transmit_topic : Text
  pub receive_topic : Text
  pub motor_count : ℕ
  pub receive_qos_depth : ℕ

pub record MotorFrame : Type 0 where
  pub motor_index : ℕ
  pub frame : Frame

pub record RecoveryUpdate : Type 0 where
  pub motor_index : ℕ
  pub frame : Option Frame

pub record ActiveFrame : Type 0 where
  pub frame : Frame
  pub motor_index : ℕ
  pub generation : ℕ

-- A frame on the bus, with the queue that it came from.
pub data Sent : Type 0 where
  transaction : Frame → Sent
  recovery : ActiveFrame → Sent
  motion : ActiveFrame → Sent

-- `sent` is what the sink or the publisher was given, newest first.
pub record Transport : Type 0 where
  pub motor_count : ℕ
  pub pending_transactions : List Frame
  pub pending_motion_frames : List (Option ActiveFrame)
  pub pending_recovery_frames : List (Option ActiveFrame)
  pub recovery_active : List Bool
  pub running : Bool
  pub worker_failed : Bool
  pub executor_failed : Bool
  pub context_shutdown : Bool
  pub executor_stop_requested : Bool
  pub active_commands_enabled : Bool
  pub active_generation : ℕ
  pub transactions_in_flight : ℕ
  pub motion_frames_transmitted : ℕ
  pub recovery_frames_transmitted : ℕ
  pub transaction_frames_transmitted : ℕ
  pub motion_frames_coalesced : ℕ
  pub metrics_started_at_ns : ℕ
  pub bridge_available : Bool
  pub bridge_unavailable_since_ns : ℕ
  pub active_work_progress_ns : ℕ
  pub sent : List Sent

-- The members after the constructor.
unfoldable pub create : ℕ → Transport
create motor_count = record {
  motor_count = motor_count;
  pending_transactions = [];
  pending_motion_frames = replicate motor_count none;
  pending_recovery_frames = replicate motor_count none;
  recovery_active = replicate motor_count false;
  running = false;
  worker_failed = false;
  executor_failed = false;
  context_shutdown = false;
  executor_stop_requested = false;
  active_commands_enabled = false;
  active_generation = 0;
  transactions_in_flight = 0;
  motion_frames_transmitted = 0;
  recovery_frames_transmitted = 0;
  transaction_frames_transmitted = 0;
  motion_frames_coalesced = 0;
  metrics_started_at_ns = 0;
  bridge_available = false;
  bridge_unavailable_since_ns = 0;
  active_work_progress_ns = 0;
  sent = [];
}

-- The constructor, `none` where it throws; `has_callback` says whether the receive callback is set.
unfoldable pub construct : CanTransportOptions → Bool → Option Transport
unfolding create
construct options has_callback =
    if is_empty options.node_name
    then none
    else if options.motor_count == 0
    then none
    else if options.receive_qos_depth == 0
    then none
    else if not has_callback
    then none
    else some (create options.motor_count)

-- `worker_failed_ || executor_failed_ || context_shutdown_`.
abbrev pub has_failed : Transport → Bool
has_failed t = t.worker_failed || t.executor_failed || t.context_shutdown

-- `compare_exchange_strong(expected = 0, now)`.
abbrev pub set_if_zero : ℕ → ℕ → ℕ
set_if_zero old now = if old == 0 then now else old

unfoldable pub update_endpoint_status : Bool → ℕ → Transport → Transport
update_endpoint_status available now t =
    if available
    then record t { bridge_available = true; bridge_unavailable_since_ns = 0 }
    else record t {
      bridge_available = false;
      bridge_unavailable_since_ns = set_if_zero t.bridge_unavailable_since_ns now;
    }

unfoldable pub reset_metrics : ℕ → Transport → Transport
reset_metrics now t = record t {
  motion_frames_transmitted = 0;
  recovery_frames_transmitted = 0;
  transaction_frames_transmitted = 0;
  motion_frames_coalesced = 0;
  metrics_started_at_ns = now;
}

abbrev pub cleared : List (Option ActiveFrame) → List (Option ActiveFrame)
cleared = map λ _. none

unfoldable pub discard_pending_active_frames : Transport → Transport
discard_pending_active_frames t = record t {
  pending_motion_frames = cleared t.pending_motion_frames;
  pending_recovery_frames = cleared t.pending_recovery_frames;
}

-- The four parts of `disable_active_commands`, each of which another thread may come after.
unfoldable pub close_active_commands : Transport → Transport
close_active_commands t = record t { active_commands_enabled = false }

unfoldable pub next_generation : Transport → Transport
next_generation t = record t { active_generation = bump_u64 t.active_generation }

unfoldable pub clear_recovery : Transport → Transport
clear_recovery t = record t { recovery_active = map (λ _. false) t.recovery_active }

unfoldable pub clear_progress : Transport → Transport
clear_progress t = record t { active_work_progress_ns = 0 }

unfoldable pub disable_active_commands : Transport → Transport
unfolding close_active_commands next_generation clear_recovery discard_pending_active_frames
    clear_progress
disable_active_commands t =
    clear_progress
      (discard_pending_active_frames (clear_recovery (next_generation (close_active_commands t))))

-- The critical section at the end of `enable_active_commands`.
unfoldable pub open_active_commands : Transport → Transport
open_active_commands t = record t { active_commands_enabled = t.running && not (has_failed t) }

unfoldable pub enable_active_commands : Transport → Transport
unfolding disable_active_commands open_active_commands
enable_active_commands t = open_active_commands (disable_active_commands t)

unfoldable pub record_failure : Bool → Transport → Transport
record_failure executor_failure t = record t {
  executor_failed = executor_failure || t.executor_failed;
  worker_failed = not executor_failure || t.worker_failed;
  active_commands_enabled = false;
  active_generation = bump_u64 t.active_generation;
  running = false;
  executor_stop_requested = true;
}

-- `run_executor` when it finds the ROS context shut down with no stop requested.
unfoldable pub executor_shutdown : Transport → Transport
executor_shutdown t = record t {
  context_shutdown = true;
  active_commands_enabled = false;
  running = false;
}

-- A motion frame whose motor is not in recovery: the loop of `has_sendable_active_frame`.
abbrev pub has_free_motion : List (Option ActiveFrame) → List Bool → Bool
has_free_motion [] flags = false
has_free_motion (slot ∷ slots) [] = has_value slot || has_free_motion slots []
has_free_motion (slot ∷ slots) (flag ∷ flags) =
    (has_value slot && not flag) || has_free_motion slots flags

unfoldable pub has_sendable_active_frame : Transport → Bool
has_sendable_active_frame t =
    any has_value t.pending_recovery_frames
    || has_free_motion t.pending_motion_frames t.recovery_active

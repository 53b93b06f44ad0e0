-- ===== src/Transport/Health.antt =====
-- robstride_driver/src/can_transport.cpp: `metrics` and `health`, as of the time `now`.
-- A member that is read twice in the code has the same value both times.
use robstride_ros.Prelude.{
  ℕ, ◌+◌, ◌-◌, ◌*◌, ◌≤◌, ◌<◌, ◌≡◌, ◌↔◌, Bool, true, false, not, ◌&&◌, ◌||◌, if◌then◌else◌, ltb, leb,
  arith,
}
use robstride_ros.Clock.{ms}
use robstride_ros.Transport.State.{Transport}

pub record CanTransportMetrics : Type 0 where
  pub motion_frames_transmitted : ℕ
  pub recovery_frames_transmitted : ℕ
  pub transaction_frames_transmitted : ℕ
  pub motion_frames_coalesced : ℕ
  pub observation_period : ℕ

pub data CanTransportHealthState : Type 0 where
  healthy bridge_unavailable transmit_stalled worker_stopped executor_failed context_shutdown :
      CanTransportHealthState

pub record CanTransportHealth : Type 0 where
  pub state : CanTransportHealthState
  pub duration : ℕ
  pub persistent : Bool

-- `elapsed_since`: 0 for a time that is not set, and never negative.
abbrev pub elapsed_since : ℕ → ℕ → ℕ
elapsed_since now reference = if ltb 0 reference then now - reference else 0

unfoldable pub metrics : ℕ → Transport → CanTransportMetrics
metrics now t = record {
  motion_frames_transmitted = t.motion_frames_transmitted;
  recovery_frames_transmitted = t.recovery_frames_transmitted;
  transaction_frames_transmitted = t.transaction_frames_transmitted;
  motion_frames_coalesced = t.motion_frames_coalesced;
  observation_period = elapsed_since now t.metrics_started_at_ns;
}

unfoldable pub health : ℕ → ℕ → Transport → CanTransportHealth
health failure_timeout now t =
    if t.executor_failed
    then record { state = executor_failed; duration = 0; persistent = true }
    else if t.context_shutdown
    then record { state = context_shutdown; duration = 0; persistent = true }
    else if t.worker_failed || not t.running
    then record { state = worker_stopped; duration = 0; persistent = true }
    else if not t.bridge_available
    then (let duration = elapsed_since now t.bridge_unavailable_since_ns in
        record {
          state = bridge_unavailable;
          duration = duration;
          persistent = leb (ms failure_timeout) duration;
        })
    else if t.active_commands_enabled
        && (ltb 0 t.active_work_progress_ns
            && leb (ms failure_timeout) (elapsed_since now t.active_work_progress_ns))
    then record {
      state = transmit_stalled;
      duration = elapsed_since now t.active_work_progress_ns;
      persistent = true;
    }
    else record { state = healthy; duration = 0; persistent = false }

-- The threads work: none has failed and the context is not shut down.
pub IsWorking : Transport → Type 0
IsWorking t =
    (t.running ≡ true)
    × (t.worker_failed ≡ false)
    × (t.executor_failed ≡ false)
    × (t.context_shutdown ≡ false)

-- A time that is set and at least `timeout` milliseconds before `now`.
pub IsOlder : ℕ → ℕ → ℕ → Type 0
IsOlder timeout now reference = (0 < reference) × (reference + timeout * 1_000_000 ≤ now)

-- `health` reports no persistent failure exactly when the threads work and neither has the bridge
-- been away for the timeout nor, while it is there and active commands are enabled, has queued work
-- been without progress for the timeout; for a timeout that is not 0.
pub health_persistent_iff :
    (timeout now : ℕ) (t : Transport)
    → 0 < timeout
    → ((health timeout now t).persistent ≡ false) ↔ (
        IsWorking t
        × ((t.bridge_available ≡ false) → ¬ IsOlder timeout now t.bridge_unavailable_since_ns)
        × ((t.bridge_available ≡ true)
            → (t.active_commands_enabled ≡ true)
            → ¬ IsOlder timeout now t.active_work_progress_ns))
unfolding health IsWorking IsOlder
health_persistent_iff timeout now t positive = ground (arith, ms)

-- ===== src/Recovery.antt =====
-- `RecoveryState` of robstride_driver/include/robstride_driver/joint_data.hpp: when to send an enable
-- frame again to a motor that has left Run mode.
pub mod Pace
pub mod Tests
use robstride_ros.Prelude.{ℕ, ◌+◌, Bool, true, false, not, ◌||◌, if◌then◌else◌, ◌==◌, List, [], ◌∷◌}
use robstride_ros.Clock.{ms, elapsed}
use robstride_ros.Protocol.{motor_mode_run}

pub data RecoveryAction : Type 0 where
  none send_enable recovered failed : RecoveryAction

pub record RecoveryState : Type 0 where
  pub active : Bool
  pub detected_mode : ℕ
  pub attempts : ℕ
  pub started_at : ℕ
  pub last_attempt_at : ℕ

-- `RecoveryState{}`.
abbrev pub fresh : RecoveryState
fresh = record {
  active = false;
  detected_mode = 0;
  attempts = 0;
  started_at = 0;
  last_attempt_at = 0;
}

-- `if (!active) {...}`: the first report of another mode opens the recovery.
abbrev opened : RecoveryState → ℕ → ℕ → RecoveryState
opened r reported_mode now =
    if r.active
    then r
    else record r { active = true; detected_mode = reported_mode; started_at = now }

-- The rest of `update`, for an open recovery.
abbrev retry : RecoveryState → ℕ → ℕ → ℕ → RecoveryState × RecoveryAction
retry r now timeout retry_interval =
    if elapsed r.started_at now (ms timeout)
    then (r, RecoveryAction.failed)
    else if r.attempts == 0 || elapsed r.last_attempt_at now (ms retry_interval)
    then (record r { last_attempt_at = now; attempts = r.attempts + 1 }, RecoveryAction.send_enable)
    else (r, RecoveryAction.none)

-- `RecoveryState::update`: the new state and the action. Timeouts are in milliseconds.
unfoldable pub update : RecoveryState → ℕ → ℕ → ℕ → ℕ → RecoveryState × RecoveryAction
update r reported_mode now timeout retry_interval =
    if reported_mode == motor_mode_run
    then (if r.active then (fresh, RecoveryAction.recovered) else (r, RecoveryAction.none))
    else retry (opened r reported_mode now) now timeout retry_interval

-- The state after a series of reports, each a mode and a time.
pub run : RecoveryState → List (ℕ × ℕ) → ℕ → ℕ → RecoveryState
run r [] timeout retry_interval = r
run r ((mode, now) ∷ reports) timeout retry_interval =
    run (update r mode now timeout retry_interval).0 reports timeout retry_interval

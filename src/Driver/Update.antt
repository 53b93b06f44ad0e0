-- ===== src/Driver/Update.antt =====
-- robstride_driver/src/driver.cpp: `update_state`. The events that are only logged are kept in a list.
pub mod Passes
use robstride_ros.Prelude.{
  ℕ, ◌+◌, ◌-◌, ◌%◌, Bool, true, false, not, ◌&&◌, ◌||◌, Option, none, some, List, [], ◌∷◌, ◌++◌,
  if◌then◌else◌, ◌==◌, ltb, u64_mod,
}
use robstride_ros.Clock.{ms, exceeded}
use robstride_ros.Protocol.{make_enable, motor_mode_run}
use robstride_ros.Recovery.{RecoveryAction, RecoveryState, update}
use robstride_ros.Joint.{JointData}
use robstride_ros.Transport.State.{RecoveryUpdate, Transport}
use robstride_ros.Transport.Queue.{apply_recovery_updates}
use robstride_ros.Driver.State.{DriverSettings, RecoveryMetrics, Driver, on_transport}
use robstride_ros.Driver.Commands.{check_transport_health}

pub data RuntimeEventKind : Type 0 where
  feedback_timeout recovery_started recovered recovery_failed : RuntimeEventKind

pub record RuntimeEvent : Type 0 where
  pub kind : RuntimeEventKind
  pub joint_index : ℕ
  pub mode : ℕ
  pub attempts : ℕ

-- What the loop, or a part of it, has made of the joints. `failed` is `read_failed`.
pub record Reading (W : Type 0) : Type 0 where
  pub joints : List (JointData W)
  pub recovery_metrics : List RecoveryMetrics
  pub recovery_updates : List RecoveryUpdate
  pub runtime_events : List RuntimeEvent
  pub failed : Bool

abbrev count_attempts : RecoveryState → RecoveryState → RecoveryMetrics → RecoveryMetrics
count_attempts before after m = record {
  active = after.active;
  attempts =
      if ltb before.attempts after.attempts
      then (m.attempts + (after.attempts - before.attempts)) % u64_mod
      else m.attempts;
}

module _ {W : Type 0} where
  -- `if (joint.feedback_status.received) {joint.state = joint.feedback;}`
  abbrev pub snapshot_state : JointData W → JointData W
  snapshot_state j = if j.feedback_status.received then record j { state = j.feedback } else j

  abbrev pub timed_out : DriverSettings → ℕ → ℕ → JointData W → Bool
  timed_out s activated_at now j =
      s.fail_on_feedback_timeout
      && exceeded (if j.feedback_status.received then j.feedback_status.timestamp else activated_at)
          now (ms s.feedback_timeout)

  abbrev pub recovery_step : DriverSettings → ℕ → JointData W → RecoveryState × RecoveryAction
  recovery_step s now j =
      update j.recovery j.feedback_status.mode now s.recovery_timeout s.recovery_retry_interval

  -- The branches on the action: updates, events, and whether the loop is left.
  abbrev pub respond :
      DriverSettings
      → ℕ
      → JointData W
      → RecoveryState
      → RecoveryAction
      → List RecoveryUpdate × List RuntimeEvent × Bool
  respond s index j r RecoveryAction.recovered = (
    record { motor_index = index; frame = none } ∷ [],
    record {
      kind = recovered;
      joint_index = index;
      mode = motor_mode_run;
      attempts = j.recovery.attempts;
    }
        ∷ [],
    false,
  )
  respond s index j r RecoveryAction.failed = (
    [],
    record {
      kind = recovery_failed;
      joint_index = index;
      mode = r.detected_mode;
      attempts = r.attempts;
    }
        ∷ [],
    true,
  )
  respond s index j r RecoveryAction.send_enable = (
    record { motor_index = index; frame = some (make_enable j.can_id s.host_id) } ∷ [],
    (if r.attempts == 1
        then record {
          kind = recovery_started;
          joint_index = index;
          mode = r.detected_mode;
          attempts = r.attempts;
        }
          ∷ []
        else []),
    false,
  )
  respond s index j r RecoveryAction.none = ([], [], false)

  -- The body of the loop.
  unfoldable pub read_joint : DriverSettings → ℕ → ℕ → ℕ → JointData W → RecoveryMetrics → Reading W
  read_joint s activated_at now index j m =
      if timed_out s activated_at now j
      then record {
        joints = snapshot_state j ∷ [];
        recovery_metrics = m ∷ [];
        recovery_updates = [];
        runtime_events =
            record { kind = feedback_timeout; joint_index = index; mode = 0; attempts = 0 } ∷ [];
        failed = true;
      }
      else if not j.feedback_status.received
      then record {
        joints = snapshot_state j ∷ [];
        recovery_metrics = m ∷ [];
        recovery_updates = [];
        runtime_events = [];
        failed = false;
      }
      else let (r, action) = recovery_step s now j in
        let (updates, events, stop) = respond s index j r action in
        record {
          joints = record (snapshot_state j) { recovery = r } ∷ [];
          recovery_metrics = count_attempts j.recovery r m ∷ [];
          recovery_updates = updates;
          runtime_events = events;
          failed = stop;
        }

  -- A round and the rounds after it, which do not happen when it has failed.
  abbrev pub followed_by :
      Reading W → List (JointData W) → List RecoveryMetrics → Reading W → Reading W
  followed_by one joints metrics rest =
      if one.failed
      then record one {
        joints = one.joints ++ joints;
        recovery_metrics = one.recovery_metrics ++ metrics;
      }
      else record {
        joints = one.joints ++ rest.joints;
        recovery_metrics = one.recovery_metrics ++ rest.recovery_metrics;
        recovery_updates = one.recovery_updates ++ rest.recovery_updates;
        runtime_events = one.runtime_events ++ rest.runtime_events;
        failed = rest.failed;
      }

  unfoldable pub read_joints :
      DriverSettings → ℕ → ℕ → ℕ → List (JointData W) → List RecoveryMetrics → Reading W
  read_joints s activated_at now index (j ∷ joints) (m ∷ metrics) =
      let rest = read_joints s activated_at now (index + 1) joints metrics in
      followed_by (read_joint s activated_at now index j m) joints metrics rest
  read_joints s activated_at now index [] metrics = record {
    joints = [];
    recovery_metrics = metrics;
    recovery_updates = [];
    runtime_events = [];
    failed = false;
  }
  read_joints s activated_at now index (j ∷ joints) [] = record {
    joints = j ∷ joints;
    recovery_metrics = [];
    recovery_updates = [];
    runtime_events = [];
    failed = false;
  }

  -- A call that nothing interrupts: the driver after it, the events to log, and the result.
  unfoldable pub update_state : ℕ → Driver W → Driver W × List RuntimeEvent × Bool
  update_state now v =
      if not v.active
      then (v, [], true)
      else if not (check_transport_health now v)
      then (v, [], false)
      else (
        record v {
          joints = reading.joints;
          recovery_metrics = reading.recovery_metrics;
          transport =
              on_transport (apply_recovery_updates reading.recovery_updates now) v.transport;
        },
        reading.runtime_events,
        not reading.failed,
      )
    where
      reading : Reading W
      reading = read_joints v.settings v.activated_at now 0 v.joints v.recovery_metrics

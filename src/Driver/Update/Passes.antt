-- ===== src/Driver/Update/Passes.antt =====
-- When a control cycle's read succeeds.
use robstride_ros.Prelude.{
  ℕ, ◌+◌, ◌*◌, ◌≤◌, ◌<◌, true, false, List, [], ◌∷◌, ◌≡◌, ◌≢◌, ◌↔◌, arith, All, length,
}
use robstride_ros.Clock.{ms}
use robstride_ros.Protocol.{motor_mode_run}
use robstride_ros.Recovery.{update}
use robstride_ros.Joint.{JointData}
use robstride_ros.Driver.State.{DriverSettings, RecoveryMetrics, Driver}
use robstride_ros.Driver.Commands.{check_transport_health}
use robstride_ros.Driver.Commands.Carried.{IsCarried, check_transport_health_iff}
use robstride_ros.Driver.Update.{read_joint, read_joints, update_state}

module _ {W : Type 0} where
  -- The joint's last feedback, or the activation before there is one, is not too long ago, if this is
  -- to matter; and a motor that is not in Run mode has not been so for the recovery timeout.
  abbrev pub IsPassing : DriverSettings → ℕ → ℕ → JointData W → Type 0
  IsPassing s activated_at now j =
      ((s.fail_on_feedback_timeout ≡ true)
        → (j.feedback_status.received ≡ true)
        → now ≤ j.feedback_status.timestamp + s.feedback_timeout * 1_000_000)
      × ((s.fail_on_feedback_timeout ≡ true)
          → (j.feedback_status.received ≡ false)
          → now ≤ activated_at + s.feedback_timeout * 1_000_000)
      × ((j.feedback_status.received ≡ true)
          → j.feedback_status.mode ≢ motor_mode_run
          → (j.recovery.active ≡ true)
          → now < j.recovery.started_at + s.recovery_timeout * 1_000_000)

  read_joint_iff :
      (s : DriverSettings) (activated_at now index : ℕ) (j : JointData W) (m : RecoveryMetrics)
      → 0 < s.recovery_timeout
      → ((read_joint s activated_at now index j m).failed ≡ false) ↔ IsPassing s activated_at now j
  unfolding read_joint update
  read_joint_iff s activated_at now index j m positive = ground (arith, ms)

  read_joints_iff :
      (s : DriverSettings) (activated_at now index : ℕ) (joints : List (JointData W))
      (metrics : List RecoveryMetrics)
      → 0 < s.recovery_timeout
      → length metrics ≡ length joints
      → ((read_joints s activated_at now index joints metrics).failed ≡ false)
        ↔ All (IsPassing s activated_at now) joints
  unfolding read_joints
  read_joints_iff s activated_at now index [] metrics positive same = ground arith
  read_joints_iff s activated_at now index (j ∷ joints) [] positive same = ground arith
  read_joints_iff s activated_at now index (j ∷ joints) (m ∷ metrics) positive same =
      let one = read_joint_iff s activated_at now index j m positive in
      let rest =
        read_joints_iff s activated_at now (index + 1) joints metrics positive
          (omega (arith, same)) in
      ground (arith, one, rest)

  -- A read of an active driver, with recovery metrics for each joint and positive timeouts, succeeds
  -- exactly when it has a transport whose threads work, whose bridge has not been away for
  -- transmit_failure_timeout, and whose queued work, with a bridge and active commands enabled, has had
  -- progress within it; every joint has feedback that is recent enough, where timeouts are to fail;
  -- and no motor that is not in Run mode has been in recovery for recovery_timeout.
  pub update_state_iff :
      (now : ℕ) (v : Driver W)
      → v.active ≡ true
      → length v.recovery_metrics ≡ length v.joints
      → 0 < v.settings.transmit_failure_timeout
      → 0 < v.settings.recovery_timeout
      → ((update_state now v).2 ≡ true)
        ↔ (IsCarried now v × All (IsPassing v.settings v.activated_at now) v.joints)
  unfolding update_state
  update_state_iff now v active same transmit recovery =
      let all_pass =
        read_joints_iff v.settings v.activated_at now 0 v.joints v.recovery_metrics recovery same in
      let carried = check_transport_health_iff now v transmit in
      let passes : ((update_state now v).2 ≡ true) ↔ (
          (check_transport_health now v ≡ true)
          × All (IsPassing v.settings v.activated_at now) v.joints) =
        ground (arith, all_pass, active) in
      (
        λ h. let (ok, all) = passes.0 h in (carried.0 ok, all),
        λ (ok, all). passes.1 (carried.1 ok, all),
      )

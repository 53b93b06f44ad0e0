-- ===== src/Diagnostics/Levels.antt =====
-- What the levels of the diagnostics tell of the driver.
use robstride_ros.Prelude.{ℕ, ◌+◌, ◌*◌, ◌≤◌, ◌<◌, Bool, false, ◌≡◌, ◌↔◌, ◌⊎◌, arith}
use robstride_ros.Double.{Double}
use robstride_ros.Protocol.{motor_mode_run}
use robstride_ros.Joint.{JointData}
use robstride_ros.Driver.State.{MotorFeedbackSample, RecoveryMetrics}
use robstride_ros.Driver.Measure.{motor_metrics}
use robstride_ros.Diagnostics.{ok, motor_level}

module _ {W : Type 0} ⦃d : Double W⦄ where
  -- A motor in order: it has sent feedback, not longer ago than the timeout, without a fault; no
  -- recovery is under way; and if the driver is active, the motor runs.
  abbrev pub IsInOrder : Bool → ℕ → ℕ → MotorFeedbackSample W → RecoveryMetrics → Type 0
  IsInOrder active feedback_timeout now s r =
      (s.fault_flags ≡ 0)
      × (0 < s.last_received_at_ns)
      × (now ≤ s.last_received_at_ns + feedback_timeout * 1_000_000)
      × (r.active ≡ false)
      × ((active ≡ false) ⊎ (s.mode ≡ motor_mode_run))

  -- The level of a motor in the diagnostics is OK exactly if the motor is in order.
  pub motor_level-ok_iff :
      (active : Bool) (feedback_timeout period now : ℕ) (j : JointData W)
      (s : MotorFeedbackSample W) (r : RecoveryMetrics)
      → (motor_level active (motor_metrics feedback_timeout period now j s r) ≡ ok)
        ↔ IsInOrder active feedback_timeout now s r
  unfolding motor_level motor_metrics
  motor_level-ok_iff active feedback_timeout period now j s r =
      (λ h. ground arith, λ p. ground arith)

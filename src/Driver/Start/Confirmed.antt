-- ===== src/Driver/Start/Confirmed.antt =====
-- What a successful start has confirmed, and what a stop leaves.
use robstride_ros.Prelude.{ℕ, ◌≤◌, true, ◌≡◌, all}
use robstride_ros.Double.{Double}
use robstride_ros.Protocol.{motor_mode_run}
use robstride_ros.Recovery.{fresh}
use robstride_ros.Joint.{JointData}
use robstride_ros.Driver.State.{Driver}
use robstride_ros.Driver.Start.{Waits, runs_since, activated}
use robstride_ros.Driver.Skeleton.{Skeleton, skeleton}

module _ {W : Type 0} ⦃d : Double W⦄ where
  -- The joint's last feedback says Run mode.
  abbrev pub IsRunning : JointData W → Type 0
  IsRunning j =
      (j.feedback_status.received ≡ true)
      × (j.feedback_status.mode ≡ motor_mode_run)
      × (j.state ≡ j.feedback)
      × (j.recovery ≡ fresh)

  -- The joint's last feedback says Run mode and is not older than `since`.
  abbrev pub IsConfirmed : ℕ → JointData W → Type 0
  IsConfirmed since j =
      (j.feedback_status.received ≡ true)
      × (since ≤ j.feedback_status.timestamp)
      × (j.feedback_status.mode ≡ motor_mode_run)

  -- The driver of a successful start when the last confirmation has been found.
  abbrev IsStarted : Waits → Driver W → Driver W → Type 0
  IsStarted w v u =
      (attempt : ℕ) × (x : Driver W) × (u ≡ activated w x)
      × (skeleton x ≡ skeleton v)
      × (all (runs_since (w.enable attempt).requested_at) x.joints ≡ true)

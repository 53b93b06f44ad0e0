-- ===== src/Driver/Commands.antt =====
-- robstride_driver/src/driver.cpp: `send_commands` and `check_transport_health`. The messages of a
-- rejection are left out; a rejection is `none`.
pub mod Bounds
pub mod Batch
pub mod Carried
pub mod Latched
pub mod Motion
use robstride_ros.Prelude.{
  ℕ, Bool, true, false, not, ◌&&◌, ◌||◌, Option, none, some, List, [], ◌∷◌, if◌then◌else◌,
}
use robstride_ros.Double.{Double, nought}
use robstride_ros.Protocol.{Frame, make_motion_command}
use robstride_ros.Joint.{
  JointData, contains_position, contains_velocity, contains_effort, checked_joint_to_motor_position,
  joint_to_motor_effort,
}
use robstride_ros.Transport.State.{MotorFrame, Transport, disable_active_commands}
use robstride_ros.Transport.Queue.{queue_motion_frames}
use robstride_ros.Transport.Health.{CanTransportHealth, healthy, health}
use robstride_ros.Driver.State.{DriverSettings, Driver, on_transport}

-- `health.state == healthy`, or a failure that is not persistent.
abbrev health_passes : CanTransportHealth → Bool
health_passes h = elim h.state [ healthy ↦ true | _ ↦ not h.persistent ]

unfoldable pub check_transport_health : {W : Type 0} → ℕ → Driver W → Bool
unfolding health
check_transport_health now d = elim d.transport [
  | none ↦ false
  | some t ↦ health_passes (health d.settings.transmit_failure_timeout now t)
]

-- The local motor values of the loop in `send_commands`.
pub record Targets (W : Type 0) : Type 0 where
  pub position : W
  pub velocity : W
  pub effort : W
  pub kp : W
  pub kd : W

module _ {W : Type 0} ⦃d : Double W⦄ where
  open d use {isfinite, lt, times}

  -- The part of the loop's body after the position has been checked.
  abbrev pub checked_targets : JointData W → W → W → W → Option (Targets W)
  checked_targets j p v e =
      if not (isfinite v) || lt v j.limits.velocity_min || lt j.limits.velocity_max v
      then none
      else if not (isfinite e)
          || lt e j.limits.effort_min
          || lt j.limits.effort_max e
          || lt e j.limits.effort_wire_min
          || lt j.limits.effort_wire_max e
      then none
      else some (record {
        position = p;
        velocity = v;
        effort = e;
        kp = if j.claimed.position then j.kp else nought;
        kd = if j.claimed.position || j.claimed.velocity then j.kd else nought;
      })

  -- The body of the loop up to the motor command: `none` for `reject`.
  unfoldable pub motor_targets : JointData W → Option (Targets W)
  motor_targets j =
      if j.claimed.position && not (contains_position j.command_limits j.command.position)
      then none
      else if j.claimed.velocity && not (contains_velocity j.command_limits j.command.velocity)
      then none
      else if j.claimed.effort && not (contains_effort j.command_limits j.command.effort)
      then none
      else elim checked_position [
        | none ↦ none
        | some p ↦ checked_targets j p motor_velocity motor_effort
      ]
    where
      checked_position : Option W
      checked_position =
          if j.claimed.position
          then checked_joint_to_motor_position j j.command.position
          else some nought

      motor_velocity : W
      motor_velocity =
          if j.claimed.velocity
          then times (times j.direction j.command.velocity) j.gear_ratio
          else nought

      motor_effort : W
      motor_effort = if j.claimed.effort then joint_to_motor_effort j j.command.effort else nought

  abbrev pub command_frame : JointData W → Targets W → Frame
  command_frame j x = make_motion_command j.can_id j.limits x.position x.velocity x.effort x.kp x.kd

  -- The loop: the snapshot, and `false` if it was left by a rejection.
  unfoldable pub fill_snapshot : List (JointData W) → List MotorFrame → List MotorFrame × Bool
  fill_snapshot [] snapshot = (snapshot, true)
  fill_snapshot (j ∷ joints) [] = ([], true)
  fill_snapshot (j ∷ joints) (slot ∷ snapshot) =
      let (filled, ok) = fill_snapshot joints snapshot in
      elim (motor_targets j) [
        | none ↦ (slot ∷ snapshot, false)
        | some x ↦ (record slot { frame = command_frame j x } ∷ filled, ok)
      ]

  -- A call that nothing interrupts, at the time `now`: the driver after it, and the result.
  unfoldable pub send_commands : ℕ → Driver W → Driver W × Bool
  unfolding fill_snapshot check_transport_health queue_motion_frames disable_active_commands
  send_commands now v =
      if v.command_rejected
      then (v, false)
      else if not v.active
      then (v, true)
      else let (snapshot, ok) = fill_snapshot v.joints v.command_snapshot in
        if ok
        then (let u = record v {
          command_snapshot = snapshot;
          transport = on_transport (queue_motion_frames snapshot now) v.transport;
        } in
            (u, check_transport_health now u))
        else (
          record v {
            command_snapshot = snapshot;
            command_rejected = true;
            transport = on_transport disable_active_commands v.transport;
          },
          false,
        )

-- ===== src/Driver/Connection/Attached.antt =====
-- An active driver has a transport.
use robstride_ros.Prelude.{
  ℕ, Bool, true, Option, none, some, List, ◌≡◌, refl, ap, arith, inl, inr, Bool-cases, Option-cases,
  has_value,
}
use robstride_ros.Double.{Double}
use robstride_ros.Joint.{JointData, ClaimedInterfaces}
use robstride_ros.Transport.State.{Transport, disable_active_commands, enable_active_commands}
use robstride_ros.Transport.Publish.{Endpoint}
use robstride_ros.Transport.Queue.{queue_motion_frames, apply_recovery_updates}
use robstride_ros.Transport.Lifecycle as Lifecycle
use robstride_ros.Driver.State.{Driver, on_transport}
use robstride_ros.Driver.Receive.{Message, receive_frame, receive_for, record_feedback}
use robstride_ros.Driver.Modes.{apply_command_modes}
use robstride_ros.Driver.Commands.{fill_snapshot, send_commands}
use robstride_ros.Driver.Update.{update_state, read_joints}
use robstride_ros.Driver.Start.{
  Waits, prepare_joints, enable_and_confirm_all, settle, start_motors, start,
}
use robstride_ros.Driver.Connection.{open_driver, close}
use robstride_ros.Driver.Connection.Active.{disable_all-active}
use robstride_ros.Driver.Skeleton.Views.{enable_and_confirm-view, prepare_joints-view, settle-view}

abbrev pub IsAttached : {W : Type 0} → Driver W → Type 0
IsAttached v = v.active ≡ true → has_value v.transport ≡ true

pub has_value-on_transport :
    (f : Transport → Transport) (t : Option Transport) → has_value (on_transport f t) ≡ has_value t
has_value-on_transport f none = refl
has_value-on_transport f (some t) = refl

-- Whether the driver is active, and whether it has a transport.
abbrev pub link : {W : Type 0} → Driver W → Bool × Bool
link v = (v.active, has_value v.transport)

pub link-IsAttached : {W : Type 0} (u v : Driver W) → link u ≡ link v → IsAttached v → IsAttached u
link-IsAttached u v same attached active = ground arith

module _ {W : Type 0} ⦃d : Double W⦄ where
  carries :
      (f : Transport → Transport) (v : Driver W)
      → link (record v { transport = on_transport f v.transport }) ≡ link v
  carries f v = ap (λ b. (v.active, b)) (has_value-on_transport f v.transport)

  receive_for-link :
      (now : ℕ) (msg : Message) (index : ℕ) (j : JointData W) (v : Driver W)
      → link (receive_for now msg index j v) ≡ link v
  unfolding receive_for record_feedback
  receive_for-link now msg index j v = ground arith

  pub receive_frame-link :
      (now : ℕ) (msg : Message) (v : Driver W) → link (receive_frame now msg v) ≡ link v
  unfolding receive_frame
  receive_frame-link now msg v = grind (arith, receive_for-link)

  pub update_state-link : (now : ℕ) (v : Driver W) → link (update_state now v).0 ≡ link v
  unfolding update_state
  update_state-link now v =
      let updates =
        (read_joints v.settings v.activated_at now 0 v.joints
          v.recovery_metrics).recovery_updates in
      let kept = has_value-on_transport (apply_recovery_updates updates now) v.transport in
      ground arith

  pub apply_command_modes-link :
      (now : ℕ) (modes : List ClaimedInterfaces) (v : Driver W)
      → link (apply_command_modes now modes v).0 ≡ link v
  unfolding apply_command_modes
  apply_command_modes-link now modes v = ground arith

  pub send_commands-link : (now : ℕ) (v : Driver W) → link (send_commands now v).0 ≡ link v
  unfolding send_commands
  send_commands-link now v =
      let snapshot = (fill_snapshot v.joints v.command_snapshot).0 in
      let queued = has_value-on_transport (queue_motion_frames snapshot now) v.transport in
      let disabled = has_value-on_transport disable_active_commands v.transport in ground arith

  start_motors-IsAttached :
      (w : Waits) (v : Driver W) → has_value v.transport ≡ true → IsAttached (start_motors w v).0
  unfolding enable_and_confirm_all
  start_motors-IsAttached w v there =
      let (u, prepared) = prepare_joints w 0 v.joints v in
      let (x, enabled) = enable_and_confirm_all w.enable u in
      let first = prepare_joints-view link receive_frame-link carries w 0 v.joints v in
      let second =
        enable_and_confirm-view link receive_frame-link carries u.settings.startup_retries 1
          w.enable u in
      let inactive = disable_all-active w.meanwhile u in
      let inactive' = disable_all-active w.meanwhile x in
      let settled = settle-view link receive_frame-link carries (λ y. refl) w x in
      let kept = has_value-on_transport enable_active_commands (settle w x).transport in
      λ active. ground arith

  pub start-IsAttached :
      (w : Waits) (now : ℕ) (v : Driver W) → IsAttached v → IsAttached (start w now v).0
  unfolding start
  start-IsAttached w now v attached = elim (Option-cases v.transport) [
    | inl nowhere ↦ rw (nowhere, start) (λ active. ground (arith, attached, nowhere))
    | inr (t, there) ↦
        let (u, connected) =
          Lifecycle.wait_for_endpoints w.endpoint w.polls v.settings.connection_timeout now t in
        elim (Bool-cases connected) [
          | inl on ↦
              rw (there, start, on)
                (start_motors-IsAttached w (record v { transport = some u }) refl)
          | inr off ↦ rw (there, start, off) (λ active. refl)
        ]
  ]

  pub open_driver-IsAttached :
      (e : Endpoint) (now started_at : ℕ) (created : Bool) (joined : Transport → Transport)
      (v : Driver W)
      → IsAttached (open_driver e now started_at created joined v).0
  unfolding open_driver close
  open_driver-IsAttached e now started_at created joined v active = ground arith

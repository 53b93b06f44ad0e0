-- ===== src/System/Run/Attached.antt =====
-- Whatever the plugin does, an active driver has a transport.
use robstride_ros.Prelude.{ℕ, Bool, false, List, ◌≡◌, refl, ap, arith, Text}
use robstride_ros.Double.{Double}
use robstride_ros.Transport.State.{Transport}
use robstride_ros.CommandMode.{command_modes_after_switch}
use robstride_ros.Driver.State.{Driver, on_transport}
use robstride_ros.Driver.Receive.{receive_frame}
use robstride_ros.Driver.Start.{Waits, start, stop}
use robstride_ros.Driver.Connection.{close}
use robstride_ros.Driver.Connection.Active.{stop-active}
use robstride_ros.Driver.Connection.Attached.{
  IsAttached, link, link-IsAttached, has_value-on_transport, receive_frame-link, update_state-link,
  apply_command_modes-link, send_commands-link, start-IsAttached, open_driver-IsAttached,
}
use robstride_ros.System.Bindings.{consume}
use robstride_ros.System.State.{System, current_command_modes}
use robstride_ros.System.Lifecycle.{
  publish_states, publish_commands, on_export_state_interfaces, on_export_command_interfaces,
  on_configure, on_cleanup, on_activate, on_deactivate, on_shutdown, on_error,
}
use robstride_ros.System.Cycle.{read, write}
use robstride_ros.System.Switch.{claimed_by, perform_command_mode_switch}
use robstride_ros.System.Run.{
  Step, exports_states, exports_commands, configures, cleans_up, activates, deactivates, shuts_down,
  handles_error, reads, writes, switches, receives, transmits, asks, Reach, here, next,
}

module _ {W : Type 0} ⦃d : Double W⦄ where
  inactive-IsAttached : (v : Driver W) → v.active ≡ false → IsAttached v
  inactive-IsAttached v inactive active = absurd (ground arith)

  on_activate-IsAttached :
      (w : Waits) (now : ℕ) (states_free commands_free : ℕ → Bool)
      (meanwhile : Transport → Transport) (s : System W)
      → IsAttached s.driver
      → IsAttached (on_activate w now states_free commands_free meanwhile s).0.driver
  unfolding on_activate publish_states publish_commands
  on_activate-IsAttached w now states_free commands_free meanwhile s attached active =
      let v = (start w now s.driver).0 in
      let started = start-IsAttached w now s.driver attached in
      let (stopped, _) = stop-active meanwhile v in ground arith

  read-link :
      (now : ℕ) (free : ℕ → Bool) (s : System W) → link (read now free s).0.driver ≡ link s.driver
  unfolding read publish_states
  read-link now free s = let updated = update_state-link now s.driver in ground arith

  write-link :
      (now : ℕ) (free : ℕ → Bool) (s : System W) → link (write now free s).0.driver ≡ link s.driver
  unfolding write
  write-link now free s =
      let (_, joints, _) = consume free s.command_values s.commands s.driver.joints in
      let sent = send_commands-link now (record s.driver { joints = joints }) in ground arith

  perform-link :
      (now : ℕ) (free : ℕ → Bool) (begin end : List Text) (s : System W)
      → link (perform_command_mode_switch now free begin end s).0.driver ≡ link s.driver
  unfolding perform_command_mode_switch
  perform-link now free begin end s =
      let previous = current_command_modes s.driver in
      let modes = claimed_by (command_modes_after_switch previous begin end) in
      let applied = apply_command_modes-link now modes s.driver in ground arith

  Step-IsAttached : {s u : System W} → Step s u → IsAttached s.driver → IsAttached u.driver
  unfolding on_export_state_interfaces on_export_command_interfaces publish_states publish_commands
      on_configure on_cleanup on_deactivate on_shutdown on_error close
  Step-IsAttached {s} (exports_states free e) a = rw e a
  Step-IsAttached {s} (exports_commands free e) a = rw e a
  Step-IsAttached {s} (configures ep now started_at created joined e) a =
      rw e (open_driver-IsAttached ep now started_at created joined s.driver)
  Step-IsAttached {s} (cleans_up e) a = rw e (inactive-IsAttached (close s.driver) refl)
  Step-IsAttached {s} (activates w now sf cf meanwhile e) a =
      rw e (on_activate-IsAttached w now sf cf meanwhile s a)
  Step-IsAttached {s} (deactivates meanwhile e) a =
      rw e (inactive-IsAttached (stop meanwhile s.driver) (stop-active meanwhile s.driver).0)
  Step-IsAttached {s} (shuts_down meanwhile e) a =
      rw e (inactive-IsAttached (close (stop meanwhile s.driver)) refl)
  Step-IsAttached {s} (handles_error meanwhile e) a =
      rw e (inactive-IsAttached (close (stop meanwhile s.driver)) refl)
  Step-IsAttached {s} (reads now free e) a =
      rw e (link-IsAttached (read now free s).0.driver s.driver (read-link now free s) a)
  Step-IsAttached {s} (writes now free e) a =
      rw e (link-IsAttached (write now free s).0.driver s.driver (write-link now free s) a)
  Step-IsAttached {s} (switches now free begin end e) a = rw e (
      link-IsAttached (perform_command_mode_switch now free begin end s).0.driver s.driver
        (perform-link now free begin end s) a)
  Step-IsAttached {s} (receives now msg e) a = rw e (
      link-IsAttached (receive_frame now msg s.driver) s.driver
        (receive_frame-link now msg s.driver) a)
  Step-IsAttached {s} (transmits f e) a =
      let kept = has_value-on_transport f s.driver.transport in
      let transport = on_transport f s.driver.transport in
      rw e (
        link-IsAttached (record s.driver { transport = transport }) s.driver
          (ap (λ b. (s.driver.active, b)) kept) a)
  Step-IsAttached {s} (asks values e) a = rw e a

  pub Reach-IsAttached : {s u : System W} → IsAttached s.driver → Reach s u → IsAttached u.driver
  Reach-IsAttached a here = a
  Reach-IsAttached a (next r st) = Step-IsAttached st (Reach-IsAttached a r)

-- ===== src/System/Run/Steps.antt =====
-- Every step of the plugin keeps the driver's skeleton and the bindings.
use robstride_ros.Prelude.{refl, sym, ◌∙◌}
use robstride_ros.Double.{Double}
use robstride_ros.Driver.Skeleton.{Skeleton}
use robstride_ros.Driver.Skeleton.Operations.{receive_frame-skeleton}
use robstride_ros.Driver.Skeleton.Starting.{stop-skeleton, open_driver-skeleton, close-skeleton}
use robstride_ros.Driver.Start.{stop}
use robstride_ros.System.State.{System}
use robstride_ros.System.Lifecycle.{
  publish_states, publish_commands, on_export_state_interfaces, on_export_command_interfaces,
  on_configure, on_cleanup, on_deactivate, on_shutdown, on_error,
}
use robstride_ros.System.Run.{
  Step, exports_states, exports_commands, configures, cleans_up, activates, deactivates, shuts_down,
  handles_error, reads, writes, switches, receives, transmits, asks, Reach, here, next,
}
use robstride_ros.System.Run.Kept.{
  IsKept, kept-IsSized, of_Same, on_activate-Same, read-Same, perform-Same, kept-bound,
  kept-exported, unsampled-command_bindings, write-Same,
}

module _ {W : Type 0} ⦃d : Double W⦄ where
  Step-IsKept : {k : Skeleton W} {s u : System W} → Step s u → IsKept k s → IsKept k u
  unfolding on_export_state_interfaces on_export_command_interfaces publish_states publish_commands
      on_configure on_cleanup on_deactivate on_shutdown on_error
  Step-IsKept {k} {s} (exports_states free e) c =
      rw e (of_Same s _ (refl, sym (kept-bound c), refl) c)
  Step-IsKept {k} {s} (exports_commands free e) c =
      let bound = unsampled-command_bindings 0 s.driver.joints ∙ sym (kept-exported c) in
      rw e (of_Same s _ (refl, refl, bound) c)
  Step-IsKept {k} {s} (configures ep now started_at created joined e) c =
      let opened =
        open_driver-skeleton ep now started_at created joined s.driver (kept-IsSized c) in
      rw e (of_Same s _ (opened, refl, refl) c)
  Step-IsKept {k} {s} (cleans_up e) c = rw e (of_Same s _ (close-skeleton s.driver, refl, refl) c)
  Step-IsKept {k} {s} (activates w now sf cf meanwhile e) c =
      rw e (of_Same s _ (on_activate-Same w now sf cf meanwhile s) c)
  Step-IsKept {k} {s} (deactivates meanwhile e) c =
      rw e (of_Same s _ (stop-skeleton meanwhile s.driver, refl, refl) c)
  Step-IsKept {k} {s} (shuts_down meanwhile e) c =
      let closed = close-skeleton (stop meanwhile s.driver) ∙ stop-skeleton meanwhile s.driver in
      rw e (of_Same s _ (closed, refl, refl) c)
  Step-IsKept {k} {s} (handles_error meanwhile e) c =
      let closed = close-skeleton (stop meanwhile s.driver) ∙ stop-skeleton meanwhile s.driver in
      rw e (of_Same s _ (closed, refl, refl) c)
  Step-IsKept {k} {s} (reads now free e) c = rw e (of_Same s _ (read-Same now free s) c)
  Step-IsKept {k} {s} (writes now free e) c =
      rw e (of_Same s _ (write-Same now free s (kept-exported c)) c)
  Step-IsKept {k} {s} (switches now free start stop e) c =
      rw e (of_Same s _ (perform-Same now free start stop s) c)
  Step-IsKept {k} {s} (receives now msg e) c =
      rw e (of_Same s _ (receive_frame-skeleton now msg s.driver, refl, refl) c)
  Step-IsKept {k} {s} (transmits transport e) c = rw e (of_Same s _ (refl, refl, refl) c)
  Step-IsKept {k} {s} (asks values e) c = rw e (of_Same s _ (refl, refl, refl) c)

  pub Reach-IsKept : {k : Skeleton W} {s u : System W} → IsKept k s → Reach s u → IsKept k u
  Reach-IsKept c here = c
  Reach-IsKept c (next r st) = Step-IsKept st (Reach-IsKept c r)

-- ===== src/System/Activation.antt =====
-- The life cycle of the plugin: when the driver is active.
use robstride_ros.Prelude.{ℕ, Bool, true, false, ◌≡◌, ◌↔◌, refl, arith}
use robstride_ros.Double.{Double}
use robstride_ros.Transport.State.{Transport}
use robstride_ros.Driver.Start.{Waits, start}
use robstride_ros.Driver.Connection.{close}
use robstride_ros.Driver.Connection.Active.{start-active, stop-active}
use robstride_ros.System.State.{System}
use robstride_ros.System.Lifecycle.{
  success, publish_states, publish_commands, on_activate, on_cleanup, on_deactivate, on_shutdown,
  on_error,
}

module _ {W : Type 0} ⦃d : Double W⦄ where
  on_activate-active_iff :
      (w : Waits) (now : ℕ) (states_free commands_free : ℕ → Bool)
      (meanwhile : Transport → Transport) (s : System W)
      → s.driver.active ≡ false
      → let (after, result) = on_activate w now states_free commands_free meanwhile s in
        (result ≡ success) ↔ (after.driver.active ≡ true)
  unfolding on_activate publish_states publish_commands
  on_activate-active_iff w now states_free commands_free meanwhile s inactive =
      let started = start-active w now s.driver inactive in
      let stopped = (stop-active meanwhile (start w now s.driver).0).0 in
      (λ h. ground (arith, started, stopped), λ h. ground (arith, started, stopped))

  -- If the driver is inactive, an activation succeeds exactly if it leaves the driver active: a
  -- failure of the start and a failure to publish the initial values both leave it inactive. After
  -- that a deactivation, a cleanup, a shutdown and the handling of an error each leave it inactive.
  pub on_activate-active :
      (w : Waits) (now : ℕ) (states_free commands_free : ℕ → Bool)
      (meanwhile : Transport → Transport) (s : System W)
      → s.driver.active ≡ false
      → let (after, result) = on_activate w now states_free commands_free meanwhile s in
        ((result ≡ success) ↔ (after.driver.active ≡ true))
        × ((on_deactivate meanwhile after).0.driver.active ≡ false)
        × ((on_cleanup after).0.driver.active ≡ false)
        × ((on_shutdown meanwhile after).0.driver.active ≡ false)
        × ((on_error meanwhile after).0.driver.active ≡ false)
  unfolding on_deactivate on_cleanup on_shutdown on_error close
  on_activate-active w now states_free commands_free meanwhile s inactive =
      let after = (on_activate w now states_free commands_free meanwhile s).0 in
      (
        on_activate-active_iff w now states_free commands_free meanwhile s inactive,
        (stop-active meanwhile after.driver).0,
        refl,
        refl,
        refl,
      )

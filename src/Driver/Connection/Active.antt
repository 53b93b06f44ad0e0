-- ===== src/Driver/Connection/Active.antt =====
-- When the driver is active: `start` and `stop` of robstride_driver/src/driver.cpp.
use robstride_ros.Prelude.{
  ℕ, zero, suc, false, some, List, [], ◌∷◌, ◌≡◌, refl, ◌∙◌, arith, inl, inr, Option-cases, map, All,
}
use robstride_ros.Double.{Double}
use robstride_ros.Joint.{JointData}
use robstride_ros.Transport.State.{Transport}
use robstride_ros.Transport.Lifecycle.{wait_for_endpoints}
use robstride_ros.Driver.State.{Driver, RecoveryMetrics}
use robstride_ros.Driver.Start.{
  Waits, request_stop, repeat_stop, calm, disable_all, stop, start, start_motors, prepare_joints,
  enable_and_confirm_all,
}

map-calm : (metrics : List RecoveryMetrics) → All (λ m. m.active ≡ false) (map calm metrics)
map-calm [] = tt
map-calm (m ∷ metrics) = (refl, map-calm metrics)

module _ {W : Type 0} ⦃d : Double W⦄ where
  request_stop-active :
      (joints : List (JointData W)) (v : Driver W) → (request_stop joints v).active ≡ v.active
  unfolding request_stop
  request_stop-active [] v = refl
  request_stop-active (j ∷ joints) v = request_stop-active joints _

  repeat_stop-active :
      (n : ℕ) (meanwhile : Transport → Transport) (v : Driver W)
      → (repeat_stop n meanwhile v).active ≡ v.active
  unfolding repeat_stop
  repeat_stop-active zero meanwhile v = refl
  repeat_stop-active (suc n) meanwhile v =
      repeat_stop-active n meanwhile _ ∙ request_stop-active v.joints v

  pub disable_all-active :
      (meanwhile : Transport → Transport) (v : Driver W) → (disable_all meanwhile v).active ≡ false
  unfolding disable_all
  disable_all-active meanwhile v = repeat_stop-active _ meanwhile _

  -- A stop leaves the driver inactive, and no recovery reported as active.
  pub stop-active :
      (meanwhile : Transport → Transport) (v : Driver W)
      → ((stop meanwhile v).active ≡ false)
        × All (λ m. m.active ≡ false) (stop meanwhile v).recovery_metrics
  unfolding stop
  stop-active meanwhile v =
      (disable_all-active meanwhile v, map-calm (disable_all meanwhile v).recovery_metrics)

  start_motors-active :
      (w : Waits) (v : Driver W) → (start_motors w v).1 ≡ (start_motors w v).0.active
  start_motors-active w v =
      let (u, prepared) = prepare_joints w 0 v.joints v in
      let (x, enabled) = enable_and_confirm_all w.enable u in
      ground (arith, disable_all-active w.meanwhile u, disable_all-active w.meanwhile x)

  -- After a start of an inactive driver it is active exactly if the start is reported as
  -- successful: whatever fails on the way, be it the connection, a parameter or the motors' Run
  -- mode, leaves it inactive.
  pub start-active :
      (w : Waits) (now : ℕ) (v : Driver W)
      → v.active ≡ false
      → (start w now v).1 ≡ (start w now v).0.active
  unfolding start
  start-active w now v inactive = elim (Option-cases v.transport) [
    | inl missing ↦ ground (arith, missing, inactive)
    | inr (t, found) ↦
        let wait = wait_for_endpoints w.endpoint w.polls v.settings.connection_timeout now t in
        let after = record v { transport = some wait.0 } in
        ground (arith, found, inactive, start_motors-active w after)
  ]

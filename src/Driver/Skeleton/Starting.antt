-- ===== src/Driver/Skeleton/Starting.antt =====
-- The start and the stop of the motors, and the life of the transport, keep a driver's skeleton.
use robstride_ros.Prelude.{
  ℕ, suc, Bool, true, some, List, [], ◌∷◌, ◌≡◌, refl, sym, ◌∙◌, ap, arith, inl, inr, Bool-cases,
  Option-cases, length, length-map,
}
use robstride_ros.Double.{Double}
use robstride_ros.Joint.{JointData}
use robstride_ros.Transport.State.{Transport}
use robstride_ros.Transport.Publish.{Endpoint}
use robstride_ros.Transport.Lifecycle as Lifecycle
use robstride_ros.Driver.State.{Driver, on_transport, DriverConfiguration}
use robstride_ros.Driver.Initialize.{no_samples, no_attempts, reset_metrics, initialize}
use robstride_ros.Driver.Start.{
  Waits, enable_and_confirm_all, disable_all, stop, prepare_joints, activate_joint, settle,
  start_motors, start, calm,
}
use robstride_ros.Driver.Connection.{open_driver, close}
use robstride_ros.Driver.Skeleton.{skeleton, IsSized}
use robstride_ros.Driver.Skeleton.Views.{
  enable_and_confirm-view, repeat_stop-view, prepare_joints-view, settle-view,
}
use robstride_ros.Driver.Skeleton.Operations.{receive_frame-skeleton, setups-map}

module _ {W : Type 0} ⦃d : Double W⦄ where
  -- The skeleton as a view.
  carries :
      (f : Transport → Transport) (v : Driver W)
      → skeleton (record v { transport = on_transport f v.transport }) ≡ skeleton v
  carries f v = refl

  disable_all-skeleton :
      (meanwhile : Transport → Transport) (v : Driver W)
      → skeleton (disable_all meanwhile v) ≡ skeleton v
  unfolding disable_all
  disable_all-skeleton meanwhile v =
      repeat_stop-view skeleton receive_frame-skeleton carries v.settings.stop_repetitions meanwhile
        _

  pub stop-skeleton :
      (meanwhile : Transport → Transport) (v : Driver W) → skeleton (stop meanwhile v) ≡ skeleton v
  unfolding stop
  stop-skeleton meanwhile v =
      let u = disable_all meanwhile v in
      ap (λ n. record (skeleton u) { recovery_samples = n }) (length-map calm u.recovery_metrics)
      ∙ disable_all-skeleton meanwhile v

  pub settle-skeleton : (w : Waits) (v : Driver W) → skeleton (settle w v) ≡ skeleton v
  settle-skeleton w v =
      settle-view skeleton receive_frame-skeleton carries
        (λ u.
          ap (λ js. record (skeleton u) { joints = js })
            (setups-map u.joints activate_joint (λ j. refl)))
        w v

  start_motors-skeleton : (w : Waits) (v : Driver W) → skeleton (start_motors w v).0 ≡ skeleton v
  unfolding enable_and_confirm_all
  start_motors-skeleton w v =
      let u = (prepare_joints w 0 v.joints v).0 in
      let prepared = prepare_joints-view skeleton receive_frame-skeleton carries w 0 v.joints v in
      let x = (enable_and_confirm_all w.enable u).0 in
      let enabled =
        enable_and_confirm-view skeleton receive_frame-skeleton carries u.settings.startup_retries 1
          w.enable u
        ∙ prepared in
      let stopped = disable_all-skeleton w.meanwhile u ∙ prepared in
      let stopped' = disable_all-skeleton w.meanwhile x ∙ enabled in
      let active = settle-skeleton w x ∙ enabled in
      elim (Bool-cases (prepare_joints w 0 v.joints v).1) [
        | inr failed ↦ rw failed stopped
        | inl ready ↦ elim (Bool-cases (enable_and_confirm_all w.enable u).1) [
          | inr silent ↦ rw (ready, silent) stopped'
          | inl on ↦ rw (ready, on) active
        ]
      ]

  pub start-skeleton :
      (w : Waits) (now : ℕ) (v : Driver W) → skeleton (start w now v).0 ≡ skeleton v
  unfolding start
  start-skeleton w now v = elim (Option-cases v.transport) [
    | inl nowhere ↦ rw (nowhere, start) refl
    | inr (t, there) ↦
        let (u, connected) =
          Lifecycle.wait_for_endpoints w.endpoint w.polls v.settings.connection_timeout now t in
        elim (Bool-cases connected) [
          | inl on ↦
              rw (there, start, on) (start_motors-skeleton w (record v { transport = some u }))
          | inr off ↦ rw (there, start, off) refl
        ]
  ]

  length-no_samples : (joints : List (JointData W)) → length (no_samples joints) ≡ length joints
  length-no_samples [] = refl
  length-no_samples (j ∷ joints) = ap suc (length-no_samples joints)

  length-no_attempts : (joints : List (JointData W)) → length (no_attempts joints) ≡ length joints
  length-no_attempts [] = refl
  length-no_attempts (j ∷ joints) = ap suc (length-no_attempts joints)

  pub initialize-IsSized :
      (now : ℕ) (c : DriverConfiguration W) (v : Driver W)
      → (initialize now c v).1 ≡ true
      → IsSized (initialize now c v).0
  unfolding initialize reset_metrics
  initialize-IsSized now c v accepted =
      let samples = length-no_samples c.joints in
      let attempts = length-no_attempts c.joints in ground arith

  reset_metrics-skeleton :
      (now : ℕ) (v : Driver W) → IsSized v → skeleton (reset_metrics now v) ≡ skeleton v
  unfolding reset_metrics
  reset_metrics-skeleton now v (samples, attempts) =
      cc (length-no_samples v.joints ∙ sym samples, length-no_attempts v.joints ∙ sym attempts)

  pub open_driver-skeleton :
      (e : Endpoint) (now started_at : ℕ) (created : Bool) (joined : Transport → Transport)
      (v : Driver W)
      → IsSized v
      → skeleton (open_driver e now started_at created joined v).0 ≡ skeleton v
  unfolding open_driver close
  open_driver-skeleton e now started_at created joined v sized =
      let kept = reset_metrics-skeleton now v sized in ground arith

  pub close-skeleton : (v : Driver W) → skeleton (close v) ≡ skeleton v
  unfolding close
  close-skeleton v = refl

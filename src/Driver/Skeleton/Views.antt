-- ===== src/Driver/Skeleton/Views.antt =====
-- A view of the driver that neither messages nor changes of the transport alter is not altered by the
-- exchanges of a start and a stop either.
use robstride_ros.Prelude.{
  ℕ, zero, suc, ◌+◌, Bool, true, false, List, [], ◌∷◌, ◌≡◌, refl, ◌∙◌, inl, inr, Bool-cases, all,
  map, if◌then◌else◌,
}
use robstride_ros.Double.{Double}
use robstride_ros.Protocol.{
  Frame, make_stop, make_enable, make_set_zero, index_can_timeout, index_run_mode,
}
use robstride_ros.Joint.{JointData}
use robstride_ros.Transport.State.{Transport}
use robstride_ros.Transport.Queue.{send_transaction}
use robstride_ros.Driver.State.{Driver, on_transport}
use robstride_ros.Driver.Receive.{Message, receive_frame}
use robstride_ros.Driver.Start.{
  Round, Waits, hear, submit, request_parameter, parameter_confirmed, write_and_confirm,
  write_and_confirm_parameter, request_enable, runs_since, enable_and_confirm, request_stop,
  repeat_stop, prepare_joint, prepare_joints, neutral_frame, activate_joint, settle,
}

module _ {W : Type 0} ⦃d : Double W⦄ {X : Type 0} (view : Driver W → X)
    (receives : (now : ℕ) (msg : Message) (v : Driver W) → view (receive_frame now msg v) ≡ view v)
    (carries : (f : Transport → Transport) (v : Driver W)
      → view (record v { transport = on_transport f v.transport }) ≡ view v) where
  submit-view : (frame : Frame) (v : Driver W) → view (submit frame v) ≡ view v
  submit-view frame v = carries (send_transaction frame) v

  pub hear-view : (messages : List (ℕ × Message)) (v : Driver W) → view (hear messages v) ≡ view v
  unfolding hear
  hear-view [] v = refl
  hear-view ((now, msg) ∷ messages) v =
      hear-view messages (receive_frame now msg v) ∙ receives now msg v

  write_and_confirm-view :
      (n attempt : ℕ) (rounds : ℕ → Round) (i : ℕ) (j : JointData W) (index value : ℕ)
      (v : Driver W)
      → view (write_and_confirm n attempt rounds i j index value v).0 ≡ view v
  unfolding write_and_confirm
  write_and_confirm-view zero attempt rounds i j index value v = refl
  write_and_confirm-view (suc n) attempt rounds i j index value v =
      let round = rounds attempt in
      let u = hear round.heard (request_parameter j index value v) in
      let requested = request_parameter j index value v in
      let heard : view u ≡ view v =
        hear-view round.heard requested ∙ (submit-view _ _ ∙ submit-view _ v) in
      elim (Bool-cases (parameter_confirmed i index value round.requested_at u)) [
        | inl confirmed ↦ rw confirmed heard
        | inr again ↦
            rw again (write_and_confirm-view n (attempt + 1) rounds i j index value u ∙ heard)
      ]

  request_enable-view :
      (joints : List (JointData W)) (v : Driver W) → view (request_enable joints v) ≡ view v
  unfolding request_enable
  request_enable-view [] v = refl
  request_enable-view (j ∷ joints) v =
      let enable = make_enable j.can_id v.settings.host_id in
      request_enable-view joints (submit (neutral_frame j) (submit enable v))
      ∙ submit-view (neutral_frame j) (submit enable v)
      ∙ submit-view enable v

  pub enable_and_confirm-view :
      (n attempt : ℕ) (rounds : ℕ → Round) (v : Driver W)
      → view (enable_and_confirm n attempt rounds v).0 ≡ view v
  unfolding enable_and_confirm
  enable_and_confirm-view zero attempt rounds v = refl
  enable_and_confirm-view (suc n) attempt rounds v =
      let round = rounds attempt in
      let asked = request_enable v.joints v in
      let u = hear round.heard asked in
      let heard = hear-view round.heard asked ∙ request_enable-view v.joints v in
      elim (Bool-cases (all (runs_since round.requested_at) u.joints)) [
        | inl running ↦ rw running heard
        | inr again ↦ rw again (enable_and_confirm-view n (attempt + 1) rounds u ∙ heard)
      ]

  request_stop-view :
      (joints : List (JointData W)) (v : Driver W) → view (request_stop joints v) ≡ view v
  unfolding request_stop
  request_stop-view [] v = refl
  request_stop-view (j ∷ joints) v =
      let stop = make_stop j.can_id v.settings.host_id false in
      request_stop-view joints (submit stop (submit (neutral_frame j) v))
      ∙ submit-view stop (submit (neutral_frame j) v)
      ∙ submit-view (neutral_frame j) v

  pub repeat_stop-view :
      (n : ℕ) (meanwhile : Transport → Transport) (v : Driver W)
      → view (repeat_stop n meanwhile v) ≡ view v
  unfolding repeat_stop
  repeat_stop-view zero meanwhile v = refl
  repeat_stop-view (suc n) meanwhile v =
      let u = request_stop v.joints v in
      repeat_stop-view n meanwhile (record u { transport = on_transport meanwhile u.transport })
      ∙ carries meanwhile u
      ∙ request_stop-view v.joints v

  cleared-view :
      (clear_faults : Bool) (frame : Frame) (v : Driver W)
      → view (if clear_faults then submit frame v else v) ≡ view v
  cleared-view true frame v = submit-view frame v
  cleared-view false frame v = refl

  prepare_joint-view :
      (w : Waits) (i : ℕ) (j : JointData W) (v : Driver W) → view (prepare_joint w i j v).0 ≡ view v
  unfolding prepare_joint write_and_confirm_parameter
  prepare_joint-view w i j v =
      let clear = make_stop j.can_id v.settings.host_id true in
      let faultless = if v.settings.clear_faults_on_start then submit clear v else v in
      let (u, timed) =
        write_and_confirm_parameter (w.watchdog i) i j index_can_timeout j.can_timeout_ticks
          faultless in
      let (x, set') = write_and_confirm_parameter (w.run_mode i) i j index_run_mode 0 u in
      let cleared : view faultless ≡ view v =
        cleared-view v.settings.clear_faults_on_start clear v in
      let first =
        write_and_confirm-view faultless.settings.startup_retries 1 (w.watchdog i) i j
          index_can_timeout j.can_timeout_ticks faultless in
      let second =
        write_and_confirm-view u.settings.startup_retries 1 (w.run_mode i) i j index_run_mode 0 u in
      elim (Bool-cases timed) [
        | inr silent ↦ simp silent (first ∙ cleared)
        | inl heard ↦ elim (Bool-cases set') [
          | inr silent ↦ simp (heard, silent) (second ∙ first ∙ cleared)
          | inl heard' ↦ elim (Bool-cases v.settings.set_zero_on_start) [
            | inl z ↦
                let zeroed = submit-view (make_set_zero j.can_id v.settings.host_id) x in
                simp (heard, heard', z) (zeroed ∙ second ∙ first ∙ cleared)
            | inr z ↦ simp (heard, heard', z) (second ∙ first ∙ cleared)
          ]
        ]
      ]

  pub prepare_joints-view :
      (w : Waits) (i : ℕ) (joints : List (JointData W)) (v : Driver W)
      → view (prepare_joints w i joints v).0 ≡ view v
  unfolding prepare_joints
  prepare_joints-view w i [] v = refl
  prepare_joints-view w i (j ∷ joints) v =
      let u = (prepare_joint w i j v).0 in
      let one = prepare_joint-view w i j v in
      elim (Bool-cases (prepare_joint w i j v).1) [
        | inl ok ↦ rw ok (prepare_joints-view w (i + 1) joints u ∙ one)
        | inr failed ↦ rw failed one
      ]

  -- For a view that does not see what a start copies.
  pub settle-view :
      ((v : Driver W) → view (record v { joints = map activate_joint v.joints }) ≡ view v)
      → (w : Waits) (v : Driver W) → view (settle w v) ≡ view v
  unfolding settle
  settle-view copies w v =
      let u = hear w.unlocked v in
      hear-view w.closing (record u { joints = map activate_joint u.joints })
      ∙ copies u
      ∙ hear-view w.unlocked v

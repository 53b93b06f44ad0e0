-- ===== src/Driver/Start.antt =====
-- robstride_driver/src/driver.cpp: `start`, `stop`, `disable_all` and the two confirmations. What
-- other threads do while a call waits is an argument: the messages that are received in each wait,
-- with their times, and what becomes of the transport between the repetitions of a stop. The wait
-- for the motors' Reset mode at the end of `disable_all` only decides what is logged.
pub mod Confirmed
pub mod Parameters
pub mod Settled
pub mod Tests
use robstride_ros.Prelude.{
  ℕ, zero, suc, ◌+◌, ◌%◌, Bool, true, false, not, ◌&&◌, Option, none, some, List, [], ◌∷◌,
  if◌then◌else◌, ◌==◌, leb, all, map, get_elem?, u8_mod,
}
use robstride_ros.Double.{Double, nought}
use robstride_ros.Protocol.{
  Frame, make_enable, make_stop, make_set_zero, make_write_u8, make_write_u32, make_read_parameter,
  make_motion_command, motor_mode_run, index_run_mode, index_can_timeout,
}
use robstride_ros.Recovery.{fresh}
use robstride_ros.Joint.{JointData}
use robstride_ros.Transport.State.{Transport, disable_active_commands, enable_active_commands}
use robstride_ros.Transport.Publish.{Endpoint}
use robstride_ros.Transport.Queue.{send_transaction}
use robstride_ros.Transport.Lifecycle.{Poll, wait_for_endpoints}
use robstride_ros.Driver.State.{Driver, RecoveryMetrics, on_transport}
use robstride_ros.Driver.Receive.{Message, receive_frame}

-- An attempt that is confirmed or not: its `requested_at`, and what is received until its wait ends.
pub record Round : Type 0 where
  pub requested_at : ℕ
  pub heard : List (ℕ × Message)

abbrev pub submit : {W : Type 0} → Frame → Driver W → Driver W
submit frame v = record v { transport = on_transport (send_transaction frame) v.transport }

-- The waits of a call of `start`: those of the two parameters of each joint, and of the enable; and
-- the messages received after the last confirmation, before the feedback is copied and after that.
pub record Waits : Type 0 where
  pub endpoint : Endpoint
  pub polls : List Poll
  pub watchdog : ℕ → ℕ → Round
  pub run_mode : ℕ → ℕ → Round
  pub enable : ℕ → Round
  pub unlocked : List (ℕ × Message)
  pub closing : List (ℕ × Message)
  pub meanwhile : Transport → Transport
  pub activated_at : ℕ

abbrev pub calm : RecoveryMetrics → RecoveryMetrics
calm m = record m { active = false }

module _ {W : Type 0} ⦃d : Double W⦄ where
  unfoldable pub hear : List (ℕ × Message) → Driver W → Driver W
  hear [] v = v
  hear ((now, msg) ∷ messages) v = hear messages (receive_frame now msg v)

  -- The two frames of an attempt of `write_and_confirm_parameter`.
  abbrev pub request_parameter : JointData W → ℕ → ℕ → Driver W → Driver W
  request_parameter j index value v =
      submit (make_read_parameter j.can_id v.settings.host_id index) (
        submit
          (if index == index_run_mode
            then make_write_u8 j.can_id v.settings.host_id index (value % u8_mod)
            else make_write_u32 j.can_id v.settings.host_id index value)
          v)

  -- The predicate of its wait, for the joint at `i`.
  unfoldable pub parameter_confirmed : ℕ → ℕ → ℕ → ℕ → Driver W → Bool
  parameter_confirmed i index value requested_at v = elim (get_elem? v.joints i) [
    | none ↦ false
    | some j ↦
        j.parameter_status.received
        && leb requested_at j.parameter_status.timestamp
        && j.parameter_status.index == index
        && j.parameter_status.value == value
  ]

  -- The attempts that are left, the number of the next one, and its round.
  unfoldable pub write_and_confirm :
      ℕ → ℕ → (ℕ → Round) → ℕ → JointData W → ℕ → ℕ → Driver W → Driver W × Bool
  write_and_confirm zero attempt rounds i j index value v = (v, false)
  write_and_confirm (suc n) attempt rounds i j index value v =
      let u = hear (rounds attempt).heard (request_parameter j index value v) in
      let again = write_and_confirm n (attempt + 1) rounds i j index value u in
      if parameter_confirmed i index value (rounds attempt).requested_at u then (u, true) else again

  unfoldable pub write_and_confirm_parameter :
      (ℕ → Round) → ℕ → JointData W → ℕ → ℕ → Driver W → Driver W × Bool
  write_and_confirm_parameter rounds i j index value v =
      write_and_confirm v.settings.startup_retries 1 rounds i j index value v

  -- `make_motion_command(joint.can_id, joint.limits, 0.0, 0.0, 0.0, 0.0, 0.0)`.
  abbrev pub neutral_frame : JointData W → Frame
  neutral_frame j = make_motion_command j.can_id j.limits nought nought nought nought nought

  unfoldable pub request_enable : List (JointData W) → Driver W → Driver W
  request_enable [] v = v
  request_enable (j ∷ joints) v =
      request_enable joints
        (submit (neutral_frame j) (submit (make_enable j.can_id v.settings.host_id) v))

  abbrev pub runs_since : ℕ → JointData W → Bool
  runs_since requested_at j =
      j.feedback_status.received
      && leb requested_at j.feedback_status.timestamp
      && j.feedback_status.mode == motor_mode_run

  unfoldable pub enable_and_confirm : ℕ → ℕ → (ℕ → Round) → Driver W → Driver W × Bool
  enable_and_confirm zero attempt rounds v = (v, false)
  enable_and_confirm (suc n) attempt rounds v =
      let u = hear (rounds attempt).heard (request_enable v.joints v) in
      let again = enable_and_confirm n (attempt + 1) rounds u in
      if all (runs_since (rounds attempt).requested_at) u.joints then (u, true) else again

  unfoldable pub enable_and_confirm_all : (ℕ → Round) → Driver W → Driver W × Bool
  enable_and_confirm_all rounds v = enable_and_confirm v.settings.startup_retries 1 rounds v

  unfoldable pub request_stop : List (JointData W) → Driver W → Driver W
  request_stop [] v = v
  request_stop (j ∷ joints) v =
      request_stop joints
        (submit (make_stop j.can_id v.settings.host_id false) (submit (neutral_frame j) v))

  -- The repetitions, the number of those that are left first.
  unfoldable pub repeat_stop : ℕ → (Transport → Transport) → Driver W → Driver W
  repeat_stop zero meanwhile v = v
  repeat_stop (suc n) meanwhile v =
      let u = request_stop v.joints v in
      repeat_stop n meanwhile (record u { transport = on_transport meanwhile u.transport })

  unfoldable pub disable_all : (Transport → Transport) → Driver W → Driver W
  disable_all meanwhile v = repeat_stop u.settings.stop_repetitions meanwhile u
    where
      u : Driver W
      u = record v { active = false; transport = on_transport disable_active_commands v.transport }

  unfoldable pub stop : (Transport → Transport) → Driver W → Driver W
  stop meanwhile v =
      let u = disable_all meanwhile v in record u { recovery_metrics = map calm u.recovery_metrics }

  -- The body of the loop over the joints, for the joint `j` at `i`.
  unfoldable pub prepare_joint : Waits → ℕ → JointData W → Driver W → Driver W × Bool
  prepare_joint w i j v =
      if not watchdog.1
      then (watchdog.0, false)
      else if not mode.1
      then (mode.0, false)
      else if v.settings.set_zero_on_start
      then (submit (make_set_zero j.can_id v.settings.host_id) mode.0, true)
      else (mode.0, true)
    where
      faultless : Driver W
      faultless =
          if v.settings.clear_faults_on_start
          then submit (make_stop j.can_id v.settings.host_id true) v
          else v

      watchdog : Driver W × Bool
      watchdog =
          write_and_confirm_parameter (w.watchdog i) i j index_can_timeout j.can_timeout_ticks
            faultless

      mode : Driver W × Bool
      mode = write_and_confirm_parameter (w.run_mode i) i j index_run_mode 0 watchdog.0

  unfoldable pub prepare_joints : Waits → ℕ → List (JointData W) → Driver W → Driver W × Bool
  prepare_joints w i [] v = (v, true)
  prepare_joints w i (j ∷ joints) v =
      let (u, ok) = prepare_joint w i j v in
      let rest = prepare_joints w (i + 1) joints u in if ok then rest else (u, false)

  abbrev pub activate_joint : JointData W → JointData W
  activate_joint j = record j { state = j.feedback; recovery = fresh }

  -- The block that copies the feedback, between the messages before it and those after it.
  unfoldable pub settle : Waits → Driver W → Driver W
  settle w v =
      let u = hear w.unlocked v in
      hear w.closing (record u { joints = map activate_joint u.joints })

  -- What a successful `start` does after the confirmations.
  abbrev pub activated : Waits → Driver W → Driver W
  activated w v =
      let u = settle w v in
      record u {
        transport = on_transport enable_active_commands u.transport;
        activated_at = w.activated_at;
        command_rejected = false;
        active = true;
      }

  abbrev pub start_motors : Waits → Driver W → Driver W × Bool
  start_motors w v =
      let (u, prepared) = prepare_joints w 0 v.joints v in
      let (x, enabled) = enable_and_confirm_all w.enable u in
      if not prepared
      then (disable_all w.meanwhile u, false)
      else if not enabled
      then (disable_all w.meanwhile x, false)
      else (activated w x, true)

  unfoldable pub start : Waits → ℕ → Driver W → Driver W × Bool
  start w now v = elim v.transport [
    | none ↦ (v, false)
    | some t ↦
        let (u, connected) =
          wait_for_endpoints w.endpoint w.polls v.settings.connection_timeout now t in
        let v' = record v { transport = some u } in
        if not connected then (v', false) else start_motors w v'
  ]

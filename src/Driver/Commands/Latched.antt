-- ===== src/Driver/Commands/Latched.antt =====
-- A driver that has rejected a command, until it is started again.
use robstride_ros.Prelude.{
  ℕ, ◌||◌, true, false, List, [], ◌∷◌, ◌≡◌, refl, ◌∙◌, arith, inl, inr, Bool-cases, Option-cases,
  get_elem?,
}
use robstride_ros.Double.{Double}
use robstride_ros.Protocol.{decode_feedback, decode_parameter_response}
use robstride_ros.Joint.{JointData, ClaimedInterfaces}
use robstride_ros.Transport.State.{Transport}
use robstride_ros.Driver.State.{Driver, find, on_transport}
use robstride_ros.Driver.Receive.{Message, sender, receive_for, receive_frame, record_feedback}
use robstride_ros.Driver.Modes.{apply_command_modes}
use robstride_ros.Driver.Commands.{send_commands}
use robstride_ros.Driver.Update.{update_state}
use robstride_ros.Driver.Start.{stop, disable_all}
use robstride_ros.Driver.Skeleton.Views.{repeat_stop-view}

-- What happens to a driver that is not started: a message, the calls of a control cycle and of a
-- switch, a stop, and what the threads make of the transport.
pub data Event : Type 0 where
  received : ℕ → Message → Event
  updated : ℕ → Event
  switched : ℕ → List ClaimedInterfaces → Event
  sent : ℕ → Event
  stopped : (Transport → Transport) → Event
  carried : (Transport → Transport) → Event

module _ {W : Type 0} ⦃d : Double W⦄ where
  pub happen : Event → Driver W → Driver W
  happen (received now msg) v = receive_frame now msg v
  happen (updated now) v = (update_state now v).0
  happen (switched now modes) v = (apply_command_modes now modes v).0
  happen (sent now) v = (send_commands now v).0
  happen (stopped meanwhile) v = stop meanwhile v
  happen (carried f) v = record v { transport = on_transport f v.transport }

  pub happen_all : List Event → Driver W → Driver W
  happen_all [] v = v
  happen_all (e ∷ events) v = happen_all events (happen e v)

  receive_for-command_rejected :
      (now : ℕ) (msg : Message) (index : ℕ) (j : JointData W) (v : Driver W)
      → (receive_for now msg index j v).command_rejected ≡ v.command_rejected
  unfolding receive_for record_feedback
  receive_for-command_rejected now msg index j v =
      let host = v.settings.host_id in
      elim (Option-cases
        (decode_parameter_response msg.id msg.payload msg.dlc msg.is_extended host)) [
          | inr (parameter, e) ↦ rw (e, receive_for) refl
          | inl e ↦
              elim (Option-cases
                (decode_feedback msg.id msg.payload msg.dlc msg.is_extended host j.limits)) [
                  | inl e' ↦ rw (e, e', receive_for) refl
                  | inr (decoded, e') ↦ rw (e, e', receive_for) refl
                ]
        ]

  receive_frame-command_rejected :
      (now : ℕ) (msg : Message) (v : Driver W)
      → (receive_frame now msg v).command_rejected ≡ v.command_rejected
  unfolding receive_frame
  receive_frame-command_rejected now msg v = elim (Bool-cases (msg.is_error || msg.is_rtr)) [
    | inl bad ↦ rw bad refl
    | inr good ↦ elim (Option-cases (find v.can_id_to_joint (sender msg))) [
      | inl e ↦ rw (good, e) refl
      | inr (index, e) ↦ elim (Option-cases (get_elem? v.joints index)) [
        | inl e' ↦ rw (good, e, e') refl
        | inr (j, e') ↦ rw (good, e, e') (receive_for-command_rejected now msg index j v)
      ]
    ]
  ]

  stop-command_rejected :
      (meanwhile : Transport → Transport) (v : Driver W)
      → (stop meanwhile v).command_rejected ≡ v.command_rejected
  unfolding stop disable_all
  stop-command_rejected meanwhile v =
      repeat_stop-view (λ x. x.command_rejected) receive_frame-command_rejected (λ f x. refl)
        v.settings.stop_repetitions meanwhile _

  happen-latched :
      (e : Event) (v : Driver W) → v.command_rejected ≡ true → (happen e v).command_rejected ≡ true
  unfolding happen update_state apply_command_modes send_commands
  happen-latched (received now msg) v h = receive_frame-command_rejected now msg v ∙ h
  happen-latched (updated now) v h = ground arith
  happen-latched (switched now modes) v h = ground arith
  happen-latched (sent now) v h = ground arith
  happen-latched (stopped meanwhile) v h = stop-command_rejected meanwhile v ∙ h
  happen-latched (carried f) v h = h

  pub happen_all-latched :
      (events : List Event) (v : Driver W)
      → v.command_rejected ≡ true
      → (happen_all events v).command_rejected ≡ true
  unfolding happen_all
  happen_all-latched [] v h = h
  happen_all-latched (e ∷ events) v h =
      happen_all-latched events (happen e v) (happen-latched e v h)

  pub send_commands-latched :
      (now : ℕ) (v : Driver W) → v.command_rejected ≡ true → send_commands now v ≡ (v, false)
  unfolding send_commands
  send_commands-latched now v h = rw h refl

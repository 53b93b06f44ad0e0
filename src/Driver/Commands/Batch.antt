-- ===== src/Driver/Commands/Batch.antt =====
-- A control cycle sends one frame for every joint, or none.
use robstride_ros.Prelude.{
  ℕ, ◌+◌, ◌<◌, ◌↔◌, true, false, Option, none, some, List, [], ◌∷◌, ◌≡◌, refl, subst, arith, inl,
  inr, Option-cases,
}
use robstride_ros.Double.{Double}
use robstride_ros.Joint.{JointData}
use robstride_ros.Transport.State.{MotorFrame, disable_active_commands}
use robstride_ros.Transport.Queue.{queue_motion_frames}
use robstride_ros.Driver.State.{Driver, on_transport}
use robstride_ros.Driver.Commands.{
  Targets, motor_targets, command_frame, fill_snapshot, send_commands,
}
use robstride_ros.Driver.Commands.Carried.{IsCarried, check_transport_health_iff}
use robstride_ros.Driver.Commands.Latched.{
  Event, happen_all, happen_all-latched, send_commands-latched,
}
use robstride_ros.Driver.Commands.Motion.{IsMotion, command_frame-IsMotion}

-- A snapshot of a slot for each of `n` joints, numbered from `i` on, as `initialize` makes it.
abbrev pub IsNumbered : ℕ → List MotorFrame → Type 0
IsNumbered i [] = Unit
IsNumbered i (slot ∷ snapshot) = (slot.motor_index ≡ i) × IsNumbered (i + 1) snapshot

module _ {W : Type 0} ⦃d : Double W⦄ where
  abbrev pub IsFor : List (JointData W) → List MotorFrame → Type 0
  IsFor [] [] = Unit
  IsFor [] (slot ∷ snapshot) = ⊥
  IsFor (j ∷ joints) [] = ⊥
  IsFor (j ∷ joints) (slot ∷ snapshot) = IsFor joints snapshot

  abbrev join :
      ℕ → JointData W → Option (Targets W) → Option (List MotorFrame) → Option (List MotorFrame)
  join i j none frames = none
  join i j (some x) none = none
  join i j (some x) (some frames) =
      some (record { motor_index = i; frame = command_frame j x } ∷ frames)

  -- The frames of all joints, numbered from `i` on, or none if one command is not acceptable.
  unfoldable pub batch : ℕ → List (JointData W) → Option (List MotorFrame)
  batch i [] = some []
  batch i (j ∷ joints) = join i j (motor_targets j) (batch (i + 1) joints)

  fill_snapshot_lem :
      (i : ℕ) (joints : List (JointData W)) (snapshot : List MotorFrame)
      → IsNumbered i snapshot
      → IsFor joints snapshot
      → ((frames : List MotorFrame)
          → batch i joints ≡ some frames
          → fill_snapshot joints snapshot ≡ (frames, true))
        × (batch i joints ≡ none → (fill_snapshot joints snapshot).1 ≡ false)
  unfolding fill_snapshot batch
  fill_snapshot_lem i [] [] n f = ground arith
  fill_snapshot_lem i [] (slot ∷ snapshot) n f = absurd f
  fill_snapshot_lem i (j ∷ joints) [] n f = absurd f
  fill_snapshot_lem i (j ∷ joints) (slot ∷ snapshot) (e, n) f =
      let (full, missing) = fill_snapshot_lem (i + 1) joints snapshot n f in
      elim (Option-cases (motor_targets j)) [
        | inl stop ↦ (λ frames h. ground (arith, stop), λ h. ground (arith, stop))
        | inr (x, go) ↦ elim (Option-cases (batch (i + 1) joints)) [
          | inl absent ↦
              (λ frames h. ground (arith, go, absent), λ h. ground (arith, go, missing absent))
          | inr (rest, found) ↦ (
            λ frames h. ground (arith, go, found, full rest found),
            λ h. ground (arith, go, found),
          )
        ]
      ]

  -- One frame for each joint, numbered from `i` on, with its command.
  pub AreMotions : ℕ → List (JointData W) → List MotorFrame → Type 0
  AreMotions i [] [] = Unit
  AreMotions i [] (slot ∷ frames) = ⊥
  AreMotions i (j ∷ joints) [] = ⊥
  AreMotions i (j ∷ joints) (slot ∷ frames) =
      (slot.motor_index ≡ i) × IsMotion j slot.frame × AreMotions (i + 1) joints frames

  batch-AreMotions :
      (i : ℕ) (joints : List (JointData W)) (frames : List MotorFrame)
      → batch i joints ≡ some frames
      → AreMotions i joints frames
  unfolding batch AreMotions
  batch-AreMotions i [] [] h = tt
  batch-AreMotions i [] (slot ∷ frames) h = ground (arith, h)
  batch-AreMotions i (j ∷ joints) frames h = elim (Option-cases (motor_targets j)) [
    | inl stop ↦ ground (arith, stop)
    | inr (x, go) ↦ elim (Option-cases (batch (i + 1) joints)) [
      | inl absent ↦ ground (arith, go, absent)
      | inr (rest, found) ↦
          let e : record { motor_index = i; frame = command_frame j x } ∷ rest ≡ frames =
            ground (arith, go, found) in
          subst (AreMotions i (j ∷ joints)) e
            (refl, command_frame-IsMotion j x go, batch-AreMotions (i + 1) joints rest found)
    ]
  ]

  -- A driver that is active and has not rejected a command, with a snapshot of one slot for each
  -- joint and a positive transmit_failure_timeout: if all commands are acceptable, it hands to the
  -- transport in one call one frame for each joint, in order, that encodes the joint's commands and
  -- gains; and the call succeeds exactly when the transport then has no persistent failure.
  pub send_commands_sends :
      (now : ℕ) (v : Driver W) (frames : List MotorFrame)
      → v.active ≡ true
      → v.command_rejected ≡ false
      → 0 < v.settings.transmit_failure_timeout
      → IsNumbered 0 v.command_snapshot
      → IsFor v.joints v.command_snapshot
      → batch 0 v.joints ≡ some frames
      → let (u, ok) = send_commands now v in
        AreMotions 0 v.joints frames
        × (u.transport ≡ on_transport (queue_motion_frames frames now) v.transport)
        × (u.command_snapshot ≡ frames)
        × (u.joints ≡ v.joints)
        × ((ok ≡ true) ↔ IsCarried now u)
  unfolding send_commands
  send_commands_sends now v frames active accepted positive numbered one_each h =
      let (full, missing) = fill_snapshot_lem 0 v.joints v.command_snapshot numbered one_each in
      let sent = record v {
        command_snapshot = frames;
        transport = on_transport (queue_motion_frames frames now) v.transport;
      } in
      rw (accepted, active, full frames h)
        (
          batch-AreMotions 0 v.joints frames h,
          refl,
          refl,
          refl,
          check_transport_health_iff now sent positive,
        )

  -- If one command is not acceptable, then such a driver hands over no frame and disables active
  -- commands, and the call fails. Whatever messages, control cycles, switches of command modes, stops
  -- and changes of the transport follow, but no start, a later call fails without any effect.
  pub send_commands_rejects :
      (now later : ℕ) (events : List Event) (v : Driver W)
      → v.active ≡ true
      → v.command_rejected ≡ false
      → IsNumbered 0 v.command_snapshot
      → IsFor v.joints v.command_snapshot
      → batch 0 v.joints ≡ none
      → let (u, ok) = send_commands now v in
        (u.transport ≡ on_transport disable_active_commands v.transport)
        × (ok ≡ false)
        × (send_commands later (happen_all events u) ≡ (happen_all events u, false))
  unfolding send_commands
  send_commands_rejects now later events v active accepted numbered one_each h =
      let (full, missing) = fill_snapshot_lem 0 v.joints v.command_snapshot numbered one_each in
      let latched : (send_commands now v).0.command_rejected ≡ true =
        rw (accepted, active, missing h) refl in
      (
        rw (accepted, active, missing h) refl,
        rw (accepted, active, missing h) refl,
        send_commands-latched later (happen_all events (send_commands now v).0)
            (happen_all-latched events (send_commands now v).0 latched),
      )

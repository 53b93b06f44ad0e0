-- ===== src/Driver/Skeleton/Operations.antt =====
-- The operations of a running driver keep its skeleton.
use robstride_ros.Prelude.{
  ℕ, zero, suc, ◌+◌, ◌||◌, List, [], ◌∷◌, ◌≡◌, refl, ap, arith, inl, inr, Bool-cases, Option-cases,
  get_elem?, length, length-append, map, map-append,
}
use robstride_ros.Double.{Double}
use robstride_ros.Protocol.{decode_feedback, decode_parameter_response}
use robstride_ros.Joint.{JointData, ClaimedInterfaces}
use robstride_ros.Transport.State.{MotorFrame}
use robstride_ros.Driver.State.{DriverSettings, Driver, RecoveryMetrics, modify, find}
use robstride_ros.Driver.Receive.{
  Message, sender, receive_frame, receive_for, record_feedback, store_parameter, store_feedback,
  next_sample,
}
use robstride_ros.Driver.Modes.{claim_all, validate_command_modes, apply_command_modes}
use robstride_ros.Driver.Commands.{fill_snapshot, motor_targets, send_commands}
use robstride_ros.Driver.Update.{
  read_joint, Reading, followed_by, read_joints, update_state, snapshot_state,
}
use robstride_ros.Driver.Skeleton.{setup, setups, skeleton}

length-modify {ℓ} :
    {A : Type ℓ} (xs : List A) (i : ℕ) (f : A → A) → length (modify xs i f) ≡ length xs
length-modify [] i f = refl
length-modify (x ∷ xs) zero f = refl
length-modify (x ∷ xs) (suc i) f = ap suc (length-modify xs i f)

abbrev indices : List MotorFrame → List ℕ
indices = map λ slot. slot.motor_index

module _ {W : Type 0} ⦃d : Double W⦄ where
  setups-modify :
      (joints : List (JointData W)) (i : ℕ) (f : JointData W → JointData W)
      → ((j : JointData W) → setup (f j) ≡ setup j)
      → setups (modify joints i f) ≡ setups joints
  setups-modify [] i f keeps = refl
  setups-modify (j ∷ joints) zero f keeps = ap (λ x. x ∷ setups joints) (keeps j)
  setups-modify (j ∷ joints) (suc i) f keeps =
      ap (λ js. setup j ∷ js) (setups-modify joints i f keeps)

  pub setups-map :
      (joints : List (JointData W)) (f : JointData W → JointData W)
      → ((j : JointData W) → setup (f j) ≡ setup j)
      → setups (map f joints) ≡ setups joints
  setups-map [] f keeps = refl
  setups-map (j ∷ joints) f keeps = cc (keeps j, setups-map joints f keeps)

  receive_for-skeleton :
      (now : ℕ) (msg : Message) (index : ℕ) (j : JointData W) (v : Driver W)
      → skeleton (receive_for now msg index j v) ≡ skeleton v
  unfolding receive_for record_feedback
  receive_for-skeleton now msg index j v =
      let host = v.settings.host_id in
      elim (Option-cases
        (decode_parameter_response msg.id msg.payload msg.dlc msg.is_extended host)) [
          | inr (parameter, e) ↦
              rw (e, receive_for)
                (ap (λ js. record (skeleton v) { joints = js })
                  (setups-modify v.joints index (store_parameter now parameter) (λ x. refl)))
          | inl e ↦
              elim (Option-cases
                (decode_feedback msg.id msg.payload msg.dlc msg.is_extended host j.limits)) [
                  | inl e' ↦ rw (e, e', receive_for) refl
                  | inr (decoded, e') ↦
                      let joints =
                        setups-modify v.joints index (store_feedback now decoded) (λ x. refl) in
                      let samples =
                        length-modify v.feedback_metrics index
                          (next_sample v.metrics_started_at_ns now decoded) in
                      rw (e, e', receive_for) (cc (joints, samples))
                ]
        ]

  pub receive_frame-skeleton :
      (now : ℕ) (msg : Message) (v : Driver W) → skeleton (receive_frame now msg v) ≡ skeleton v
  unfolding receive_frame
  receive_frame-skeleton now msg v = elim (Bool-cases (msg.is_error || msg.is_rtr)) [
    | inl bad ↦ rw bad refl
    | inr good ↦ elim (Option-cases (find v.can_id_to_joint (sender msg))) [
      | inl e ↦ rw (good, e) refl
      | inr (index, e) ↦ elim (Option-cases (get_elem? v.joints index)) [
        | inl e' ↦ rw (good, e, e') refl
        | inr (j, e') ↦ rw (good, e, e') (receive_for-skeleton now msg index j v)
      ]
    ]
  ]

  setups-claim_all :
      (joints : List (JointData W)) (modes : List ClaimedInterfaces)
      → setups (claim_all joints modes) ≡ setups joints
  unfolding claim_all
  setups-claim_all [] modes = refl
  setups-claim_all (j ∷ joints) [] = refl
  setups-claim_all (j ∷ joints) (mode ∷ modes) =
      ap (λ js. setup j ∷ js) (setups-claim_all joints modes)

  pub apply_command_modes-skeleton :
      (now : ℕ) (modes : List ClaimedInterfaces) (v : Driver W)
      → skeleton (apply_command_modes now modes v).0 ≡ skeleton v
  unfolding apply_command_modes
  apply_command_modes-skeleton now modes v =
      elim (Bool-cases (validate_command_modes now modes v)) [
        | inr refused ↦ rw refused refl
        | inl accepted ↦
            rw accepted
              (ap (λ js. record (skeleton v) { joints = js }) (setups-claim_all v.joints modes))
      ]

  fill_snapshot-indices :
      (joints : List (JointData W)) (snapshot : List MotorFrame)
      → indices (fill_snapshot joints snapshot).0 ≡ indices snapshot
  unfolding fill_snapshot
  fill_snapshot-indices [] snapshot = refl
  fill_snapshot-indices (j ∷ joints) [] = refl
  fill_snapshot-indices (j ∷ joints) (slot ∷ snapshot) =
      let rest = fill_snapshot-indices joints snapshot in
      elim (Option-cases (motor_targets j)) [
        | inl e ↦ rw (e, fill_snapshot) refl
        | inr (x, e) ↦ rw (e, fill_snapshot) (ap (λ is. slot.motor_index ∷ is) rest)
      ]

  pub send_commands-skeleton :
      (now : ℕ) (v : Driver W) → skeleton (send_commands now v).0 ≡ skeleton v
  unfolding send_commands
  send_commands-skeleton now v =
      let filled = fill_snapshot-indices v.joints v.command_snapshot in ground arith

  snapshot_state-setup : (j : JointData W) → setup (snapshot_state j) ≡ setup j
  snapshot_state-setup j = ground arith

  read_joint-setups :
      (s : DriverSettings) (activated_at now index : ℕ) (j : JointData W) (m : RecoveryMetrics)
      → (setups (read_joint s activated_at now index j m).joints ≡ setup j ∷ [])
        × (length (read_joint s activated_at now index j m).recovery_metrics ≡ 1)
  unfolding read_joint
  read_joint-setups s activated_at now index j m = let kept = snapshot_state-setup j in ground arith

  followed_by-setups :
      (one rest : Reading W) (j : JointData W) (joints : List (JointData W))
      (metrics : List RecoveryMetrics)
      → setups one.joints ≡ setup j ∷ []
      → length one.recovery_metrics ≡ 1
      → setups rest.joints ≡ setups joints
      → length rest.recovery_metrics ≡ length metrics
      → let all = followed_by one joints metrics rest in
        (setups all.joints ≡ setup j ∷ setups joints)
        × (length all.recovery_metrics ≡ suc (length metrics))
  followed_by-setups one rest j joints metrics joint metric joints' metrics' = ground (
    arith,
    map-append setup one.joints joints,
    map-append setup one.joints rest.joints,
    length-append one.recovery_metrics metrics,
    length-append one.recovery_metrics rest.recovery_metrics,
  )

  read_joints-setups :
      (s : DriverSettings) (activated_at now index : ℕ) (joints : List (JointData W))
      (metrics : List RecoveryMetrics)
      → (setups (read_joints s activated_at now index joints metrics).joints ≡ setups joints)
        × (length (read_joints s activated_at now index joints metrics).recovery_metrics
            ≡ length metrics)
  unfolding read_joints
  read_joints-setups s activated_at now index [] metrics = (refl, refl)
  read_joints-setups s activated_at now index (j ∷ joints) [] = (refl, refl)
  read_joints-setups s activated_at now index (j ∷ joints) (m ∷ metrics) =
      let (joints', metrics') = read_joints-setups s activated_at now (index + 1) joints metrics in
      let (joint, metric) = read_joint-setups s activated_at now index j m in
      let one = read_joint s activated_at now index j m in
      let rest = read_joints s activated_at now (index + 1) joints metrics in
      followed_by-setups one rest j joints metrics joint metric joints' metrics'

  pub update_state-skeleton :
      (now : ℕ) (v : Driver W) → skeleton (update_state now v).0 ≡ skeleton v
  unfolding update_state
  update_state-skeleton now v =
      let (joints, metrics) =
        read_joints-setups v.settings v.activated_at now 0 v.joints v.recovery_metrics in
      ground arith

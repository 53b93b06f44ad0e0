-- ===== src/Driver/Receive/Addressed.antt =====
-- A received message reaches the joint that sent it, and no other.
use robstride_ros.Prelude.{
  ℕ, zero, suc, ◌+◌, ◌*◌, ◌/◌, ◌%◌, ◌^◌, true, false, ◌||◌, ==_iff, ◌==◌, get_or, none, some, List,
  [], ◌∷◌, ◌≡◌, ◌≢◌, refl, sym, subst, ◌∙◌, ap, arith, inl, inr, Option-cases, get_elem?,
}
use robstride_ros.Double.{Double}
use robstride_ros.Protocol.{
  Limits, Feedback, type_feedback, decode_feedback, decode_parameter_response,
}
use robstride_ros.Protocol.Layout.{decoders_exclusive}
use robstride_ros.Joint.{JointData, motor_to_joint_effort}
use robstride_ros.Driver.State.{Driver, find, modify}
use robstride_ros.Driver.Receive.{
  Message, sender, store_feedback, record_feedback, receive_for, receive_frame,
}
use robstride_ros.Driver.Initialize.Valid.{IsIndexed}

get_elem?-modify_ne {ℓ} :
    {A : Type ℓ} (xs : List A) (i k : ℕ) (f : A → A)
    → i ≢ k
    → get_elem? (modify xs k f) i ≡ get_elem? xs i
get_elem?-modify_ne [] i k f ne = refl
get_elem?-modify_ne (x ∷ xs) zero zero f ne = absurd (ne refl)
get_elem?-modify_ne (x ∷ xs) zero (suc k) f ne = refl
get_elem?-modify_ne (x ∷ xs) (suc i) zero f ne = refl
get_elem?-modify_ne (x ∷ xs) (suc i) (suc k) f ne =
    get_elem?-modify_ne xs i k f (λ e. ne (ap suc e))

get_elem?-modify_self {ℓ} :
    {A : Type ℓ} (xs : List A) (i : ℕ) (f : A → A) (x : A)
    → get_elem? xs i ≡ some x
    → get_elem? (modify xs i f) i ≡ some (f x)
get_elem?-modify_self [] i f x h = ground arith
get_elem?-modify_self (y ∷ ys) zero f x h = ground arith
get_elem?-modify_self (y ∷ ys) (suc i) f x h = get_elem?-modify_self ys i f x h

some_inj {ℓ} : {A : Type ℓ} {x y : A} → some x ≡ some y → x ≡ y
some_inj e = ground (arith, e)

some≢none {ℓ} : {A : Type ℓ} {x : A} → some x ≢ none
some≢none e = ground (arith, e)

module _ {W : Type 0} ⦃d : Double W⦄ where
  open d use {of_ℕ, plus, minus, times, over, tenth}

  receive_for_other :
      (now : ℕ) (msg : Message) (k : ℕ) (x : JointData W) (v : Driver W) (i : ℕ)
      → i ≢ k
      → get_elem? (receive_for now msg k x v).joints i ≡ get_elem? v.joints i
  unfolding receive_for record_feedback
  receive_for_other now msg k x v i ne =
      elim (Option-cases
        (decode_parameter_response msg.id msg.payload msg.dlc msg.is_extended v.settings.host_id)) [
          | inr (parameter, h) ↦ rw (h, receive_for) (get_elem?-modify_ne v.joints i k _ ne)
          | inl absent ↦
              elim (Option-cases (
                decode_feedback msg.id msg.payload msg.dlc msg.is_extended v.settings.host_id
                  x.limits)) [
                    | inl ignored ↦ rw (absent, ignored, receive_for) refl
                    | inr (decoded, h) ↦
                        rw (absent, h, receive_for) (get_elem?-modify_ne v.joints i k _ ne)
                  ]
        ]

  receive_for_feedback :
      (now : ℕ) (msg : Message) (i : ℕ) (j : JointData W) (v : Driver W) (decoded : Feedback W)
      → get_elem? v.joints i ≡ some j
      → decode_feedback msg.id msg.payload msg.dlc msg.is_extended v.settings.host_id j.limits
        ≡ some decoded
      → get_elem? (receive_for now msg i j v).joints i ≡ some (store_feedback now decoded j)
  unfolding receive_for record_feedback
  receive_for_feedback now msg i j v decoded found h =
      elim (decoders_exclusive msg.id msg.payload msg.dlc msg.is_extended v.settings.host_id
        v.settings.host_id j.limits) [
          | inl absent ↦ rw (absent, h, receive_for) (get_elem?-modify_self v.joints i _ j found)
          | inr ignored ↦ absurd (some≢none (sym h ∙ ignored))
        ]

  -- For a driver whose map is the index of its joints: a received message leaves every joint as it is
  -- whose id is not the sender's.
  pub receive_frame_others :
      (now : ℕ) (msg : Message) (v : Driver W)
      → IsIndexed v
      → (i : ℕ) (j : JointData W) → get_elem? v.joints i ≡ some j
      → j.can_id ≢ sender msg
      → get_elem? (receive_frame now msg v).joints i ≡ some j
  unfolding receive_frame
  receive_frame_others now msg v (sound, complete) i j found other =
      elim (Option-cases (find v.can_id_to_joint (sender msg))) [
        | inl nobody ↦ ground (arith, nobody)
        | inr (k, at_k) ↦
            let (x, x_at_k, from_x) = sound (sender msg) k at_k in
            let ne : i ≢ k = λ e. other (
              ap (λ y. y.can_id) (some_inj (sym found ∙ ap (get_elem? v.joints) e ∙ x_at_k))
              ∙ from_x) in
            ground (arith, at_k, x_at_k, receive_for_other now msg k x v i ne)
      ]

  -- What a feedback frame says of its joint, received at `now`: the big-endian words of the payload
  -- are fractions of the motor's ranges (the last one tenths of a degree), position and velocity are
  -- divided by the gear ratio and the effort multiplied by it, all in the joint's direction, and the
  -- position is moved by the offset; mode and fault bits are fields of the id.
  pub IsFeedback : ℕ → Message → JointData W → JointData W → Type 0
  IsFeedback now msg j k =
      (k.feedback.position
        ≡ plus
            (times j.direction (
              over
                (plus j.limits.position_min (
                  times (over (of_ℕ (word 0)) (of_ℕ 65535))
                    (minus j.limits.position_max j.limits.position_min)))
                j.gear_ratio))
            j.position_offset)
      × (k.feedback.velocity
          ≡ times j.direction (
              over
                (plus j.limits.velocity_min (
                  times (over (of_ℕ (word 2)) (of_ℕ 65535))
                    (minus j.limits.velocity_max j.limits.velocity_min)))
                j.gear_ratio))
      × (k.feedback.effort
          ≡ times
              (times j.direction (
                plus j.limits.effort_wire_min (
                  times (over (of_ℕ (word 4)) (of_ℕ 65535))
                    (minus j.limits.effort_wire_max j.limits.effort_wire_min))))
              j.gear_ratio)
      × (k.feedback.temperature ≡ times (of_ℕ (word 6)) tenth)
      × (k.feedback.fault ≡ of_ℕ (msg.id / 2 ^ 8 % 2 ^ 16 / 2 ^ 8 % 2 ^ 6))
      × (k.feedback_status.received ≡ true)
      × (k.feedback_status.mode ≡ msg.id / 2 ^ 8 % 2 ^ 16 / 2 ^ 14 % 2 ^ 2)
      × (k.feedback_status.timestamp ≡ now)
    where
      word : ℕ → ℕ
      word at = get_or msg.payload at 0 * 256 + get_or msg.payload (at + 1) 0

  store_feedback-IsFeedback :
      (now : ℕ) (msg : Message) (j : JointData W) (host_id : ℕ) (decoded : Feedback W)
      → decode_feedback msg.id msg.payload msg.dlc msg.is_extended host_id j.limits ≡ some decoded
      → IsFeedback now msg j (store_feedback now decoded j)
  unfolding decode_feedback IsFeedback motor_to_joint_effort
  store_feedback-IsFeedback now msg j host_id decoded h = ground arith

  decodes :
      (msg : Message) (host_id : ℕ) (limits : Limits W)
      → msg.is_extended ≡ true
      → msg.dlc ≡ 8
      → msg.id / 2 ^ 24 % 2 ^ 5 ≡ type_feedback
      → msg.id % 2 ^ 8 ≡ host_id
      → decode_feedback msg.id msg.payload msg.dlc msg.is_extended host_id limits ≢ none
  unfolding decode_feedback
  decodes msg host_id limits extended eight type host h =
      let short : (msg.dlc == 8) ≡ true = (==_iff msg.dlc 8).1 eight in
      let typed : (msg.id / 2 ^ 24 % 2 ^ 5 == type_feedback) ≡ true = (==_iff _ _).1 type in
      let ours : (msg.id % 2 ^ 8 == host_id) ≡ true = (==_iff _ _).1 host in
      ground (arith, short, typed, ours, extended, h)

  -- For such a driver: an extended data frame of eight bytes, of the feedback type and addressed to the
  -- host, that comes from a joint is stored in that joint as the feedback that its payload encodes,
  -- in joint coordinates, with the mode of its id and the time of its reception.
  pub receive_frame_stores :
      (now : ℕ) (msg : Message) (v : Driver W)
      → IsIndexed v
      → (i : ℕ) (j : JointData W) → get_elem? v.joints i ≡ some j
      → j.can_id ≡ sender msg
      → (msg.is_error || msg.is_rtr) ≡ false
      → msg.is_extended ≡ true
      → msg.dlc ≡ 8
      → msg.id / 2 ^ 24 % 2 ^ 5 ≡ type_feedback
      → msg.id % 2 ^ 8 ≡ v.settings.host_id
      → (k : JointData W) × (get_elem? (receive_frame now msg v).joints i ≡ some k)
        × IsFeedback now msg j k
  unfolding receive_frame
  receive_frame_stores now msg v (sound, complete) i j found same clean extended eight type host =
      let at_i : find v.can_id_to_joint (sender msg) ≡ some i =
        subst (λ id. find v.can_id_to_joint id ≡ some i) same (complete i j found) in
      elim (Option-cases
        (decode_feedback msg.id msg.payload msg.dlc msg.is_extended v.settings.host_id j.limits)) [
          | inl ignored ↦
              absurd (decodes msg v.settings.host_id j.limits extended eight type host ignored)
          | inr (decoded, h) ↦ (
            store_feedback now decoded j,
            rw (clean, at_i, found) (receive_for_feedback now msg i j v decoded found h),
            store_feedback-IsFeedback now msg j v.settings.host_id decoded h,
          )
        ]

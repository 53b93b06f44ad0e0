-- ===== src/Driver/Start/Settled.antt =====
-- A joint that no message comes from keeps what its confirmation found, until `start` returns.
use robstride_ros.Prelude.{
  ℕ, zero, suc, ◌||◌, Bool, false, some, List, [], ◌∷◌, ◌≡◌, ◌≢◌, refl, ◌∙◌, ap, arith, ◌==◌,
  get_elem?, map,
}
use robstride_ros.Double.{Double}
use robstride_ros.Joint.{JointData}
use robstride_ros.Driver.State.{Driver}
use robstride_ros.Driver.Receive.{Message, sender, receive_frame}
use robstride_ros.Driver.Receive.Addressed.{receive_frame_others}
use robstride_ros.Driver.Initialize.Valid.{IsIndexed}
use robstride_ros.Driver.Skeleton.{skeleton}
use robstride_ros.Driver.Skeleton.Operations.{receive_frame-skeleton, setups-map}
use robstride_ros.Driver.Skeleton.Ready.{IsIndexed-skeleton}
use robstride_ros.Driver.Skeleton.Views.{hear-view}
use robstride_ros.Driver.Start.{Waits, hear, activate_joint, settle}

-- Whether one of the messages is from this id.
unfoldable pub is_heard : ℕ → List (ℕ × Message) → Bool
is_heard id [] = false
is_heard id ((now, msg) ∷ messages) = id == sender msg || is_heard id messages

pub get_elem?-map {ℓ} :
    {A : Type ℓ} (f : A → A) (xs : List A) (i : ℕ) (x : A)
    → get_elem? xs i ≡ some x
    → get_elem? (map f xs) i ≡ some (f x)
get_elem?-map f [] i x h = ground arith
get_elem?-map f (y ∷ xs) zero x h = ground arith
get_elem?-map f (y ∷ xs) (suc i) x h = get_elem?-map f xs i x h

module _ {W : Type 0} ⦃d : Double W⦄ where
  hear-silent :
      (messages : List (ℕ × Message)) (v : Driver W)
      → IsIndexed v
      → (i : ℕ) (j : JointData W) → get_elem? v.joints i ≡ some j
      → is_heard j.can_id messages ≡ false
      → get_elem? (hear messages v).joints i ≡ some j
  unfolding hear is_heard
  hear-silent [] v indexed i j found silent = found
  hear-silent ((now, msg) ∷ messages) v indexed i j found silent =
      let other : j.can_id ≢ sender msg = ground (arith, silent) in
      let rest : is_heard j.can_id messages ≡ false = ground (arith, silent) in
      let u = receive_frame now msg v in
      hear-silent messages u (IsIndexed-skeleton u v (receive_frame-skeleton now msg v) indexed) i j
        (receive_frame_others now msg v indexed i j found other) rest

  pub settle-silent :
      (w : Waits) (v : Driver W)
      → IsIndexed v
      → (i : ℕ) (j : JointData W) → get_elem? v.joints i ≡ some j
      → is_heard j.can_id w.unlocked ≡ false
      → is_heard j.can_id w.closing ≡ false
      → get_elem? (settle w v).joints i ≡ some (activate_joint j)
  unfolding settle
  settle-silent w v indexed i j found before after =
      let u = hear w.unlocked v in
      let copied = record u { joints = map activate_joint u.joints } in
      let here = hear-silent w.unlocked v indexed i j found before in
      let same : skeleton u ≡ skeleton v =
        hear-view skeleton receive_frame-skeleton (λ f x. refl) w.unlocked v in
      let kept : skeleton copied ≡ skeleton u =
        ap (λ js. record (skeleton u) { joints = js })
          (setups-map u.joints activate_joint (λ x. refl)) in
      hear-silent w.closing copied (IsIndexed-skeleton copied v (kept ∙ same) indexed) i
        (activate_joint j) (get_elem?-map activate_joint u.joints i j here) after

-- ===== src/System/Published.antt =====
-- What `publish_selected` sets.
use robstride_ros.Prelude.{
  ℕ, ◌+◌, Bool, true, false, List, [], ◌∷◌, ◌++◌, ◌≡◌, ◌⊎◌, inl, inr, refl, sym, ◌∙◌, subst, arith,
  Bool-cases, Text, text_eq, any, All, map,
}
use robstride_ros.CommandMode.Keys.{text_eq_refl}
use robstride_ros.System.Bindings.{Binding, set_value, publish_selected}

-- No text of a list is the same as a later one.
abbrev pub IsSeparate : List Text → Type 0
IsSeparate [] = Unit
IsSeparate (h ∷ handles) = All (λ other. text_eq h other ≡ false) handles × IsSeparate handles

abbrev pub mentions_handle : List Text → Text → Bool
mentions_handle names handle = any (λ name. text_eq name handle) names

pub mentions_handle-right :
    (names others : List Text) (handle : Text)
    → mentions_handle others handle ≡ true
    → mentions_handle (names ++ others) handle ≡ true
mentions_handle-right [] others handle h = h
mentions_handle-right (name ∷ names) others handle h =
    let rest = mentions_handle-right names others handle h in ground (arith, rest)

pub mentions_handle-left :
    (names others : List Text) (handle : Text)
    → mentions_handle names handle ≡ true
    → mentions_handle (names ++ others) handle ≡ true
mentions_handle-left [] others handle h = ground arith
mentions_handle-left (name ∷ names) others handle h =
    let rest = mentions_handle-left names others handle in
    elim (Bool-cases (text_eq name handle)) [
      | inl same ↦ rw same refl
      | inr other ↦ rw other (mentions_handle-left names others handle (ground (arith, other)))
    ]

module _ {M : Type 0} {W : Type 0} where
  abbrev pub handles_of : List (Binding M W) → List Text
  handles_of = map λ b. b.handle

  abbrev pub IsAmong : Binding M W → List (Binding M W) → Type 0
  IsAmong b [] = ⊥
  IsAmong b (c ∷ bindings) = (b ≡ c) ⊎ IsAmong b bindings

  -- Interfaces of other names keep their values.
  publish_selected-other :
      (value : Binding M W → W) (free : ℕ → Bool) (names : List Text) (index : ℕ)
      (bindings : List (Binding M W)) (values : Text → W) (h : Text)
      → All (λ other. text_eq h other ≡ false) (handles_of bindings)
      → (publish_selected value free names index bindings values).0 h ≡ values h
  unfolding publish_selected
  publish_selected-other value free names index [] values h apart = refl
  publish_selected-other value free names index (b ∷ bindings) values h (other, apart) =
      let set = set_value b.handle (value b) values in
      let kept : set h ≡ values h = rw other refl in
      let later = publish_selected-other value free names (index + 1) bindings set h apart in
      let others = publish_selected-other value free names index bindings values h apart in
      elim (Bool-cases (mentions_handle names b.handle)) [
        | inr left ↦ rw left others
        | inl named ↦ elim (Bool-cases (free index)) [
          | inr busy ↦ rw (named, busy) refl
          | inl locked ↦ rw (named, locked) (later ∙ kept)
        ]
      ]

  -- A selected interface has the value of its storage after a success.
  pub publish_selected-sets :
      (value : Binding M W → W) (free : ℕ → Bool) (names : List Text) (index : ℕ)
      (bindings : List (Binding M W)) (values : Text → W) (b : Binding M W)
      → IsSeparate (handles_of bindings)
      → (publish_selected value free names index bindings values).1 ≡ true
      → IsAmong b bindings
      → mentions_handle names b.handle ≡ true
      → (publish_selected value free names index bindings values).0 b.handle ≡ value b
  unfolding publish_selected
  publish_selected-sets value free names index [] values b separate published among named =
      elim among [ ]
  publish_selected-sets value free names index (c ∷ bindings) values b (apart, separate) published
        among named =
      let set = set_value c.handle (value c) values in
      elim (Bool-cases (mentions_handle names c.handle)) [
        | inr left ↦ elim among [
          | inl here ↦
              let named_too = subst (λ x. mentions_handle names x.handle ≡ true) here named in
              absurd (ground (arith, left, named_too))
          | inr later ↦ rw left (
              publish_selected-sets value free names index bindings values b separate
                (ground (arith, left, published)) later named)
        ]
        | inl mentioned ↦ elim (Bool-cases (free index)) [
          | inr busy ↦ absurd (ground (arith, mentioned, busy, published))
          | inl locked ↦ elim among [
            | inl here ↦
                let itself : set c.handle ≡ value c = rw (text_eq_refl c.handle) refl in
                let kept =
                  publish_selected-other value free names (index + 1) bindings set c.handle apart in
                rw (mentioned, locked)
                  (subst
                    (λ x.
                      (publish_selected value free names (index + 1) bindings set).0 x.handle
                      ≡ value x)
                    (sym here) (kept ∙ itself))
            | inr later ↦
                rw (mentioned, locked)
                  (publish_selected-sets value free names (index + 1) bindings set b separate
                    (ground (arith, mentioned, locked, published)) later named)
          ]
        ]
      ]

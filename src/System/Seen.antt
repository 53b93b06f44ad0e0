-- ===== src/System/Seen.antt =====
-- `read` and the values that the framework sees.
use robstride_ros.Prelude.{
  ℕ, ◌+◌, Bool, true, false, List, [], ◌∷◌, ◌≡◌, inl, inr, refl, sym, ◌∙◌, subst, arith, Bool-cases,
  Text, text_eq, All, map,
}
use robstride_ros.Double.{Double}
use robstride_ros.CommandMode.Keys.{text_eq_refl}
use robstride_ros.CommandMode.Switch.{IsDistinct}
use robstride_ros.Driver.Update.{update_state}
use robstride_ros.System.Bindings.{Binding, set_value, publish, state_value}
use robstride_ros.System.State.{System, state_bindings}
use robstride_ros.System.Lifecycle.{publish_states}
use robstride_ros.System.Cycle.{ok, read}
use robstride_ros.System.Published.{IsSeparate, handles_of}
use robstride_ros.System.Handles.{state_of}
use robstride_ros.System.StateHandles.{state_bindings-IsSeparate}

module _ {M : Type 0} {W : Type 0} (value : Binding M W → W) (free : ℕ → Bool) where
  publish-other :
      (index : ℕ) (bindings : List (Binding M W)) (values : Text → W) (h : Text)
      → All (λ other. text_eq h other ≡ false) (handles_of bindings)
      → (publish value free index bindings values).0 h ≡ values h
  unfolding publish
  publish-other index [] values h apart = refl
  publish-other index (b ∷ bindings) values h (other, apart) =
      let set = set_value b.handle (value b) values in
      let kept : set h ≡ values h = rw other refl in
      let later = publish-other (index + 1) bindings set h apart in
      elim (Bool-cases (free index)) [
        | inr busy ↦ rw busy refl
        | inl locked ↦ rw locked (later ∙ kept)
      ]

  -- After a success every interface has the value of its storage.
  pub publish-sets :
      (index : ℕ) (bindings : List (Binding M W)) (values : Text → W)
      → IsSeparate (handles_of bindings)
      → (publish value free index bindings values).1 ≡ true
      → All (λ b. (publish value free index bindings values).0 b.handle ≡ value b) bindings
  unfolding publish
  publish-sets index [] values separate published = tt
  publish-sets index (b ∷ bindings) values (apart, separate) published =
      let set = set_value b.handle (value b) values in
      let itself : set b.handle ≡ value b = rw (text_eq_refl b.handle) refl in
      let kept = publish-other (index + 1) bindings set b.handle apart in
      elim (Bool-cases (free index)) [
        | inr busy ↦ absurd (ground (arith, busy, published))
        | inl locked ↦
            let same : publish value free index (b ∷ bindings) values
                ≡ publish value free (index + 1) bindings set =
              rw locked refl in
            let rest =
              publish-sets (index + 1) bindings set separate (ground (arith, locked, published)) in
            subst (λ p. All (λ x. p.0 x.handle ≡ value x) (b ∷ bindings)) (sym same)
              (kept ∙ itself, rest)
      ]

module _ {W : Type 0} ⦃d : Double W⦄ where
  read-ok :
      (now : ℕ) (free : ℕ → Bool) (s : System W)
      → (read now free s).1 ≡ ok
      → let v = (update_state now s.driver).0 in
        let (values, published) = publish (state_value v.joints) free 0 s.states s.state_values in
        ((read now free s).0.driver ≡ v)
        × ((read now free s).0.state_values ≡ values)
        × (published ≡ true)
  unfolding read publish_states
  read-ok now free s succeeded = ground arith

  -- With the bindings of the export, of joints with different names: after a `read` that returns OK
  -- the framework has, for every state interface, the value that the driver has in the storage
  -- behind it after its update.
  pub read-publishes :
      (now : ℕ) (free : ℕ → Bool) (s : System W)
      → IsDistinct (map state_of s.driver.joints)
      → s.states ≡ state_bindings 0 s.driver.joints
      → (read now free s).1 ≡ ok
      → let after = (read now free s).0 in
        (after.driver ≡ (update_state now s.driver).0)
        × All
            (λ b. after.state_values b.handle ≡ state_value after.driver.joints b)
            (state_bindings 0 s.driver.joints)
  read-publishes now free s distinct exported succeeded =
      let after = (read now free s).0 in
      let v = (update_state now s.driver).0 in
      let bindings = state_bindings 0 s.driver.joints in
      let (driver, values, published) = read-ok now free s succeeded in
      let separate =
        subst (λ bs. IsSeparate (handles_of bs)) (sym exported)
          (state_bindings-IsSeparate 0 s.driver.joints distinct) in
      let all =
        publish-sets (state_value v.joints) free 0 s.states s.state_values separate published in
      (
        driver,
        subst (λ u. All (λ b. after.state_values b.handle ≡ state_value u.joints b) bindings)
            (sym driver)
            (subst (λ f. All (λ b. f b.handle ≡ state_value v.joints b) bindings) (sym values)
              (subst (All _) exported all)),
      )

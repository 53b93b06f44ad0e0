-- ===== src/System/Consume.antt =====
-- `consume` takes a whole batch of commands or none.
use robstride_ros.Prelude.{
  ℕ, ◌+◌, Bool, true, List, [], ◌∷◌, ◌++◌, ◌≡◌, refl, sym, ◌∙◌, ap, subst, arith, inl, inr,
  Bool-cases, if◌then◌else◌, Text, map, length, length-append,
}
use robstride_ros.Double.{Double, nought}
use robstride_ros.Joint.{JointData}
use robstride_ros.CommandMode.{position_key, velocity_key, effort_key}
use robstride_ros.Driver.State.{modify}
use robstride_ros.System.Bindings.{
  CommandMember, Binding, set_command, sample_all, assign_all, consume,
}
use robstride_ros.System.State.{command_bindings}

module _ {W : Type 0} where
  abbrev sampled : {M : Type 0} → (Text → W) → Binding M W → Binding M W
  sampled values b = record b { sample = values b.handle }

  sample_all-map :
      {M : Type 0} (free : ℕ → Bool) (index : ℕ) (values : Text → W) (bindings : List (Binding M W))
      → (sample_all free index values bindings).1 ≡ true
      → (sample_all free index values bindings).0 ≡ map (sampled values) bindings
  unfolding sample_all
  sample_all-map free index values [] h = refl
  sample_all-map free index values (b ∷ bindings) h =
      let rest = sample_all-map free (index + 1) values bindings in ground (arith, rest)

  modify-append :
      (before joints : List (JointData W)) (j : JointData W) (f : JointData W → JointData W) (k : ℕ)
      → length before ≡ k
      → modify (before ++ j ∷ joints) k f ≡ before ++ f j ∷ joints
  modify-append before joints j f k e =
      subst (λ n. modify (before ++ j ∷ joints) n f ≡ before ++ f j ∷ joints) e (here before)
    where
      here :
          (xs : List (JointData W)) → modify (xs ++ j ∷ joints) (length xs) f ≡ xs ++ f j ∷ joints
      here [] = refl
      here (x ∷ xs) = ap (λ ys. x ∷ ys) (here xs)

  -- A joint with the values of the framework as its commands.
  abbrev pub commanded : (Text → W) → JointData W → JointData W
  commanded values j = record j {
    command = record {
      position = values (position_key j.name);
      velocity = values (velocity_key j.name);
      effort = values (effort_key j.name);
    };
  }

  append_one :
      (before after : List (JointData W)) (j : JointData W)
      → (before ++ j ∷ []) ++ after ≡ before ++ j ∷ after
  append_one [] after j = refl
  append_one (x ∷ before) after j = ap (λ ys. x ∷ ys) (append_one before after j)

module _ {W : Type 0} ⦃d : Double W⦄ where
  assign_all-command_bindings :
      (values : Text → W) (before joints : List (JointData W)) (k : ℕ)
      → length before ≡ k
      → assign_all (map (sampled values) (command_bindings k joints)) (before ++ joints)
        ≡ before ++ map (commanded values) joints
  unfolding assign_all command_bindings
  assign_all-command_bindings values before [] k e = refl
  assign_all-command_bindings values before (j ∷ joints) k e =
      let next = before ++ commanded values j ∷ [] in
      let number : length next ≡ k + 1 =
        omega (arith, length-append before (commanded values j ∷ [])) in
      let rest = map (sampled values) (command_bindings (k + 1) joints) in
      let first = set_command CommandMember.position (values (position_key j.name)) in
      let second = set_command CommandMember.velocity (values (velocity_key j.name)) in
      let third = set_command CommandMember.effort (values (effort_key j.name)) in
      ap (λ js. assign_all rest (modify (modify js k second) k third))
        (modify-append before joints j first k e)
      ∙ ap (λ js. assign_all rest (modify js k third))
          (modify-append before joints (first j) second k e)
      ∙ ap (assign_all rest) (modify-append before joints (second (first j)) third k e)
      ∙ ap (assign_all rest) (sym (append_one before joints (commanded values j)))
      ∙ assign_all-command_bindings values next joints (k + 1) number
      ∙ append_one before (map (commanded values) joints) (commanded values j)

  -- A binding as it was added.
  abbrev pub unsampled : {M : Type 0} → Binding M W → Binding M W
  unsampled b = record b { sample = nought }

  map-sampled :
      {M : Type 0} (values : Text → W) (bindings : List (Binding M W))
      → map (sampled values) (map unsampled bindings) ≡ map (sampled values) bindings
  map-sampled values [] = refl
  map-sampled values (b ∷ bindings) = ap (λ bs. sampled values b ∷ bs) (map-sampled values bindings)

  unsampled-sample_all :
      {M : Type 0} (free : ℕ → Bool) (index : ℕ) (values : Text → W) (bindings : List (Binding M W))
      → map unsampled (sample_all free index values bindings).0 ≡ map unsampled bindings
  unfolding sample_all
  unsampled-sample_all free index values [] = refl
  unsampled-sample_all free index values (b ∷ bindings) =
      let rest = unsampled-sample_all free (index + 1) values bindings in
      elim (Bool-cases (free index)) [
        | inl locked ↦ rw locked (ap (λ bs. unsampled b ∷ bs) rest)
        | inr busy ↦ rw busy refl
      ]

  -- With the bindings of the export, of which only the samples may have changed since, a `consume`
  -- takes a whole batch or nothing: if it succeeds, every joint has the three values of the
  -- framework's interfaces of its name as its commands and is as before otherwise; if it fails, all
  -- joints are as before. The bindings are those of the export after it, too, but for their
  -- samples.
  pub consume_lem :
      (free : ℕ → Bool) (values : Text → W) (bindings : List (Binding CommandMember W))
      (joints : List (JointData W))
      → map unsampled bindings ≡ command_bindings 0 joints
      → let (after, changed, ok) = consume free values bindings joints in
        (changed ≡ (if ok then map (commanded values) joints else joints))
        × (map unsampled after ≡ command_bindings 0 joints)
  unfolding consume
  consume_lem free values bindings joints exported =
      elim (Bool-cases (sample_all free 0 values bindings).1) [
        | inr failed ↦ rw failed (refl, kept)
        | inl read ↦
            let taken = sample_all-map free 0 values bindings read in
            let same : map (sampled values) bindings
                ≡ map (sampled values) (command_bindings 0 joints) =
              sym (map-sampled values bindings) ∙ ap (map (sampled values)) exported in
            rw read (
              ap (λ bs. assign_all bs joints) (taken ∙ same)
                  ∙ assign_all-command_bindings values [] joints 0 refl,
              kept,
            )
      ]
    where
      kept : map unsampled (sample_all free 0 values bindings).0 ≡ command_bindings 0 joints
      kept = unsampled-sample_all free 0 values bindings ∙ exported

-- ===== src/System/Synced.antt =====
-- The initial values of newly claimed commands reach the framework before it can hand back older ones.
use robstride_ros.Prelude.{
  ℕ, zero, suc, Bool, true, false, some, List, [], ◌∷◌, ◌++◌, ◌≡◌, inl, inr, refl, sym, ◌∙◌, ap,
  subst, arith, Bool-cases, Text, map, get_elem?,
}
use robstride_ros.Double.{Double}
use robstride_ros.Joint.{JointData, ClaimedInterfaces}
use robstride_ros.CommandMode.{position_key, velocity_key, effort_key, command_modes_after_switch}
use robstride_ros.CommandMode.Keys.{text_eq_refl}
use robstride_ros.CommandMode.Switch.{IsDistinct, state_after, command_modes_after_switch_lem}
use robstride_ros.Driver.Modes.{validate_command_modes, claim, claim_all, apply_command_modes}
use robstride_ros.System.Bindings.{
  CommandMember, Binding, command_member, command_value, publish_selected,
}
use robstride_ros.System.State.{System, command_bindings, current_command_modes, bind}
use robstride_ros.System.Consume.{unsampled}
use robstride_ros.System.Cycle.{ok}
use robstride_ros.System.Switch.{
  started, claimed_by, initialized_commands, perform_command_mode_switch,
}
use robstride_ros.System.Published.{
  IsSeparate, mentions_handle, mentions_handle-right, mentions_handle-left, handles_of, IsAmong,
  publish_selected-sets,
}
use robstride_ros.System.Handles.{
  key, claims, state_of, command_bindings-IsSeparate, command_bindings-IsAmong, IsAmong-unsampled,
  handles_of-unsampled,
}

started-mentions :
    (previous current : Bool) (handle : Text)
    → previous ≡ false
    → current ≡ true
    → mentions_handle (started previous current handle) handle ≡ true
started-mentions previous current handle before after = rw (before, after, text_eq_refl handle) refl

module _ {W : Type 0} ⦃d : Double W⦄ where
  -- The joint after a switch.
  abbrev joint_after : List Text → List Text → JointData W → JointData W
  joint_after start stop j = claim j (record {
    position = (state_after start stop (state_of j)).position_active;
    velocity = (state_after start stop (state_of j)).velocity_active;
    effort = (state_after start stop (state_of j)).effort_active;
  })

  claim_all-get_elem? :
      (start stop : List Text) (joints : List (JointData W)) (i : ℕ) (j k : JointData W)
      → get_elem? joints i ≡ some j
      → get_elem?
          (claim_all joints (claimed_by (map (state_after start stop) (map state_of joints))))
          i
        ≡ some k
      → k ≡ joint_after start stop j
  unfolding claim_all
  claim_all-get_elem? start stop [] i j k found after = ground arith
  claim_all-get_elem? start stop (x ∷ joints) zero j k found after =
      let same : x ≡ j = ground arith in
      let changed : joint_after start stop x ≡ k = ground arith in
      sym changed ∙ ap (joint_after start stop) same
  claim_all-get_elem? start stop (x ∷ joints) (suc i) j k found after =
      claim_all-get_elem? start stop joints i j k found after

  -- What a joint adds to the keys that are published.
  abbrev started_by : JointData W → ClaimedInterfaces → List Text → List Text
  started_by j c rest =
      started j.claimed.position c.position (position_key j.name)
      ++ started j.claimed.velocity c.velocity (velocity_key j.name)
      ++ started j.claimed.effort c.effort (effort_key j.name)
      ++ rest

  started_by-mentions :
      (j : JointData W) (c : ClaimedInterfaces) (rest : List Text) (m : CommandMember)
      → claims m j.claimed ≡ false
      → claims m c ≡ true
      → mentions_handle (started_by j c rest) (key j.name m) ≡ true
  started_by-mentions j c rest CommandMember.position before after =
      let p = started j.claimed.position c.position (position_key j.name) in
      let v = started j.claimed.velocity c.velocity (velocity_key j.name) in
      let e = started j.claimed.effort c.effort (effort_key j.name) in
      let own = started-mentions j.claimed.position c.position (position_key j.name) before after in
      mentions_handle-left (p ++ v ++ e) rest (position_key j.name) (
        mentions_handle-left (p ++ v) e (position_key j.name)
          (mentions_handle-left p v (position_key j.name) own))
  started_by-mentions j c rest CommandMember.velocity before after =
      let p = started j.claimed.position c.position (position_key j.name) in
      let v = started j.claimed.velocity c.velocity (velocity_key j.name) in
      let e = started j.claimed.effort c.effort (effort_key j.name) in
      let own = started-mentions j.claimed.velocity c.velocity (velocity_key j.name) before after in
      mentions_handle-left (p ++ v ++ e) rest (velocity_key j.name) (
        mentions_handle-left (p ++ v) e (velocity_key j.name)
          (mentions_handle-right p v (velocity_key j.name) own))
  started_by-mentions j c rest CommandMember.effort before after =
      let p = started j.claimed.position c.position (position_key j.name) in
      let v = started j.claimed.velocity c.velocity (velocity_key j.name) in
      let e = started j.claimed.effort c.effort (effort_key j.name) in
      let own = started-mentions j.claimed.effort c.effort (effort_key j.name) before after in
      mentions_handle-left (p ++ v ++ e) rest (effort_key j.name)
        (mentions_handle-right (p ++ v) e (effort_key j.name) own)

  started_by-rest :
      (j : JointData W) (c : ClaimedInterfaces) (rest : List Text) (handle : Text)
      → mentions_handle rest handle ≡ true
      → mentions_handle (started_by j c rest) handle ≡ true
  started_by-rest j c rest handle h = mentions_handle-right _ rest handle h

  -- The key of a newly claimed interface is among those that are published.
  initialized_commands-mentions :
      (start stop : List Text) (joints : List (JointData W)) (i : ℕ) (j : JointData W)
      (m : CommandMember)
      → get_elem? joints i ≡ some j
      → claims m j.claimed ≡ false
      → claims m (joint_after start stop j).claimed ≡ true
      → mentions_handle
          (initialized_commands
            (map state_of joints)
            (map (state_after start stop) (map state_of joints)))
          (key j.name m)
        ≡ true
  unfolding initialized_commands
  initialized_commands-mentions start stop [] i j m found before after = ground arith
  initialized_commands-mentions start stop (x ∷ joints) zero j m found before after =
      let same : j ≡ x = ground arith in
      let rest =
        initialized_commands (map state_of joints)
          (map (state_after start stop) (map state_of joints)) in
      subst
        (λ y.
          mentions_handle (started_by x (joint_after start stop x).claimed rest) (key y.name m)
          ≡ true)
        (sym same)
        (started_by-mentions x (joint_after start stop x).claimed rest m
          (subst (λ y. claims m y.claimed ≡ false) same before)
          (subst (λ y. claims m (joint_after start stop y).claimed ≡ true) same after))
  initialized_commands-mentions start stop (x ∷ joints) (suc i) j m found before after =
      let later = initialized_commands-mentions start stop joints i j m found before after in
      started_by-rest x (joint_after start stop x).claimed _ (key j.name m) later

  command_value-at :
      (joints : List (JointData W)) (c : Binding CommandMember W) (i : ℕ) (k : JointData W)
      (m : CommandMember)
      → c.joint ≡ i
      → c.member ≡ m
      → get_elem? joints i ≡ some k
      → command_value joints c ≡ command_member m k.command
  command_value-at joints c i k m number member there =
      let found : get_elem? joints c.joint ≡ some k =
        subst (λ n. get_elem? joints n ≡ some k) (sym number) there in
      rw (command_value, found) (ap (λ x. command_member x k.command) member)

  -- What a successful switch has done, in parts.
  performed-parts :
      (now : ℕ) (free : ℕ → Bool) (start stop : List Text) (s : System W)
      → (perform_command_mode_switch now free start stop s).1 ≡ ok
      → let resulting = command_modes_after_switch (current_command_modes s.driver) start stop in
        let joints = claim_all s.driver.joints (claimed_by resulting) in
        let sync =
          publish_selected
            (command_value joints)
            free
            (initialized_commands (current_command_modes s.driver) resulting)
            0
            s.commands
            s.command_values in
        (sync.1 ≡ true)
        × ((perform_command_mode_switch now free start stop s).0.driver.joints ≡ joints)
        × ((perform_command_mode_switch now free start stop s).0.command_values ≡ sync.0)
  unfolding perform_command_mode_switch apply_command_modes
  performed-parts now free start stop s h =
      let resulting = command_modes_after_switch (current_command_modes s.driver) start stop in
      let joints = claim_all s.driver.joints (claimed_by resulting) in
      let sync =
        publish_selected (command_value joints) free
          (initialized_commands (current_command_modes s.driver) resulting) 0 s.commands
          s.command_values in
      elim (Bool-cases s.command_sync_failed) [
        | inl failed ↦ absurd (ground (arith, failed, h))
        | inr fine ↦
            elim (Bool-cases (validate_command_modes now (claimed_by resulting) s.driver)) [
              | inr refused ↦ absurd (ground (arith, fine, refused, h))
              | inl valid ↦ elim (Bool-cases sync.1) [
                | inr unsynced ↦ absurd (ground (arith, fine, valid, unsynced, h))
                | inl synced ↦ rw (fine, valid, synced) (refl, refl, refl)
              ]
            ]
      ]

  -- For joints of different names and the bindings of the export: when a switch of command modes
  -- has succeeded, the framework has, for every interface that a joint newly claims, the value that
  -- the driver has as its command, so that the next `consume` does not bring back an older one.
  pub perform-synced :
      (now : ℕ) (free : ℕ → Bool) (start stop : List Text) (s : System W) (i : ℕ)
      (j k : JointData W) (m : CommandMember)
      → IsDistinct (current_command_modes s.driver)
      → map unsampled s.commands ≡ command_bindings 0 s.driver.joints
      → (perform_command_mode_switch now free start stop s).1 ≡ ok
      → get_elem? s.driver.joints i ≡ some j
      → get_elem? (perform_command_mode_switch now free start stop s).0.driver.joints i ≡ some k
      → claims m j.claimed ≡ false
      → claims m k.claimed ≡ true
      → (perform_command_mode_switch now free start stop s).0.command_values (key k.name m)
        ≡ command_member m k.command
  perform-synced now free start stop s i j k m distinct exported done before after was is_now =
      let resulting = command_modes_after_switch (current_command_modes s.driver) start stop in
      let joints = claim_all s.driver.joints (claimed_by resulting) in
      let (synced, joints_eq, values_eq) = performed-parts now free start stop s done in
      let resulting_eq =
        command_modes_after_switch_lem (current_command_modes s.driver) start stop distinct in
      let there : get_elem? joints i ≡ some k =
        subst (λ js. get_elem? js i ≡ some k) joints_eq after in
      let k_eq : k ≡ joint_after start stop j =
        claim_all-get_elem? start stop s.driver.joints i j k before (
          subst (λ r. get_elem? (claim_all s.driver.joints (claimed_by r)) i ≡ some k) resulting_eq
            there) in
      let bound = command_bindings-IsAmong 0 i s.driver.joints i j m (omega arith) before in
      let (c, among, same) =
        IsAmong-unsampled (bind (key j.name m) i m) s.commands
          (subst (IsAmong (bind (key j.name m) i m)) (sym exported) bound) in
      let separate =
        subst IsSeparate (ap handles_of (sym exported) ∙ handles_of-unsampled s.commands)
          (command_bindings-IsSeparate 0 s.driver.joints distinct) in
      let named =
        initialized_commands-mentions start stop s.driver.joints i j m before was
          (subst (λ x. claims m x.claimed ≡ true) k_eq is_now) in
      let named_now =
        subst
          (λ r.
            mentions_handle (initialized_commands (current_command_modes s.driver) r) (key j.name m)
            ≡ true)
          (sym resulting_eq) named in
      let handle_eq : key j.name m ≡ c.handle = ap (λ b. b.handle) (sym same) in
      let set =
        publish_selected-sets (command_value joints) free
          (initialized_commands (current_command_modes s.driver) resulting) 0 s.commands
          s.command_values c separate synced among
          (subst
            (λ h.
              mentions_handle (initialized_commands (current_command_modes s.driver) resulting) h
              ≡ true)
            handle_eq named_now) in
      let number : c.joint ≡ i = ap (λ b. b.joint) same in
      let member : c.member ≡ m = ap (λ b. b.member) same in
      let value : command_value joints c ≡ command_member m k.command =
        command_value-at joints c i k m number member there in
      let name : k.name ≡ j.name = ap (λ x. x.name) k_eq in
      ap (λ values. values (key k.name m)) values_eq
      ∙ ap
          (publish_selected (command_value joints) free
            (initialized_commands (current_command_modes s.driver) resulting) 0 s.commands
            s.command_values).0
          (ap (λ n. key n m) name ∙ handle_eq)
      ∙ set
      ∙ value

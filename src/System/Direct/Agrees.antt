-- ===== src/System/Direct/Agrees.antt =====
-- The two builds of the plugin behave alike.
use robstride_ros.Prelude.{
  ℕ, ◌+◌, Bool, true, false, List, [], ◌∷◌, ◌≡◌, refl, arith, inl, inr, Bool-cases, Text, map,
}
use robstride_ros.Double.{Double}
use robstride_ros.Joint.{JointData}
use robstride_ros.CommandMode.{command_modes_after_switch}
use robstride_ros.Driver.State.{Driver}
use robstride_ros.Driver.Start.{Waits, start}
use robstride_ros.Transport.State.{Transport}
use robstride_ros.Driver.Update.{update_state}
use robstride_ros.Driver.Modes.{apply_command_modes}
use robstride_ros.System.Bindings.{
  Binding, set_value, publish, publish_selected, sample_all, consume, state_value, command_value,
}
use robstride_ros.System.State.{System, state_bindings, command_bindings, current_command_modes}
use robstride_ros.System.Lifecycle as Lifecycle
use robstride_ros.System.Lifecycle.{publish_states, publish_commands}
use robstride_ros.System.Cycle as Cycle
use robstride_ros.System.Switch as Switch
use robstride_ros.System.Consume.{commanded, unsampled, consume_lem}
use robstride_ros.System.Direct.{
  on_activate, Pointer, full_name, export_state_interfaces, export_command_interfaces, read, write,
  perform_command_mode_switch,
}

-- What the framework knows of an interface: its name, and the joint and the member behind it.
abbrev pub bound : {M W : Type 0} → Binding M W → Text × ℕ × M
bound b = (b.handle, b.joint, b.member)

abbrev pub pointed : {M : Type 0} → Pointer M → Text × ℕ × M
pointed p = (full_name p, p.joint, p.member)

module _ {W : Type 0} where
  -- Where no access fails, the transfers succeed.
  module _ {M : Type 0} (value : Binding M W → W) {free : ℕ → Bool}
      (all_free : (i : ℕ) → free i ≡ true) where
    publish-free :
        (index : ℕ) (bindings : List (Binding M W)) (values : Text → W)
        → (publish value free index bindings values).1 ≡ true
    unfolding publish
    publish-free index [] values = refl
    publish-free index (b ∷ bindings) values =
        rw (all_free index) (publish-free (index + 1) bindings _)

    publish_selected-free :
        (names : List Text) (index : ℕ) (bindings : List (Binding M W)) (values : Text → W)
        → (publish_selected value free names index bindings values).1 ≡ true
    unfolding publish_selected
    publish_selected-free names index [] values = refl
    publish_selected-free names index (b ∷ bindings) values = ground (
      arith,
      all_free index,
      publish_selected-free names index bindings values,
      publish_selected-free names (index + 1) bindings (set_value b.handle (value b) values),
    )

  sample_all-free :
      {M : Type 0} {free : ℕ → Bool} (all_free : (i : ℕ) → free i ≡ true) (index : ℕ)
      (values : Text → W) (bindings : List (Binding M W))
      → (sample_all free index values bindings).1 ≡ true
  unfolding sample_all
  sample_all-free all_free index values [] = refl
  sample_all-free all_free index values (b ∷ bindings) =
      rw (all_free index) (sample_all-free all_free (index + 1) values bindings)

module _ {W : Type 0} ⦃d : Double W⦄ where
  -- The two exports have the same interfaces, in the same order.
  pub state_bindings-export_state_interfaces :
      (k : ℕ) (joints : List (JointData W))
      → map bound (state_bindings k joints) ≡ map pointed (export_state_interfaces k joints)
  unfolding state_bindings export_state_interfaces
  state_bindings-export_state_interfaces k [] = refl
  state_bindings-export_state_interfaces k (j ∷ joints) =
      let rest = state_bindings-export_state_interfaces (k + 1) joints in
      elim (Bool-cases j.exports_temperature) [
        | inl hot ↦ elim (Bool-cases j.exports_fault) [
          | inl faulty ↦ simp (hot, faulty, rest)
          | inr plain ↦ simp (hot, plain, rest)
        ]
        | inr cold ↦ elim (Bool-cases j.exports_fault) [
          | inl faulty ↦ simp (cold, faulty, rest)
          | inr plain ↦ simp (cold, plain, rest)
        ]
      ]

  pub command_bindings-export_command_interfaces :
      (k : ℕ) (joints : List (JointData W))
      → map bound (command_bindings k joints) ≡ map pointed (export_command_interfaces k joints)
  unfolding command_bindings export_command_interfaces
  command_bindings-export_command_interfaces k [] = refl
  command_bindings-export_command_interfaces k (j ∷ joints) =
      simp (command_bindings-export_command_interfaces (k + 1) joints)

  -- The driver as the framework's own writes through the pointers would have left it.
  abbrev pub deposited : System W → Driver W
  deposited s = record s.driver { joints = map (commanded s.command_values) s.driver.joints }

  -- The same driver, and the same result.
  abbrev pub Agree : {R : Type 0} → System W × R → Driver W × R → Type 0
  Agree (after, result) (v, direct) = (after.driver ≡ v) × (result ≡ direct)

  module _ (now : ℕ) {free : ℕ → Bool} (all_free : (i : ℕ) → free i ≡ true) (s : System W) where
    activate-Agree :
        (w : Waits) (meanwhile : Transport → Transport)
        → Agree (Lifecycle.on_activate w now free free meanwhile s) (on_activate w now s.driver)
    unfolding Lifecycle.on_activate on_activate publish_states publish_commands
    activate-Agree w meanwhile =
        let v = (start w now s.driver).0 in
        let states_ok = publish-free (state_value v.joints) all_free 0 s.states s.state_values in
        let commands_ok =
          publish-free (command_value v.joints) all_free 0 s.commands s.command_values in
        ground arith

    module _ (unlatched : s.command_sync_failed ≡ false) where
      read-Agree : Agree (Cycle.read now free s) (read now s.driver)
      unfolding Cycle.read read publish_states
      read-Agree =
          let v = (update_state now s.driver).0 in
          let published = publish-free (state_value v.joints) all_free 0 s.states s.state_values in
          ground arith

      write-Agree :
          map unsampled s.commands ≡ command_bindings 0 s.driver.joints
          → Agree (Cycle.write now free s) (write now (deposited s))
      unfolding Cycle.write write consume
      write-Agree exported =
          let taken = sample_all-free all_free 0 s.command_values s.commands in
          let (changed, _) =
            consume_lem free s.command_values s.commands s.driver.joints exported in
          ground arith

      switch-Agree :
          (start stop : List Text)
          → Agree
              (Switch.perform_command_mode_switch now free start stop s)
              (perform_command_mode_switch now start stop s.driver)
      unfolding Switch.perform_command_mode_switch perform_command_mode_switch
      switch-Agree start stop =
          let previous = current_command_modes s.driver in
          let resulting = command_modes_after_switch previous start stop in
          let v = (apply_command_modes now (Switch.claimed_by resulting) s.driver).0 in
          let synced =
            publish_selected-free (command_value v.joints) all_free
              (Switch.initialized_commands previous resulting) 0 s.commands s.command_values in
          ground arith

  -- With the bindings of the export, no failed synchronisation and no access that fails, the build
  -- with managed interfaces does what the build without them does: an activation, a `read`, a
  -- switch of command modes and a `write` have the same result in both and leave the same driver,
  -- where for `write` the driver of the other build has in its storage the values that the
  -- framework has for the interfaces of the same names.
  pub builds-Agree :
      (w : Waits) (now : ℕ) {free : ℕ → Bool} (meanwhile : Transport → Transport)
      (begin end : List Text) (s : System W)
      → ((i : ℕ) → free i ≡ true)
      → s.command_sync_failed ≡ false
      → map unsampled s.commands ≡ command_bindings 0 s.driver.joints
      → Agree (Lifecycle.on_activate w now free free meanwhile s) (on_activate w now s.driver)
        × Agree (Cycle.read now free s) (read now s.driver)
        × Agree
            (Switch.perform_command_mode_switch now free begin end s)
            (perform_command_mode_switch now begin end s.driver)
        × Agree (Cycle.write now free s) (write now (deposited s))
  builds-Agree w now meanwhile begin end s all_free unlatched exported = (
    activate-Agree now all_free s w meanwhile,
    read-Agree now all_free s unlatched,
    switch-Agree now all_free s unlatched begin end,
    write-Agree now all_free s unlatched exported,
  )

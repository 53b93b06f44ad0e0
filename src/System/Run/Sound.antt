-- ===== src/System/Run/Sound.antt =====
-- The plugin from its initialisation on.
use robstride_ros.Prelude.{
  ℕ, Bool, false, Option, subst, length-map, ◌≡◌, refl, sym, ◌∙◌, ap, arith, map, Text,
}
use robstride_ros.Double.{Double}
use robstride_ros.CommandMode.Switch.{IsDistinct}
use robstride_ros.Driver.Initialize.Valid.{IsReady}
use robstride_ros.Driver.Skeleton.{Skeleton, setup, setups, skeleton, IsSized}
use robstride_ros.Driver.Skeleton.Ready.{IsReady-skeleton}
use robstride_ros.System.State.{System, state_bindings, command_bindings}
use robstride_ros.Config.Parameters.{HardwareInfo}
use robstride_ros.System.Lifecycle.{
  success, on_init, publish_states, publish_commands, on_export_state_interfaces,
  on_export_command_interfaces,
}
use robstride_ros.System.Consume.{unsampled}
use robstride_ros.System.Handles.{state_of}
use robstride_ros.System.Run.{Reach}
use robstride_ros.Driver.Connection.Attached.{IsAttached}
use robstride_ros.System.Run.Attached.{Reach-IsAttached}
use robstride_ros.System.Run.Kept.{
  IsKept, state_bindings-setups, command_bindings-setups, kept-IsSized, kept-bound, kept-exported,
  unsampled-command_bindings,
}
use robstride_ros.System.Run.Steps.{Reach-IsKept}
use robstride_ros.System.Run.Initial.{IsDistinct-setups, on_init-initialize}

module _ {W : Type 0} ⦃d : Double W⦄ where
  -- What the calls rely on: the driver is ready, its metrics have an entry for each joint, the
  -- bindings are those of the exports, but for the samples, of joints with different names, and the
  -- driver has a transport if it is active.
  pub record IsSound (s : System W) : Type 0 where
    pub ready : IsReady s.driver
    pub sized : IsSized s.driver
    pub states_bound : s.states ≡ state_bindings 0 s.driver.joints
    pub commands_bound : map unsampled s.commands ≡ command_bindings 0 s.driver.joints
    pub distinct : IsDistinct (map state_of s.driver.joints)
    pub attached : IsAttached s.driver

  -- The plugin as the framework has it once it is initialised.
  abbrev pub exported : (ℕ → Bool) → (ℕ → Bool) → System W → System W
  exported states_free commands_free s =
      (on_export_command_interfaces commands_free (on_export_state_interfaces states_free s).0).0

  exported-IsKept :
      (states_free commands_free : ℕ → Bool) (s : System W)
      → IsSized s.driver
      → IsKept (skeleton s.driver) (exported states_free commands_free s)
  unfolding on_export_state_interfaces on_export_command_interfaces publish_states publish_commands
  exported-IsKept states_free commands_free s (samples, attempts) =
      let joints = length-map setup s.driver.joints in
      record {
        kept = refl;
        feedback_sized = omega arith;
        recovery_sized = omega arith;
        states_bound = sym (state_bindings-setups 0 s.driver.joints);
        commands_bound =
            unsampled-command_bindings 0 s.driver.joints
            ∙ sym (command_bindings-setups 0 s.driver.joints);
      }

  pub initialised-IsKept :
      (stod : Text → Option (W × ℕ)) (base : Bool) (now : ℕ) (info : HardwareInfo)
      (states_free commands_free : ℕ → Bool) (s u : System W)
      → (on_init stod base now info s).1 ≡ success
      → Reach (exported states_free commands_free (on_init stod base now info s).0) u
      → IsKept (skeleton (on_init stod base now info s).0.driver) u
  initialised-IsKept stod base now info states_free commands_free s u succeeded r =
      let (_, sized, _) = on_init-initialize stod base now info s succeeded in
      Reach-IsKept (exported-IsKept states_free commands_free _ sized) r

  exported-IsAttached :
      (states_free commands_free : ℕ → Bool) (s : System W)
      → s.driver.active ≡ false
      → IsAttached (exported states_free commands_free s).driver
  unfolding on_export_state_interfaces on_export_command_interfaces publish_states publish_commands
  exported-IsAttached states_free commands_free s inactive active = absurd (ground arith)

  -- After a successful initialisation of an inactive plugin, for joints with different names, and the
  -- exports, every state that the plugin reaches is sound, whatever the framework calls and in
  -- whatever order, whatever the outcome of the calls, and whatever arrives or happens in the
  -- transport meanwhile; and the configured part of the driver is as the initialisation left it.
  pub Reach-IsSound :
      (stod : Text → Option (W × ℕ)) (base : Bool) (now : ℕ) (info : HardwareInfo)
      (states_free commands_free : ℕ → Bool) (s u : System W)
      → (on_init stod base now info s).1 ≡ success
      → IsDistinct (map state_of (on_init stod base now info s).0.driver.joints)
      → s.driver.active ≡ false
      → Reach (exported states_free commands_free (on_init stod base now info s).0) u
      → IsSound u × (skeleton u.driver ≡ skeleton (on_init stod base now info s).0.driver)
  Reach-IsSound stod base now info states_free commands_free s u succeeded distinct inactive r =
      let v = (on_init stod base now info s).0.driver in
      let (ready, _, active) = on_init-initialize stod base now info s succeeded in
      let c = initialised-IsKept stod base now info states_free commands_free s u succeeded r in
      let joints : setups u.driver.joints ≡ setups v.joints =
        ap (λ (k : Skeleton W). k.joints) c.kept in
      (
        record {
          ready = IsReady-skeleton u.driver v c.kept ready;
          sized = kept-IsSized c;
          states_bound = kept-bound c;
          commands_bound = kept-exported c;
          distinct = (IsDistinct-setups u.driver.joints).0 (
              subst (λ js. IsDistinct (map state_of js)) (sym joints)
                ((IsDistinct-setups v.joints).1 distinct));
          attached =
              Reach-IsAttached
                (exported-IsAttached states_free commands_free (on_init stod base now info s).0
                  (active ∙ inactive))
                r;
        },
        c.kept,
      )

-- ===== src/System/Run/Configured.antt =====
-- When an initialised plugin can be configured.
use robstride_ros.Prelude.{
  ℕ, Bool, true, false, some, ◌≡◌, ◌↔◌, refl, sym, ap, subst, arith, Option, Text, inl, inr,
  Option-cases, length, List, [], ◌∷◌, ◌==◌, is_empty,
}
use robstride_ros.Double.{Double}
use robstride_ros.Transport.State.{Transport, construct, create}
use robstride_ros.Transport.Publish.{Endpoint}
use robstride_ros.Transport.Lifecycle as Lifecycle
use robstride_ros.Driver.State.{DriverSettings, DriverConfiguration, Driver}
use robstride_ros.Driver.Initialize.{initialize, reset_metrics}
use robstride_ros.Driver.Connection.{transport_options, open_driver}
use robstride_ros.Driver.Skeleton.{Skeleton}
use robstride_ros.Config.Parameters.{HardwareInfo}
use robstride_ros.Config.Hardware.{parse_driver_configuration}
use robstride_ros.Config.Accepted.{initialize-parse_driver_configuration}
use robstride_ros.System.State.{System}
use robstride_ros.System.Lifecycle.{success, on_init, on_configure}
use robstride_ros.System.Run.{Reach}
use robstride_ros.System.Run.Sound.{exported, initialised-IsKept}

-- The options with which a transport can be made.
abbrev IsConstructible : DriverSettings → Type 0
IsConstructible s = construct (transport_options s) true ≡ some (create s.motor_count)

length-nonempty : {A : Type 0} (xs : List A) → is_empty xs ≡ false → (length xs == 0) ≡ false
length-nonempty [] full = cc
length-nonempty (x ∷ xs) full = ground arith

module _ {W : Type 0} ⦃d : Double W⦄ where
  initialize-IsConstructible :
      (now : ℕ) (c : DriverConfiguration W) (v : Driver W)
      → (initialize now c v).1 ≡ true
      → IsConstructible (initialize now c v).0.settings
  unfolding initialize reset_metrics construct
  initialize-IsConstructible now c v accepted =
      let counted = length-nonempty c.joints in ground arith

  on_init-IsConstructible :
      (stod : Text → Option (W × ℕ)) (base : Bool) (now : ℕ) (info : HardwareInfo) (s : System W)
      → (on_init stod base now info s).1 ≡ success
      → IsConstructible (on_init stod base now info s).0.driver.settings
  unfolding on_init
  on_init-IsConstructible stod base now info s succeeded =
      elim (Option-cases (parse_driver_configuration stod info)) [
        | inl failed ↦ absurd (ground (arith, failed, succeeded))
        | inr (c, parsed) ↦
            let accepted = initialize-parse_driver_configuration stod now info c s.driver parsed in
            let made = initialize-IsConstructible now c s.driver accepted in
            let framework : base ≡ true = ground (arith, succeeded) in rw (framework, parsed) made
      ]

  open_driver-created :
      (e : Endpoint) (now started_at : ℕ) (created : Bool) (joined : Transport → Transport)
      (v : Driver W)
      → IsConstructible v.settings
      → (open_driver e now started_at created joined v).1 ≡ created
  unfolding open_driver Lifecycle.start create
  open_driver-created e now started_at true joined v made = rw (made, open_driver) refl
  open_driver-created e now started_at false joined v made = rw (made, open_driver) refl

  on_configure-created :
      (e : Endpoint) (now started_at : ℕ) (created : Bool) (joined : Transport → Transport)
      (s : System W)
      → IsConstructible s.driver.settings
      → ((on_configure e now started_at created joined s).1 ≡ success) ↔ (created ≡ true)
  unfolding on_configure
  on_configure-created e now started_at created joined s made =
      let opened = open_driver-created e now started_at created joined s.driver made in
      (λ h. ground arith, λ h. ground arith)

  -- Whenever an initialised plugin is configured, whatever has been called and has happened since the
  -- initialisation, the configuration succeeds exactly if the ROS entities and the threads of the
  -- transport can be created: the transport accepts the options of every plugin that could be
  -- initialised.
  pub on_configure-success_iff :
      (stod : Text → Option (W × ℕ)) (base : Bool) (now : ℕ) (info : HardwareInfo)
      (states_free commands_free : ℕ → Bool) (s u : System W)
      → (on_init stod base now info s).1 ≡ success
      → Reach (exported states_free commands_free (on_init stod base now info s).0) u
      → (e : Endpoint) (opened_at started_at : ℕ) (created : Bool) (joined : Transport → Transport)
      → ((on_configure e opened_at started_at created joined u).1 ≡ success) ↔ (created ≡ true)
  on_configure-success_iff stod base now info states_free commands_free s u succeeded r e opened_at
        started_at created joined =
      let c = initialised-IsKept stod base now info states_free commands_free s u succeeded r in
      let settings = ap (λ (k : Skeleton W). k.settings) c.kept in
      on_configure-created e opened_at started_at created joined u (
        subst IsConstructible (sym settings)
          (on_init-IsConstructible stod base now info s succeeded))

-- ===== src/System/Initialisation.antt =====
-- When the plugin can be initialised.
use robstride_ros.Prelude.{
  ℕ, Bool, true, Option, some, ◌≡◌, ◌↔◌, refl, arith, inl, inr, Option-cases, Text,
}
use robstride_ros.Double.{Double}
use robstride_ros.Driver.State.{DriverConfiguration}
use robstride_ros.Driver.Initialize.{initialize}
use robstride_ros.Config.Parameters.{HardwareInfo}
use robstride_ros.Config.Hardware.{parse_driver_configuration}
use robstride_ros.Config.Accepted.{initialize-parse_driver_configuration}
use robstride_ros.System.State.{System}
use robstride_ros.System.Lifecycle.{
  HardwareComponentInterfaceParams, success, on_init, on_init_params,
}

module _ {W : Type 0} ⦃d : Double W⦄ (stod : Text → Option (W × ℕ)) where
  -- The two overloads do the same.
  on_init_params-on_init :
      (base : Bool) (now : ℕ) (params : HardwareComponentInterfaceParams) (s : System W)
      → on_init_params stod base now params s ≡ on_init stod base now params.hardware_info s
  unfolding on_init_params on_init
  on_init_params-on_init base now params s = refl

  -- The driver is that of the parsed configuration.
  pub on_init-driver :
      (now : ℕ) (info : HardwareInfo) (s : System W) (c : DriverConfiguration W)
      → parse_driver_configuration stod info ≡ some c
      → (on_init stod true now info s).0.driver ≡ (initialize now c s.driver).0
  unfolding on_init
  on_init-driver now info s c parsed = rw parsed refl

  -- The initialisation succeeds exactly if that of the framework does and the hardware description can be
  -- parsed: the driver takes every configuration that the parser returns.
  pub on_init-success_iff :
      (base : Bool) (now : ℕ) (info : HardwareInfo) (s : System W)
      → ((on_init stod base now info s).1 ≡ success) ↔ (
          (base ≡ true)
          × ((c : DriverConfiguration W) × (parse_driver_configuration stod info ≡ some c)))
  unfolding on_init
  on_init-success_iff base now info s = (
    λ h. elim (Option-cases (parse_driver_configuration stod info)) [
      | inl failed ↦ absurd (ground (arith, failed, h))
      | inr (c, parsed) ↦ (ground (arith, h), (c, parsed))
    ],
    λ (b, (c, parsed)).
        let accepted = initialize-parse_driver_configuration stod now info c s.driver parsed in
        rw (b, parsed, accepted) refl,
  )

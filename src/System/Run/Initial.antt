-- ===== src/System/Run/Initial.antt =====
-- The plugin as the initialisation leaves it.
use robstride_ros.Prelude.{
  ℕ, Bool, true, Option, List, [], ◌∷◌, ◌≢◌, ◌↔◌, inl, inr, Option-cases, All, ◌≡◌, arith, map,
  Text,
}
use robstride_ros.Double.{Double}
use robstride_ros.Joint.{JointData}
use robstride_ros.CommandMode.Switch.{IsDistinct}
use robstride_ros.Driver.Initialize.Valid.{IsReady, initialize_accepts}
use robstride_ros.Driver.Skeleton.{setups, IsSized}
use robstride_ros.Driver.Skeleton.Starting.{initialize-IsSized}
use robstride_ros.System.State.{System}
use robstride_ros.Config.Parameters.{HardwareInfo}
use robstride_ros.Config.Hardware.{parse_driver_configuration}
use robstride_ros.Config.Accepted.{initialize-parse_driver_configuration}
use robstride_ros.System.Lifecycle.{success, on_init}
use robstride_ros.System.Handles.{state_of}
use robstride_ros.Driver.State.{Driver, DriverConfiguration}
use robstride_ros.Driver.Initialize.{initialize, reset_metrics}

module _ {W : Type 0} ⦃d : Double W⦄ where
  names-apart :
      (name : Text) (joints : List (JointData W))
      → All (λ t. name ≢ t.joint_name) (map state_of (setups joints))
        ↔ All (λ t. name ≢ t.joint_name) (map state_of joints)
  names-apart name [] = (λ h. h, λ h. h)
  names-apart name (j ∷ joints) =
      let (to, from) = names-apart name joints in
      (λ (one, rest). (one, to rest), λ (one, rest). (one, from rest))

  pub IsDistinct-setups :
      (joints : List (JointData W))
      → IsDistinct (map state_of (setups joints)) ↔ IsDistinct (map state_of joints)
  IsDistinct-setups [] = (λ h. h, λ h. h)
  IsDistinct-setups (j ∷ joints) =
      let (to, from) = IsDistinct-setups joints in
      let (apart, apart') = names-apart j.name joints in
      (λ (one, rest). (apart one, to rest), λ (one, rest). (apart' one, from rest))

  initialize-active :
      (now : ℕ) (c : DriverConfiguration W) (v : Driver W)
      → (initialize now c v).0.active ≡ v.active
  unfolding initialize reset_metrics
  initialize-active now c v = ground arith

  pub on_init-initialize :
      (stod : Text → Option (W × ℕ)) (base : Bool) (now : ℕ) (info : HardwareInfo) (s : System W)
      → (on_init stod base now info s).1 ≡ success
      → IsReady (on_init stod base now info s).0.driver
        × IsSized (on_init stod base now info s).0.driver
        × ((on_init stod base now info s).0.driver.active ≡ s.driver.active)
  unfolding on_init
  on_init-initialize stod base now info s succeeded =
      elim (Option-cases (parse_driver_configuration stod info)) [
        | inl failed ↦ absurd (ground (arith, failed, succeeded))
        | inr (c, parsed) ↦
            let accepted = initialize-parse_driver_configuration stod now info c s.driver parsed in
            let (_, _, _, ready) = initialize_accepts now c s.driver accepted in
            let sized = initialize-IsSized now c s.driver accepted in
            let framework : base ≡ true = ground (arith, succeeded) in
            rw (framework, parsed) (ready, sized, initialize-active now c s.driver)
      ]

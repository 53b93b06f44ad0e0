-- ===== src/System/Lifecycle.antt =====
-- robstride_ros2_control/src/robstride_system.cpp: the callbacks of the life cycle, and the exports.
-- The framework makes the interfaces of an export; an export that throws has the result `false`.
-- What the driver's calls depend on is an argument, as in Driver.
use robstride_ros.Prelude.{ℕ, Bool, true, false, not, Option, none, some, if◌then◌else◌, Text}
use robstride_ros.Double.{Double}
use robstride_ros.Transport.State.{Transport}
use robstride_ros.Transport.Publish.{Endpoint}
use robstride_ros.Driver.Initialize.{initialize}
use robstride_ros.Driver.Start.{Waits, start, stop}
use robstride_ros.Driver.Connection.{open_driver, close}
use robstride_ros.Config.Parameters.{HardwareInfo}
use robstride_ros.Config.Hardware.{parse_driver_configuration}
use robstride_ros.System.Bindings.{state_value, command_value, publish}
use robstride_ros.System.State.{System, state_bindings, command_bindings}

pub data CallbackReturn : Type 0 where
  success error : CallbackReturn

abbrev pub callback_return : Bool → CallbackReturn
callback_return true = success
callback_return false = error

-- `hardware_interface::HardwareComponentInterfaceParams`, as far as the program reads it.
pub record HardwareComponentInterfaceParams : Type 0 where
  pub hardware_info : HardwareInfo

module _ {W : Type 0} ⦃d : Double W⦄ where
  -- `base` says whether `SystemInterface::on_init` succeeds.
  unfoldable pub on_init :
      (Text → Option (W × ℕ)) → Bool → ℕ → HardwareInfo → System W → System W × CallbackReturn
  on_init stod base now info s =
      if not base then (s, error) else elim (parse_driver_configuration stod info) [
        | none ↦ (s, error)
        | some configuration ↦
            let (v, initialized) = initialize now configuration s.driver in
            (record s { driver = v }, callback_return initialized)
      ]

  -- The overload of a framework that hands over parameters.
  unfoldable pub on_init_params :
      (Text → Option (W × ℕ))
      → Bool
      → ℕ
      → HardwareComponentInterfaceParams
      → System W
      → System W × CallbackReturn
  on_init_params stod base now params s =
      if not base then (s, error) else elim (parse_driver_configuration stod params.hardware_info) [
        | none ↦ (s, error)
        | some configuration ↦
            let (v, initialized) = initialize now configuration s.driver in
            (record s { driver = v }, callback_return initialized)
      ]

  unfoldable pub publish_states : (ℕ → Bool) → System W → System W × Bool
  publish_states free s =
      let (values, published) =
        publish (state_value s.driver.joints) free 0 s.states s.state_values in
      (record s { state_values = values }, published)

  unfoldable pub publish_commands : (ℕ → Bool) → System W → System W × Bool
  publish_commands free s =
      let (values, published) =
        publish (command_value s.driver.joints) free 0 s.commands s.command_values in
      (record s { command_values = values }, published)

  unfoldable pub on_export_state_interfaces : (ℕ → Bool) → System W → System W × Bool
  on_export_state_interfaces free s =
      publish_states free (record s { states = state_bindings 0 s.driver.joints })

  unfoldable pub on_export_command_interfaces : (ℕ → Bool) → System W → System W × Bool
  on_export_command_interfaces free s =
      publish_commands free (record s { commands = command_bindings 0 s.driver.joints })

  unfoldable pub on_configure :
      Endpoint → ℕ → ℕ → Bool → (Transport → Transport) → System W → System W × CallbackReturn
  on_configure e now started_at created joined s =
      let (v, opened) = open_driver e now started_at created joined s.driver in
      (record s { driver = v }, callback_return opened)

  unfoldable pub on_cleanup : System W → System W × CallbackReturn
  on_cleanup s = (record s { driver = close s.driver }, success)

  abbrev stopped : (Transport → Transport) → System W → System W
  stopped meanwhile s = record s { driver = stop meanwhile s.driver }

  -- `meanwhile` is for the stop after a failure.
  unfoldable pub on_activate :
      Waits
      → ℕ
      → (ℕ → Bool)
      → (ℕ → Bool)
      → (Transport → Transport)
      → System W
      → System W × CallbackReturn
  on_activate w now states_free commands_free meanwhile s =
      let (v, started) = start w now s.driver in
      let (published, states_ok) = publish_states states_free (record s { driver = v }) in
      let (synced, commands_ok) = publish_commands commands_free published in
      if not started
      then (record s { driver = v }, error)
      else if not states_ok
      then (stopped meanwhile published, error)
      else if not commands_ok
      then (stopped meanwhile synced, error)
      else (record synced { command_sync_failed = false }, success)

  unfoldable pub on_deactivate : (Transport → Transport) → System W → System W × CallbackReturn
  on_deactivate meanwhile s = (stopped meanwhile s, success)

  unfoldable pub on_shutdown : (Transport → Transport) → System W → System W × CallbackReturn
  on_shutdown meanwhile s = (record s { driver = close (stop meanwhile s.driver) }, success)

  unfoldable pub on_error : (Transport → Transport) → System W → System W × CallbackReturn
  on_error meanwhile s = (record s { driver = close (stop meanwhile s.driver) }, success)

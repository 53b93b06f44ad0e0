-- ===== src/Config/Parameters.antt =====
-- robstride_ros2_control/src/driver_config.cpp: the hardware description, and the look-up of
-- parameters.
use robstride_ros.Prelude.{
  ℕ, Option, none, some, List, [], ◌∷◌, if◌then◌else◌, Text, text_eq, has_value, ◌>>=◌,
}
use robstride_ros.Double.{Double}
use robstride_ros.Config.Numbers.{parse_number}

abbrev pub Parameters : Type 0
Parameters = List (Text × Text)

-- `hardware_interface::InterfaceInfo`, `ComponentInfo` and `HardwareInfo`, as far as they are read.
pub record InterfaceInfo : Type 0 where
  pub name : Text
  pub data_type : Text

pub record ComponentInfo : Type 0 where
  pub name : Text
  pub parameters : Parameters
  pub command_interfaces : List InterfaceInfo
  pub state_interfaces : List InterfaceInfo

pub record HardwareInfo : Type 0 where
  pub name : Text
  pub hardware_parameters : Parameters
  pub joints : List ComponentInfo

unfoldable pub required_value : Parameters → Text → Option Text
required_value [] key = none
required_value ((k, v) ∷ parameters) key =
    let rest = required_value parameters key in if text_eq k key then some v else rest

abbrev pub value_or : Option Text → Text → Text
value_or none other = other
value_or (some v) other = v

unfoldable pub hardware_parameter_or : HardwareInfo → Text → Text → Text
unfolding required_value
hardware_parameter_or info key default_value =
    value_or (required_value info.hardware_parameters key) default_value

module _ {W : Type 0} ⦃d : Double W⦄ (stod : Text → Option (W × ℕ)) where
  unfoldable pub required_number : Parameters → Text → Option W
  unfolding required_value parse_number
  required_number parameters key = do text ← required_value parameters key; parse_number stod text

  unfoldable pub number_or_parameter : Parameters → Text → Text → Option W
  unfolding required_number
  number_or_parameter parameters preferred_key default_key =
      if has_value (required_value parameters preferred_key)
      then required_number parameters preferred_key
      else required_number parameters default_key

  abbrev number_of : Option Text → W → Option W
  number_of none default_value = some default_value
  number_of (some text) default_value = parse_number stod text

  unfoldable pub number_or_value : Parameters → Text → W → Option W
  unfolding required_value parse_number
  number_or_value parameters key default_value =
      number_of (required_value parameters key) default_value

-- ===== src/Config/Interfaces.antt =====
-- robstride_ros2_control/src/driver_config.cpp: which interfaces a joint may have. A `std::set` is
-- a list without repetitions, two of which are equal if each has the elements of the other.
use robstride_ros.Prelude.{
  Bool, not, ◌&&◌, ◌||◌, Option, none, some, List, [], ◌∷◌, if◌then◌else◌, ◌==◌, length, any, all,
  is_empty, Text, bytes, text_eq, ◌>>=◌, ◌>>◌, require,
}
use robstride_ros.Config.Parameters.{InterfaceInfo}

-- `HW_IF_POSITION`, `HW_IF_VELOCITY`, `HW_IF_EFFORT` of hardware_interface.
abbrev pub hw_if_position : Text
hw_if_position = bytes "position"

abbrev pub hw_if_velocity : Text
hw_if_velocity = bytes "velocity"

abbrev pub hw_if_effort : Text
hw_if_effort = bytes "effort"

abbrev pub expected_interfaces : List Text
expected_interfaces = hw_if_position ∷ hw_if_velocity ∷ hw_if_effort ∷ []

abbrev pub allowed_states : List Text
allowed_states =
    hw_if_position ∷ hw_if_velocity ∷ hw_if_effort ∷ bytes "temperature" ∷ bytes "fault" ∷ []

unfoldable pub has : List Text → Text → Bool
has names name = any (λ other. text_eq other name) names

-- `std::includes(outer, inner)`.
abbrev pub includes : List Text → List Text → Bool
includes outer inner = all (has outer) inner

abbrev pub insert : Text → List Text → List Text
insert name names = if has names name then names else name ∷ names

-- The loops over the interfaces: the set of the names, unless a type is neither empty nor "double".
unfoldable pub names_of : List InterfaceInfo → List Text → Option (List Text)
unfolding has
names_of [] actual = some actual
names_of (i ∷ interfaces) actual =
    let rest = names_of interfaces (insert i.name actual) in
    if not (is_empty i.data_type) && not (text_eq i.data_type (bytes "double")) then none else rest

unfoldable pub commands_are_valid : List InterfaceInfo → Option (Unit {0})
unfolding names_of
commands_are_valid interfaces = do
  actual ← names_of interfaces []
  require (
      not (
        not (includes actual expected_interfaces && includes expected_interfaces actual)
        || not (length interfaces == 3)))

unfoldable pub states_of : List InterfaceInfo → Option (List Text)
unfolding names_of
states_of interfaces = do
  actual ← names_of interfaces []
  require (
      not (
        not (includes actual expected_interfaces)
        || not (includes allowed_states actual)
        || not (length actual == length interfaces)))
  some actual

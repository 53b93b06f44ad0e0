-- ===== src/CommandMode.antt =====
-- robstride_ros2_control/src/command_mode.cpp: which joint interfaces are active after the switch that
-- the controller manager asks for. A key is a joint's name, a slash and the name of an interface.
pub mod Keys
pub mod Switch
pub mod Exclusive
pub mod Tests
use robstride_ros.Prelude.{
  ℕ, zero, suc, ◌+◌, Bool, true, false, not, Option, none, some, List, [], ◌∷◌, ◌++◌, if◌then◌else◌,
  Text, bytes, text_eq, ltb, ◌==◌, any, all,
}

pub record CommandModeState : Type 0 where
  pub joint_name : Text
  pub position_active : Bool
  pub velocity_active : Bool
  pub effort_active : Bool

abbrev pub slash : ℕ
slash = b'/'

abbrev pub position_key : Text → Text
position_key joint_name = joint_name ++ bytes "/position"

abbrev pub velocity_key : Text → Text
velocity_key joint_name = joint_name ++ bytes "/velocity"

abbrev pub effort_key : Text → Text
effort_key joint_name = joint_name ++ bytes "/effort"

-- `key.substr(0, key.rfind('/'))`, which is the whole key if it has no slash: `none` if there is none.
pub before_last : Text → Option Text
before_last [] = none
before_last (c ∷ key) =
    let rest = before_last key in
    elim rest [ some name ↦ some (c ∷ name) | none ↦ if c == slash then some [] else none ]

pub joint_part : Text → Text
unfolding before_last
joint_part key = elim (before_last key) [ some name ↦ name | none ↦ key ]

-- The first loop of `set_owned_interface`: the first state whose joint has this key is changed;
-- `none` if there is none.
pub set_first : List CommandModeState → Text → Bool → Option (List CommandModeState)
set_first [] key active = none
set_first (s ∷ states) key active =
    let rest = set_first states key active in
    if text_eq key (position_key s.joint_name)
    then some (record s { position_active = active } ∷ states)
    else if text_eq key (velocity_key s.joint_name)
    then some (record s { velocity_active = active } ∷ states)
    else if text_eq key (effort_key s.joint_name)
    then some (record s { effort_active = active } ∷ states)
    else elim rest [ none ↦ none | some changed ↦ some (s ∷ changed) ]

-- The second loop: an unsupported interface of a joint of these states.
abbrev pub owns : List CommandModeState → Text → Bool
owns states name = any (λ s. text_eq name s.joint_name) states

-- The changed states, and `false` for a key that must reject the switch.
unfoldable pub set_owned_interface :
    List CommandModeState → Text → Bool → List CommandModeState × Bool
unfolding set_first joint_part
set_owned_interface states key active = elim (set_first states key active) [
  | some changed ↦ (changed, true)
  | none ↦ (states, not (owns states (joint_part key)))
]

-- A loop of `validate_command_mode_switch` over the keys of one kind, which stops at a rejection.
pub set_all_or_stop : List CommandModeState → List Text → Bool → List CommandModeState × Bool
unfolding set_owned_interface
set_all_or_stop states [] active = (states, true)
set_all_or_stop states (key ∷ keys) active =
    let (changed, accepted) = set_owned_interface states key active in
    let rest = set_all_or_stop changed keys active in if accepted then rest else (changed, false)

abbrev one_if : Bool → ℕ
one_if true = 1
one_if false = 0

abbrev pub active_count : CommandModeState → ℕ
active_count s = one_if s.position_active + one_if s.velocity_active + one_if s.effort_active

unfoldable pub validate_command_mode_switch : List CommandModeState → List Text → List Text → Bool
unfolding set_all_or_stop
validate_command_mode_switch current_states start_interfaces stop_interfaces =
    let (stopped, stop_ok) = set_all_or_stop current_states stop_interfaces false in
    if stop_ok
    then (let (resulting, start_ok) = set_all_or_stop stopped start_interfaces true in
        if start_ok then all (λ s. not (ltb 1 (active_count s))) resulting else false)
    else false

-- A loop of `command_modes_after_switch`, which ignores rejections.
pub set_all : List CommandModeState → List Text → Bool → List CommandModeState
unfolding set_owned_interface
set_all states [] active = states
set_all states (key ∷ keys) active = set_all (set_owned_interface states key active).0 keys active

unfoldable pub command_modes_after_switch :
    List CommandModeState → List Text → List Text → List CommandModeState
unfolding set_all
command_modes_after_switch current_states start_interfaces stop_interfaces =
    set_all (set_all current_states stop_interfaces false) start_interfaces true

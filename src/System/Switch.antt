-- ===== src/System/Switch.antt =====
-- robstride_ros2_control/src/robstride_system.cpp: the two steps of a switch of command modes, at
-- the time `now`.
use robstride_ros.Prelude.{ℕ, Bool, true, not, ◌&&◌, List, [], ◌∷◌, ◌++◌, if◌then◌else◌, Text, map}
use robstride_ros.Double.{Double}
use robstride_ros.Joint.{ClaimedInterfaces}
use robstride_ros.CommandMode.{
  CommandModeState, position_key, velocity_key, effort_key, validate_command_mode_switch,
  command_modes_after_switch,
}
use robstride_ros.Driver.Modes.{validate_command_modes, apply_command_modes}
use robstride_ros.System.Bindings.{command_value, publish_selected}
use robstride_ros.System.State.{System, current_command_modes}
use robstride_ros.System.Cycle.{ReturnType, ok, error}

-- The loops that fill `modes`.
abbrev pub claimed_by : List CommandModeState → List ClaimedInterfaces
claimed_by = map λ state. record {
  position = state.position_active;
  velocity = state.velocity_active;
  effort = state.effort_active;
}

abbrev pub started : Bool → Bool → Text → List Text
started previous current key = if not previous && current then key ∷ [] else []

-- The loop that fills `initialized_commands`.
unfoldable pub initialized_commands : List CommandModeState → List CommandModeState → List Text
initialized_commands (p ∷ previous) (c ∷ current) =
    started p.position_active c.position_active (position_key c.joint_name)
    ++ started p.velocity_active c.velocity_active (velocity_key c.joint_name)
    ++ started p.effort_active c.effort_active (effort_key c.joint_name)
    ++ initialized_commands previous current
initialized_commands _ _ = []

module _ {W : Type 0} ⦃d : Double W⦄ where
  unfoldable pub prepare_command_mode_switch : ℕ → List Text → List Text → System W → ReturnType
  prepare_command_mode_switch now start stop s =
      let states = current_command_modes s.driver in
      let modes = claimed_by (command_modes_after_switch states start stop) in
      if not (validate_command_mode_switch states start stop)
      then error
      else if not (validate_command_modes now modes s.driver)
      then error
      else ok

  unfoldable pub perform_command_mode_switch :
      ℕ → (ℕ → Bool) → List Text → List Text → System W → System W × ReturnType
  perform_command_mode_switch now free start stop s =
      let previous = current_command_modes s.driver in
      let resulting = command_modes_after_switch previous start stop in
      let (v, applied) = apply_command_modes now (claimed_by resulting) s.driver in
      let (values, synced) =
        publish_selected (command_value v.joints) free (initialized_commands previous resulting) 0
          s.commands s.command_values in
      if s.command_sync_failed
      then (s, error)
      else if not applied
      then (record s { driver = v }, error)
      else if not synced
      then (record s { driver = v; command_values = values; command_sync_failed = true }, error)
      else (record s { driver = v; command_values = values }, ok)

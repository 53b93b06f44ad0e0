-- ===== src/System/Direct.antt =====
-- robstride_ros2_control/src/robstride_system.cpp as it is built for a framework without managed
-- interfaces: the framework is given pointers into the storage of the driver, and reads and writes
-- the values there itself, so the plugin has no state but the driver.
pub mod Agrees
use robstride_ros.Prelude.{ℕ, ◌+◌, Bool, true, not, List, [], ◌∷◌, ◌++◌, if◌then◌else◌, Text, bytes}
use robstride_ros.Double.{Double}
use robstride_ros.Joint.{JointData}
use robstride_ros.CommandMode.{command_modes_after_switch, slash}
use robstride_ros.Driver.State.{Driver}
use robstride_ros.Driver.Update.{update_state}
use robstride_ros.Driver.Commands.{send_commands}
use robstride_ros.Driver.Modes.{apply_command_modes}
use robstride_ros.Driver.Start.{Waits, start}
use robstride_ros.System.Bindings.{StateMember, CommandMember}
use robstride_ros.System.State.{current_command_modes}
use robstride_ros.System.Lifecycle.{CallbackReturn, callback_return}
use robstride_ros.System.Cycle.{ReturnType, return_type}
use robstride_ros.System.Switch.{claimed_by}

-- An interface as it is constructed; the pointer is to a member of the joint at an index.
pub record Pointer (M : Type 0) : Type 0 where
  pub joint_name : Text
  pub interface_name : Text
  pub joint : ℕ
  pub member : M

-- The name under which the framework has the interface.
abbrev pub full_name : {M : Type 0} → Pointer M → Text
full_name p = p.joint_name ++ slash ∷ p.interface_name

-- An argument of `emplace_back`.
abbrev pub point : {M : Type 0} → Text → Text → ℕ → M → Pointer M
point joint_name interface_name index member = record {
  joint_name = joint_name;
  interface_name = interface_name;
  joint = index;
  member = member;
}

module _ {W : Type 0} where
  -- The loops of the two exports, for the joints from `index` on.
  unfoldable pub export_state_interfaces : ℕ → List (JointData W) → List (Pointer StateMember)
  export_state_interfaces index [] = []
  export_state_interfaces index (j ∷ joints) =
      point j.name (bytes "position") index StateMember.position
      ∷ point j.name (bytes "velocity") index StateMember.velocity
      ∷ point j.name (bytes "effort") index StateMember.effort
      ∷ ((if j.exports_temperature
            then point j.name (bytes "temperature") index StateMember.temperature ∷ []
            else [])
          ++ (if j.exports_fault
              then point j.name (bytes "fault") index StateMember.fault ∷ []
              else [])
          ++ export_state_interfaces (index + 1) joints)

  unfoldable pub export_command_interfaces : ℕ → List (JointData W) → List (Pointer CommandMember)
  export_command_interfaces index [] = []
  export_command_interfaces index (j ∷ joints) =
      point j.name (bytes "position") index CommandMember.position
      ∷ point j.name (bytes "velocity") index CommandMember.velocity
      ∷ point j.name (bytes "effort") index CommandMember.effort
      ∷ export_command_interfaces (index + 1) joints

module _ {W : Type 0} ⦃d : Double W⦄ where
  unfoldable pub on_activate : Waits → ℕ → Driver W → Driver W × CallbackReturn
  on_activate w now v = let (u, started) = start w now v in (u, callback_return started)

  unfoldable pub read : ℕ → Driver W → Driver W × ReturnType
  read now v = let (u, _, updated) = update_state now v in (u, return_type updated)

  unfoldable pub write : ℕ → Driver W → Driver W × ReturnType
  write now v = let (u, sent) = send_commands now v in (u, return_type sent)

  unfoldable pub perform_command_mode_switch :
      ℕ → List Text → List Text → Driver W → Driver W × ReturnType
  perform_command_mode_switch now start stop v =
      let resulting = command_modes_after_switch (current_command_modes v) start stop in
      let (u, applied) = apply_command_modes now (claimed_by resulting) v in
      (u, return_type applied)

-- ===== src/System/State.antt =====
-- robstride_ros2_control/src/robstride_system.cpp: `Impl` beside the values of the framework's
-- interfaces, the bindings of the exports, and `current_command_modes`.
use robstride_ros.Prelude.{ℕ, ◌+◌, Bool, List, [], ◌∷◌, ◌++◌, if◌then◌else◌, Text, bytes, map}
use robstride_ros.Double.{Double, nought}
use robstride_ros.Joint.{JointData}
use robstride_ros.CommandMode.{CommandModeState, position_key, velocity_key, effort_key}
use robstride_ros.Driver.State.{Driver}
use robstride_ros.System.Bindings.{StateMember, CommandMember, Binding}

pub record System (W : Type 0) : Type 0 where
  pub driver : Driver W
  pub states : List (Binding StateMember W)
  pub commands : List (Binding CommandMember W)
  pub command_sync_failed : Bool
  pub state_values : Text → W
  pub command_values : Text → W

abbrev pub current_command_modes : {W : Type 0} → Driver W → List CommandModeState
current_command_modes v =
    map
      (λ j. record {
        joint_name = j.name;
        position_active = j.claimed.position;
        velocity_active = j.claimed.velocity;
        effort_active = j.claimed.effort;
      })
      v.joints

module _ {W : Type 0} ⦃d : Double W⦄ where
  -- `add`.
  abbrev pub bind : {M : Type 0} → Text → ℕ → M → Binding M W
  bind handle index member = record {
    handle = handle;
    joint = index;
    member = member;
    sample = nought;
  }

  -- The loops of the two exports, for the joints from `index` on.
  unfoldable pub state_bindings : ℕ → List (JointData W) → List (Binding StateMember W)
  state_bindings index [] = []
  state_bindings index (j ∷ joints) =
      bind (j.name ++ bytes "/position") index StateMember.position
      ∷ bind (j.name ++ bytes "/velocity") index StateMember.velocity
      ∷ bind (j.name ++ bytes "/effort") index StateMember.effort
      ∷ ((if j.exports_temperature
            then bind (j.name ++ bytes "/temperature") index StateMember.temperature ∷ []
            else [])
          ++ (if j.exports_fault
              then bind (j.name ++ bytes "/fault") index StateMember.fault ∷ []
              else [])
          ++ state_bindings (index + 1) joints)

  unfoldable pub command_bindings : ℕ → List (JointData W) → List (Binding CommandMember W)
  command_bindings index [] = []
  command_bindings index (j ∷ joints) =
      bind (position_key j.name) index CommandMember.position
      ∷ bind (velocity_key j.name) index CommandMember.velocity
      ∷ bind (effort_key j.name) index CommandMember.effort
      ∷ command_bindings (index + 1) joints

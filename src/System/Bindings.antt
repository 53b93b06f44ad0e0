-- ===== src/System/Bindings.antt =====
-- robstride_ros2_control/internal/robstride_ros2_control/interface_value_bindings.hpp. The values
-- of the framework's interfaces are a function of their names. `free` says which of the accesses of
-- a call, which do not block, get the lock of their interface: the others fail.
use robstride_ros.Prelude.{
  ℕ, ◌+◌, Bool, true, false, none, some, List, [], ◌∷◌, if◌then◌else◌, Text, text_eq, any,
  get_elem?,
}
use robstride_ros.Double.{Double}
use robstride_ros.Joint.{JointData, StateValues, CommandValues}
use robstride_ros.Driver.State.{modify}

pub data StateMember : Type 0 where
  position velocity effort temperature fault : StateMember

pub data CommandMember : Type 0 where
  position velocity effort : CommandMember

-- A binding: the interface, by its name; the storage, which is a member of the joint at an index; and
-- the last value that was read.
pub record Binding (M : Type 0) (W : Type 0) : Type 0 where
  pub handle : Text
  pub joint : ℕ
  pub member : M
  pub sample : W

abbrev pub state_member : {W : Type 0} → StateMember → StateValues W → W
state_member StateMember.position values = values.position
state_member StateMember.velocity values = values.velocity
state_member StateMember.effort values = values.effort
state_member StateMember.temperature values = values.temperature
state_member StateMember.fault values = values.fault

abbrev pub command_member : {W : Type 0} → CommandMember → CommandValues W → W
command_member CommandMember.position values = values.position
command_member CommandMember.velocity values = values.velocity
command_member CommandMember.effort values = values.effort

abbrev pub set_command : {W : Type 0} → CommandMember → W → JointData W → JointData W
set_command CommandMember.position x j = record j { command = record j.command { position = x } }
set_command CommandMember.velocity x j = record j { command = record j.command { velocity = x } }
set_command CommandMember.effort x j = record j { command = record j.command { effort = x } }

module _ {W : Type 0} ⦃d : Double W⦄ where
  -- `*binding.value`; every binding is to a joint that is there.
  abbrev pub state_value : List (JointData W) → Binding StateMember W → W
  state_value joints b = elim (get_elem? joints b.joint) [
    | some j ↦ state_member b.member j.state
    | none ↦ d.nan
  ]

  abbrev pub command_value : List (JointData W) → Binding CommandMember W → W
  command_value joints b = elim (get_elem? joints b.joint) [
    | some j ↦ command_member b.member j.command
    | none ↦ d.nan
  ]

module _ {W : Type 0} where
  -- `set_value` on the interface of this name.
  abbrev pub set_value : Text → W → (Text → W) → Text → W
  set_value handle x values name = if text_eq name handle then x else values name

  -- The loop of `publish`, from the access `index` on; `value` reads the storage.
  unfoldable pub publish :
      {M : Type 0}
      → (Binding M W → W)
      → (ℕ → Bool)
      → ℕ
      → List (Binding M W)
      → (Text → W)
      → (Text → W) × Bool
  publish value free index [] values = (values, true)
  publish value free index (b ∷ bindings) values =
      let rest = publish value free (index + 1) bindings (set_value b.handle (value b) values) in
      if free index then rest else (values, false)

  unfoldable pub publish_selected :
      {M : Type 0}
      → (Binding M W → W)
      → (ℕ → Bool)
      → List Text
      → ℕ
      → List (Binding M W)
      → (Text → W)
      → (Text → W) × Bool
  publish_selected value free names index [] values = (values, true)
  publish_selected value free names index (b ∷ bindings) values =
      let later =
        publish_selected value free names (index + 1) bindings
          (set_value b.handle (value b) values) in
      let others = publish_selected value free names index bindings values in
      if any (λ name. text_eq name b.handle) names
      then (if free index then later else (values, false))
      else others

  -- The first loop of `consume`.
  unfoldable pub sample_all :
      {M : Type 0} → (ℕ → Bool) → ℕ → (Text → W) → List (Binding M W) → List (Binding M W) × Bool
  sample_all free index values [] = ([], true)
  sample_all free index values (b ∷ bindings) =
      let (rest, read) = sample_all free (index + 1) values bindings in
      if free index
      then (record b { sample = values b.handle } ∷ rest, read)
      else (b ∷ bindings, false)

  -- The second loop.
  unfoldable pub assign_all :
      List (Binding CommandMember W) → List (JointData W) → List (JointData W)
  assign_all [] joints = joints
  assign_all (b ∷ bindings) joints =
      assign_all bindings (modify joints b.joint (set_command b.member b.sample))

  -- The bindings and the joints after it, and the result.
  unfoldable pub consume :
      (ℕ → Bool)
      → (Text → W)
      → List (Binding CommandMember W)
      → List (JointData W)
      → List (Binding CommandMember W) × List (JointData W) × Bool
  consume free values bindings joints =
      let (sampled, read) = sample_all free 0 values bindings in
      if read then (sampled, assign_all sampled joints, true) else (sampled, joints, false)

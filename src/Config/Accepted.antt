-- ===== src/Config/Accepted.antt =====
-- What a configuration that has been parsed satisfies, and that `initialize` takes it.
use robstride_ros.Prelude.{
  ℕ, ◌-◌, ◌^◌, ◌≤◌, ◌<◌, true, false, none, some, List, [], ◌∷◌, ◌++◌, ◌≡◌, ◌≢◌, refl, arith, inl,
  inr, ◌==◌, any, is_empty, length, Text, bytes, Option, Bool, Option-cases, u8_mod,
}
use robstride_ros.Double.{Double}
use robstride_ros.Joint.{JointData, invalid_neutral_range}
use robstride_ros.Driver.State.{DriverSettings, DriverConfiguration, Driver}
use robstride_ros.Driver.Initialize.{joint_is_valid, joints_are_valid, initialize}
use robstride_ros.Config.Numbers.{is_blank, parse_integer}
use robstride_ros.Config.Parameters.{hardware_parameter_or, Parameters, ComponentInfo, HardwareInfo}
use robstride_ros.Config.Ranges.{parse_motor, parse_commands, commands_are_ordered}
use robstride_ros.Config.Joints.{parse_joint, parse_joints}
use robstride_ros.Config.Hardware.{integer, parse_settings, parse_driver_configuration}

-- An accepted number is within its bounds.
parse_integer-bounds :
    (text : Text) (lo hi base n : ℕ) → parse_integer text lo hi base ≡ some n → (lo ≤ n) × (n ≤ hi)
unfolding parse_integer
parse_integer-bounds text lo hi base n h = ground arith

module _ {W : Type 0} ⦃d : Double W⦄ (stod : Text → Option (W × ℕ)) where
  parse_motor-ids :
      (info : ComponentInfo) (j : JointData W)
      → parse_motor stod info ≡ some j
      → (j.can_id ≢ 0) × (j.can_id ≤ 255) × (j.can_timeout_ticks ≢ 0)
  unfolding parse_motor
  parse_motor-ids info j h = grind (arith, parse_integer-bounds)

  parse_commands-checked :
      (p : Parameters) (m j : JointData W)
      → parse_commands stod p m ≡ some j
      → (j.can_id ≡ m.can_id)
        × (j.can_timeout_ticks ≡ m.can_timeout_ticks)
        × (invalid_neutral_range j ≡ none)
        × (commands_are_ordered j.command_limits ≡ true)
  unfolding parse_commands
  parse_commands-checked p m j h = ground arith

  -- The fields that the two flags leave alone.
  neutral_flags :
      (j : JointData W) (t f : Bool)
      → invalid_neutral_range (record j { exports_temperature = t; exports_fault = f })
        ≡ invalid_neutral_range j
  unfolding invalid_neutral_range
  neutral_flags j t f = refl

  -- The driver's test of a joint succeeds on what the parser has made.
  joint_is_valid_of_checks :
      (seen : List ℕ) (j : JointData W)
      → invalid_neutral_range j ≡ none
      → j.can_id ≢ 0
      → j.can_timeout_ticks ≢ 0
      → any (λ id. id == j.can_id) seen ≡ false
      → commands_are_ordered j.command_limits ≡ true
      → joint_is_valid seen j ≡ true
  unfolding joint_is_valid commands_are_ordered
  joint_is_valid_of_checks seen j neutral id ticks new ordered = ground arith

  parse_joint-valid :
      (info : ComponentInfo) (seen : List ℕ) (j : JointData W)
      → parse_joint stod info ≡ some j
      → any (λ id. id == j.can_id) seen ≡ false
      → joint_is_valid seen j ≡ true
  unfolding parse_joint
  parse_joint-valid info seen j h new =
      grind
        (arith, parse_motor-ids, parse_commands-checked, neutral_flags, joint_is_valid_of_checks)

  parse_joints-valid :
      (seen : List ℕ) (infos : List ComponentInfo) (joints : List (JointData W))
      → parse_joints stod seen infos ≡ some joints
      → (joints_are_valid seen joints ≡ true) × (length joints ≡ length infos)
  unfolding parse_joints joints_are_valid
  parse_joints-valid seen [] joints h = ground arith
  parse_joints-valid seen (info ∷ infos) [] h = ground arith
  parse_joints-valid seen (info ∷ infos) (j ∷ joints) h =
      let parsed : (parse_joint stod info ≡ some j)
          × (any (λ id. id == j.can_id) seen ≡ false)
          × (parse_joints stod (j.can_id ∷ seen) infos ≡ some joints) =
        grind arith in
      let one = parse_joint-valid info seen j parsed.0 parsed.1 in
      let rest = parse_joints-valid (j.can_id ∷ seen) infos joints parsed.2 in
      ground (arith, one, rest)

is_empty-append : (name : Text) → is_empty (name ++ bytes "_can_transport") ≡ false
is_empty-append [] = refl
is_empty-append (c ∷ name) = refl

-- A number of the type `int` that is `lo` at least.
abbrev IsInt : ℕ → ℕ → Type 0
IsInt lo n = (lo ≤ n) × (n ≤ 2 ^ 31 - 1)

-- What is checked of the settings: the names and ids, the times while the driver runs, and the times
-- and counts of the start and the stop.
abbrev pub IsNamed : DriverSettings → Type 0
IsNamed s =
    (is_empty s.node_name ≡ false)
    × (s.host_id < u8_mod)
    × (is_blank s.transmit_topic ≡ false)
    × (is_blank s.receive_topic ≡ false)
    × (1 ≤ s.receive_qos_depth)
    × (s.receive_qos_depth ≤ 4096)

abbrev pub IsTimed : DriverSettings → Type 0
IsTimed s =
    IsInt 1 s.feedback_timeout
    × IsInt 1 s.transmit_failure_timeout
    × IsInt 1 s.recovery_timeout
    × IsInt 1 s.recovery_retry_interval
    × (s.recovery_retry_interval ≤ s.recovery_timeout)

abbrev pub IsStartable : DriverSettings → Type 0
IsStartable s =
    IsInt 1 s.stop_repetitions
    × IsInt 0 s.stop_interval
    × IsInt 0 s.stop_confirmation_timeout
    × IsInt 1 s.connection_timeout
    × IsInt 1 s.startup_confirmation_timeout
    × IsInt 1 s.startup_retries

integer-bounds :
    (info : HardwareInfo) (key fallback : Text) (lo n : ℕ)
    → integer info key fallback lo ≡ some n
    → IsInt lo n
unfolding integer
integer-bounds info key fallback lo n h =
    parse_integer-bounds (hardware_parameter_or info key fallback) lo (2 ^ 31 - 1) 10 n h

parse_settings-IsNamed :
    (info : HardwareInfo) (s : DriverSettings) → parse_settings info ≡ some s → IsNamed s
unfolding parse_settings
parse_settings-IsNamed info s h = grind (arith, parse_integer-bounds, is_empty-append info.name)

parse_settings-IsTimed :
    (info : HardwareInfo) (s : DriverSettings) → parse_settings info ≡ some s → IsTimed s
unfolding parse_settings
parse_settings-IsTimed info s h = grind (arith, integer-bounds)

parse_settings-IsStartable :
    (info : HardwareInfo) (s : DriverSettings) → parse_settings info ≡ some s → IsStartable s
unfolding parse_settings
parse_settings-IsStartable info s h = grind (arith, integer-bounds)

module _ {W : Type 0} ⦃d : Double W⦄ (stod : Text → Option (W × ℕ)) where
  parse_driver_configuration-parts :
      (info : HardwareInfo) (c : DriverConfiguration W)
      → parse_driver_configuration stod info ≡ some c
      → (s : DriverSettings) × (parse_settings info ≡ some s)
        × (is_empty info.joints ≡ false)
        × (parse_joints stod [] info.joints ≡ some c.joints)
        × (c.settings ≡ record s { motor_count = length c.joints })
  unfolding parse_driver_configuration
  parse_driver_configuration-parts info c h = elim (Option-cases (parse_settings info)) [
    | inl failed ↦ ground (arith, failed)
    | inr (s, settings) ↦
        let parts : (is_empty info.joints ≡ false)
            × (parse_joints stod [] info.joints ≡ some c.joints)
            × (c.settings ≡ record s { motor_count = length c.joints }) =
          ground (arith, settings) in
        (s, settings, parts.0, parts.1, parts.2)
  ]

  -- The settings of a hardware description that is parsed are checked: there is a node name, the
  -- host id is a byte, neither topic is blank, the depth of the queue is from 1 to 4096, every time
  -- and count fits an `int` and is not below its minimum, and the interval of the recovery retries is
  -- not above the recovery timeout; the number of motors is that of the joints of the description.
  pub parse_driver_configuration-bounds :
      (info : HardwareInfo) (c : DriverConfiguration W)
      → parse_driver_configuration stod info ≡ some c
      → IsNamed c.settings
        × IsTimed c.settings
        × IsStartable c.settings
        × (length c.joints ≡ length info.joints)
        × (c.settings.motor_count ≡ length info.joints)
  parse_driver_configuration-bounds info c h =
      let (s, settings, _, joints, e) = parse_driver_configuration-parts info c h in
      let named = parse_settings-IsNamed info s settings in
      let timed = parse_settings-IsTimed info s settings in
      let startable = parse_settings-IsStartable info s settings in
      let (_, same) = parse_joints-valid stod [] info.joints c.joints joints in
      rw e (named, timed, startable, same, same)

  -- A driver accepts every configuration that is parsed from a hardware description.
  pub initialize-parse_driver_configuration :
      (now : ℕ) (info : HardwareInfo) (c : DriverConfiguration W) (v : Driver W)
      → parse_driver_configuration stod info ≡ some c
      → (initialize now c v).1 ≡ true
  unfolding initialize
  initialize-parse_driver_configuration now info c v h =
      let (s, settings, full, joints, e) = parse_driver_configuration-parts info c h in
      let (valid, same) = parse_joints-valid stod [] info.joints c.joints joints in
      let named = (parse_driver_configuration-bounds info c h).0 in
      let some_joints : is_empty c.joints ≡ false = ground (arith, same, full) in
      ground (arith, valid, some_joints, named)

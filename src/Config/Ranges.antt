-- ===== src/Config/Ranges.antt =====
-- robstride_ros2_control/src/driver_config.cpp, `parse_joint` up to the interfaces: the motor's
-- limits, the gains and transforms, and the command limits.
use robstride_ros.Prelude.{
  ℕ, ◌-◌, ◌^◌, ◌%◌, Bool, false, not, ◌&&◌, ◌||◌, Option, none, some, List, [], ◌∷◌, if◌then◌else◌,
  Text, bytes, text_eq, has_value, u8_mod, u32_mod, ◌>>=◌, ◌>>◌, require,
}
use robstride_ros.Double.{Double, nought, one, minus_one, min_of, max_of}
use robstride_ros.Protocol.{Limits}
use robstride_ros.Recovery.{fresh}
use robstride_ros.Profile.{motor_profile}
use robstride_ros.Joint.{
  JointData, CommandLimits, no_state, no_command, joint_position_range, motor_to_joint_effort,
  joint_to_motor_effort, invalid_neutral_range, checked_joint_to_motor_position,
}
use robstride_ros.Config.Numbers.{parse_integer}
use robstride_ros.Config.Parameters.{
  Parameters, ComponentInfo, required_value, required_number, number_or_parameter, number_or_value,
}

module _ {W : Type 0} ⦃d : Double W⦄ where
  open d use {isfinite, le, lt, eq, abs, plus, minus, times, over, decimal}

  -- `ordered_range`.
  abbrev pub ordered_range : W → W → W × W
  ordered_range first second = (min_of first second, max_of first second)

  unfoldable pub contains_range : W → W → W → W → Bool
  contains_range outer_min outer_max inner_min inner_max =
      le (minus outer_min tolerance) inner_min && le inner_max (plus outer_max tolerance)
    where
      tolerance : W
      tolerance = times (decimal 1 12) (
          max_of (max_of (max_of (max_of one (abs outer_min)) (abs outer_max)) (abs inner_min))
            (abs inner_max))

  -- `JointData{}`, with its name.
  abbrev pub new_joint : Text → JointData W
  new_joint name = record {
    name = name;
    can_id = 0;
    limits = record {
      position_min = nought;
      position_max = nought;
      velocity_min = nought;
      velocity_max = nought;
      effort_min = nought;
      effort_max = nought;
      effort_wire_min = nought;
      effort_wire_max = nought;
      kp_max = nought;
      kd_max = nought;
    };
    direction = one;
    gear_ratio = one;
    position_offset = nought;
    kp = nought;
    kd = nought;
    can_timeout_ticks = 0;
    command_limits = record {
      position_min = nought;
      position_max = nought;
      velocity_min = nought;
      velocity_max = nought;
      effort_min = nought;
      effort_max = nought;
    };
    exports_temperature = false;
    exports_fault = false;
    state = no_state;
    feedback = no_state;
    command = no_command;
    claimed = record { position = false; velocity = false; effort = false };
    feedback_status = record { received = false; mode = 0; timestamp = 0 };
    parameter_status = record { received = false; index = 0; value = 0; timestamp = 0 };
    recovery = fresh;
  }

  -- The table `expected` of a model's limits.
  abbrev pub expected : Limits W → List (Text × W)
  expected l =
      (bytes "position_min", l.position_min)
      ∷ (bytes "position_max", l.position_max)
      ∷ (bytes "velocity_min", l.velocity_min)
      ∷ (bytes "velocity_max", l.velocity_max)
      ∷ (bytes "effort_min", l.effort_min)
      ∷ (bytes "effort_max", l.effort_max)
      ∷ (bytes "effort_wire_min", l.effort_wire_min)
      ∷ (bytes "effort_wire_max", l.effort_wire_max)
      ∷ (bytes "kp_max", l.kp_max)
      ∷ (bytes "kd_max", l.kd_max)
      ∷ []

  -- The test "invalid limits or gains", negated.
  unfoldable pub gains_are_valid : JointData W → Bool
  gains_are_valid j = not (
      not (isfinite l.position_min)
      || not (isfinite l.position_max)
      || not (isfinite l.velocity_min)
      || not (isfinite l.velocity_max)
      || not (isfinite l.effort_min)
      || not (isfinite l.effort_max)
      || not (isfinite l.effort_wire_min)
      || not (isfinite l.effort_wire_max)
      || not (isfinite l.kp_max)
      || not (isfinite l.kd_max)
      || not (isfinite j.kp)
      || not (isfinite j.kd)
      || not (lt l.position_min l.position_max)
      || not (lt l.velocity_min l.velocity_max)
      || not (lt l.effort_min l.effort_max)
      || not (lt l.effort_wire_min l.effort_wire_max)
      || le l.kp_max nought
      || le l.kd_max nought
      || lt j.kp nought
      || lt l.kp_max j.kp
      || lt j.kd nought
      || lt l.kd_max j.kd)
    where
      l : Limits W
      l = j.limits

  -- The test "command limits must be finite and ordered", negated.
  unfoldable pub commands_are_ordered : CommandLimits W → Bool
  commands_are_ordered c = not (
      not (isfinite c.position_min)
      || not (isfinite c.position_max)
      || not (isfinite c.velocity_min)
      || not (isfinite c.velocity_max)
      || not (isfinite c.effort_min)
      || not (isfinite c.effort_max)
      || not (lt c.position_min c.position_max)
      || not (lt c.velocity_min c.velocity_max)
      || not (lt c.effort_min c.effort_max))

  -- The test "command limits must remain within their CAN wire ranges", negated.
  unfoldable pub commands_are_within : JointData W → Bool
  commands_are_within j = not (
      not (has_value (checked_joint_to_motor_position j j.command_limits.position_min))
      || not (has_value (checked_joint_to_motor_position j j.command_limits.position_max))
      || not (contains_range j.limits.velocity_min j.limits.velocity_max velocity.0 velocity.1)
      || not (contains_range j.limits.effort_min j.limits.effort_max effort.0 effort.1)
      || not (contains_range j.limits.effort_wire_min j.limits.effort_wire_max effort.0 effort.1))
    where
      velocity : W × W
      velocity =
          ordered_range (times (times j.direction j.command_limits.velocity_min) j.gear_ratio)
            (times (times j.direction j.command_limits.velocity_max) j.gear_ratio)

      effort : W × W
      effort =
          ordered_range (joint_to_motor_effort j j.command_limits.effort_min)
            (joint_to_motor_effort j j.command_limits.effort_max)

module _ {W : Type 0} ⦃d : Double W⦄ (stod : Text → Option (W × ℕ)) where
  open d use {isfinite, lt, eq, times, over}

  -- The loop over `expected`: a parameter that is given is the model's.
  unfoldable pub agrees : Parameters → List (Text × W) → Option (Unit {0})
  agrees parameters [] = some tt
  agrees parameters ((key, expected_value) ∷ entries) =
      let rest = agrees parameters entries in
      if has_value (required_value parameters key)
      then (do value ← required_number stod parameters key; require (eq value expected_value); rest)
      else rest

  unfoldable pub custom_limits : Parameters → Option (Limits W)
  custom_limits p = do
    position_min ← required_number stod p (bytes "position_min")
    position_max ← required_number stod p (bytes "position_max")
    velocity_min ← required_number stod p (bytes "velocity_min")
    velocity_max ← required_number stod p (bytes "velocity_max")
    effort_min ← required_number stod p (bytes "effort_min")
    effort_max ← required_number stod p (bytes "effort_max")
    effort_wire_min ← number_or_parameter stod p (bytes "effort_wire_min") (bytes "effort_min")
    effort_wire_max ← number_or_parameter stod p (bytes "effort_wire_max") (bytes "effort_max")
    kp_max ← required_number stod p (bytes "kp_max")
    kd_max ← required_number stod p (bytes "kd_max")
    some (record {
      position_min = position_min;
      position_max = position_max;
      velocity_min = velocity_min;
      velocity_max = velocity_max;
      effort_min = effort_min;
      effort_max = effort_max;
      effort_wire_min = effort_wire_min;
      effort_wire_max = effort_wire_max;
      kp_max = kp_max;
      kd_max = kd_max;
    })

  abbrev model_limits : Parameters → Text → Option (Limits W)
  model_limits p model =
      if text_eq model (bytes "custom")
      then custom_limits p
      else do limits ← motor_profile model; agrees p (expected limits); some limits

  unfoldable pub parse_limits : Parameters → Option (Limits W)
  parse_limits p = elim (required_value p (bytes "model")) [
    | none ↦ custom_limits p
    | some model ↦ model_limits p model
  ]

  -- From the CAN id to the test of the gains.
  unfoldable pub parse_motor : ComponentInfo → Option (JointData W)
  parse_motor info = do
    id_text ← required_value info.parameters (bytes "can_id")
    can_id ← parse_integer id_text 1 255 0
    limits ← parse_limits info.parameters
    kp ← required_number stod info.parameters (bytes "kp")
    kd ← required_number stod info.parameters (bytes "kd")
    ticks_text ← required_value info.parameters (bytes "can_timeout_ticks")
    ticks ← parse_integer ticks_text 1 (2 ^ 32 - 1) 0
    direction ← number_or_value stod info.parameters (bytes "direction") one
    gear_ratio ← number_or_value stod info.parameters (bytes "gear_ratio") one
    position_offset ← number_or_value stod info.parameters (bytes "position_offset") nought
    require (not (not (eq direction one) && not (eq direction minus_one)))
    require (not (not (lt nought gear_ratio) || not (isfinite gear_ratio)))
    require (isfinite position_offset)
    let joint = record (new_joint info.name) {
      can_id = can_id % u8_mod;
      limits = limits;
      kp = kp;
      kd = kd;
      can_timeout_ticks = ticks % u32_mod;
      direction = direction;
      gear_ratio = gear_ratio;
      position_offset = position_offset;
    }
    require (gains_are_valid joint)
    some joint

  -- The command limits, where a parameter is missing those of the motor.
  unfoldable pub command_limits_of : Parameters → JointData W → W × W → Option (CommandLimits W)
  command_limits_of p j default_position = do
    let default_velocity =
        ordered_range (times j.direction (over j.limits.velocity_min j.gear_ratio))
          (times j.direction (over j.limits.velocity_max j.gear_ratio))
    let default_effort =
        ordered_range (motor_to_joint_effort j j.limits.effort_min)
          (motor_to_joint_effort j j.limits.effort_max)
    position_min ← number_or_value stod p (bytes "command_position_min") default_position.0
    position_max ← number_or_value stod p (bytes "command_position_max") default_position.1
    velocity_min ← number_or_value stod p (bytes "command_velocity_min") default_velocity.0
    velocity_max ← number_or_value stod p (bytes "command_velocity_max") default_velocity.1
    effort_min ← number_or_value stod p (bytes "command_effort_min") default_effort.0
    effort_max ← number_or_value stod p (bytes "command_effort_max") default_effort.1
    some (record {
      position_min = position_min;
      position_max = position_max;
      velocity_min = velocity_min;
      velocity_max = velocity_max;
      effort_min = effort_min;
      effort_max = effort_max;
    })

  unfoldable pub parse_commands : Parameters → JointData W → Option (JointData W)
  parse_commands p j = do
    default_position ← joint_position_range j
    limits ← command_limits_of p j default_position
    let joint = record j { command_limits = limits }
    require (not (has_value (invalid_neutral_range joint)))
    require (commands_are_ordered limits)
    require (commands_are_within joint)
    some joint

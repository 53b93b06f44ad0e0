-- ===== src/System/Tests.antt =====
-- The plugin at concrete inputs.
use robstride_ros.Prelude.{
  ℕ, get_elem?, Bool, not, ◌==◌, ◌≡◌, ◌↔◌, ◌⊎◌, refl, true, false, some, List, [], ◌∷◌, All, Text,
  bytes, map, text_eq, if◌then◌else◌,
}
use robstride_ros.Prelude.Int.{pos}
use robstride_ros.Double.Fixed.{Fixed, fixed_double}
use robstride_ros.Joint.{JointData, contains_position, checked_joint_to_motor_position}
use robstride_ros.Joint.Tests.{joint}
use robstride_ros.CommandMode.{command_modes_after_switch, validate_command_mode_switch}
use robstride_ros.CommandMode.Exclusive.{IsExclusive}
use robstride_ros.Driver.Modes.{
  claim, claim_all, apply_command_modes, command_modes, validate_command_modes, may_claim_all,
  may_claim,
}
use robstride_ros.Driver.Tests.{heard, heard_joint}
use robstride_ros.Driver.Start.Tests.{waits, connected}
use robstride_ros.Driver.State.{DriverConfiguration}
use robstride_ros.Config.Hardware.{parse_driver_configuration}
use robstride_ros.Config.Tests.{whole_number, hardware}
use robstride_ros.System.Initialisation.{on_init-success_iff}
use robstride_ros.System.Bindings.{CommandMember, state_value, consume, publish, publish_selected}
use robstride_ros.System.State.{System, state_bindings, command_bindings, current_command_modes}
use robstride_ros.System.Lifecycle.{
  publish_states, success, on_init, on_activate, on_cleanup, on_deactivate, on_shutdown, on_error,
}
use robstride_ros.System.Cycle.{ok, error, read, write}
use robstride_ros.System.Switch.{
  initialized_commands, claimed_by, prepare_command_mode_switch, perform_command_mode_switch,
}
use robstride_ros.System.Consume.{commanded, unsampled, consume_lem}
use robstride_ros.System.Activation.{on_activate-active}
use robstride_ros.Driver.Update.{update_state}
use robstride_ros.System.Seen.{read-publishes}
use robstride_ros.System.Direct as Direct
use robstride_ros.System.Direct.Agrees.{Agree, deposited, builds-Agree}
use robstride_ros.System.Synced.{perform-synced}
use robstride_ros.System.Prepared.{perform-prepare}

abbrev pub all_free : ℕ → Bool
all_free i = true

abbrev pub plugin : System Fixed
plugin = record {
  driver = heard;
  states = [];
  commands = [];
  command_sync_failed = false;
  state_values = λ name. some (pos 0);
  command_values = λ name. some (pos 0);
}

abbrev pub start_position : List Text
start_position = bytes "knee/position" ∷ []

accepted : prepare_command_mode_switch 20 start_position [] plugin ≡ ok
unfolding prepare_command_mode_switch validate_command_mode_switch text_eq validate_command_modes
    command_modes_after_switch may_claim_all may_claim contains_position
    checked_joint_to_motor_position
accepted = refl

perform-prepare_example :
    let (after, result) = perform_command_mode_switch 20 all_free start_position [] plugin in
    let states =
      command_modes_after_switch (current_command_modes plugin.driver) start_position [] in
    (command_modes after.driver ≡ claimed_by states)
    × All IsExclusive states
    × (((result ≡ ok) × (after.command_sync_failed ≡ false))
        ⊎ ((result ≡ error) × (after.command_sync_failed ≡ true)))
perform-prepare_example = perform-prepare 20 all_free start_position [] plugin refl accepted

on_activate-active_example :
    let idle = record plugin { driver = connected } in
    let (after, result) = on_activate waits 9 all_free all_free (λ t. t) idle in
    ((result ≡ success) ↔ (after.driver.active ≡ true))
    × ((on_deactivate (λ t. t) after).0.driver.active ≡ false)
    × ((on_cleanup after).0.driver.active ≡ false)
    × ((on_shutdown (λ t. t) after).0.driver.active ≡ false)
    × ((on_error (λ t. t) after).0.driver.active ≡ false)
on_activate-active_example =
    on_activate-active waits 9 all_free all_free (λ t. t) (record plugin { driver = connected })
      refl

abbrev asked : Text → Fixed
asked name = if text_eq name (bytes "knee/velocity") then some (pos 2000) else some (pos 0)

-- The second of three accesses fails.
abbrev pub second_busy : ℕ → Bool
second_busy i = not (i == 1)

consume_lem_example :
    let (after, changed, taken) =
      consume second_busy asked (command_bindings 0 (joint ∷ [])) (joint ∷ []) in
    (changed ≡ (if taken then map (commanded asked) (joint ∷ []) else joint ∷ []))
    × (map unsampled after ≡ command_bindings 0 (joint ∷ []))
unfolding command_bindings
consume_lem_example =
    consume_lem second_busy asked (command_bindings 0 (joint ∷ [])) (joint ∷ []) refl

abbrev pub exported : System Fixed
exported = record plugin { commands = command_bindings 0 heard.joints }

performs : (perform_command_mode_switch 20 all_free start_position [] exported).1 ≡ ok
unfolding perform_command_mode_switch publish_selected command_bindings initialized_commands
    apply_command_modes text_eq validate_command_modes command_modes_after_switch may_claim_all
    may_claim contains_position checked_joint_to_motor_position
performs = refl

abbrev switched : List (JointData Fixed)
switched = (perform_command_mode_switch 20 all_free start_position [] exported).0.driver.joints

abbrev moving : JointData Fixed
moving = claim heard_joint (record { position = true; velocity = false; effort = false })

moving_found : get_elem? switched 0 ≡ some moving
unfolding perform_command_mode_switch publish_selected command_bindings initialized_commands
    apply_command_modes text_eq validate_command_modes command_modes_after_switch may_claim_all
    may_claim contains_position checked_joint_to_motor_position claim_all
moving_found = refl

exported_bindings : map unsampled exported.commands ≡ command_bindings 0 exported.driver.joints
unfolding command_bindings
exported_bindings = refl

perform-synced_example :
    (perform_command_mode_switch 20 all_free start_position [] exported).0.command_values
      (bytes "knee/position")
    ≡ moving.command.position
perform-synced_example =
    perform-synced 20 all_free start_position [] exported 0 heard_joint moving
      CommandMember.position (tt, tt) exported_bindings performs refl moving_found refl refl

on_init-success_iff_example : ((on_init whole_number true 5 hardware plugin).1 ≡ success) ↔ (
    (true ≡ true)
    × ((c : DriverConfiguration Fixed) × (parse_driver_configuration whole_number hardware
          ≡ some c)))
on_init-success_iff_example = on_init-success_iff whole_number true 5 hardware plugin

builds-Agree_example :
    Agree
      (on_activate waits 20 all_free all_free (λ t. t) exported)
      (Direct.on_activate waits 20 exported.driver)
    × Agree (read 20 all_free exported) (Direct.read 20 exported.driver)
    × Agree
        (perform_command_mode_switch 20 all_free start_position [] exported)
        (Direct.perform_command_mode_switch 20 start_position [] exported.driver)
    × Agree (write 20 all_free exported) (Direct.write 20 (deposited exported))
builds-Agree_example =
    builds-Agree waits 20 (λ t. t) start_position [] exported (λ i. refl) refl exported_bindings

-- The state interfaces are bound, too.
abbrev seen : System Fixed
seen = record exported { states = state_bindings 0 heard.joints }

reads : (read 20 all_free seen).1 ≡ ok
unfolding read update_state publish_states publish state_bindings
reads = refl

read-publishes_example :
    let after = (read 20 all_free seen).0 in
    (after.driver ≡ (update_state 20 heard).0)
    × All
        (λ b. after.state_values b.handle ≡ state_value after.driver.joints b)
        (state_bindings 0 heard.joints)
read-publishes_example = read-publishes 20 all_free seen (tt, tt) refl reads

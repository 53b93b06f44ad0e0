-- ===== src/System/Run/Tests.antt =====
-- A short run of the plugin.
use robstride_ros.Prelude.{
  ℕ, Bool, text_eq, ◌⊎◌, true, false, ◌≡◌, ◌↔◌, refl, ap, ◌∙◌, arith, List, [], ◌∷◌, length, map,
}
use robstride_ros.Double.Fixed.{Fixed, fixed_double}
use robstride_ros.Joint.{JointData, contains_position, checked_joint_to_motor_position}
use robstride_ros.Driver.State.{Driver}
use robstride_ros.Driver.Initialize.{initialize}
use robstride_ros.Driver.Initialize.Valid.{initialize_accepts}
use robstride_ros.Config.Accepted.{
  initialize-parse_driver_configuration, parse_driver_configuration-bounds,
}
use robstride_ros.CommandMode.Switch.{IsDistinct}
use robstride_ros.Driver.Skeleton.{skeleton}
use robstride_ros.Config.Tests.{whole_number, hardware, parsed, parses}
use robstride_ros.System.State.{System}
use robstride_ros.System.Handles.{state_of}
use robstride_ros.System.Lifecycle.{success, on_init, on_configure, on_deactivate, on_cleanup}
use robstride_ros.System.Cycle.{read, write}
use robstride_ros.System.Run.Latch.{IsLatched, IsReactivated, Reach-IsLatched}
use robstride_ros.System.Switch.{initialized_commands, perform_command_mode_switch}
use robstride_ros.Driver.Modes.{
  apply_command_modes, validate_command_modes, may_claim_all, may_claim,
}
use robstride_ros.CommandMode.{command_modes_after_switch}
use robstride_ros.System.Bindings.{publish_selected}
use robstride_ros.System.State.{command_bindings}
use robstride_ros.System.Tests.{
  plugin, all_free, second_busy, start_position, exported as exported_system,
}
use robstride_ros.System.Initialisation.{on_init-success_iff, on_init-driver}
use robstride_ros.System.Run.{Reach, here, next, cleans_up, deactivates, reads, writes}
use robstride_ros.Transport.Tests.{sink}
use robstride_ros.System.Run.Configured.{on_configure-success_iff}
use robstride_ros.System.Run.Sound.{IsSound, exported, Reach-IsSound}

abbrev initialised : System Fixed
initialised = (on_init whole_number true 5 hardware plugin).0

-- A read of which an access fails, a deactivation and a cleanup.
abbrev read_once : System Fixed
read_once = (read 9 second_busy (exported all_free second_busy initialised)).0

abbrev cleaned : System Fixed
cleaned = (on_cleanup (on_deactivate (λ t. t) read_once).0).0

running : Reach (exported all_free second_busy initialised) cleaned
running =
    next (next (next here (reads 9 second_busy refl)) (deactivates (λ t. t) refl)) (cleans_up refl)

succeeds : (on_init whole_number true 5 hardware plugin).1 ≡ success
succeeds = (on_init-success_iff whole_number true 5 hardware plugin).1 (refl, (parsed, parses))

accepted : (initialize 5 parsed plugin.driver).1 ≡ true
accepted = initialize-parse_driver_configuration whole_number 5 hardware parsed plugin.driver parses

initialised_joints : initialised.driver.joints ≡ parsed.joints
initialised_joints =
    let (_, _, same, _) = initialize_accepts 5 parsed plugin.driver accepted in
    let driver = on_init-driver whole_number 5 hardware plugin parsed parses in
    ap (λ (v : Driver Fixed). v.joints) driver ∙ same

single-IsDistinct :
    (joints : List (JointData Fixed)) → length joints ≡ 1 → IsDistinct (map state_of joints)
single-IsDistinct [] e = tt
single-IsDistinct (j ∷ []) e = (tt, tt)
single-IsDistinct (j ∷ k ∷ joints) e = absurd (omega arith)

one_joint : IsDistinct (map state_of initialised.driver.joints)
one_joint =
    let (_, _, _, one, _) = parse_driver_configuration-bounds whole_number hardware parsed parses in
    single-IsDistinct initialised.driver.joints
      (ap (λ (js : List (JointData Fixed)). length js) initialised_joints ∙ one)

Reach-IsSound_example : IsSound cleaned × (skeleton cleaned.driver ≡ skeleton initialised.driver)
Reach-IsSound_example =
    Reach-IsSound whole_number true 5 hardware all_free second_busy plugin cleaned succeeds
      one_joint refl running

on_configure-success_iff_example :
    ((on_configure sink 20 21 false (λ t. t) cleaned).1 ≡ success) ↔ (false ≡ true)
on_configure-success_iff_example =
    on_configure-success_iff whole_number true 5 hardware all_free second_busy plugin cleaned
      succeeds running sink 20 21 false (λ t. t)

-- A switch whose new command cannot be published, and a write after it.
abbrev none_free : ℕ → Bool
none_free i = false

abbrev unsynced : System Fixed
unsynced = (perform_command_mode_switch 20 none_free start_position [] exported_system).0

fails : unsynced.command_sync_failed ≡ true
unfolding perform_command_mode_switch publish_selected command_bindings initialized_commands
    apply_command_modes text_eq validate_command_modes command_modes_after_switch may_claim_all
    may_claim contains_position checked_joint_to_motor_position
fails = refl

abbrev written : System Fixed
written = (write 21 all_free (on_cleanup unsynced).0).0

Reach-IsLatched_example : IsLatched written ⊎ IsReactivated unsynced written
Reach-IsLatched_example =
    Reach-IsLatched unsynced written fails
      (next (next here (cleans_up refl)) (writes 21 all_free refl))

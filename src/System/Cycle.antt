-- ===== src/System/Cycle.antt =====
-- robstride_ros2_control/src/robstride_system.cpp: `read` and `write` of a control cycle, at the
-- time `now`.
use robstride_ros.Prelude.{ℕ, Bool, true, false, not, if◌then◌else◌}
use robstride_ros.Double.{Double}
use robstride_ros.Driver.Update.{update_state}
use robstride_ros.Driver.Commands.{send_commands}
use robstride_ros.System.Bindings.{consume}
use robstride_ros.System.State.{System}
use robstride_ros.System.Lifecycle.{publish_states}

pub data ReturnType : Type 0 where
  ok error : ReturnType

abbrev pub return_type : Bool → ReturnType
return_type true = ok
return_type false = error

module _ {W : Type 0} ⦃d : Double W⦄ where
  unfoldable pub read : ℕ → (ℕ → Bool) → System W → System W × ReturnType
  read now free s =
      let (v, _, updated) = update_state now s.driver in
      let (published, states_ok) = publish_states free (record s { driver = v }) in
      if s.command_sync_failed
      then (s, error)
      else if not updated
      then (record s { driver = v }, error)
      else (published, return_type states_ok)

  unfoldable pub write : ℕ → (ℕ → Bool) → System W → System W × ReturnType
  write now free s =
      let (bindings, joints, consumed) = consume free s.command_values s.commands s.driver.joints in
      let taken = record s { driver = record s.driver { joints = joints }; commands = bindings } in
      let (v, sent) = send_commands now taken.driver in
      if s.command_sync_failed
      then (s, error)
      else if not consumed
      then (taken, error)
      else (record taken { driver = v }, return_type sent)

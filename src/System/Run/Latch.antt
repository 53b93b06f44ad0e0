-- ===== src/System/Run/Latch.antt =====
-- The latch of a failed synchronisation of commands.
use robstride_ros.Prelude.{ℕ, Bool, true, List, ◌≡◌, ◌⊎◌, inl, inr, refl, ap, ◌∙◌, arith, Text}
use robstride_ros.Double.{Double}
use robstride_ros.Transport.State.{Transport}
use robstride_ros.Driver.Start.{Waits}
use robstride_ros.System.State.{System}
use robstride_ros.System.Lifecycle.{
  CallbackReturn, success, error, publish_states, publish_commands, on_export_state_interfaces,
  on_export_command_interfaces, on_configure, on_cleanup, on_activate, on_deactivate, on_shutdown,
  on_error,
}
use robstride_ros.System.Cycle as Cycle
use robstride_ros.System.Cycle.{read, write}
use robstride_ros.System.Switch.{perform_command_mode_switch}
use robstride_ros.System.Run.{
  Step, exports_states, exports_commands, configures, cleans_up, activates, deactivates, shuts_down,
  handles_error, reads, writes, switches, receives, transmits, asks, Reach, here, next,
}

error_or_success : (r : CallbackReturn) → (r ≡ error) ⊎ (r ≡ success)
error_or_success error = inl refl
error_or_success success = inr refl

module _ {W : Type 0} ⦃d : Double W⦄ where
  -- A call of the control cycle, or a switch, fails and changes nothing.
  abbrev pub IsLatched : System W → Type 0
  IsLatched s =
      (s.command_sync_failed ≡ true)
      × ((now : ℕ) (free : ℕ → Bool) → read now free s ≡ (s, Cycle.error))
      × ((now : ℕ) (free : ℕ → Bool) → write now free s ≡ (s, Cycle.error))
      × ((now : ℕ) (free : ℕ → Bool) (begin end : List Text)
          → perform_command_mode_switch now free begin end s ≡ (s, Cycle.error))

  -- A successful activation on the way.
  pub record IsReactivated (s u : System W) : Type 0 where
    pub before : System W
    pub after : System W
    pub waits : Waits
    pub now : ℕ
    pub states_free : ℕ → Bool
    pub commands_free : ℕ → Bool
    pub meanwhile : Transport → Transport
    pub reached : Reach s before
    pub activated :
        on_activate waits now states_free commands_free meanwhile before ≡ (after, success)
    pub goes_on : Reach after u

  latched : (s : System W) → s.command_sync_failed ≡ true → IsLatched s
  unfolding read write perform_command_mode_switch
  latched s failed = (
    failed,
    λ now free. ground arith,
    λ now free. ground arith,
    λ now free begin end. ground arith,
  )

  on_activate-error :
      (w : Waits) (now : ℕ) (states_free commands_free : ℕ → Bool)
      (meanwhile : Transport → Transport) (s : System W)
      → let (after, result) = on_activate w now states_free commands_free meanwhile s in
        result ≡ error → after.command_sync_failed ≡ s.command_sync_failed
  unfolding on_activate publish_states publish_commands
  on_activate-error w now states_free commands_free meanwhile s failed = ground arith

  Step-latched :
      {s t u : System W}
      → Reach s t
      → Step t u
      → t.command_sync_failed ≡ true
      → (u.command_sync_failed ≡ true) ⊎ IsReactivated s u
  unfolding on_export_state_interfaces on_export_command_interfaces publish_states publish_commands
      on_configure on_cleanup on_deactivate on_shutdown on_error
  Step-latched r (exports_states free e) h = inl (rw e h)
  Step-latched r (exports_commands free e) h = inl (rw e h)
  Step-latched r (configures ep now started_at created joined e) h = inl (rw e h)
  Step-latched r (cleans_up e) h = inl (rw e h)
  Step-latched {s} {t} r (activates w now sf cf meanwhile e) h =
      elim (error_or_success (on_activate w now sf cf meanwhile t).1) [
        | inl failed ↦ inl (rw e (on_activate-error w now sf cf meanwhile t failed ∙ h))
        | inr succeeded ↦ inr (
            rw e (record {
              before = t;
              after = (on_activate w now sf cf meanwhile t).0;
              waits = w;
              now = now;
              states_free = sf;
              commands_free = cf;
              meanwhile = meanwhile;
              reached = r;
              activated = ap (λ x. ((on_activate w now sf cf meanwhile t).0, x)) succeeded;
              goes_on = here;
            }))
      ]
  Step-latched r (deactivates meanwhile e) h = inl (rw e h)
  Step-latched r (shuts_down meanwhile e) h = inl (rw e h)
  Step-latched r (handles_error meanwhile e) h = inl (rw e h)
  Step-latched {s} {t} r (reads now free e) h =
      let (_, same, _, _) = latched t h in inl (rw (e, same now free) h)
  Step-latched {s} {t} r (writes now free e) h =
      let (_, _, same, _) = latched t h in inl (rw (e, same now free) h)
  Step-latched {s} {t} r (switches now free begin end e) h =
      let (_, _, _, same) = latched t h in inl (rw (e, same now free begin end) h)
  Step-latched r (receives now msg e) h = inl (rw e h)
  Step-latched r (transmits f e) h = inl (rw e h)
  Step-latched r (asks values e) h = inl (rw e h)

  stays :
      {s u : System W}
      → s.command_sync_failed ≡ true
      → Reach s u
      → (u.command_sync_failed ≡ true) ⊎ IsReactivated s u
  stays failed here = inl failed
  stays failed (next r st) = elim (stays failed r) [
    | inl still ↦ Step-latched r st still
    | inr reactivated ↦ inr (record {
      before = reactivated.before;
      after = reactivated.after;
      waits = reactivated.waits;
      now = reactivated.now;
      states_free = reactivated.states_free;
      commands_free = reactivated.commands_free;
      meanwhile = reactivated.meanwhile;
      reached = reactivated.reached;
      activated = reactivated.activated;
      goes_on = next reactivated.goes_on st;
    })
  ]

  -- Once the new commands of a switch could not be published, every `read`, every `write` and every
  -- further switch fails and changes nothing, whatever else is called and happens, until an
  -- activation succeeds.
  pub Reach-IsLatched :
      (s u : System W) → s.command_sync_failed ≡ true → Reach s u → IsLatched u ⊎ IsReactivated s u
  Reach-IsLatched s u failed r = elim (stays failed r) [
    | inl still ↦ inl (latched u still)
    | inr reactivated ↦ inr reactivated
  ]

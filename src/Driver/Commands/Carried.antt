-- ===== src/Driver/Commands/Carried.antt =====
-- `check_transport_health` of robstride_driver/src/driver.cpp, in terms of the transport's members.
use robstride_ros.Prelude.{ℕ, ◌<◌, true, false, some, ◌≡◌, ◌↔◌, inl, inr, arith, Option-cases}
use robstride_ros.Transport.State.{Transport}
use robstride_ros.Transport.Health.{IsWorking, IsOlder, health, health_persistent_iff}
use robstride_ros.Driver.State.{Driver}
use robstride_ros.Driver.Commands.{health_passes, check_transport_health}

-- The threads work, a bridge that is away has not been so for the timeout, and with a bridge and active
-- commands queued work has had progress within the timeout.
pub IsCarrying : ℕ → ℕ → Transport → Type 0
IsCarrying timeout now t =
    IsWorking t
    × ((t.bridge_available ≡ false) → ¬ IsOlder timeout now t.bridge_unavailable_since_ns)
    × ((t.bridge_available ≡ true)
        → (t.active_commands_enabled ≡ true)
        → ¬ IsOlder timeout now t.active_work_progress_ns)

health_passes-persistent :
    (timeout now : ℕ) (t : Transport)
    → (health_passes (health timeout now t) ≡ true) ↔ ((health timeout now t).persistent ≡ false)
unfolding health
health_passes-persistent timeout now t = ground arith

module _ {W : Type 0} where
  abbrev pub IsCarried : ℕ → Driver W → Type 0
  IsCarried now v =
      (t : Transport) × (v.transport ≡ some t)
      × IsCarrying v.settings.transmit_failure_timeout now t

  pub check_transport_health_iff :
      (now : ℕ) (v : Driver W)
      → 0 < v.settings.transmit_failure_timeout
      → (check_transport_health now v ≡ true) ↔ IsCarried now v
  unfolding check_transport_health IsCarrying
  check_transport_health_iff now v positive = elim (Option-cases v.transport) [
    | inl missing ↦ ground (arith, missing)
    | inr (t, found) ↦
        let timeout = v.settings.transmit_failure_timeout in
        let passes = health_passes-persistent timeout now t in
        let persistent = health_persistent_iff timeout now t positive in
        (
          λ h. (t, found, persistent.0 (passes.0 (rw found at h))),
          λ (u, same, carrying). ground (arith, found, same),
        )
  ]

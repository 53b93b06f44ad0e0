-- ===== src/Recovery/Pace.antt =====
-- `RecoveryState::update`: how often enable frames are sent and when the recovery ends.
use robstride_ros.Prelude.{
  ℕ, zero, suc, refl, ◌+◌, ◌-◌, ◌*◌, ◌≤◌, ◌<◌, ◌≡◌, ◌≢◌, ◌⊎◌, ◌↔◌, true, false, List, [], ◌∷◌,
  arith,
}
use robstride_ros.Clock.{ms}
use robstride_ros.Protocol.{motor_mode_run}
use robstride_ros.Recovery.{RecoveryState, RecoveryAction, fresh, update, run}

-- A closed recovery is as new; an open one has tried, has spaced its attempts by the interval, and
-- all of them fall before the timeout.
pub record IsPaced (timeout retry_interval : ℕ) (r : RecoveryState) : Type 0 where
  pub closed : r.active ≡ false → r ≡ fresh
  pub begun : r.active ≡ true → r.attempts ≢ 0
  pub spaced :
      r.attempts ≢ 0 → r.started_at + (r.attempts - 1) * ms retry_interval ≤ r.last_attempt_at
  pub timely : r.attempts ≢ 0 → r.last_attempt_at < r.started_at + ms timeout

pub fresh-IsPaced : (timeout retry_interval : ℕ) → IsPaced timeout retry_interval fresh
fresh-IsPaced timeout retry_interval = ground arith

-- One more attempt is one more interval.
next_interval : (n k : ℕ) → n ≢ 0 → (n + 1 - 1) * k ≡ (n - 1) * k + k
next_interval zero k h = absurd (h refl)
next_interval (suc n) k h =
    let e : suc n + 1 - 1 ≡ suc n = omega arith in
    let e' : suc n - 1 ≡ n = omega arith in rw (e, e') (omega arith)

module _ (timeout retry_interval : ℕ) (positive : 0 < timeout) where
  pub update-IsPaced :
      (r : RecoveryState) (mode now : ℕ)
      → IsPaced timeout retry_interval r
      → IsPaced timeout retry_interval (update r mode now timeout retry_interval).0
  unfolding update
  update-IsPaced r mode now p = grind (arith, next_interval r.attempts (ms retry_interval))

  pub run-IsPaced :
      (r : RecoveryState) (reports : List (ℕ × ℕ))
      → IsPaced timeout retry_interval r
      → IsPaced timeout retry_interval (run r reports timeout retry_interval)
  unfolding run
  run-IsPaced r [] p = p
  run-IsPaced r ((mode, now) ∷ reports) p =
      run-IsPaced (update r mode now timeout retry_interval).0 reports (update-IsPaced r mode now p)

-- Whatever modes are reported at whatever times, a recovery that starts as new counts so many
-- attempts that all the retry intervals between them fit into the timeout. So with an interval of at
-- least a millisecond and a timeout that an `int` holds, the `int` counter does not overflow.
pub run_attempts :
    (timeout retry_interval : ℕ) (reports : List (ℕ × ℕ))
    → 0 < retry_interval
    → 0 < timeout
    → timeout < 2147483648
    → let r = run fresh reports timeout retry_interval in
      ((r.attempts - 1) * retry_interval < timeout) × (r.attempts < 2147483648)
run_attempts timeout retry_interval reports hi ht hm =
    let r = run fresh reports timeout retry_interval in
    let p =
      run-IsPaced timeout retry_interval ht fresh reports (fresh-IsPaced timeout retry_interval) in
    let within : (r.attempts - 1) * retry_interval < timeout = grind arith in (within, grind arith)

-- The grounds on which `update` acts. It fails when the motor is not in Run mode and the timeout has
-- passed since an open recovery began; it reports a recovery when an open one meets Run mode; and it
-- asks for an enable frame when the motor is not in Run mode and either no recovery was open, or the
-- timeout has not passed and the retry interval has passed since the last attempt. This holds for
-- every state that keeps its pace, at a positive timeout.
pub update_action :
    (r : RecoveryState) (mode now timeout retry_interval : ℕ)
    → 0 < timeout
    → IsPaced timeout retry_interval r
    → let action = (update r mode now timeout retry_interval).1 in
      ((action ≡ RecoveryAction.failed)
        ↔ ((mode ≢ motor_mode_run) × (r.active ≡ true) × (r.started_at + ms timeout ≤ now)))
      × ((action ≡ RecoveryAction.recovered) ↔ ((mode ≡ motor_mode_run) × (r.active ≡ true)))
      × ((action ≡ RecoveryAction.send_enable) ↔ (
          (mode ≢ motor_mode_run)
          × ((r.active ≡ false)
              ⊎ ((r.active ≡ true)
                  × (now < r.started_at + ms timeout)
                  × (r.last_attempt_at + ms retry_interval ≤ now)))))
unfolding update
update_action r mode now timeout retry_interval ht p = ground (arith, p.closed, p.begun)

-- ===== src/Recovery/Tests.antt =====
-- `RecoveryState::update` at concrete inputs.
use robstride_ros.Prelude.{ℕ, ◌-◌, ◌*◌, ◌<◌, ◌≡◌, refl, List, [], ◌∷◌, arith}
use robstride_ros.Clock.{ms}
use robstride_ros.Recovery.{RecoveryAction, fresh, update, run}
use robstride_ros.Recovery.Pace.{run_attempts}

-- Reset mode is reported at 1000, 1050, 1100 and 1450 ms.
abbrev reports : List (ℕ × ℕ)
reports = (0, ms 1000) ∷ (0, ms 1050) ∷ (0, ms 1100) ∷ (0, ms 1450) ∷ []

three_attempts : (run fresh reports 500 100).attempts ≡ 3
unfolding run update
three_attempts = refl

gives_up : (update (run fresh reports 500 100) 0 (ms 1500) 500 100).1 ≡ RecoveryAction.failed
unfolding run update
gives_up = refl

recovers : (update (run fresh reports 500 100) 2 (ms 1460) 500 100).1 ≡ RecoveryAction.recovered
unfolding run update
recovers = refl

run_attempts_example :
    let r = run fresh reports 500 100 in ((r.attempts - 1) * 100 < 500) × (r.attempts < 2147483648)
run_attempts_example = run_attempts 500 100 reports (omega arith) (omega arith) (omega arith)

-- ===== src/Clock.antt =====
-- std::chrono as the program uses it. A `steady_clock::time_point` is a number of nanoseconds since
-- the epoch, a setting is a number of milliseconds that is not negative. A test on a difference of two
-- times, which C++ computes with a sign, is written with the sums on both sides.
use robstride_ros.Prelude.{ℕ, ◌+◌, ◌*◌, Bool, ltb, leb}

-- `std::chrono::milliseconds`, as nanoseconds.
abbrev pub ms : ℕ → ℕ
ms n = n * 1_000_000

-- `now - since >= limit`.
abbrev pub elapsed : ℕ → ℕ → ℕ → Bool
elapsed since now limit = leb (since + limit) now

-- `now - since > limit`.
abbrev pub exceeded : ℕ → ℕ → ℕ → Bool
exceeded since now limit = ltb (since + limit) now

-- ===== src/Double.antt =====
-- The C++ type `double` and the functions of <cmath> and <algorithm> that the program calls on it.
-- There are no floating point numbers here: the type and its operations are a parameter, and what
-- the proofs rely on are the laws of `IsIeee`, each of them one of IEEE 754 arithmetic with rounding
-- to nearest. NaN is a value whose comparisons all fail.
pub mod Laws
pub mod Fixed
use robstride_ros.Prelude.{ℕ, Bool, true, if◌then◌else◌, ◌≡◌}
use robstride_ros.Prelude.Int.{ℤ}

pub record Double (W : Type 0) : Type 0 where
  -- The `double` nearest to a natural number: the literals 0.0, 1.0, 65535.0, the cast of an integer.
  pub of_ℕ : ℕ → W
  pub nan : W
  -- The literal with the digits `n` of which the last `k` stand behind the point.
  pub decimal : ℕ → ℕ → W
  -- The literal 0.1.
  pub tenth : W
  pub isfinite : W → Bool
  -- `<=` and `<`; the comparison `==`, which tells a NaN from itself.
  pub le : W → W → Bool
  pub lt : W → W → Bool
  pub eq : W → W → Bool
  pub neg : W → W
  -- `std::abs`.
  pub abs : W → W
  pub plus : W → W → W
  pub minus : W → W → W
  pub times : W → W → W
  pub over : W → W → W
  -- `std::lround`.
  pub lround : W → ℤ
  -- `std::nextafter` towards minus and plus infinity.
  pub next_down : W → W
  pub next_up : W → W

module _ {W : Type 0} ⦃d : Double W⦄ where
  open d use {of_ℕ, isfinite, le, lt, neg}

  -- The literals 0.0, 1.0 and -1.0.
  abbrev pub nought : W
  nought = of_ℕ 0

  abbrev pub one : W
  one = of_ℕ 1

  abbrev pub minus_one : W
  minus_one = neg (of_ℕ 1)

  infix 50 ◌≼◌
  abbrev pub ◌≼◌ : W → W → Type 0
  x ≼ y = le x y ≡ true

  abbrev pub IsFinite : W → Type 0
  IsFinite x = isfinite x ≡ true

  -- `std::clamp(v, lo, hi)`.
  unfoldable pub clamp : W → W → W → W
  clamp v lo hi = if lt v lo then lo else if lt hi v then hi else v

  -- `std::min(a, b)` and `std::max(a, b)`, which return `a` where the two are not ordered.
  unfoldable pub min_of : W → W → W
  min_of a b = if lt b a then b else a

  unfoldable pub max_of : W → W → W
  max_of a b = if lt a b then b else a

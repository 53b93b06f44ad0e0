-- ===== src/Double/Laws.antt =====
-- The laws of IEEE 754 that the proofs use, and what follows for `std::clamp`.
use robstride_ros.Prelude.{ℕ, ◌≤◌, ◌^◌, true, not, ◌≡◌, ◌⊎◌, arith}
use robstride_ros.Prelude.Int.{pos, ◌≤ℤ◌}
use robstride_ros.Double.{Double, nought, one, ◌≼◌, IsFinite, clamp}

pub record IsIeee (W : Type 0) ⦃d : Double W⦄ : Type 0 where
  pub finite_of_ℕ : (n : ℕ) → n ≤ 65535 → IsFinite (d.of_ℕ n)
  -- Literals from 1 on are positive, and a sign is exact.
  pub of_ℕ-decimal : (n : ℕ) → n ≤ 65535 → d.of_ℕ n ≡ d.decimal n 0
  pub decimal_pos :
      (n k : ℕ)
      → 10 ^ k ≤ n
      → n ≤ 2 ^ 53
      → IsFinite (d.decimal n k) × (d.lt nought (d.decimal n k) ≡ true)
  pub neg_pos :
      (x : W)
      → IsFinite x
      → d.lt nought x ≡ true
      → IsFinite (d.neg x) × (d.lt (d.neg x) nought ≡ true)
  pub le_finite : (x : W) → IsFinite x → x ≼ x
  pub le_trans : (x y z : W) → x ≼ y → y ≼ z → x ≼ z
  -- Between finite numbers lies no infinity and no NaN, and `<` is the negation of the converse `<=`.
  pub finite_between : (x y z : W) → IsFinite x → IsFinite z → x ≼ y → y ≼ z → IsFinite y
  pub lt-eq-not-le : (x y : W) → IsFinite x → IsFinite y → d.lt x y ≡ not (d.le y x)
  pub le_total : (x y : W) → IsFinite x → IsFinite y → (x ≼ y) ⊎ (y ≼ x)
  -- Rounded operations are monotone, and exact where the result is a number of the format.
  pub minus_self : (x : W) → IsFinite x → d.minus x x ≡ nought
  pub minus_pos :
      (x y : W) → IsFinite x → IsFinite y → d.lt x y ≡ true → d.lt nought (d.minus y x) ≡ true
  pub minus_mono :
      (x y z : W) → IsFinite x → IsFinite y → IsFinite z → x ≼ y → d.minus x z ≼ d.minus y z
  pub over_self : (x : W) → IsFinite x → d.lt nought x ≡ true → d.over x x ≡ one
  pub nought_over : (x : W) → IsFinite x → d.lt nought x ≡ true → d.over nought x ≡ nought
  pub over_mono :
      (x y z : W)
      → IsFinite x
      → IsFinite y
      → IsFinite z
      → d.lt nought z ≡ true
      → x ≼ y
      → d.over x z ≼ d.over y z
  pub nought_times : (n : ℕ) → n ≤ 65535 → d.times nought (d.of_ℕ n) ≡ nought
  pub one_times : (n : ℕ) → n ≤ 65535 → d.times one (d.of_ℕ n) ≡ d.of_ℕ n
  pub times_mono :
      (n : ℕ) (x y : W)
      → n ≤ 65535
      → IsFinite x
      → IsFinite y
      → x ≼ y
      → d.times x (d.of_ℕ n) ≼ d.times y (d.of_ℕ n)
  pub lround_of_ℕ : (n : ℕ) → n ≤ 65535 → d.lround (d.of_ℕ n) ≡ pos n
  pub lround_mono : (x y : W) → IsFinite x → IsFinite y → x ≼ y → d.lround x ≤ℤ d.lround y

module _ {W : Type 0} ⦃d : Double W⦄ (laws : IsIeee W) where
  open laws use {le_finite, le_trans, lt-eq-not-le, le_total, finite_between}

  -- A finite value is brought into an ordered finite range.
  pub clamp_bounds :
      (v lo hi : W)
      → IsFinite v
      → IsFinite lo
      → IsFinite hi
      → lo ≼ hi
      → (lo ≼ clamp v lo hi) × (clamp v lo hi ≼ hi)
  unfolding clamp
  clamp_bounds v lo hi fv fl fh h =
      ground
        (arith, lt-eq-not-le v lo fv fl, lt-eq-not-le hi v fh fv, le_finite lo fl, le_finite hi fh)

  pub clamp-IsFinite :
      (v lo hi : W) → IsFinite v → IsFinite lo → IsFinite hi → IsFinite (clamp v lo hi)
  unfolding clamp
  clamp-IsFinite v lo hi fv fl fh = ground arith

  pub le_of_lt : (x y : W) → IsFinite x → IsFinite y → d.lt x y ≡ true → x ≼ y
  le_of_lt x y fx fy h = ground (arith, lt-eq-not-le x y fx fy, le_total x y fx fy)

  pub clamp_lo : (lo hi : W) → IsFinite lo → IsFinite hi → lo ≼ hi → clamp lo lo hi ≡ lo
  unfolding clamp
  clamp_lo lo hi fl fh h =
      ground (arith, lt-eq-not-le lo lo fl fl, le_finite lo fl, lt-eq-not-le hi lo fh fl)

  pub clamp_hi : (lo hi : W) → IsFinite lo → IsFinite hi → lo ≼ hi → clamp hi lo hi ≡ hi
  unfolding clamp
  clamp_hi lo hi fl fh h =
      ground (arith, lt-eq-not-le hi hi fh fh, le_finite hi fh, lt-eq-not-le hi lo fh fl)

  pub clamp_mono :
      (x y lo hi : W)
      → IsFinite x
      → IsFinite y
      → IsFinite lo
      → IsFinite hi
      → lo ≼ hi
      → x ≼ y
      → clamp x lo hi ≼ clamp y lo hi
  unfolding clamp
  clamp_mono x y lo hi fx fy fl fh h p = ground (
    arith,
    lt-eq-not-le x lo fx fl,
    lt-eq-not-le hi x fh fx,
    lt-eq-not-le y lo fy fl,
    lt-eq-not-le hi y fh fy,
    le_finite lo fl,
    le_finite hi fh,
    le_trans x y lo p,
    le_trans hi x y,
    le_trans hi y lo,
    le_total x lo fx fl,
    le_total y hi fy fh,
    le_total lo y fl fy,
    le_total x hi fx fh,
  )

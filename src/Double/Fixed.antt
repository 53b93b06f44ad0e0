-- ===== src/Double/Fixed.antt =====
-- A concrete number type that meets the laws of `IsIeee`: signed fixed point numbers in units of
-- 1/1000, `none` for NaN, with every rounding downwards. It serves the worked examples.
use robstride_ros.Prelude.{
  ℕ, zero, suc, ◌+◌, ◌*◌, ◌/◌, ◌^◌, ◌≤◌, ◌<◌, Bool, true, false, not, ◌≡◌, refl, ap, Option, none,
  some, arith, ◌==◌, leb→le, le→leb,
}
use native.Mathlib.Nat.{
  pow-suc, le_refl, mul-le-mul, mul-div_right, le_trans, le-div_iff_mul-le, div-mul-le_self,
}
use robstride_ros.Prelude.Int.{ℤ, pos, negsuc, pos_part, neg_part, sub_ℕ, leb_ℤ, ◌≤ℤ◌}
use robstride_ros.Double.{Double}
use robstride_ros.Double.Laws.{IsIeee}

abbrev pub Fixed : Type 0
Fixed = Option ℤ

-- The floor of a quotient by a positive number.
abbrev pub floor_div : ℤ → ℕ → ℤ
floor_div (pos n) k = pos (n / k)
floor_div (negsuc n) k = negsuc (n / k)

abbrev neg_ℤ : ℤ → ℤ
neg_ℤ a = sub_ℕ (neg_part a) (pos_part a)

abbrev mul_ℤ : ℤ → ℤ → ℤ
mul_ℤ a b =
    sub_ℕ (pos_part a * pos_part b + neg_part a * neg_part b)
      (pos_part a * neg_part b + neg_part a * pos_part b)

abbrev pub lift₂ {ℓ} : {A : Type ℓ} → A → (ℤ → ℤ → A) → Fixed → Fixed → A
lift₂ bad f (some a) (some b) = f a b
lift₂ bad f _ _ = bad

abbrev lift₁ : (ℤ → ℤ) → Fixed → Fixed
lift₁ f none = none
lift₁ f (some a) = some (f a)

abbrev over_ℤ : ℤ → ℤ → Fixed
over_ℤ a (pos zero) = none
over_ℤ a (pos (suc n)) = some (floor_div (mul_ℤ a (pos 1000)) (suc n))
over_ℤ a (negsuc n) = some (floor_div (mul_ℤ (neg_ℤ a) (pos 1000)) (suc n))

abbrev lround_fixed : Fixed → ℤ
lround_fixed none = pos 0
lround_fixed (some a) = floor_div (sub_ℕ (pos_part a + 500) (neg_part a)) 1000

abbrev finite_fixed : Fixed → Bool
finite_fixed none = false
finite_fixed (some a) = true

instance abbrev pub fixed_double : Double Fixed
fixed_double = record {
  of_ℕ = λ n. some (pos (n * 1000));
  nan = none;
  decimal = λ n k. some (pos (n * 1000 / 10 ^ k));
  tenth = some (pos 100);
  isfinite = finite_fixed;
  le = lift₂ false leb_ℤ;
  lt = lift₂ false (λ a b. not (leb_ℤ b a));
  eq = lift₂ false (λ a b. pos_part a + neg_part b == pos_part b + neg_part a);
  neg = lift₁ neg_ℤ;
  abs = lift₁ (λ a. pos (pos_part a + neg_part a));
  plus = lift₂ none (λ a b. some (sub_ℕ (pos_part a + pos_part b) (neg_part a + neg_part b)));
  minus = lift₂ none (λ a b. some (sub_ℕ (pos_part a + neg_part b) (neg_part a + pos_part b)));
  times = lift₂ none (λ a b. some (floor_div (mul_ℤ a b) 1000));
  over = lift₂ none over_ℤ;
  lround = lround_fixed;
  next_down = lift₁ (λ a. sub_ℕ (pos_part a) (neg_part a + 1));
  next_up = lift₁ (λ a. sub_ℕ (pos_part a + 1) (neg_part a));
}

over_self_ℤ :
    (x : Fixed)
    → fixed_double.isfinite x ≡ true
    → fixed_double.lt (some (pos 0)) x ≡ true
    → fixed_double.over x x ≡ some (pos 1000)
over_self_ℤ none f h = cc
over_self_ℤ (some (pos zero)) f h = ground arith
over_self_ℤ (some (pos (suc n))) f h = ground (arith, mul-div_right 1000 {m = suc n} (omega arith))
over_self_ℤ (some (negsuc n)) f h = ground arith

div_mono : {a b k : ℕ} → a ≤ b → 0 < k → a / k ≤ b / k
div_mono {a} {k = k} h p = (le-div_iff_mul-le p).1 (le_trans (div-mul-le_self a k) h)

floor_div_mono : (a b : ℤ) (k : ℕ) → a ≤ℤ b → 0 < k → floor_div a k ≤ℤ floor_div b k
floor_div_mono (pos a) (pos b) k h p =
    omega (arith, div_mono {a = a} {b = b} {k = k} (omega arith) p)
floor_div_mono (negsuc a) (negsuc b) k h p =
    omega (arith, div_mono {a = b} {b = a} {k = k} (omega arith) p)
floor_div_mono (pos a) (negsuc b) k h p = omega arith
floor_div_mono (negsuc a) (pos b) k h p = omega arith

mul_ℤ_mono : (a b : ℤ) (k : ℕ) → a ≤ℤ b → mul_ℤ a (pos k) ≤ℤ mul_ℤ b (pos k)
mul_ℤ_mono (pos a) (pos b) k h = ground (arith, mul-le-mul h (le_refl k))
mul_ℤ_mono (negsuc a) (negsuc b) k h =
    let more : suc b ≤ suc a = omega arith in ground (arith, mul-le-mul more (le_refl k))
mul_ℤ_mono (pos a) (negsuc b) k h = absurd (omega arith)
mul_ℤ_mono (negsuc a) (pos b) k h = ground arith

over_ℤ_mono :
    (a b c : ℤ)
    → leb_ℤ c (pos 0) ≡ false
    → a ≤ℤ b
    → fixed_double.le (over_ℤ a c) (over_ℤ b c) ≡ true
over_ℤ_mono a b (pos zero) p h = ground arith
over_ℤ_mono a b (pos (suc n)) p h = ground (
  arith,
  floor_div_mono (mul_ℤ a (pos 1000)) (mul_ℤ b (pos 1000)) (suc n) (mul_ℤ_mono a b 1000 h),
)
over_ℤ_mono a b (negsuc n) p h = ground arith

over_fixed_mono :
    (x y z : Fixed)
    → finite_fixed x ≡ true
    → finite_fixed y ≡ true
    → finite_fixed z ≡ true
    → fixed_double.lt (some (pos 0)) z ≡ true
    → fixed_double.le x y ≡ true
    → fixed_double.le (fixed_double.over x z) (fixed_double.over y z) ≡ true
over_fixed_mono (some a) (some b) (some c) _ _ _ p h =
    over_ℤ_mono a b c (ground arith) (leb→le _ _ h)
over_fixed_mono _ _ _ f g k p h = ground arith

times_fixed_mono :
    (n : ℕ) (x y : Fixed)
    → n ≤ 65535
    → finite_fixed x ≡ true
    → finite_fixed y ≡ true
    → fixed_double.le x y ≡ true
    → fixed_double.le
        (fixed_double.times x (some (pos (n * 1000))))
        (fixed_double.times y (some (pos (n * 1000))))
      ≡ true
times_fixed_mono n (some a) (some b) _ _ _ h =
    let le = mul_ℤ_mono a b (n * 1000) (leb→le _ _ h) in
    le→leb _ _ (floor_div_mono _ _ 1000 le (omega arith))
times_fixed_mono n _ _ _ f g h = ground arith

ten_pow_pos : (k : ℕ) → 0 < 10 ^ k
ten_pow_pos zero = omega arith
ten_pow_pos (suc k) = omega (arith, ten_pow_pos k, pow-suc 10 k)

decimal_fixed_pos :
    (n k : ℕ) → 10 ^ k ≤ n → fixed_double.lt (some (pos 0)) (some (pos (n * 1000 / 10 ^ k))) ≡ true
decimal_fixed_pos n k h =
    let positive : 0 < n * 1000 / 10 ^ k =
      (le-div_iff_mul-le {x = 1} {y = n * 1000} (ten_pow_pos k)).1 (omega arith) in
    ground (arith, positive)

neg_fixed_pos :
    (x : Fixed)
    → fixed_double.isfinite x ≡ true
    → fixed_double.lt (some (pos 0)) x ≡ true
    → (fixed_double.isfinite (fixed_double.neg x) ≡ true)
      × (fixed_double.lt (fixed_double.neg x) (some (pos 0)) ≡ true)
neg_fixed_pos x f h = ground arith

pub Fixed-IsIeee : IsIeee Fixed
Fixed-IsIeee = record {
  finite_of_ℕ = λ n h. refl;
  of_ℕ-decimal = λ n h. ap (λ m. some (pos m)) (omega arith);
  decimal_pos = λ n k h b. (refl, decimal_fixed_pos n k h);
  neg_pos = neg_fixed_pos;
  le_finite = ground arith;
  le_trans = ground arith;
  finite_between = ground arith;
  lt-eq-not-le = ground arith;
  le_total = ground arith;
  minus_self = ground arith;
  minus_pos = ground arith;
  minus_mono = ground arith;
  over_self = over_self_ℤ;
  nought_over = ground arith;
  over_mono = over_fixed_mono;
  nought_times = ground arith;
  one_times = ground arith;
  times_mono = times_fixed_mono;
  lround_of_ℕ = ground arith;
  lround_mono = ground arith;
}

-- ===== src/Config/Digits.antt =====
-- Numbers written in decimal digits, as `parse_integer` reads them.
use robstride_ros.Prelude.{
  ℕ, suc, ◌+◌, ◌-◌, ◌*◌, ◌^◌, ◌≤◌, ◌<◌, true, false, none, some, [], ◌∷◌, ◌++◌, ◌≡◌, ◌≢◌, ◌⊎◌, inl,
  inr, refl, ap, arith, if◌then◌else◌, ◌&&◌, leb, ltb, ◌==◌, length, all, All, Text, u64_mod,
}
use native.Mathlib.Nat.{add-mul, mul_assoc, add_assoc, zero-mul, pow-succ'}
use robstride_ros.Config.Numbers.{
  is_space, drop_spaces, drop_last_spaces, trimmed, read_digits, digit_value, stoull, parse_integer,
  unsigned_digits, digits_after,
}

abbrev pub IsDigit : ℕ → Type 0
IsDigit c = (b'0' ≤ c) × (c ≤ b'9')

-- The value of decimal digits, the most significant first.
unfoldable pub value_of : Text → ℕ
value_of [] = 0
value_of (c ∷ text) = (c - b'0') * 10 ^ length text + value_of text

is_space-digit : (c : ℕ) → IsDigit c → is_space c ≡ false
is_space-digit c h = ground arith

digit_value-digit : (c : ℕ) → IsDigit c → digit_value c ≡ c - b'0'
digit_value-digit c h = ground arith

drop_spaces-append :
    (spaces text : Text)
    → all is_space spaces ≡ true
    → drop_spaces (spaces ++ text) ≡ drop_spaces text
unfolding drop_spaces
drop_spaces-append [] text h = refl
drop_spaces-append (c ∷ spaces) text h =
    let rest = drop_spaces-append spaces text in ground (arith, h, rest)

drop_spaces-digit : (c : ℕ) (text : Text) → IsDigit c → drop_spaces (c ∷ text) ≡ c ∷ text
unfolding drop_spaces
drop_spaces-digit c text h = rw (is_space-digit c h) refl

drop_last_spaces-spaces :
    (spaces : Text) → all is_space spaces ≡ true → drop_last_spaces spaces ≡ []
unfolding drop_last_spaces
drop_last_spaces-spaces [] h = refl
drop_last_spaces-spaces (c ∷ spaces) h =
    let rest = drop_last_spaces-spaces spaces in ground (arith, h, rest)

drop_last_spaces-digits :
    (digits spaces : Text)
    → All IsDigit digits
    → all is_space spaces ≡ true
    → drop_last_spaces (digits ++ spaces) ≡ digits
unfolding drop_last_spaces
drop_last_spaces-digits [] spaces p h = drop_last_spaces-spaces spaces h
drop_last_spaces-digits (c ∷ digits) spaces (one, p) h =
    rw (drop_last_spaces-digits digits spaces p h, is_space-digit c one) refl

append_digit : (acc d p v : ℕ) → (acc * 10 + d) * p + v ≡ acc * (10 * p) + (d * p + v)
append_digit acc d p v =
    rw (add-mul (acc * 10) d p, mul_assoc acc 10 p) (add_assoc (acc * (10 * p)) (d * p) v)

read_digits-digits :
    (acc : ℕ) (digits : Text)
    → All IsDigit digits
    → read_digits 10 acc digits ≡ (acc * 10 ^ length digits + value_of digits, length digits)
unfolding read_digits value_of
read_digits-digits acc [] p = ap (λ n. (n, 0)) (omega arith)
read_digits-digits acc (c ∷ digits) (one, p) =
    let rest = read_digits-digits (acc * 10 + digit_value c) digits p in
    let value : digit_value c ≡ c - b'0' = digit_value-digit c one in
    let below : ltb (digit_value c) 10 ≡ true = ground (arith, value) in
    let carry = append_digit acc (c - b'0') (10 ^ length digits) (value_of digits) in
    rw (below, rest, value) (ground (arith, carry, pow-succ' 10 (length digits)))

-- `std::stoull` takes digits to be decimal if it is told so, or told to go by the prefix and there
-- is none.
unsigned_digits-decimal :
    (base c : ℕ) (digits : Text)
    → (base ≡ 10) ⊎ ((base ≡ 0) × (c ≢ b'0'))
    → unsigned_digits base 0 (c ∷ digits) ≡ digits_after 0 10 (c ∷ digits)
unsigned_digits-decimal base c digits (inl ten) = ground (arith, ten)
unsigned_digits-decimal base c [] (inr (zero_base, c≢0)) = ground (arith, zero_base, c≢0)
unsigned_digits-decimal base c (x ∷ []) (inr (zero_base, c≢0)) = ground (arith, zero_base, c≢0)
unsigned_digits-decimal base c (x ∷ h ∷ digits) (inr (zero_base, c≢0)) =
    ground (arith, zero_base, c≢0)

stoull-decimal :
    (base c : ℕ) (digits : Text)
    → IsDigit c
    → All IsDigit digits
    → (base ≡ 10) ⊎ ((base ≡ 0) × (c ≢ b'0'))
    → stoull base (c ∷ digits) ≡ (
        if leb u64_mod (value_of (c ∷ digits))
        then none
        else some (value_of (c ∷ digits), suc (length digits)))
unfolding stoull
stoull-decimal base c digits dc ds b =
    let chosen = unsigned_digits-decimal base c digits b in
    let read = read_digits-digits 0 (c ∷ digits) (dc, ds) in
    let no_plus : (c == b'+') ≡ false = ground (arith, dc) in
    rw (no_plus, chosen, read) (ground (arith, zero-mul (10 ^ suc (length digits))))

-- A number that is written in decimal digits, with spaces around it or not, is read as its value if
-- that is within the bounds, of which the upper is one of 64 bits, and is refused otherwise. By the
-- prefix, that is for base 0, the first digit must not be 0.
pub parse_integer-decimal :
    (before after digits : Text) (c lo hi base : ℕ)
    → all is_space before ≡ true
    → all is_space after ≡ true
    → IsDigit c
    → All IsDigit digits
    → (base ≡ 10) ⊎ ((base ≡ 0) × (c ≢ b'0'))
    → hi < u64_mod
    → parse_integer (before ++ ((c ∷ digits) ++ after)) lo hi base ≡ (
        if leb lo (value_of (c ∷ digits)) && leb (value_of (c ∷ digits)) hi
        then some (value_of (c ∷ digits))
        else none)
unfolding parse_integer trimmed
parse_integer-decimal before after digits c lo hi base sb sa dc ds b small =
    let front = drop_spaces-append before ((c ∷ digits) ++ after) sb in
    let here : drop_spaces ((c ∷ digits) ++ after) ≡ (c ∷ digits) ++ after =
      drop_spaces-digit c (digits ++ after) dc in
    let back = drop_last_spaces-digits (c ∷ digits) after (dc, ds) sa in
    rw (front, here, back, stoull-decimal base c digits dc ds b) (ground (arith, dc))

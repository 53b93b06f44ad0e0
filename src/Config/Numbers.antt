-- ===== src/Config/Numbers.antt =====
-- robstride_ros2_control/src/driver_config.cpp: texts to numbers and Booleans. `std::stoull` is
-- written out as C++17 has it, for the bases that the program asks for: 10, and 0 for "by the
-- prefix".
use robstride_ros.Prelude.{
  ℕ, ◌+◌, ◌-◌, ◌*◌, Bool, true, false, not, ◌&&◌, ◌||◌, Option, none, some, [], ◌∷◌, if◌then◌else◌,
  ◌==◌, ltb, leb, length, is_empty, all, Text, bytes, text_eq, u64_mod, ◌>>=◌, ◌>>◌, require,
}
use robstride_ros.Double.{Double}

-- One of " \t\r\n\f\v", which are also the characters of `std::isspace`.
abbrev pub is_space : ℕ → Bool
is_space c = c == 32 || (leb 9 c && leb c 13)

-- One of " \t\r\n".
abbrev pub is_line_space : ℕ → Bool
is_line_space c = c == 32 || c == 9 || c == 13 || c == 10

unfoldable pub drop_spaces : Text → Text
drop_spaces [] = []
drop_spaces (c ∷ text) = let rest = drop_spaces text in if is_space c then rest else c ∷ text

unfoldable pub drop_last_spaces : Text → Text
drop_last_spaces [] = []
drop_last_spaces (c ∷ text) =
    let rest = drop_last_spaces text in if is_space c && is_empty rest then [] else c ∷ rest

unfoldable pub trimmed : Text → Text
unfolding drop_spaces drop_last_spaces
trimmed text = drop_last_spaces (drop_spaces text)

unfoldable pub is_blank : Text → Bool
is_blank value = all is_line_space value

-- The value of a digit or letter; 36 for any other character.
abbrev pub digit_value : ℕ → ℕ
digit_value c =
    if leb b'0' c && leb c b'9'
    then c - b'0'
    else if leb b'a' c && leb c b'z'
    then c - b'a' + 10
    else if leb b'A' c && leb c b'Z'
    then c - b'A' + 10
    else 36

-- The value of the digits in front, continuing the value `acc`, and their number.
unfoldable pub read_digits : ℕ → ℕ → Text → ℕ × ℕ
read_digits base acc [] = (acc, 0)
read_digits base acc (c ∷ text) =
    let rest = read_digits base (acc * base + digit_value c) text in
    if ltb (digit_value c) base then (rest.0, rest.1 + 1) else (acc, 0)

-- Digits, as `std::stoull` wants them: one at least, and a value of 64 bits; `skipped` bytes stand
-- before.
abbrev pub digits_after : ℕ → ℕ → Text → Option (ℕ × ℕ)
digits_after skipped base text =
    let (value, count) = read_digits base 0 text in
    if count == 0 || leb u64_mod value then none else some (value, skipped + count)

abbrev pub is_x : ℕ → Bool
is_x c = c == b'x' || c == b'X'

-- By the prefix, if `base` is 0. A prefix `0x` needs a digit behind it.
abbrev pub prefixed_digits : ℕ → Text → Option (ℕ × ℕ)
prefixed_digits skipped (z ∷ x ∷ h ∷ text) =
    if z == b'0' && is_x x && ltb (digit_value h) 16
    then digits_after (skipped + 2) 16 (h ∷ text)
    else if z == b'0'
    then digits_after skipped 8 (z ∷ x ∷ h ∷ text)
    else digits_after skipped 10 (z ∷ x ∷ h ∷ text)
prefixed_digits skipped (z ∷ x ∷ []) =
    if z == b'0' then digits_after skipped 8 (z ∷ x ∷ []) else digits_after skipped 10 (z ∷ x ∷ [])
prefixed_digits skipped (z ∷ []) =
    if z == b'0' then digits_after skipped 8 (z ∷ []) else digits_after skipped 10 (z ∷ [])
prefixed_digits skipped [] = none

abbrev pub unsigned_digits : ℕ → ℕ → Text → Option (ℕ × ℕ)
unsigned_digits base skipped text =
    if base == 0 then prefixed_digits skipped text else digits_after skipped base text

-- `std::stoull(text, &consumed, base)` for a text without spaces in front and without a minus sign.
unfoldable pub stoull : ℕ → Text → Option (ℕ × ℕ)
stoull base [] = none
stoull base (c ∷ text) =
    if c == b'+' then unsigned_digits base 1 text else unsigned_digits base 0 (c ∷ text)

abbrev starts_with_minus : Text → Bool
starts_with_minus [] = false
starts_with_minus (c ∷ text) = c == b'-'

unfoldable pub parse_integer : Text → ℕ → ℕ → ℕ → Option ℕ
unfolding stoull
parse_integer text minimum maximum base = do
  let value_text = trimmed text
  require (not (is_empty value_text || starts_with_minus value_text))
  (value, consumed) ← stoull base value_text
  require (not (not (consumed == length value_text) || ltb value minimum || ltb maximum value))
  some value

unfoldable pub parse_bool : Text → Option Bool
parse_bool value =
    if text_eq value (bytes "true") || text_eq value (bytes "1")
    then some true
    else if text_eq value (bytes "false") || text_eq value (bytes "0")
    then some false
    else none

module _ {W : Type 0} ⦃d : Double W⦄ (stod : Text → Option (W × ℕ)) where
  unfoldable pub parse_number : Text → Option W
  parse_number text = do
    let value_text = trimmed text
    (value, consumed) ← stod value_text
    require (not (not (consumed == length value_text) || not (d.isfinite value)))
    some value

-- ===== src/Base/Decimal.antt =====
-- Decimal texts of numbers: `to_string` of the integer types, and `parse`.
use heklang.Base.{
  ℕ, zero, suc, ◌+◌, ◌-◌, ◌*◌, ◌/◌, ◌%◌, Bool, true, false, ◌&&◌, Option, none, some, [], ◌∷◌, ◌++◌,
  ltb, leb, if◌then◌else◌, ◌==◌,
}
use heklang.Base.Int.{ℤ, pos, negsuc, neg, abs}
use heklang.Base.Text.{Text}

-- The decimal digits of a number below `10 ^ f`.
unfoldable pub digits : ℕ → ℕ → Text → Text
digits zero n more = more
digits (suc f) n more =
    let rest = digits f (n / 10) ((b'0' + n % 10) ∷ more) in
    if ltb n 10 then (b'0' + n) ∷ more else rest

-- A `u64` has twenty digits at most.
unfoldable pub nat_text : ℕ → Text
nat_text n = digits 20 n []

abbrev pub sign_text : ℤ → Text
sign_text (pos n) = []
sign_text (negsuc n) = b'-' ∷ []

-- `i64::to_string`
unfoldable pub int_text : ℤ → Text
int_text n = sign_text n ++ nat_text (abs n)

-- `is_ascii_digit`
abbrev pub is_digit : ℕ → Bool
is_digit c = leb b'0' c && leb c b'9'

-- The number that digits write, behind those that are read.
unfoldable pub read_digits : ℕ → Text → Option ℕ
read_digits n [] = some n
read_digits n (c ∷ s) = elim (is_digit c) [
  | true ↦ read_digits (n * 10 + (c - b'0')) s
  | false ↦ none
]

-- What `parse` of an integer type reads before its range is checked: digits, and a sign before them.
unfoldable pub read_unsigned : Text → Option ℕ
read_unsigned [] = none
read_unsigned (c ∷ s) = read_digits 0 (c ∷ s)

abbrev pub negated : Option ℕ → Option ℤ
negated none = none
negated (some n) = some (neg (pos n))

abbrev pub positive : Option ℕ → Option ℤ
positive none = none
positive (some n) = some (pos n)

unfoldable pub read_signed : Text → Option ℤ
read_signed [] = none
read_signed (c ∷ s) =
    if c == b'-'
    then negated (read_unsigned s)
    else if c == b'+'
    then positive (read_unsigned s)
    else positive (read_unsigned (c ∷ s))

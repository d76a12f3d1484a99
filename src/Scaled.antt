-- ===== src/Scaled.antt =====
-- src/scaled.rs: the arithmetic of `Int`, `Decimal` and `Money` units. An `i64` and an `i128` are
-- integers with their range tested where the source tests it. `round_div` and `exact_div` divide
-- in `i128`, where `/` overflows only at the least value over -1: `Scaled.Range` has the
-- bounds of what the callers pass.
pub mod Signed
pub mod Range
pub mod Round
pub mod Exact
pub mod Rates
use heklang.Base.{
  ℕ, zero, suc, ◌+◌, ◌-◌, ◌*◌, ◌/◌, ◌%◌, ◌^◌, ◌≡◌, refl, Bool, true, false, not, ◌&&◌, Option, none,
  some, [], ◌∷◌, ◌++◌, ltb, leb, ◌==◌, if◌then◌else◌, length, replicate,
}
use heklang.Base.Int.{
  ℤ, pos, negsuc, abs, is_neg, ◌+ℤ◌, ◌-ℤ◌, ◌*ℤ◌, neg as neg_ℤ, quot, rem as rem_ℤ, eqb_ℤ,
}
use heklang.Base.Text.{Text}

pub data Rounding : Type 0 where
  half_up half_even down : Rounding

pub data Error : Type 0 where
  overflow division_by_zero inexact : Error

-- `Result<A, Error>`
pub data Result {ℓ} (A : Type ℓ) : Type ℓ where
  ok : A → Result A
  err : Error → Result A

infixl 5 ◌>>=◌
abbrev pub ◌>>=◌ {ℓ κ} : {A : Type ℓ} {B : Type κ} → Result A → (A → Result B) → Result B
ok a >>= f = f a
err e >>= f = err e

module _ {ℓ κ} {X : Type ℓ} {Y : Type κ} (next : X → Result Y) (y : Y) where
  -- What succeeds with `y` went through a value of the first step.
  pub >>=-eq-ok : (r : Result X) → r >>= next ≡ ok y → (x : X) × (next x ≡ ok y) × (r ≡ ok x)
  >>=-eq-ok (err e) h = absurd cc
  >>=-eq-ok (ok x) h = (x, h, refl)

-- `Option::ok_or`
abbrev pub ok_or {ℓ} : {A : Type ℓ} → Option A → Error → Result A
ok_or none e = err e
ok_or (some a) e = ok a

-- -2 ^ (w - 1) to 2 ^ (w - 1) - 1, given as 2 ^ (w - 1)
abbrev pub in_range : ℕ → ℤ → Bool
in_range half (pos n) = ltb n half
in_range half (negsuc n) = ltb n half

abbrev pub i64_half : ℕ
i64_half = 9_223_372_036_854_775_808

abbrev pub i128_half : ℕ
i128_half = 170_141_183_460_469_231_731_687_303_715_884_105_728

-- An exact result, or `None` where the machine's would wrap: `checked_add` and the like.
unfoldable pub checked_i64 : ℤ → Option ℤ
checked_i64 z = if in_range i64_half z then some z else none

unfoldable pub checked_i128 : ℤ → Option ℤ
checked_i128 z = if in_range i128_half z then some z else none

abbrev pub ratio_scale : ℕ
ratio_scale = 6

abbrev pub max_scale : ℕ
max_scale = 18

unfoldable pub add : ℤ → ℤ → Result ℤ
unfolding checked_i64
add lhs rhs = ok_or (checked_i64 (lhs +ℤ rhs)) overflow

unfoldable pub sub : ℤ → ℤ → Result ℤ
unfolding checked_i64
sub lhs rhs = ok_or (checked_i64 (lhs -ℤ rhs)) overflow

unfoldable pub mul : ℤ → ℤ → Result ℤ
unfolding checked_i64
mul lhs rhs = ok_or (checked_i64 (lhs *ℤ rhs)) overflow

-- `checked_div` fails where the quotient does not fit.
unfoldable pub div : ℤ → ℤ → Result ℤ
unfolding checked_i64
div lhs rhs =
    if eqb_ℤ rhs (pos 0) then err division_by_zero else ok_or (checked_i64 (quot lhs rhs)) overflow

-- `checked_rem` fails where the quotient does not fit, although the remainder would.
unfoldable pub rem : ℤ → ℤ → Result ℤ
unfolding checked_i64
rem lhs rhs =
    if eqb_ℤ rhs (pos 0)
    then err division_by_zero
    else do _ ← ok_or (checked_i64 (quot lhs rhs)) overflow; ok (rem_ℤ lhs rhs)

unfoldable pub neg : ℤ → Result ℤ
unfolding checked_i64
neg units = ok_or (checked_i64 (neg_ℤ units)) overflow

unfoldable pub pow10 : ℕ → Result ℤ
unfolding checked_i128
pow10 scale = ok_or (checked_i128 (pos (10 ^ scale))) overflow

unfoldable pub fit : ℤ → Result ℤ
unfolding checked_i64
fit value = ok_or (checked_i64 value) overflow

unfoldable pub product : ℤ → ℤ → Result ℤ
unfolding checked_i128
product units factor_units = ok_or (checked_i128 (units *ℤ factor_units)) overflow

-- `away` is the step from the truncated quotient to the next one further from zero.
unfoldable pub away : ℤ → ℤ → ℤ
away numerator denominator = elim (is_neg numerator) [
  | true ↦ if is_neg denominator then pos 1 else negsuc 0
  | false ↦ if is_neg denominator then negsuc 0 else pos 1
]

-- The `match rounding` of `round_div`.
unfoldable pub adjust : Rounding → (twice magnitude : ℕ) (quotient step : ℤ) → ℤ
adjust down twice magnitude quotient step = pos 0
adjust half_up twice magnitude quotient step = if leb magnitude twice then step else pos 0
adjust half_even twice magnitude quotient step =
    if ltb magnitude twice
    then step
    else if ltb twice magnitude
    then pos 0
    else if not (eqb_ℤ (rem_ℤ quotient (pos 2)) (pos 0))
    then step
    else pos 0

unfoldable pub round_div : ℤ → ℤ → Rounding → Result ℤ
unfolding away adjust fit checked_i128
round_div numerator denominator rounding =
    let quotient = quot numerator denominator in
    let remainder = rem_ℤ numerator denominator in
    let step =
      adjust rounding (abs remainder * 2) (abs denominator) quotient (away numerator denominator) in
    if eqb_ℤ denominator (pos 0)
    then err division_by_zero
    else if eqb_ℤ remainder (pos 0)
    then fit quotient
    else do q ← ok_or (checked_i128 (quotient +ℤ step)) overflow; fit q

unfoldable pub exact_div : ℤ → ℤ → Result ℤ
unfolding fit
exact_div numerator denominator =
    if eqb_ℤ denominator (pos 0)
    then err division_by_zero
    else if not (eqb_ℤ (rem_ℤ numerator denominator) (pos 0))
    then err inexact
    else fit (quot numerator denominator)

unfoldable pub rescale : ℤ → (from to : ℕ) → Result ℤ
rescale units from to =
    if to == from
    then ok units
    else if ltb from to
    then (do
      p ← pow10 (to - from)
      widened ← ok_or (checked_i128 (units *ℤ p)) overflow
      fit widened)
    else do p ← pow10 (from - to); round_div units p half_up

unfoldable pub mul_ratio : (units factor_units : ℤ) → ℕ → Rounding → Result ℤ
mul_ratio units factor_units factor_scale rounding = do
  n ← product units factor_units
  p ← pow10 factor_scale
  round_div n p rounding

unfoldable pub mul_ratio_exact : (units factor_units : ℤ) → ℕ → Result ℤ
mul_ratio_exact units factor_units factor_scale = do
  n ← product units factor_units
  p ← pow10 factor_scale
  exact_div n p

unfoldable pub div_round : (units divisor : ℤ) → Rounding → Result ℤ
div_round units divisor rounding = round_div units divisor rounding

unfoldable pub div_exact : (units divisor : ℤ) → Result ℤ
div_exact units divisor = exact_div units divisor

unfoldable pub ratio : (numerator denominator : ℤ) → ℕ → Result ℤ
ratio numerator denominator scale = do
  p ← pow10 scale
  n ← ok_or (checked_i128 (numerator *ℤ p)) overflow
  round_div n denominator half_up

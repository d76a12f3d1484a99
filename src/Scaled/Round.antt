-- ===== src/Scaled/Round.antt =====
-- src/scaled.rs, `round_div`: what the rounded quotient is.
use native.Mathlib.Nat.{div-add-mod', mod-lt}
use heklang.Base.{
  Bool-cases, ltb→lt, leb→le, lt→ltb, some, ltb, leb, ◌==◌, if◌then◌else◌, ℕ, ◌+◌, ◌-◌, ◌*◌, ◌/◌,
  ◌%◌, ◌≤◌, ◌<◌, ◌≡◌, sym, ap, ==_iff, ◌≢◌, ◌⊎◌, inl, inr, arith,
}
use heklang.Base.Int.{ℤ, pos, abs, is_neg, ◌+ℤ◌, ◌-ℤ◌, ◌*ℤ◌, rem as rem_ℤ, eqb_ℤ}
use heklang.Scaled.Signed.{
  toward, quot-signed, rem-signed, toward-*, abs-signed, abs-signed_sub, exact-signed, nonzero_test,
  abs-ne-zero, ne-zero_of_test,
}
use heklang.Scaled.{
  Rounding, half_up, half_even, down, i128_half, fit, round_div, away, adjust, checked_i128,
}

toward-step : (n d : ℤ) (m : ℕ) → toward n d m +ℤ away n d ≡ toward n d (m + 1)
unfolding ◌+ℤ◌ away
toward-step n d m = ground arith

-- What `rounding` asks of a quotient `q` of `n` by `d`, with its error `n - q * d`: within one
-- divisor and not past `n`; or within half a divisor, and at exactly half a divisor not nearer to
-- zero than `n`; or within half a divisor, and at exactly half a divisor even.
abbrev pub IsRounded : Rounding → (n d q : ℤ) → Type 0
IsRounded down n d q = (abs (q *ℤ d) ≤ abs n) × (abs (n -ℤ q *ℤ d) < abs d)
IsRounded half_up n d q =
    (2 * abs (n -ℤ q *ℤ d) < abs d) ⊎ ((2 * abs (n -ℤ q *ℤ d) ≡ abs d) × (abs n ≤ abs (q *ℤ d)))
IsRounded half_even n d q =
    (2 * abs (n -ℤ q *ℤ d) < abs d) ⊎ ((2 * abs (n -ℤ q *ℤ d) ≡ abs d) × (rem_ℤ q (pos 2) ≡ pos 0))

-- The same on magnitudes.
abbrev IsRoundedAbs : Rounding → (n d m : ℕ) → Type 0
IsRoundedAbs down n d m = (m * d ≤ n) × ((n - m * d) + (m * d - n) < d)
IsRoundedAbs half_up n d m =
    (2 * ((n - m * d) + (m * d - n)) ≤ d) × (2 * ((n - m * d) + (m * d - n)) ≡ d → n ≤ m * d)
IsRoundedAbs half_even n d m =
    (2 * ((n - m * d) + (m * d - n)) ≤ d) × (2 * ((n - m * d) + (m * d - n)) ≡ d → m % 2 ≡ 0)

rem-toward : (n d : ℤ) (m : ℕ) → m % 2 ≡ 0 → rem_ℤ (toward n d m) (pos 2) ≡ pos 0
unfolding rem_ℤ
rem-toward n d m h = ground arith

error-toward :
    (n d : ℤ) (m : ℕ) → abs (n -ℤ toward n d m *ℤ d) ≡ (abs n - m * abs d) + (m * abs d - abs n)
error-toward n d m = rw (toward-* n d m) (abs-signed_sub n (m * abs d))

abs-toward-* : (n d : ℤ) (m : ℕ) → abs (toward n d m *ℤ d) ≡ m * abs d
abs-toward-* n d m = rw (toward-* n d m) (abs-signed (is_neg n) (m * abs d))

below_or_tie : {P : Type 0} (e d : ℕ) → e ≤ d → (e ≡ d → P) → (e < d) ⊎ ((e ≡ d) × P)
below_or_tie e d l tie = elim (Bool-cases (ltb e d)) [
  | inl h ↦ inl (ltb→lt e d h)
  | inr h ↦ let same : e ≡ d = ground arith in inr (same, tie same)
]

IsRounded-toward :
    (r : Rounding) (n d : ℤ) (m : ℕ)
    → IsRoundedAbs r (abs n) (abs d) m
    → IsRounded r n d (toward n d m)
IsRounded-toward down n d m h = rw (error-toward n d m, abs-toward-* n d m) h
IsRounded-toward half_up n d m h =
    rw (error-toward n d m, abs-toward-* n d m) (below_or_tie _ (abs d) h.0 h.1)
IsRounded-toward half_even n d m h =
    rw (error-toward n d m) (below_or_tie _ (abs d) h.0 λ e. rem-toward n d m (h.1 e))

-- The magnitude of the rounded quotient of magnitudes `n` and `d`.
magnitude : Rounding → (n d : ℕ) → ℕ
magnitude down n d = n / d
magnitude half_up n d = if leb d (n % d * 2) then n / d + 1 else n / d
magnitude half_even n d =
    if ltb d (n % d * 2)
    then n / d + 1
    else if ltb (n % d * 2) d
    then n / d
    else if n / d % 2 == 0
    then n / d
    else n / d + 1

error-down : (n d : ℕ) → (n - n / d * d) + (n / d * d - n) ≡ n % d
error-down n d = omega (arith, div-add-mod' n d)

error-up : (n d : ℕ) → 0 < d → (n - (n / d + 1) * d) + ((n / d + 1) * d - n) ≡ d - n % d
error-up n d h = omega (arith, div-add-mod' n d, mod-lt n h)

magnitude-IsRoundedAbs : (r : Rounding) (n d : ℕ) → 0 < d → IsRoundedAbs r n d (magnitude r n d)
unfolding magnitude
magnitude-IsRoundedAbs down n d h = omega (arith, div-add-mod' n d, mod-lt n h)
magnitude-IsRoundedAbs half_up n d h = elim (Bool-cases (leb d (n % d * 2))) [
  | inl e ↦ rw (e, error-up n d h) (omega (arith, leb→le _ _ e, mod-lt n h, div-add-mod' n d))
  | inr e ↦ rw (e, error-down n d) (ground arith)
]
magnitude-IsRoundedAbs half_even n d h = elim (Bool-cases (ltb d (n % d * 2))) [
  | inl e ↦ rw (e, error-up n d h) (omega (arith, ltb→lt _ _ e, mod-lt n h))
  | inr e ↦ rw e (elim (Bool-cases (ltb (n % d * 2) d)) [
    | inl f ↦ rw (f, error-down n d) (ground arith)
    | inr f ↦ rw f (elim (Bool-cases (n / d % 2 == 0)) [
      | inl g ↦ rw (g, error-down n d) (ground arith)
      | inr g ↦ rw (g, error-up n d h) (ground arith)
    ])
  ])
]

parity-toward : (n d : ℤ) (m : ℕ) → eqb_ℤ (rem_ℤ (toward n d m) (pos 2)) (pos 0) ≡ (m % 2 == 0)
unfolding rem_ℤ
parity-toward n d m = ground arith

toward-stay : (n d : ℤ) (m : ℕ) → toward n d m +ℤ pos 0 ≡ toward n d m
unfolding ◌+ℤ◌
toward-stay n d m = ground arith

-- The step of `round_div` leads from the truncated quotient to the rounded one.
adjust-magnitude :
    (r : Rounding) (n d : ℤ)
    → toward n d (abs n / abs d)
        +ℤ adjust r (abs n % abs d * 2) (abs d) (toward n d (abs n / abs d)) (away n d)
      ≡ toward n d (magnitude r (abs n) (abs d))
unfolding adjust magnitude
adjust-magnitude down n d = toward-stay n d _
adjust-magnitude half_up n d = elim (Bool-cases (leb (abs d) (abs n % abs d * 2))) [
  | inl e ↦ rw e (toward-step n d _)
  | inr e ↦ rw e (toward-stay n d _)
]
adjust-magnitude half_even n d = elim (Bool-cases (ltb (abs d) (abs n % abs d * 2))) [
  | inl e ↦ rw e (toward-step n d _)
  | inr e ↦ rw e (elim (Bool-cases (ltb (abs n % abs d * 2) (abs d))) [
    | inl f ↦ rw f (toward-stay n d _)
    | inr f ↦
        rw (f, parity-toward n d)
          (elim (Bool-cases (abs n / abs d % 2 == 0)) [
            | inl g ↦ rw g (toward-stay n d _)
            | inr g ↦ rw g (toward-step n d _)
          ])
  ])
]

magnitude-exact : (r : Rounding) (n d : ℕ) → n % d ≡ 0 → 0 < d → magnitude r n d ≡ n / d
unfolding magnitude
magnitude-exact r n d e h = ground arith

magnitude-le : (r : Rounding) (n d : ℕ) → 0 < d → n % d ≢ 0 → magnitude r n d ≤ n
unfolding magnitude
magnitude-le r n d h e =
    let step : n / d + 1 ≤ n = grind (arith, div-add-mod' n d) in ground (arith, step)

fits_i128 : (n d : ℤ) (m : ℕ) → m < i128_half → checked_i128 (toward n d m) ≡ some (toward n d m)
unfolding checked_i128
fits_i128 n d m h = ground (arith, lt→ltb m i128_half h)

-- The quotient that `round_div` hands to `fit`.
rounded : Rounding → (n d : ℤ) → ℤ
rounded r n d = toward n d (magnitude r (abs n) (abs d))

round_div-fit :
    (n d : ℤ) (r : Rounding) → d ≢ pos 0 → abs n < i128_half → round_div n d r ≡ fit (rounded r n d)
unfolding round_div rounded
round_div-fit n d r h lt = elim (Bool-cases (abs n % abs d == 0)) [
  | inl e ↦
      rw (nonzero_test d h, rem-signed, exact-signed, e, quot-signed)
        (ap (λ m. fit (toward n d m))
          (sym (magnitude-exact r _ _ ((==_iff _ 0).0 e) (abs-ne-zero d h))))
  | inr e ↦ rw (
    nonzero_test d h,
    rem-signed,
    exact-signed,
    e,
    quot-signed,
    abs-signed,
    adjust-magnitude r n d,
    fits_i128 n d (magnitude r (abs n) (abs d))
        (omega (arith, magnitude-le r (abs n) (abs d) (abs-ne-zero d h) (ne-zero_of_test _ e))),
  )
]

-- For a divisor other than zero and a numerator of 128 bits other than the least, `round_div` returns
-- a quotient that `rounding` asks for, or an overflow where an `i64` does not hold it.
pub round_div-IsRounded :
    (n d : ℤ) (r : Rounding)
    → d ≢ pos 0
    → abs n < i128_half
    → (q : ℤ) × IsRounded r n d q × (round_div n d r ≡ fit q)
unfolding rounded
round_div-IsRounded n d r h lt = (
  rounded r n d,
  IsRounded-toward r n d _ (magnitude-IsRoundedAbs r _ _ (abs-ne-zero d h)),
  round_div-fit n d r h lt,
)

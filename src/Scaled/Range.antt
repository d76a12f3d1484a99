-- ===== src/Scaled/Range.antt =====
-- src/scaled.rs: the range of the `i128` intermediate results, and changes of scale.
use native.Mathlib.Nat.{one-le-pow, pow-le-pow_right}
use native.Mathlib.Decide.{dec_lt}
use heklang.Base.{
  ℕ, ◌-◌, ◌*◌, ◌^◌, ◌<◌, ◌≤◌, ◌≡◌, ◌≢◌, refl, sym, true, false, arith, ◌==◌, ltb, lt→ltb,
}
use heklang.Base.Int.{ℤ, pos, abs, ◌*ℤ◌}
use heklang.Scaled.Signed.{nonzero_test}
use heklang.Scaled.Exact.{fit-eq-ok_iff, abs-*, quot-*, rem-*}
use heklang.Scaled.{
  ok, overflow, i64_half, i128_half, in_range, checked_i128, >>=-eq-ok, product, rescale, round_div,
  max_scale, pow10, ok_or, ◌>>=◌,
}

-- An `i64`.
abbrev pub IsI64 : ℤ → Type 0
IsI64 z = in_range i64_half z ≡ true

abs-le : (z : ℤ) → IsI64 z → abs z ≤ i64_half
abs-le z h = ground arith

in_range_of_abs : (half : ℕ) (z : ℤ) → abs z < half → in_range half z ≡ true
in_range_of_abs half z h = ground arith

*-le_mono : (a b c d : ℕ) → a ≤ c → b ≤ d → a * b ≤ c * d
*-le_mono a b c d h k = grind arith

pub product_small : (a b : ℤ) → IsI64 a → IsI64 b → abs (a *ℤ b) < i128_half
product_small a b ha hb =
    rw (abs-* a b) (omega (arith, *-le_mono (abs a) (abs b) _ _ (abs-le a ha) (abs-le b hb)))

-- `product` of two 64-bit integers is their exact product: it never overflows.
pub product_lem : (a b : ℤ) → IsI64 a → IsI64 b → product a b ≡ ok (a *ℤ b)
unfolding product checked_i128
product_lem a b ha hb = rw (in_range_of_abs i128_half (a *ℤ b) (product_small a b ha hb))

pow10-eq-ok : (k : ℕ) (p : ℤ) → pow10 k ≡ ok p → p ≡ pos (10 ^ k)
unfolding pow10 checked_i128
pow10-eq-ok k p h = ground arith

-- Every scale that a type may declare has its power of ten.
pub pow10_lem : (k : ℕ) → k ≤ max_scale → pow10 k ≡ ok (pos (10 ^ k))
unfolding pow10 checked_i128
pow10_lem k h =
    let small : 10 ^ k ≤ 10 ^ max_scale = pow-le-pow_right (omega arith) h in
    rw (lt→ltb (10 ^ k) i128_half (omega (arith, small)))

pub pow10-ne-zero : (k : ℕ) → pos (10 ^ k) ≢ pos 0
pow10-ne-zero k = ground (arith, one-le-pow k 10 (omega arith))

checked_i128-eq : (z w : ℤ) → ok_or (checked_i128 z) overflow ≡ ok w → z ≡ w
unfolding checked_i128
checked_i128-eq z w h = ground arith

-- Widening multiplies by the power of ten.
pub rescale_up :
    (units v : ℤ) (from to : ℕ)
    → from < to
    → rescale units from to ≡ ok v
    → (pow10 (to - from) ≡ ok (pos (10 ^ (to - from)))) × (v ≡ units *ℤ pos (10 ^ (to - from)))
unfolding rescale
rescale_up units v from to lt e =
    let tests : ((to == from) ≡ false) × (ltb from to ≡ true) = ground arith in
    let up = rw (tests.0, tests.1) at e in
    let (p, e', hp) = >>=-eq-ok _ _ (pow10 (to - from)) up in
    let (w, e'', hw) = >>=-eq-ok _ _ (ok_or (checked_i128 (units *ℤ p)) overflow) e' in
    let (same, _) = (fit-eq-ok_iff w v).0 e'' in
    let q = pow10-eq-ok (to - from) p hp in (cc, cc (checked_i128-eq (units *ℤ p) w hw))

-- Narrowing a multiple of the power of ten.
rescale_down :
    (units : ℤ) (from to : ℕ)
    → to < from
    → IsI64 units
    → pow10 (from - to) ≡ ok (pos (10 ^ (from - to)))
    → rescale (units *ℤ pos (10 ^ (from - to))) from to ≡ ok units
unfolding rescale round_div
rescale_down units from to lt hu e =
    let tests : ((to == from) ≡ false) × (ltb from to ≡ false) = ground arith in
    let p = pow10-ne-zero (from - to) in
    rw
      (
        tests.0,
        tests.1,
        e,
        ◌>>=◌,
        nonzero_test (pos (10 ^ (from - to))) p,
        rem-* units _ p,
        quot-* units _ p,
      )
      ((fit-eq-ok_iff units units).1 (refl, hu))

pub rescale_same : (units : ℤ) (from to : ℕ) → from ≡ to → rescale units from to ≡ ok units
unfolding rescale
rescale_same units from to h = ground arith

-- Where a 64-bit amount changes to a scale as wide or wider without an overflow, the change back
-- succeeds and gives the amount again.
pub rescale-rescale :
    (units v : ℤ) (from to : ℕ)
    → IsI64 units
    → from ≤ to
    → rescale units from to ≡ ok v
    → rescale v to from ≡ ok units
rescale-rescale units v from to hu le e = elim (dec_lt from to) [
  | yes lt ↦
      let (p, q) = rescale_up units v from to lt e in rw q (rescale_down units to from lt hu p)
  | no ge ↦
      let same : from ≡ to = omega arith in
      cc (rescale_same units from to same, rescale_same v to from (sym same))
]

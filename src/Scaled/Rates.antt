-- ===== src/Scaled/Rates.antt =====
-- src/scaled.rs: an amount at a rate, and the ratio of two amounts, end to end.
use native.Mathlib.Nat.{pow-le-pow_right}
use heklang.Base.{lt→ltb, ℕ, ◌^◌, ◌≤◌, ◌≡◌, ◌≢◌, ◌↔◌, arith, true}
use heklang.Base.Int.{ℤ, pos, ◌*ℤ◌}
use heklang.Scaled.Round.{IsRounded, round_div-IsRounded}
use heklang.Scaled.Exact.{exact_div-eq-ok_iff}
use heklang.Scaled.Range.{IsI64, product_lem, pow10_lem, pow10-ne-zero, product_small}
use heklang.Scaled.{
  Rounding, half_up, ok, fit, i64_half, in_range, mul_ratio, mul_ratio_exact, ratio, product,
  max_scale, ◌>>=◌, ok_or, checked_i128, overflow,
}

-- At a scale up to `max_scale`, `mul_ratio` of two 64-bit integers returns their exact product over the
-- power of ten, rounded as asked, or an overflow where an `i64` does not hold that.
pub mul_ratio-IsRounded :
    (units factor : ℤ) (scale : ℕ) (r : Rounding)
    → IsI64 units
    → IsI64 factor
    → scale ≤ max_scale
    → (q : ℤ) × IsRounded r (units *ℤ factor) (pos (10 ^ scale)) q
      × (mul_ratio units factor scale r ≡ fit q)
unfolding mul_ratio
mul_ratio-IsRounded units factor scale r hu hf hs =
    rw (product_lem units factor hu hf, ◌>>=◌, pow10_lem scale hs)
      (round_div-IsRounded (units *ℤ factor) (pos (10 ^ scale)) r (pow10-ne-zero scale)
        (product_small units factor hu hf))

-- At a scale up to `max_scale`, `mul_ratio_exact` of two 64-bit integers returns `q` just when `q`
-- times the power of ten is their product and an `i64` holds `q`.
pub mul_ratio_exact-eq-ok_iff :
    (units factor : ℤ) (scale : ℕ) (q : ℤ)
    → IsI64 units
    → IsI64 factor
    → scale ≤ max_scale
    → (mul_ratio_exact units factor scale ≡ ok q)
      ↔ ((q *ℤ pos (10 ^ scale) ≡ units *ℤ factor) × (in_range i64_half q ≡ true))
unfolding mul_ratio_exact
mul_ratio_exact-eq-ok_iff units factor scale q hu hf hs =
    rw (product_lem units factor hu hf, ◌>>=◌, pow10_lem scale hs)
      (exact_div-eq-ok_iff (units *ℤ factor) (pos (10 ^ scale)) q (pow10-ne-zero scale))

power-IsI64 : (scale : ℕ) → scale ≤ max_scale → IsI64 (pos (10 ^ scale))
power-IsI64 scale h =
    let small : 10 ^ scale ≤ 10 ^ max_scale = pow-le-pow_right (omega arith) h in
    lt→ltb (10 ^ scale) i64_half (omega (arith, small))

product_lem' : (a b : ℤ) → IsI64 a → IsI64 b → ok_or (checked_i128 (a *ℤ b)) overflow ≡ ok (a *ℤ b)
product_lem' a b ha hb = unfold product in product_lem a b ha hb

-- At a scale up to `max_scale`, `ratio` of a 64-bit integer and a divisor other than zero returns their
-- quotient at that scale rounded half away from zero, or an overflow where an `i64` does not hold it.
pub ratio-IsRounded :
    (numerator denominator : ℤ) (scale : ℕ)
    → IsI64 numerator
    → denominator ≢ pos 0
    → scale ≤ max_scale
    → (q : ℤ) × IsRounded half_up (numerator *ℤ pos (10 ^ scale)) denominator q
      × (ratio numerator denominator scale ≡ fit q)
unfolding ratio
ratio-IsRounded numerator denominator scale hn hd hs =
    let p = power-IsI64 scale hs in
    rw (pow10_lem scale hs, ◌>>=◌, product_lem' numerator (pos (10 ^ scale)) hn p)
      (round_div-IsRounded (numerator *ℤ pos (10 ^ scale)) denominator half_up hd
        (product_small numerator (pos (10 ^ scale)) hn p))

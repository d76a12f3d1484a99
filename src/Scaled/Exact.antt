-- ===== src/Scaled/Exact.antt =====
-- src/scaled.rs: `exact_div` and `rescale`.
use native.Mathlib.Nat.{div-add-mod', mul-div_cancel}
use heklang.Base.{
  ℕ, zero, suc, ◌*◌, ◌/◌, ◌%◌, ◌<◌, ◌≡◌, ◌≢◌, ◌↔◌, refl, sym, ap, ◌∙◌, true, arith, ◌==◌, ==_iff,
  Bool-cases, inl, inr,
}
use heklang.Base.Int.{ℤ, pos, negsuc, abs, is_neg, ◌*ℤ◌, quot, rem as rem_ℤ}
use heklang.Scaled.Signed.{
  signed, toward, signed-abs, quot-signed, rem-signed, toward-*, exact-signed, nonzero_test,
  abs-ne-zero,
}
use heklang.Scaled.{ok, err, inexact, fit, exact_div, i64_half, in_range, checked_i64}

-- `fit` keeps a value that an `i64` holds, and no other.
pub fit-eq-ok_iff : (z q : ℤ) → (fit z ≡ ok q) ↔ ((z ≡ q) × (in_range i64_half z ≡ true))
unfolding fit checked_i64
fit-eq-ok_iff z q = ground arith

mul-mod_self : (a d : ℕ) → 0 < d → a * d % d ≡ 0
mul-mod_self a d h = grind (arith, div-add-mod' (a * d) d, mul-div_cancel a h)

pub abs-* : (a b : ℤ) → abs (a *ℤ b) ≡ abs a * abs b
unfolding ◌*ℤ◌
abs-* a b = ground arith

product-pos : (a d : ℕ) → 0 < suc a * suc d
product-pos a d = omega arith

toward_product : (q d : ℤ) → d ≢ pos 0 → toward (q *ℤ d) d (abs q) ≡ q
unfolding ◌*ℤ◌
toward_product (pos a) (pos d) h = refl
toward_product (pos zero) (negsuc d) h = ground arith
toward_product (pos (suc a)) (negsuc d) h = ground (arith, product-pos a d)
toward_product (negsuc a) (pos zero) h = absurd (h refl)
toward_product (negsuc a) (pos (suc d)) h = ground (arith, product-pos a d)
toward_product (negsuc a) (negsuc d) h = ground arith

-- Dividing a product by its second factor gives the first one back, sign and all.
pub quot-* : (q d : ℤ) → d ≢ pos 0 → quot (q *ℤ d) d ≡ q
quot-* q d h =
    rw (quot-signed, abs-*, mul-div_cancel (abs q) (abs-ne-zero d h)) (toward_product q d h)

-- A product leaves no remainder.
pub rem-* : (q d : ℤ) → d ≢ pos 0 → rem_ℤ (q *ℤ d) d ≡ pos 0
rem-* q d h = rw (rem-signed, abs-*, mul-mod_self (abs q) (abs d) (abs-ne-zero d h)) (ground arith)

exact_div_sound :
    (n d q : ℤ) → d ≢ pos 0 → exact_div n d ≡ ok q → (q *ℤ d ≡ n) × (in_range i64_half q ≡ true)
unfolding exact_div
exact_div_sound n d q h e = elim (Bool-cases (abs n % abs d == 0)) [
  | inl z ↦
      let m : ℕ = abs n / abs d in
      let f : fit (toward n d m) ≡ ok q =
        rw (nonzero_test d h, rem-signed, exact-signed, z, quot-signed) at e in
      let (a, b) = (fit-eq-ok_iff (toward n d m) q).0 f in
      let whole : m * abs d ≡ abs n =
        omega (arith, div-add-mod' (abs n) (abs d), (==_iff _ 0).0 z) in
      (rw (← a, toward-* n d m) (ap (signed (is_neg n)) whole ∙ sym (signed-abs n)), rw (← a) b)
  | inr z ↦
      let f : err inexact ≡ ok q = rw (nonzero_test d h, rem-signed, exact-signed, z) at e in cc
]

exact_div_complete :
    (d q : ℤ) → d ≢ pos 0 → in_range i64_half q ≡ true → exact_div (q *ℤ d) d ≡ ok q
unfolding exact_div
exact_div_complete d q h r =
    rw (nonzero_test d h, rem-* q d h, quot-* q d h) ((fit-eq-ok_iff q q).1 (refl, r))

-- Over a divisor other than zero, `exact_div` returns `q` just when `q` times the divisor is the
-- numerator and an `i64` holds `q`.
pub exact_div-eq-ok_iff :
    (n d q : ℤ) → d ≢ pos 0 → (exact_div n d ≡ ok q) ↔ ((q *ℤ d ≡ n) × (in_range i64_half q ≡ true))
exact_div-eq-ok_iff n d q h =
    (exact_div_sound n d q h, λ (e, r). rw (← e) (exact_div_complete d q h r))

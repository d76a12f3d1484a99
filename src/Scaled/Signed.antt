-- ===== src/Scaled/Signed.antt =====
-- Integers by sign and magnitude, for the proofs about `round_div` and `exact_div`.
use heklang.Base.{
  ℕ, zero, suc, ◌+◌, ◌-◌, ◌*◌, ◌/◌, ◌%◌, ◌<◌, ◌≡◌, ◌≢◌, refl, ap, ◌∙◌, Bool, true, false, arith,
  ◌==◌,
}
use heklang.Base.Int.{ℤ, pos, abs, is_neg, sub_ℕ, ◌-ℤ◌, ◌*ℤ◌, quot, rem as rem_ℤ, eqb_ℤ}

-- `m` with the sign of `s`: negative where `s` is `true`.
abbrev pub signed : Bool → ℕ → ℤ
signed false m = pos m
signed true m = sub_ℕ 0 m

abbrev differ : Bool → Bool → Bool
differ true true = false
differ true false = true
differ false b = b

pub signed-abs : (z : ℤ) → z ≡ signed (is_neg z) (abs z)
signed-abs z = ground arith

pub quot-signed : (n d : ℤ) → quot n d ≡ signed (differ (is_neg n) (is_neg d)) (abs n / abs d)
unfolding quot
quot-signed n d = ground arith

pub rem-signed : (n d : ℤ) → rem_ℤ n d ≡ signed (is_neg n) (abs n % abs d)
unfolding rem_ℤ
rem-signed n d = ground arith

pub *-signed : (s t : Bool) (a b : ℕ) → signed s a *ℤ signed t b ≡ signed (differ s t) (a * b)
unfolding ◌*ℤ◌
*-signed false false a b = refl
*-signed false true a zero = ground arith
*-signed false true a (suc b) = ground arith
*-signed true false zero b = ground arith
*-signed true false (suc a) b = ground arith
*-signed true true zero zero = ground arith
*-signed true true zero (suc b) = ground arith
*-signed true true (suc a) zero = ground arith
*-signed true true (suc a) (suc b) = ground arith

differ-differ : (s t : Bool) → differ (differ s t) t ≡ s
differ-differ s t = ground arith

-- The quotient with magnitude `m`, on the side of zero that the signs ask for.
abbrev pub toward : ℤ → ℤ → ℕ → ℤ
toward n d m = signed (differ (is_neg n) (is_neg d)) m

pub toward-* : (n d : ℤ) (m : ℕ) → toward n d m *ℤ d ≡ signed (is_neg n) (m * abs d)
toward-* n d m =
    let s = differ (is_neg n) (is_neg d) in
    ap (λ x. signed s m *ℤ x) (signed-abs d)
    ∙ *-signed s (is_neg d) m (abs d)
    ∙ ap (λ t. signed t (m * abs d)) (differ-differ (is_neg n) (is_neg d))

pub abs-signed : (s : Bool) (m : ℕ) → abs (signed s m) ≡ m
abs-signed s m = ground arith

pub abs-signed_sub : (n : ℤ) (k : ℕ) → abs (n -ℤ signed (is_neg n) k) ≡ (abs n - k) + (k - abs n)
unfolding ◌-ℤ◌
abs-signed_sub n k = ground arith

pub exact-signed : (s : Bool) (m : ℕ) → eqb_ℤ (signed s m) (pos 0) ≡ (m == 0)
exact-signed s m = ground arith

pub nonzero_test : (z : ℤ) → z ≢ pos 0 → eqb_ℤ z (pos 0) ≡ false
nonzero_test z h = ground arith

pub abs-ne-zero : (d : ℤ) → d ≢ pos 0 → 0 < abs d
abs-ne-zero d h = ground arith

pub ne-zero_of_test : (a : ℕ) → (a == 0) ≡ false → a ≢ 0
ne-zero_of_test a h = ground arith

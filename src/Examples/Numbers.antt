-- ===== src/Examples/Numbers.antt =====
-- src/scaled.rs and the operators of src/interp.rs at concrete inputs.
use heklang.Base.{◌^◌, ◌≡◌, ◌↔◌, refl, true, arith}
use heklang.Base.Int.{ℤ, pos, negsuc, rem, quot, ◌+ℤ◌, ◌*ℤ◌}
use heklang.Scaled.{
  half_up, half_even, ok, fit, in_range, i64_half, checked_i64, checked_i128, round_div, rescale,
  mul_ratio, mul_ratio_exact, ratio, away, adjust, pow10,
}
use heklang.Scaled.Round.{IsRounded, round_div-IsRounded}
use heklang.Scaled.Range.{rescale-rescale}
use heklang.Scaled.Rates.{mul_ratio-IsRounded, mul_ratio_exact-eq-ok_iff, ratio-IsRounded}

-- 7 / 2 to even is 4, and -5 / 2 away from zero is -3.
half_even_test : round_div (pos 7) (pos 2) half_even ≡ ok (pos 4)
unfolding round_div away adjust fit checked_i64 checked_i128 rem ◌+ℤ◌ quot
half_even_test = refl

half_up_test : round_div (negsuc 4) (pos 2) half_up ≡ ok (negsuc 2)
unfolding round_div away adjust fit checked_i64 checked_i128 rem ◌+ℤ◌ quot
half_up_test = refl

round_div-IsRounded_example :
    (q : ℤ) × IsRounded half_even (pos 7) (pos 2) q × (round_div (pos 7) (pos 2) half_even ≡ fit q)
round_div-IsRounded_example = round_div-IsRounded (pos 7) (pos 2) half_even (λ p. cc) (omega arith)

rescale_test : rescale (pos 1250) 2 4 ≡ ok (pos 125000)
unfolding rescale pow10 checked_i128 fit checked_i64 ◌*ℤ◌
rescale_test = refl

rescale-rescale_example : rescale (pos 125000) 4 2 ≡ ok (pos 1250)
rescale-rescale_example =
    rescale-rescale (pos 1250) (pos 125000) 2 4 refl (omega arith) rescale_test

mul_ratio-IsRounded_example :
    (q : ℤ) × IsRounded half_up (pos 1999 *ℤ pos 175) (pos (10 ^ 3)) q
    × (mul_ratio (pos 1999) (pos 175) 3 half_up ≡ fit q)
mul_ratio-IsRounded_example =
    mul_ratio-IsRounded (pos 1999) (pos 175) 3 half_up refl refl (omega arith)

mul_ratio_exact-eq-ok_iff_example :
    (mul_ratio_exact (pos 2000) (pos 175) 3 ≡ ok (pos 350))
    ↔ ((pos 350 *ℤ pos (10 ^ 3) ≡ pos 2000 *ℤ pos 175) × (in_range i64_half (pos 350) ≡ true))
mul_ratio_exact-eq-ok_iff_example =
    mul_ratio_exact-eq-ok_iff (pos 2000) (pos 175) 3 (pos 350) refl refl (omega arith)

ratio-IsRounded_example :
    (q : ℤ) × IsRounded half_up (pos 1 *ℤ pos (10 ^ 6)) (pos 3) q
    × (ratio (pos 1) (pos 3) 6 ≡ fit q)
ratio-IsRounded_example = ratio-IsRounded (pos 1) (pos 3) 6 refl (λ p. cc) (omega arith)

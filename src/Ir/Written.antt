-- ===== src/Ir/Written.antt =====
-- src/ir.rs: what `Number::resolve` makes of a written number.
use native.Mathlib.Decide.{dec_lt}
use heklang.Base.{
  ℕ, ◌-◌, ◌^◌, ◌≤◌, ◌≡◌, refl, sym, ap, ◌∙◌, false, some, ltb, arith, Bool-cases, Option-cases, inl,
  inr,
}
use heklang.Base.Int.{ℤ, pos, negsuc, ◌*ℤ◌}
use heklang.Scaled
use heklang.Scaled.{in_range, i64_half}
use heklang.Scaled.Range.{rescale_up, rescale_same}
use heklang.Ir.{Ty, unsealed, id_shape}
use heklang.Ir.Literals.{Literal, int, decimal, money}
use heklang.Value.{ty}
use heklang.Value.Numbers.{of_literal}
use heklang.Ir.Numbers.{
  Number, Resolved, ok, err, too_precise, overflow, not_numeric, places, literal, resolve_at,
  resolve,
}

-- The units of a literal, where it is a number.
abbrev pub units : Literal → ℤ
units (int n) = n
units (decimal n scale) = n
units (money n scale) = n
units other = pos 0

units-literal : (t : Ty) (target : ℕ) (n : ℤ) → units (literal t target n) ≡ n
unfolding literal
units-literal Ty.int target n = refl
units-literal (Ty.decimal s) target n = refl
units-literal t target n = refl

ty-literal :
    (t : Ty) (target : ℕ) (u : ℤ)
    → places t ≡ some target
    → ty (of_literal (literal t target u)) ≡ t
unfolding places literal of_literal ty
ty-literal Ty.int target u h = refl
ty-literal (Ty.decimal s) target u h = refl
ty-literal (Ty.money s) target u h = let e : s ≡ target = cc in ap Ty.money (sym e)
ty-literal t target u h = absurd cc

one : (z : ℤ) → z *ℤ pos 1 ≡ z
unfolding ◌*ℤ◌
one (pos n) = ground arith
one (negsuc n) = ground arith

times_one : (z : ℤ) (k : ℕ) → k ≡ 0 → z *ℤ pos (10 ^ k) ≡ z
times_one z k h = ap (λ j. z *ℤ pos (10 ^ j)) h ∙ one z

widened :
    (d v : ℤ) (from to : ℕ)
    → from ≤ to
    → Scaled.rescale d from to ≡ Scaled.ok v
    → v ≡ d *ℤ pos (10 ^ (to - from))
widened d v from to le e = elim (dec_lt from to) [
  | yes lt ↦ (rescale_up d v from to lt e).1
  | no ge ↦
      let same : from ≡ to = omega arith in
      let f : Scaled.ok d ≡ Scaled.ok v = sym (rescale_same d from to same) ∙ e in
      let g : d ≡ v = cc in sym (times_one d (to - from) (omega arith) ∙ g)
]

rescaled : Ty → ℕ → Scaled.Result ℤ → Resolved
rescaled t target r = elim r [ Scaled.ok u ↦ ok (literal t target u) | Scaled.err _ ↦ err overflow ]

rescaled-ok :
    (t : Ty) (target : ℕ) (r : Scaled.Result ℤ) (l : Literal)
    → rescaled t target r ≡ ok l
    → (u : ℤ) × (r ≡ Scaled.ok u) × (units l ≡ u) × (literal t target u ≡ l)
unfolding rescaled
rescaled-ok t target (Scaled.ok u) l e =
    let f : literal t target u ≡ l = cc in (u, refl, rw (← f) (units-literal t target u), f)
rescaled-ok t target (Scaled.err x) l e = absurd cc

resolve_at-ok :
    (n : Number) (t : Ty) (target : ℕ) (l : Literal)
    → resolve_at n t target ≡ ok l
    → (ltb target (Number.scale n) ≡ false)
      × (rescaled t target (Scaled.rescale (Number.digits n) (Number.scale n) target) ≡ ok l)
unfolding resolve_at rescaled
resolve_at-ok n t target l e = elim (Bool-cases (ltb target (Number.scale n))) [
  | inl h ↦ let f : err (too_precise (Number.scale n) t) ≡ ok l = rw (h) at e in absurd cc
  | inr h ↦ elim (Bool-cases (in_range i64_half (Number.digits n))) [
    | inl k ↦ (h, rw (h, k) at e)
    | inr k ↦ let f : err overflow ≡ ok l = rw (h, k) at e in absurd cc
  ]
]

resolve_at-exact :
    (n : Number) (t : Ty) (target : ℕ) (l : Literal)
    → resolve_at n t target ≡ ok l
    → (Number.scale n ≤ target)
      × (units l ≡ Number.digits n *ℤ pos (10 ^ (target - Number.scale n)))
      × ((u : ℤ) × (literal t target u ≡ l))
resolve_at-exact n t target l e =
    let (h, f) = resolve_at-ok n t target l e in
    let (u, r, same, made) = rescaled-ok t target _ l f in
    let le : Number.scale n ≤ target = ground arith in
    (le, same ∙ widened (Number.digits n) u (Number.scale n) target le r, (u, made))

-- A number that resolves against a type has no more places than the type, read without its seals and
-- as the id of a subject; the value of the literal has that type, with its places, and its units are
-- exactly those of the number at those places.
pub resolve-exact :
    (n : Number) (ty₀ : Ty) (l : Literal)
    → resolve n ty₀ ≡ ok l
    → (target : ℕ) × (places (id_shape (unsealed ty₀)) ≡ some target)
      × (Number.scale n ≤ target)
      × (units l ≡ Number.digits n *ℤ pos (10 ^ (target - Number.scale n)))
      × (ty (of_literal l) ≡ id_shape (unsealed ty₀))
unfolding resolve
resolve-exact n ty₀ l e = elim (Option-cases (places (id_shape (unsealed ty₀)))) [
  | inl h ↦
      let f : err (not_numeric (id_shape (unsealed ty₀))) ≡ ok l = rw (h, resolve) at e in absurd cc
  | inr (target, h) ↦
      let f : resolve_at n (id_shape (unsealed ty₀)) target ≡ ok l = rw (h, resolve) at e in
      let (le, same, (u, made)) = resolve_at-exact n (id_shape (unsealed ty₀)) target l f in
      (target, h, le, same, ap (λ l. ty (of_literal l)) (sym made) ∙ ty-literal _ target u h)
]

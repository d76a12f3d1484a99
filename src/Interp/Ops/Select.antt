-- ===== src/Interp/Ops/Select.antt =====
-- src/interp.rs: `selected`, which is behind the methods `max` and `min`.
use Prim.Native.Nat.{Ordering}
use heklang.Base.{◌≡◌, refl, ap, ◌∙◌, ◌⊎◌, true, some, arith, if◌then◌else◌, inl, inr, [], ◌∷◌}
use heklang.Base.Int.{ℤ}
use heklang.Base.Text.{Text, codes, is}
use heklang.Ir.{BinOp, le, ge}
use heklang.Value.{Value}
use heklang.Interp.Errors.{ok}
use heklang.Interp.Ops.{ordering, compare_values, cmp_ℤ, cmp_text, selected, holds}
use heklang.Interp.Ops.Order.{
  swap, Ordered, ints, decimals, moneys, strs, timestamps, ordering-Ordered, Ordered-swap,
  ordering-swap,
}

cmp_ℤ_self : (a : ℤ) → cmp_ℤ a a ≡ Ordering.eq
unfolding cmp_ℤ
cmp_ℤ_self a = ground arith

cmp_text_self : (s : Text) → cmp_text s s ≡ Ordering.eq
unfolding cmp_text
cmp_text_self [] = refl
cmp_text_self (a ∷ s) = ground (arith, cmp_text_self s)

Ordered-self : {o : Ordering} {a b : Value} → Ordered o a b → ordering a a ≡ some Ordering.eq
unfolding ordering
Ordered-self (ints a b h) = ap some (cmp_ℤ_self a)
Ordered-self (decimals a b s s' e h) = ground (arith, cmp_ℤ_self a)
Ordered-self (moneys a b s s' e h) = ground (arith, cmp_ℤ_self a)
Ordered-self (strs a b h) = ap some (cmp_text_self a)
Ordered-self (timestamps a b h) = ap some (cmp_ℤ_self a)

-- What the operators answer for two values that order.
compare_values-holds :
    (op : BinOp) (a b : Value) (o : Ordering)
    → ordering a b ≡ some o
    → compare_values op a b ≡ ok (Value.bool (holds op o))
unfolding compare_values
compare_values-holds op a b o h = rw (h, compare_values)

-- `m` is one of the two values, and `op` holds between it and each of them.
abbrev pub IsExtreme : BinOp → (a b m : Value) → Type 0
IsExtreme op a b m =
    (compare_values op m a ≡ ok (Value.bool true))
    × (compare_values op m b ≡ ok (Value.bool true))
    × ((m ≡ a) ⊎ (m ≡ b))

module _ (op : BinOp) (a b : Value) (o : Ordering) (h : ordering a b ≡ some o) where
  first-IsExtreme : holds op o ≡ true → holds op Ordering.eq ≡ true → IsExtreme op a b a
  first-IsExtreme t e =
      let self = Ordered-self (ordering-Ordered o a b h) in
      (
        compare_values-holds op a a Ordering.eq self ∙ ap (λ x. ok (Value.bool x)) e,
        compare_values-holds op a b o h ∙ ap (λ x. ok (Value.bool x)) t,
        inl refl,
      )

  second-IsExtreme : holds op (swap o) ≡ true → holds op Ordering.eq ≡ true → IsExtreme op a b b
  second-IsExtreme t e =
      let self = Ordered-self (Ordered-swap (ordering-Ordered o a b h)) in
      (
        compare_values-holds op b a (swap o) (ordering-swap o a b h)
            ∙ ap (λ x. ok (Value.bool x)) t,
        compare_values-holds op b b Ordering.eq self ∙ ap (λ x. ok (Value.bool x)) e,
        inr refl,
      )

pick_max :
    (a b : Value) (o : Ordering)
    → ordering a b ≡ some o
    → IsExtreme ge a b (if holds ge o then a else b)
pick_max a b Ordering.lt h = second-IsExtreme ge a b Ordering.lt h refl refl
pick_max a b Ordering.eq h = first-IsExtreme ge a b Ordering.eq h refl refl
pick_max a b Ordering.gt h = first-IsExtreme ge a b Ordering.gt h refl refl

pick_min :
    (a b : Value) (o : Ordering)
    → ordering a b ≡ some o
    → IsExtreme le a b (if holds le o then a else b)
pick_min a b Ordering.lt h = first-IsExtreme le a b Ordering.lt h refl refl
pick_min a b Ordering.eq h = first-IsExtreme le a b Ordering.eq h refl refl
pick_min a b Ordering.gt h = second-IsExtreme le a b Ordering.gt h refl refl

selected-eq :
    (method : Text) (a b : Value) (o : Ordering)
    → ordering a b ≡ some o
    → selected method a b ≡ ok (if holds (if is method "max" then ge else le) o then a else b)
unfolding selected
selected-eq method a b o h = rw (h, selected)

-- Where two values order, `max` and `min` return one of them, and it compares as it should to both.
pub selected-IsExtreme :
    (a b : Value) (o : Ordering)
    → ordering a b ≡ some o
    → ((m : Value) × (selected (codes "max") a b ≡ ok m) × IsExtreme ge a b m)
      × ((m : Value) × (selected (codes "min") a b ≡ ok m) × IsExtreme le a b m)
unfolding is
selected-IsExtreme a b o h = (
  (_, selected-eq (codes "max") a b o h, pick_max a b o h),
  (_, selected-eq (codes "min") a b o h, pick_min a b o h),
)

-- ===== src/Types/Laws.antt =====
-- src/types.rs: how the relations of the checker fit together.
use mathlib.Core.Path.{subst}
use heklang.Base.{
  ℕ, suc, ◌∙◌, ◌⊎◌, ◌≡◌, ◌≢◌, refl, sym, ap, ◌↔◌, true, false, none, arith, Bool-cases, inl, inr,
}
use heklang.Base.Text.{codes}
use heklang.Ir.{Ty, int, opt, ty_eq, ty_eq_iff, as_scalar, BinOp, add, mul, gt}
use heklang.Types.{
  fills, arithmetic, comparable, orders, method_sig, inner_of, own_sig, selection_sig,
}

-- The table's type for `+` and for `*` does not depend on the order of the operands.
pub arithmetic_comm :
    (l r : Ty)
    → (arithmetic add l r ≡ arithmetic add r l) × (arithmetic mul l r ≡ arithmetic mul r l)
unfolding arithmetic
arithmetic_comm l r = ground arith

ty_eq_comm : (a b : Ty) → ty_eq a b ≡ ty_eq b a
ty_eq_comm a b = ground (arith, ty_eq_iff a b, ty_eq_iff b a)

-- Whether two types may be compared does not depend on their order.
pub comparable_comm : (op : BinOp) (l r : Ty) → comparable op l r ≡ comparable op r l
comparable_comm op l r = elim (Bool-cases (ty_eq l r)) [
  | inl e ↦ subst (λ x. comparable op l x ≡ comparable op x l) ((ty_eq_iff l r).0 e) refl
  | inr e ↦ unfold comparable in ground (arith, ty_eq_comm l r)
]

opt_depth : Ty → ℕ
opt_depth (opt t) = suc (opt_depth t)
opt_depth t = 0

opt-opt-ne : (t : Ty) → t ≢ opt (opt t)
unfolding opt_depth
opt-opt-ne t e = absurd (omega (arith, ap opt_depth e))

fills-cases : (a b : Ty) → fills a b ≡ true → (a ≡ b) ⊎ (b ≡ opt a)
unfolding fills
fills-cases a (opt b) h = ground (arith, ty_eq_iff a (opt b), ty_eq_iff b a)
fills-cases a b h = inl ((ty_eq_iff a b).0 h)

-- Two types that fill each other are the same.
pub fills_antisymm : (a b : Ty) → fills a b ≡ true → fills b a ≡ true → a ≡ b
fills_antisymm a b h k = go (fills-cases a b h) (fills-cases b a k)
  where
    go : (a ≡ b) ⊎ (b ≡ opt a) → (b ≡ a) ⊎ (a ≡ opt b) → a ≡ b
    go (inl e) _ = e
    go (inr e) (inl f) = sym f
    go (inr e) (inr f) = absurd (opt-opt-ne a (f ∙ ap opt e))

own_max : (t : Ty) → (own_sig t (codes "max") ≡ none) × (own_sig t (codes "min") ≡ none)
unfolding own_sig
own_max int = (refl, refl)
own_max t = (refl, refl)

opt_unordered : (t : Ty) → comparable gt (opt t) (opt t) ≡ false
unfolding comparable orders as_scalar
opt_unordered t = ground arith

selection_max :
    (t : Ty)
    → (selection_sig t (codes "max") ≡ none) ↔ (comparable gt (inner_of t) (inner_of t) ≡ false)
unfolding selection_sig inner_of
selection_max (opt t) = ground (arith, opt_unordered t)
selection_max t = ground arith

-- A type has no method `max` just when `>` does not compare two values of it, or of what it is an
-- optional of.
pub method_sig_max :
    (t : Ty)
    → (method_sig t (codes "max") ≡ none) ↔ (comparable gt (inner_of t) (inner_of t) ≡ false)
unfolding method_sig
method_sig_max t = rw ((own_max t).0, method_sig) (selection_max t)

-- ===== src/Interp/Ops/Order.antt =====
-- src/interp.rs and src/types.rs: `ordering`, as an order and against the checker's `comparable`.
use Prim.Native.Nat.{Ordering}
use heklang.Base.{
  ℕ, ◌≡◌, refl, sym, ap, ◌∙◌, Bool, ◌&&◌, none, some, arith, ◌==◌, if◌then◌else◌, [], ◌∷◌,
}
use heklang.Base.Int.{ℤ, eq_of_parts}
use heklang.Base.Text.{Text}
use heklang.Ir.{Ty, ty_eq, ty_eq_iff, as_scalar, BinOp, lt, le, gt, ge}
use heklang.Types.{comparable, orders}
use heklang.Value.{Value, ty}
use heklang.Value.Keys.{is_some}
use heklang.Interp.Ops.{ordering, cmp_ℤ, cmp_text}

abbrev pub swap : Ordering → Ordering
swap Ordering.lt = Ordering.gt
swap Ordering.eq = Ordering.eq
swap Ordering.gt = Ordering.lt

pub cmp_ℤ-swap : (a b : ℤ) → cmp_ℤ b a ≡ swap (cmp_ℤ a b)
unfolding cmp_ℤ
cmp_ℤ-swap a b = ground arith

pub cmp_ℤ-eq : (a b : ℤ) → cmp_ℤ a b ≡ Ordering.eq → a ≡ b
unfolding cmp_ℤ
cmp_ℤ-eq a b h = ground (arith, eq_of_parts a b)

cmp_ℤ_trans :
    (a b c : ℤ) → cmp_ℤ a b ≡ Ordering.lt → cmp_ℤ b c ≡ Ordering.lt → cmp_ℤ a c ≡ Ordering.lt
unfolding cmp_ℤ
cmp_ℤ_trans a b c h k = ground arith

pub cmp_text-swap : (s t : Text) → cmp_text t s ≡ swap (cmp_text s t)
unfolding cmp_text
cmp_text-swap [] [] = refl
cmp_text-swap [] (b ∷ t) = refl
cmp_text-swap (a ∷ s) [] = refl
cmp_text-swap (a ∷ s) (b ∷ t) = ground (arith, cmp_text-swap s t)

pub cmp_text-eq : (s t : Text) → cmp_text s t ≡ Ordering.eq → s ≡ t
unfolding cmp_text
cmp_text-eq [] [] h = refl
cmp_text-eq [] (b ∷ t) h = cc
cmp_text-eq (a ∷ s) [] h = cc
cmp_text-eq (a ∷ s) (b ∷ t) h = ground (arith, cmp_text-eq s t)

cmp_text_trans :
    (s t u : Text)
    → cmp_text s t ≡ Ordering.lt
    → cmp_text t u ≡ Ordering.lt
    → cmp_text s u ≡ Ordering.lt
unfolding cmp_text
cmp_text_trans [] t [] h k = ground arith
cmp_text_trans [] t (c ∷ u) h k = refl
cmp_text_trans (a ∷ s) [] u h k = cc
cmp_text_trans (a ∷ s) (b ∷ t) [] h k = cc
cmp_text_trans (a ∷ s) (b ∷ t) (c ∷ u) h k = ground (arith, cmp_text_trans s t u)

-- Two values of one type that orders, with how they compare.
pub data Ordered (o : Ordering) : Value → Value → Type 0 where
  ints : (a b : ℤ) → cmp_ℤ a b ≡ o → Ordered o (Value.int a) (Value.int b)
  decimals :
      (a b : ℤ) (s s' : ℕ)
      → s ≡ s'
      → cmp_ℤ a b ≡ o
      → Ordered o (Value.decimal a s) (Value.decimal b s')
  moneys :
      (a b : ℤ) (s s' : ℕ) → s ≡ s' → cmp_ℤ a b ≡ o → Ordered o (Value.money a s) (Value.money b s')
  strs : (a b : Text) → cmp_text a b ≡ o → Ordered o (Value.str a) (Value.str b)
  timestamps : (a b : ℤ) → cmp_ℤ a b ≡ o → Ordered o (Value.timestamp a) (Value.timestamp b)

scales :
    (s s' : ℕ) (o p : Ordering) → (if s == s' then some o else none) ≡ some p → (s ≡ s') × (o ≡ p)
scales s s' o p h = ground arith

pub ordering-Ordered : (o : Ordering) (a b : Value) → ordering a b ≡ some o → Ordered o a b
unfolding ordering
ordering-Ordered o (Value.int a) (Value.int b) h = ints a b (cc)
ordering-Ordered o (Value.decimal a s) (Value.decimal b s') h =
    let (e, c) = scales s s' _ o h in decimals a b s s' e c
ordering-Ordered o (Value.money a s) (Value.money b s') h =
    let (e, c) = scales s s' _ o h in moneys a b s s' e c
ordering-Ordered o (Value.str a) (Value.str b) h = strs a b (cc)
ordering-Ordered o (Value.timestamp a) (Value.timestamp b) h = timestamps a b (cc)
ordering-Ordered o a b h = cc

Ordered-ordering : {o : Ordering} {a b : Value} → Ordered o a b → ordering a b ≡ some o
unfolding ordering
Ordered-ordering (ints a b c) = ap some c
Ordered-ordering (decimals a b s s' e c) = ground arith
Ordered-ordering (moneys a b s s' e c) = ground arith
Ordered-ordering (strs a b c) = ap some c
Ordered-ordering (timestamps a b c) = ap some c

pub Ordered-swap : {o : Ordering} {a b : Value} → Ordered o a b → Ordered (swap o) b a
Ordered-swap (ints a b c) = ints b a (cmp_ℤ-swap a b ∙ ap swap c)
Ordered-swap (decimals a b s s' e c) = decimals b a s' s (sym e) (cmp_ℤ-swap a b ∙ ap swap c)
Ordered-swap (moneys a b s s' e c) = moneys b a s' s (sym e) (cmp_ℤ-swap a b ∙ ap swap c)
Ordered-swap (strs a b c) = strs b a (cmp_text-swap a b ∙ ap swap c)
Ordered-swap (timestamps a b c) = timestamps b a (cmp_ℤ-swap a b ∙ ap swap c)

Ordered-eq : {o : Ordering} {a b : Value} → Ordered o a b → o ≡ Ordering.eq → a ≡ b
Ordered-eq (ints a b c) e = ap Value.int (cmp_ℤ-eq a b (c ∙ e))
Ordered-eq (decimals a b s s' f c) e = cc (cmp_ℤ-eq a b (c ∙ e))
Ordered-eq (moneys a b s s' f c) e = cc (cmp_ℤ-eq a b (c ∙ e))
Ordered-eq (strs a b c) e = ap Value.str (cmp_text-eq a b (c ∙ e))
Ordered-eq (timestamps a b c) e = ap Value.timestamp (cmp_ℤ-eq a b (c ∙ e))

-- Where `ordering` answers of two values, it answers the other way round with the arguments swapped.
pub ordering-swap :
    (o : Ordering) (a b : Value) → ordering a b ≡ some o → ordering b a ≡ some (swap o)
ordering-swap o a b h = Ordered-ordering (Ordered-swap (ordering-Ordered o a b h))

-- `ordering` answers `eq` of equal values only.
pub ordering-eq : (a b : Value) → ordering a b ≡ some Ordering.eq → a ≡ b
ordering-eq a b h = Ordered-eq (ordering-Ordered Ordering.eq a b h) refl

Ordered-trans :
    {o : Ordering} {a b : Value}
    → Ordered o a b
    → o ≡ Ordering.lt
    → (c : Value) → ordering b c ≡ some Ordering.lt
    → ordering a c ≡ some Ordering.lt
unfolding ordering
Ordered-trans (ints a b h) e (Value.int c) k = ap some (cmp_ℤ_trans a b c (h ∙ e) (cc))
Ordered-trans (ints a b h) e c k = cc
Ordered-trans (decimals a b s s' f h) e (Value.decimal c t) k = ground (arith, cmp_ℤ_trans a b c)
Ordered-trans (decimals a b s s' f h) e c k = cc
Ordered-trans (moneys a b s s' f h) e (Value.money c t) k = ground (arith, cmp_ℤ_trans a b c)
Ordered-trans (moneys a b s s' f h) e c k = cc
Ordered-trans (strs a b h) e (Value.str c) k = ap some (cmp_text_trans a b c (h ∙ e) (cc))
Ordered-trans (strs a b h) e c k = cc
Ordered-trans (timestamps a b h) e (Value.timestamp c) k = ap some (cmp_ℤ_trans a b c (h ∙ e) (cc))
Ordered-trans (timestamps a b h) e c k = cc

-- `lt` is transitive: what lies below a value that lies below a third lies below the third.
pub ordering_trans :
    (a b c : Value)
    → ordering a b ≡ some Ordering.lt
    → ordering b c ≡ some Ordering.lt
    → ordering a c ≡ some Ordering.lt
ordering_trans a b c h k = Ordered-trans (ordering-Ordered Ordering.lt a b h) refl c k

-- The four operators that order.
abbrev pub IsOrderOp : BinOp → Type 0
IsOrderOp lt = Unit
IsOrderOp le = Unit
IsOrderOp gt = Unit
IsOrderOp ge = Unit
IsOrderOp op = ⊥

abbrev same_orders : Value → Value → Bool
same_orders a b = ty_eq (ty a) (ty b) && orders (as_scalar (ty a))

comparable-orders :
    (op : BinOp) (l r : Ty) → IsOrderOp op → comparable op l r ≡ (ty_eq l r && orders (as_scalar l))
unfolding comparable
comparable-orders op l r h = ground arith

decimal_scales : (s s' : ℕ) → ty_eq (Ty.decimal s) (Ty.decimal s') ≡ (s == s')
decimal_scales s s' = ground (arith, ty_eq_iff (Ty.decimal s) (Ty.decimal s'))

money_scales : (s s' : ℕ) → ty_eq (Ty.money s) (Ty.money s') ≡ (s == s')
money_scales s s' = ground (arith, ty_eq_iff (Ty.money s) (Ty.money s'))

is_some-if : (b : Bool) (o : Ordering) → is_some (if b then some o else none) ≡ b
is_some-if b o = ground arith

same_orders-ordering : (a b : Value) → same_orders a b ≡ is_some (ordering a b)
unfolding ty orders as_scalar ordering
same_orders-ordering (Value.int a) (Value.int b) = ground (arith, ty_eq_iff Ty.int Ty.int)
same_orders-ordering (Value.decimal a s) (Value.decimal b s') =
    rw (decimal_scales s s', is_some-if (s == s')) (ground arith)
same_orders-ordering (Value.money a s) (Value.money b s') =
    rw (money_scales s s', is_some-if (s == s')) (ground arith)
same_orders-ordering (Value.str a) (Value.str b) = ground (arith, ty_eq_iff Ty.string Ty.string)
same_orders-ordering (Value.timestamp a) (Value.timestamp b) =
    ground (arith, ty_eq_iff Ty.timestamp Ty.timestamp)
same_orders-ordering a b = ground (arith, ty_eq_iff (ty a) (ty b))

-- `<`, `<=`, `>` and `>=` compare two values at run time just when the checker's `comparable` lets
-- them compare the types of the two.
pub comparable-ordering :
    (op : BinOp) (a b : Value) → IsOrderOp op → comparable op (ty a) (ty b) ≡ is_some (ordering a b)
comparable-ordering op a b h = comparable-orders op (ty a) (ty b) h ∙ same_orders-ordering a b

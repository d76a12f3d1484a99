-- ===== src/Interp/Ops/Typed.antt =====
-- src/interp.rs and src/types.rs: `binary` where the checker's table has a row.
use heklang.Base.{ℕ, ◌≡◌, refl, ◌⊎◌, true, false, ◌&&◌, ◌||◌, some, arith, ◌==◌, inl, inr}
use heklang.Base.Int.{ℤ}
use heklang.Base.Text.{Text, codes}
use heklang.Scaled
use heklang.Scaled.{ratio_scale}
use heklang.Ir.{Ty, BinOp, add, sub, mul, div, rem}
use heklang.Types.{arithmetic}
use heklang.Value.{Value, ty}
use heklang.Interp.Errors.{
  ErrorKind, Result, ok, err, map_ok, map_err, from_scaled, overflow, division_by_zero,
  inexact_money, bad_operands,
}
use heklang.Interp.Errors
use heklang.Interp.Ops.{arith_values, binary, ordering, is_mul, is_div, adds}
use heklang.Interp.Ops

-- The `+ - * / %` of the table.
abbrev pub IsArithmetic : BinOp → Type 0
IsArithmetic add = Unit
IsArithmetic sub = Unit
IsArithmetic mul = Unit
IsArithmetic div = Unit
IsArithmetic rem = Unit
IsArithmetic op = ⊥

-- A value of type `t`, or an error that the numbers are to blame for, and never the types.
abbrev pub Answers : Ty → Result Value → Type 0
Answers t (ok v) = ty v ≡ t
Answers t (err overflow) = Unit
Answers t (err division_by_zero) = Unit
Answers t (err Errors.inexact) = Unit
Answers t (err (inexact_money op hint)) = Unit
Answers t (err e) = ⊥

Answers-scaled :
    (t : Ty) (f : ℤ → Value) (r : Scaled.Result ℤ)
    → ((u : ℤ) → ty (f u) ≡ t)
    → Answers t (map_ok f (map_err from_scaled r))
unfolding map_err from_scaled
Answers-scaled t f (Scaled.ok u) h = h u
Answers-scaled t f (Scaled.err Scaled.overflow) h = tt
Answers-scaled t f (Scaled.err Scaled.division_by_zero) h = tt
Answers-scaled t f (Scaled.err Scaled.inexact) h = tt

Answers-inexact :
    (t : Ty) (op : BinOp) (hint : Text) (f : ℤ → Value) (r : Scaled.Result ℤ)
    → ((u : ℤ) → ty (f u) ≡ t)
    → Answers t (map_ok f (map_err (Ops.inexact op hint) r))
unfolding map_err Ops.inexact
Answers-inexact t op hint f (Scaled.ok u) h = h u
Answers-inexact t op hint f (Scaled.err Scaled.overflow) h = tt
Answers-inexact t op hint f (Scaled.err Scaled.division_by_zero) h = tt
Answers-inexact t op hint f (Scaled.err Scaled.inexact) h = tt

Answers-arith :
    (t : Ty) (op : BinOp) (f : ℤ → Value) (a b : ℤ)
    → ((u : ℤ) → ty (f u) ≡ t)
    → Answers t (map_ok f (Ops.arith op a b))
unfolding Ops.arith
Answers-arith t add f a b h = Answers-scaled t f _ h
Answers-arith t sub f a b h = Answers-scaled t f _ h
Answers-arith t mul f a b h = Answers-scaled t f _ h
Answers-arith t div f a b h = Answers-scaled t f _ h
Answers-arith t op f a b h = Answers-scaled t f _ h

abbrev IsNumeric : Ty → Type 0
IsNumeric Ty.int = Unit
IsNumeric (Ty.decimal n) = Unit
IsNumeric (Ty.money n) = Unit
IsNumeric t = ⊥

-- The table has rows for numbers only.
table-IsNumeric : (op : BinOp) (l r t : Ty) → arithmetic op l r ≡ some t → IsNumeric l × IsNumeric r
unfolding arithmetic
table-IsNumeric op l r t h = ground arith

-- What each pair of rows asks of the operator, and the type it gives.
table_int : (op : BinOp) (t : Ty) → arithmetic op Ty.int Ty.int ≡ some t → Ty.int ≡ t
unfolding arithmetic
table_int op t h = ground arith

table_decimal :
    (op : BinOp) (a b : ℕ) (t : Ty)
    → arithmetic op (Ty.decimal a) (Ty.decimal b) ≡ some t
    → ((a == b && adds op) ≡ true) × (Ty.decimal a ≡ t)
unfolding arithmetic
table_decimal op a b t h = ground arith

table_decimal-int :
    (op : BinOp) (a : ℕ) (t : Ty)
    → arithmetic op (Ty.decimal a) Ty.int ≡ some t
    → ((is_mul op || is_div op) ≡ true) × (Ty.decimal a ≡ t)
unfolding arithmetic
table_decimal-int op a t h = ground arith

table_int-decimal :
    (op : BinOp) (a : ℕ) (t : Ty)
    → arithmetic op Ty.int (Ty.decimal a) ≡ some t
    → (is_mul op ≡ true) × (Ty.decimal a ≡ t)
unfolding arithmetic
table_int-decimal op a t h = ground arith

table_money :
    (op : BinOp) (a b : ℕ) (t : Ty)
    → arithmetic op (Ty.money a) (Ty.money b) ≡ some t
    → ((a == b && adds op) ≡ true) × (Ty.money a ≡ t)
      ⊎ ((a == b && adds op) ≡ false)
        × ((a == b && is_div op) ≡ true)
        × (Ty.decimal ratio_scale ≡ t)
unfolding arithmetic
table_money op a b t h = ground arith

table_money-int :
    (op : BinOp) (a : ℕ) (t : Ty)
    → arithmetic op (Ty.money a) Ty.int ≡ some t
    → (Ty.money a ≡ t) × ((is_mul op ≡ true) ⊎ (is_mul op ≡ false) × (is_div op ≡ true))
unfolding arithmetic
table_money-int op a t h = ground arith

table_int-money :
    (op : BinOp) (a : ℕ) (t : Ty)
    → arithmetic op Ty.int (Ty.money a) ≡ some t
    → (is_mul op ≡ true) × (Ty.money a ≡ t)
unfolding arithmetic
table_int-money op a t h = ground arith

table_rate :
    (op : BinOp) (a b : ℕ) (t : Ty)
    → arithmetic op (Ty.money a) (Ty.decimal b) ≡ some t
    → (is_mul op ≡ true) × (Ty.money a ≡ t)
unfolding arithmetic
table_rate op a b t h = ground arith

table_rate' :
    (op : BinOp) (a b : ℕ) (t : Ty)
    → arithmetic op (Ty.decimal b) (Ty.money a) ≡ some t
    → (is_mul op ≡ true) × (Ty.money a ≡ t)
unfolding arithmetic
table_rate' op a b t h = ground arith

arith_values-Answers :
    (op : BinOp) (l r : Value) (t : Ty)
    → IsNumeric (ty l)
    → IsNumeric (ty r)
    → arithmetic op (ty l) (ty r) ≡ some t
    → Answers t (arith_values op l r)
unfolding arith_values ty
arith_values-Answers op (Value.int a) (Value.int b) t nl nr h =
    Answers-arith t op Value.int a b (λ u. table_int op t h)
arith_values-Answers op (Value.decimal a s) (Value.decimal b s') t nl nr h =
    let (test, e) = table_decimal op s s' t h in
    rw test (Answers-arith t op (λ u. Value.decimal u s) a b (λ u. e))
arith_values-Answers op (Value.decimal a s) (Value.int b) t nl nr h =
    let (test, e) = table_decimal-int op s t h in
    rw test (Answers-arith t op (λ u. Value.decimal u s) a b (λ u. e))
arith_values-Answers op (Value.int a) (Value.decimal b s) t nl nr h =
    let (test, e) = table_int-decimal op s t h in
    rw test (Answers-arith t op (λ u. Value.decimal u s) a b (λ u. e))
arith_values-Answers op (Value.money a s) (Value.money b s') t nl nr h =
    elim (table_money op s s' t h) [
      | inl (test, e) ↦ rw test (Answers-arith t op (λ u. Value.money u s) a b (λ u. e))
      | inr (no_sum, test, e) ↦
          rw (no_sum, test)
            (Answers-scaled t (λ u. Value.decimal u ratio_scale) (Scaled.ratio a b ratio_scale)
              (λ u. e))
    ]
arith_values-Answers op (Value.money a s) (Value.int b) t nl nr h =
    let (e, which) = table_money-int op s t h in
    elim which [
      | inl test ↦ rw test (Answers-arith t op (λ u. Value.money u s) a b (λ u. e))
      | inr (no_mul, test) ↦
          rw (no_mul, test)
            (Answers-inexact t op (codes "div") (λ u. Value.money u s) (Scaled.div_exact a b)
              (λ u. e))
    ]
arith_values-Answers op (Value.int a) (Value.money b s) t nl nr h =
    let (test, e) = table_int-money op s t h in
    rw test (Answers-arith t op (λ u. Value.money u s) a b (λ u. e))
arith_values-Answers op (Value.money a s) (Value.decimal b s') t nl nr h =
    let (test, e) = table_rate op s s' t h in
    rw test (
      Answers-inexact t op (codes "mul") (λ u. Value.money u s) (Scaled.mul_ratio_exact a b s')
        (λ u. e))
arith_values-Answers op (Value.decimal a s') (Value.money b s) t nl nr h =
    let (test, e) = table_rate' op s s' t h in
    rw test (
      Answers-inexact t op (codes "mul") (λ u. Value.money u s) (Scaled.mul_ratio_exact b a s')
        (λ u. e))
arith_values-Answers op (Value.int a) r t nl nr h = absurd nr
arith_values-Answers op (Value.decimal a s) r t nl nr h = absurd nr
arith_values-Answers op (Value.money a s) r t nl nr h = absurd nr
arith_values-Answers op l r t nl nr h = absurd nl

table_op : (op : BinOp) (l r t : Ty) → arithmetic op l r ≡ some t → IsArithmetic op
unfolding arithmetic
table_op op l r t h = ground arith

pub binary-arith_values :
    (op : BinOp) (l r : Value) → IsArithmetic op → binary op l r ≡ arith_values op l r
unfolding binary
binary-arith_values add l r h = refl
binary-arith_values sub l r h = refl
binary-arith_values mul l r h = refl
binary-arith_values div l r h = refl
binary-arith_values rem l r h = refl
binary-arith_values op l r h = absurd h

-- Where the checker's table gives an operator a type, the interpreter gives a value of that type or
-- an error of arithmetic, and never a complaint about the operands.
pub binary-Answers :
    (op : BinOp) (l r : Value) (t : Ty)
    → arithmetic op (ty l) (ty r) ≡ some t
    → Answers t (binary op l r)
binary-Answers op l r t h =
    let (nl, nr) = table-IsNumeric op (ty l) (ty r) t h in
    rw (binary-arith_values op l r (table_op op (ty l) (ty r) t h))
      (arith_values-Answers op l r t nl nr h)

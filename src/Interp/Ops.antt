-- ===== src/Interp/Ops.antt =====
-- src/interp.rs: `unary`, `ordering`, `binary`, `selected` and what they call.
pub mod Typed
pub mod Refused
pub mod Order
pub mod Select
use Prim.Native.Nat.{compare, Ordering}
use heklang.Base.{
  ℕ, ◌+◌, ◌≡◌, refl, Bool, true, false, ◌&&◌, ◌||◌, not, Option, none, some, List, [], ◌∷◌, ◌++◌,
  ◌==◌, if◌then◌else◌,
}
use heklang.Base.Int.{ℤ, pos, negsuc, pos_part, neg_part}
use heklang.Base.Text.{Text, codes, is}
use heklang.Scaled
use heklang.Scaled.{ratio_scale}
use heklang.Ir.{
  Ident, Ty, ty_eq, BinOp, UnOp, add, sub, mul, div, rem, eq, ne, lt, le, gt, ge, and, or,
}
use heklang.Value.{Value, ty, value_eq}
use heklang.Interp.Errors.{
  ErrorKind, Result, ok, err, ◌>>=◌, map_ok, bad_operands, bad_unary_operand, inexact_money,
  unknown_method, type_mismatch, from_scaled, map_err, inexact as inexact_kind,
}

-- `i64::cmp`
unfoldable pub cmp_ℤ : ℤ → ℤ → Ordering
cmp_ℤ a b = compare (pos_part a + neg_part b) (pos_part b + neg_part a)

-- `str::cmp`: UTF-8 keeps the order of code points.
unfoldable pub cmp_text : Text → Text → Ordering
cmp_text [] [] = Ordering.eq
cmp_text [] (b ∷ t) = Ordering.lt
cmp_text (a ∷ s) [] = Ordering.gt
cmp_text (a ∷ s) (b ∷ t) = elim (compare a b) [
  | Ordering.lt ↦ Ordering.lt
  | Ordering.eq ↦ cmp_text s t
  | Ordering.gt ↦ Ordering.gt
]

unfoldable pub unary : UnOp → Value → Result Value
unfolding map_err from_scaled
unary UnOp.not (Value.bool b) = ok (Value.bool (not b))
unary UnOp.neg (Value.int n) = map_ok Value.int (map_err from_scaled (Scaled.neg n))
unary UnOp.neg (Value.decimal units scale) =
    map_ok (λ u. Value.decimal u scale) (map_err from_scaled (Scaled.neg units))
unary UnOp.neg (Value.money units scale) =
    map_ok (λ u. Value.money u scale) (map_err from_scaled (Scaled.neg units))
unary op other = err (bad_unary_operand op (ty other))

unfoldable pub ordering : Value → Value → Option Ordering
unfolding cmp_ℤ cmp_text
ordering (Value.int a) (Value.int b) = some (cmp_ℤ a b)
ordering (Value.decimal a scale) (Value.decimal b other) =
    if scale == other then some (cmp_ℤ a b) else none
ordering (Value.money a scale) (Value.money b other) =
    if scale == other then some (cmp_ℤ a b) else none
ordering (Value.str a) (Value.str b) = some (cmp_text a b)
ordering (Value.timestamp a) (Value.timestamp b) = some (cmp_ℤ a b)
ordering lhs rhs = none

unfoldable pub inexact : BinOp → (hint : Text) → Scaled.Error → ErrorKind
unfolding from_scaled
inexact op hint Scaled.inexact = inexact_money op hint
inexact op hint other = from_scaled other

unfoldable pub arith : BinOp → (lhs rhs : ℤ) → Result ℤ
unfolding map_err from_scaled
arith add lhs rhs = map_err from_scaled (Scaled.add lhs rhs)
arith sub lhs rhs = map_err from_scaled (Scaled.sub lhs rhs)
arith mul lhs rhs = map_err from_scaled (Scaled.mul lhs rhs)
arith div lhs rhs = map_err from_scaled (Scaled.div lhs rhs)
arith op lhs rhs = map_err from_scaled (Scaled.rem lhs rhs)

abbrev pub adds : BinOp → Bool
adds add = true
adds sub = true
adds op = false

abbrev pub is_mul : BinOp → Bool
is_mul mul = true
is_mul op = false

abbrev pub is_div : BinOp → Bool
is_div div = true
is_div op = false

-- The arm of `binary` for `+ - * / %`. The decimal or the amount keeps its scale.
unfoldable pub arith_values : BinOp → (lhs rhs : Value) → Result Value
unfolding arith inexact map_err from_scaled
arith_values op (Value.int a) (Value.int b) = map_ok Value.int (arith op a b)
arith_values op (Value.decimal a scale) (Value.decimal b other) =
    if scale == other && adds op
    then map_ok (λ u. Value.decimal u scale) (arith op a b)
    else err (bad_operands op (Ty.decimal scale) (Ty.decimal other))
arith_values op (Value.decimal units scale) (Value.int factor) =
    if is_mul op || is_div op
    then map_ok (λ u. Value.decimal u scale) (arith op units factor)
    else err (bad_operands op (Ty.decimal scale) Ty.int)
arith_values op (Value.int factor) (Value.decimal units scale) =
    if is_mul op
    then map_ok (λ u. Value.decimal u scale) (arith op factor units)
    else err (bad_operands op Ty.int (Ty.decimal scale))
arith_values op (Value.money a scale) (Value.money b other) =
    if scale == other && adds op
    then map_ok (λ u. Value.money u scale) (arith op a b)
    else if scale == other && is_div op
    then map_ok (λ u. Value.decimal u ratio_scale)
        (map_err from_scaled (Scaled.ratio a b ratio_scale))
    else err (bad_operands op (Ty.money scale) (Ty.money other))
arith_values op (Value.money units scale) (Value.int n) =
    if is_mul op
    then map_ok (λ u. Value.money u scale) (arith op units n)
    else if is_div op
    then map_ok (λ u. Value.money u scale)
        (map_err (inexact op (codes "div")) (Scaled.div_exact units n))
    else err (bad_operands op (Ty.money scale) Ty.int)
arith_values op (Value.int factor) (Value.money units scale) =
    if is_mul op
    then map_ok (λ u. Value.money u scale) (arith op factor units)
    else err (bad_operands op Ty.int (Ty.money scale))
arith_values op (Value.money amount scale) (Value.decimal units rate) =
    if is_mul op
    then map_ok (λ u. Value.money u scale)
        (map_err (inexact op (codes "mul")) (Scaled.mul_ratio_exact amount units rate))
    else err (bad_operands op (Ty.money scale) (Ty.decimal rate))
arith_values op (Value.decimal units rate) (Value.money amount scale) =
    if is_mul op
    then map_ok (λ u. Value.money u scale)
        (map_err (inexact op (codes "mul")) (Scaled.mul_ratio_exact amount units rate))
    else err (bad_operands op (Ty.decimal rate) (Ty.money scale))
arith_values add (Value.str a) (Value.str b) = ok (Value.str (a ++ b))
arith_values op lhs rhs = err (bad_operands op (ty lhs) (ty rhs))

-- `is_lt`, `is_le`, `is_gt` and `is_ge`, by the operator that asks.
abbrev pub holds : BinOp → Ordering → Bool
holds lt Ordering.lt = true
holds lt o = false
holds le Ordering.gt = false
holds le o = true
holds gt Ordering.gt = true
holds gt o = false
holds op Ordering.lt = false
holds op o = true

unfoldable pub equality : (negated : Bool) → BinOp → (lhs rhs : Value) → Result Value
equality negated op lhs rhs =
    if not (ty_eq (ty lhs) (ty rhs))
    then err (bad_operands op (ty lhs) (ty rhs))
    else ok (Value.bool (if negated then not (value_eq lhs rhs) else value_eq lhs rhs))

unfoldable pub compare_values : BinOp → (lhs rhs : Value) → Result Value
compare_values op lhs rhs = elim (ordering lhs rhs) [
  | some o ↦ ok (Value.bool (holds op o))
  | none ↦ err (bad_operands op (ty lhs) (ty rhs))
]

unfoldable pub binary : BinOp → (lhs rhs : Value) → Result Value
unfolding equality compare_values
binary eq lhs rhs = equality false eq lhs rhs
binary ne lhs rhs = equality true ne lhs rhs
binary lt lhs rhs = compare_values lt lhs rhs
binary le lhs rhs = compare_values le lhs rhs
binary gt lhs rhs = compare_values gt lhs rhs
binary ge lhs rhs = compare_values ge lhs rhs
binary and lhs rhs = err (bad_operands and (ty lhs) (ty rhs))
binary or lhs rhs = err (bad_operands or (ty lhs) (ty rhs))
binary op lhs rhs = arith_values op lhs rhs

unfoldable pub selected : (method : Text) → (held other : Value) → Result Value
selected method held other = elim (ordering held other) [
  | some o ↦ ok (if holds (if is method "max" then ge else le) o then held else other)
  | none ↦ elim (ordering held held) [
    | none ↦ err (unknown_method (ty held) method)
    | some _ ↦ err (type_mismatch (ty held) (ty other))
  ]
]

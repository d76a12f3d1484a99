-- ===== src/Interp/Ops/Refused.antt =====
-- src/interp.rs and src/types.rs: `binary` where the checker's table has no row.
use heklang.Base.{◌≡◌, ◌≢◌, refl, ◌∙◌, none, arith}
use heklang.Ir.{Ty, BinOp}
use heklang.Types.{arithmetic}
use heklang.Value.{Value, ty}
use heklang.Interp.Errors.{err, bad_operands}
use heklang.Interp.Ops.{arith_values, binary}
use heklang.Interp.Ops.Typed.{IsArithmetic, binary-arith_values}

-- No row of the table, and no text, which `+` joins at run time alone.
module _ (op : BinOp) (arithmetic_op : IsArithmetic op) where
  arith_values-refused :
      (l r : Value)
      → ty l ≢ Ty.string
      → arithmetic op (ty l) (ty r) ≡ none
      → arith_values op l r ≡ err (bad_operands op (ty l) (ty r))
  unfolding arith_values ty arithmetic
  arith_values-refused (Value.int a) (Value.int b) h e = ground arith
  arith_values-refused (Value.int a) (Value.decimal b s) h e = ground arith
  arith_values-refused (Value.int a) (Value.money b s) h e = ground arith
  arith_values-refused (Value.decimal a s) (Value.decimal b s') h e = ground arith
  arith_values-refused (Value.decimal a s) (Value.int b) h e = ground arith
  arith_values-refused (Value.decimal a s) (Value.money b s') h e = ground arith
  arith_values-refused (Value.money a s) (Value.money b s') h e = ground arith
  arith_values-refused (Value.money a s) (Value.int b) h e = ground arith
  arith_values-refused (Value.money a s) (Value.decimal b s') h e = ground arith
  arith_values-refused (Value.str a) r h e = absurd (h refl)
  arith_values-refused l r h e = refl

-- An arithmetic operator that the table gives no type to the operands of is refused at run time with
-- the same operator and types, unless the left operand is a text.
pub binary-refused :
    (op : BinOp) (l r : Value)
    → IsArithmetic op
    → ty l ≢ Ty.string
    → arithmetic op (ty l) (ty r) ≡ none
    → binary op l r ≡ err (bad_operands op (ty l) (ty r))
binary-refused op l r a h e = binary-arith_values op l r a ∙ arith_values-refused op a l r h e

-- ===== src/Ir/Numbers.antt =====
-- src/ir.rs: a number that a program writes, resolved against the type that it is written for.
use heklang.Base.{ℕ, Option, none, some, ltb, if◌then◌else◌}
use heklang.Base.Int.{ℤ}
use heklang.Scaled
use heklang.Scaled.{in_range, i64_half}
use heklang.Ir.{Ty, unsealed, id_shape}
use heklang.Ir.Literals.{Literal, int, decimal, money}

pub record Number : Type 0 where
  pub digits : ℤ
  pub scale : ℕ

pub data NumberError : Type 0 where
  not_numeric : Ty → NumberError
  too_precise : (written : ℕ) (target : Ty) → NumberError
  overflow : NumberError

pub data Resolved : Type 0 where
  ok : Literal → Resolved
  err : NumberError → Resolved

-- `target`: the decimal places of the type.
unfoldable pub places : Ty → Option ℕ
places Ty.int = some 0
places (Ty.decimal scale) = some scale
places (Ty.money scale) = some scale
places t = none

unfoldable pub literal : Ty → (target : ℕ) → ℤ → Literal
literal Ty.int target units = int units
literal (Ty.decimal scale) target units = decimal units scale
literal t target units = money units target

-- The rest of `resolve`, behind the places of the type.
unfoldable pub resolve_at : Number → Ty → ℕ → Resolved
resolve_at n t target =
    if ltb target (Number.scale n)
    then err (too_precise (Number.scale n) t)
    else if in_range i64_half (Number.digits n)
    then elim (Scaled.rescale (Number.digits n) (Number.scale n) target) [
      | Scaled.ok units ↦ ok (literal t target units)
      | Scaled.err _ ↦ err overflow
    ]
    else err overflow

unfoldable pub resolve : Number → Ty → Resolved
resolve n ty =
    let t = id_shape (unsealed ty) in
    elim (places t) [ some target ↦ resolve_at n t target | none ↦ err (not_numeric t) ]

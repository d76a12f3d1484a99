-- ===== src/Interp/Errors.antt =====
-- src/interp.rs: `ErrorKind`, and results.
use heklang.Base.{ℕ, List}
use heklang.Base.Int.{ℤ}
use heklang.Base.Text.{Text}
use heklang.Scaled
use heklang.Ir.{Ident, EventPath, Ty, BinOp, UnOp}

-- A value that is not of its declared shape, with where in it. `value::Mismatch`
pub record Mismatch : Type 0 where
  pub path : List Ident
  pub expected : Ty
  pub found : Text

-- A `Slot` is its number.
pub data ErrorKind : Type 0 where
  unknown_command unknown_projector unknown_effect unknown_fold : Text → ErrorKind
  no_history : (fold ranged open_parts : Text) → ErrorKind
  no_such_position : ℕ → ErrorKind
  erased shredded_column : (field subject : Ident) (id : Text) → ErrorKind
  missing_secret : Ident → ErrorKind
  failed unreachable host : Text → ErrorKind
  mismatch : Mismatch → ErrorKind
  conflict : (after : ℕ) → ErrorKind
  bad_subject : Ty → ErrorKind
  bad_lane : (field : Ident) → Ty → ErrorKind
  bad_uuid : Text → ErrorKind
  no_such_field : Ty → (field : Ident) → ErrorKind
  cascade : (effect : Text) (events : List Text) → ErrorKind
  unknown_event : EventPath → ErrorKind
  unknown_field : EventPath → (field : Ident) → ErrorKind
  unknown_method : Ty → (method : Text) → ErrorKind
  missing_argument unexpected_argument : Ident → ErrorKind
  missing_field : EventPath → (field : Ident) → ErrorKind
  unset_slot : ℕ → ErrorKind
  malformed_ir : ErrorKind
  type_mismatch : (expected found : Ty) → ErrorKind
  bad_operands : BinOp → (lhs rhs : Ty) → ErrorKind
  bad_unary_operand : UnOp → Ty → ErrorKind
  bad_arity : (method : Text) (expected found : ℕ) → ErrorKind
  bad_argument : (method expected : Text) (found : Ty) → ErrorKind
  inexact_money : BinOp → (hint : Text) → ErrorKind
  too_long : (field : Ident) (len max : ℕ) → ErrorKind
  unknown_entity : Ident → ErrorKind
  unknown_entity_field missing_entity_field : (entity field : Ident) → ErrorKind
  bad_key not_iterable : Ty → ErrorKind
  unknown_function : Ident → ErrorKind
  division_by_zero overflow inexact : ErrorKind
  pad_width : ℤ → ErrorKind

pub data Result {ℓ} (A : Type ℓ) : Type ℓ where
  ok : A → Result A
  err : ErrorKind → Result A

infixl 5 ◌>>=◌
abbrev pub ◌>>=◌ {ℓ κ} : {A : Type ℓ} {B : Type κ} → Result A → (A → Result B) → Result B
ok a >>= f = f a
err e >>= f = err e

abbrev pub map_ok {ℓ κ} : {A : Type ℓ} {B : Type κ} → (A → B) → Result A → Result B
map_ok f (ok a) = ok (f a)
map_ok f (err e) = err e

-- `From<scaled::Error> for ErrorKind`
unfoldable pub from_scaled : Scaled.Error → ErrorKind
from_scaled Scaled.overflow = overflow
from_scaled Scaled.division_by_zero = division_by_zero
from_scaled Scaled.inexact = inexact

-- `map_err` of a `scaled` result
unfoldable pub map_err {ℓ} : {A : Type ℓ} → (Scaled.Error → ErrorKind) → Scaled.Result A → Result A
map_err f (Scaled.ok a) = ok a
map_err f (Scaled.err e) = err (f e)

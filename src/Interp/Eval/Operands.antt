-- ===== src/Interp/Eval/Operands.antt =====
-- src/interp.rs: what `eval` makes of the values of a node, behind their evaluation.
use heklang.Base.{
  ℕ, zero, suc, Bool, true, false, ◌||◌, Option, none, some, List, [], ◌∷◌, ◌++◌, if◌then◌else◌,
}
use heklang.Base.Int.{ℤ, pos}
use heklang.Base.Text.{Text, codes, is}
use heklang.Ir.{Ident, Ty, BinOp, and, or}
use heklang.Ir.Exprs.{
  ExprId, Slot, Iter, Builtin, uuid_derive, json_encode, timestamp_parse, timestamp_from_parts,
  money_parse, decimal_parse,
}
use heklang.Ir.Program.{RecordField, FieldDef}
use heklang.Value.{Value, ty, has_type, Json, Key, from_key}
use heklang.Value.Maps.{find_field, items_of, entries_of}
use heklang.Value.Render.{to_json, text, redacted_text, json_text}
use heklang.Value.Numbers.{parse_scaled}
use heklang.Value.Calendar.{from_parts, timestamp}
use heklang.Interp.Errors.{
  malformed_ir, type_mismatch, no_such_field, not_iterable, bad_argument, bad_uuid,
}
use heklang.Interp.Coerce.{fitted, some_value, none_value}
use heklang.Interp.Methods.Strings.{Library}
use heklang.Interp.Frames.{Frame, Run, done, fails, ◌>>=◌, from_result, or_fails, set}

-- A value with the frame that its evaluation leaves.
abbrev pub Answer : Type 0 → Type 0
Answer A = Run (A × Frame)

abbrev pub Eval : Type 0
Eval = ExprId → Frame → Answer Value

abbrev pub Call : Type 0
Call = (function : Ident) (scope : Option Ident) → List Value → Run Value

-- The index of an item, and the item.
abbrev pub Pair : Type 0
Pair = Value × Value

unfoldable pub numbered : ℕ → List Value → List Pair
numbered i [] = []
numbered i (v ∷ vs) = (Value.int (pos i), v) ∷ numbered (suc i) vs

unfoldable pub keyed : List (Key × Value) → List Pair
keyed [] = []
keyed ((k, v) ∷ es) = (from_key k, v) ∷ keyed es

unfoldable pub pairs_of : Value → Run (List Pair)
pairs_of (Value.list inner vs) = done (numbered 0 (items_of vs))
pairs_of (Value.map k v es) = done (keyed (entries_of es))
pairs_of other = fails (not_iterable (ty other))

unfoldable pub set_index : Option Slot → Value → Frame → Run Frame
set_index none index fr = done fr
set_index (some slot) index fr = set fr slot index

unfoldable pub bind_iter : Iter → (index item : Value) → Frame → Run Frame
bind_iter it index item fr =
    set_index (Iter.index it) index fr >>= λ fr₁. set fr₁ (Iter.item it) item

unfoldable pub as_bool : Value → Run Bool
as_bool (Value.bool b) = done b
as_bool other = fails (type_mismatch Ty.bool (ty other))

unfoldable pub as_text : Value → Run Text
as_text (Value.str s) = done s
as_text other = fails (type_mismatch Ty.string (ty other))

-- `Value::Opt` behind `Expr::Unwrap`
unfoldable pub unwrapped : Value → Run Value
unwrapped (Value.present inner v) = done v
unwrapped (Value.absent inner) = fails malformed_ir
unwrapped v = done v

unfoldable pub wrapped : Ty → Value → Run Value
wrapped inner v =
    if has_type v inner then done (Value.present inner v) else fails (type_mismatch inner (ty v))

-- `Expr::Field`
unfoldable pub field_of : Value → Ident → Run Value
field_of (Value.response status body) name =
    if is name "status"
    then done (Value.int status)
    else if is name "body"
    then done (Value.json body)
    else fails (no_such_field Ty.response name)
field_of (Value.struct t fs) name = or_fails (find_field name fs) (no_such_field (Ty.struct t) name)
field_of v name = fails (no_such_field (ty v) name)

-- A value where a type may be declared for it.
unfoldable pub declared_fit : Option Ty → Value → Run Value
declared_fit none v = done v
declared_fit (some t) v = from_result (fitted v t)

-- The type of the items of a list: the declared one, or that of the first item.
unfoldable pub element_ty : Option Ty → List Value → Ty
element_ty (some t) vs = t
element_ty none [] = Ty.json
element_ty none (v ∷ vs) = ty v

-- The type that the fields of a record or of an event declare.
unfoldable pub field_ty : Option RecordField → Option Ty
field_ty none = none
field_ty (some f) = some (RecordField.ty f)

unfoldable pub def_ty : Option FieldDef → Option Ty
def_ty none = none
def_ty (some f) = some (FieldDef.ty f)

unfoldable pub fit_field : Option Ty → Value → Run Value
fit_field none v = fails malformed_ir
fit_field (some t) v = from_result (fitted v t)

-- The text of an interpolation, its redacted text, and whether a part of it was a secret.
pub record Spelled : Type 0 where
  pub plain : Text
  pub redacted : Text
  pub tainted : Bool

abbrev is_secret : Json → Bool
is_secret (Json.secret plain redacted) = true
is_secret j = false

unfoldable pub spell : Spelled → Value → Spelled
spell s v = record {
  plain = Spelled.plain s ++ text v;
  redacted = Spelled.redacted s ++ redacted_text v;
  tainted = Spelled.tainted s || is_secret (to_json v);
}

unfoldable pub spelled : Spelled → Value
spelled s =
    if Spelled.tainted s
    then Value.secret (Spelled.plain s) (Spelled.redacted s)
    else Value.str (Spelled.plain s)

abbrev pub nothing_spelled : Spelled
nothing_spelled = record { plain = []; redacted = []; tainted = false }

abbrev first_ty : List Value → Ty
first_ty [] = Ty.uuid
first_ty (v ∷ vs) = ty v

-- `uuid_derive`
unfoldable pub derive_uuid : Library → List Value → Run Value
derive_uuid lib (Value.uuid seed ∷ Value.str name ∷ more) =
    if Library.is_uuid lib seed
    then done (Value.uuid (Library.uuid_v5 lib seed name))
    else fails (bad_uuid seed)
derive_uuid lib args =
    fails
      (bad_argument (codes "Uuid.derive") (codes "a Uuid seed and a String name") (first_ty args))

abbrev optional : Ty → Option Value → Value
optional t none = none_value t
optional t (some v) = some_value v

abbrev map_some : (ℤ → Value) → Option ℤ → Option Value
map_some f none = none
map_some f (some n) = some (f n)

-- The six fields of a moment: what is not given is zero, and what is not an integer is malformed.
unfoldable pub int_fields : ℕ → List Value → Run (List ℤ)
int_fields zero vs = done []
int_fields (suc n) [] = int_fields n [] >>= λ ns. done (pos 0 ∷ ns)
int_fields (suc n) (Value.int i ∷ vs) = int_fields n vs >>= λ ns. done (i ∷ ns)
int_fields (suc n) (v ∷ vs) = fails malformed_ir

unfoldable pub moment_value : List ℤ → Run Value
moment_value (year ∷ month ∷ day ∷ hour ∷ minute ∷ second ∷ []) = done (
    optional Ty.timestamp (map_some Value.timestamp (from_parts year month day hour minute second)))
moment_value ns = fails malformed_ir

abbrev first_text : List Value → (Text → Value) → Run Value
first_text (Value.str s ∷ vs) f = done (f s)
first_text vs f = fails malformed_ir

abbrev first_json : List Value → Run Value
first_json [] = fails malformed_ir
first_json (v ∷ vs) = done (Value.str (json_text (to_json v)))

-- `Expr::Call`: a request needs an effect context.
unfoldable pub call_builtin : Library → Builtin → List Value → Run Value
call_builtin lib uuid_derive vs = derive_uuid lib vs
call_builtin lib json_encode vs = first_json vs
call_builtin lib timestamp_from_parts vs = int_fields 6 vs >>= λ ns. moment_value ns
call_builtin lib timestamp_parse vs =
    first_text vs (λ s. optional Ty.timestamp (map_some Value.timestamp (timestamp s)))
call_builtin lib (money_parse scale) vs =
    first_text vs (λ s. optional (Ty.money scale) (parse_scaled s (Ty.money scale)))
call_builtin lib (decimal_parse scale) vs =
    first_text vs (λ s. optional (Ty.decimal scale) (parse_scaled s (Ty.decimal scale)))
call_builtin lib b vs = fails malformed_ir

-- How a binary operator meets its operands: by the left one alone, or by both.
pub data Strategy : Type 0 where
  short_circuit : (stops_at : Bool) → Strategy
  strict : Strategy

unfoldable pub strategy : BinOp → Strategy
strategy and = short_circuit false
strategy or = short_circuit true
strategy op = strict

abbrev pub with_frame {ℓ} : {A : Type ℓ} → Frame → Run A → Run (A × Frame)
with_frame fr r = r >>= λ a. done (a, fr)

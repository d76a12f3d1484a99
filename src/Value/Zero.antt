-- ===== src/Value/Zero.antt =====
-- src/value.rs: the values that the columns of a row start at. `depth` bounds how deep records hold
-- records, and what runs out of it is `spent`.
use heklang.Base.{ℕ, zero, suc, Option, none, some, List, [], ◌∷◌, ◌++◌, false}
use heklang.Base.Int.{pos}
use heklang.Ir.{Ident, Ty}
use heklang.Ir.Program.{EnumDef, RecordDef, RecordField, EntityField, named, default_variant}
use heklang.Value.{Value, Fields, no_fields, no_values, no_entries}
use heklang.Value.Maps.{insert_field}
use heklang.Value.Numbers.{of_literal}
use heklang.Interp.Frames.{Run, done, spent, ◌>>=◌}

pub record Defs : Type 0 where
  pub local : List EnumDef
  pub enums : List EnumDef
  pub records : List RecordDef

-- `Defs::enum_def`
unfoldable pub enum_def : Defs → Ident → Option EnumDef
enum_def defs name = named EnumDef.name name (Defs.local defs ++ Defs.enums defs)

unfoldable pub zero_enum : Ident → Option EnumDef → Option Value
zero_enum name none = none
zero_enum name (some def) = elim (default_variant def) [
  | none ↦ none
  | some variant ↦ some (Value.enum name variant)
]

-- The fields of a record, up to one that has no zero.
unfoldable pub zero_fields :
    (Ty → Run (Option Value)) → List RecordField → Fields → Run (Option Fields)
zero_fields at [] fs = done (some fs)
zero_fields at (f ∷ rest) fs = at (RecordField.ty f) >>= λ v. elim v [
  | none ↦ done none
  | some w ↦ zero_fields at rest (insert_field (RecordField.name f) w fs)
]

unfoldable pub zero_struct : Ident → Option Fields → Option Value
zero_struct name none = none
zero_struct name (some fs) = some (Value.struct name fs)

unfoldable pub zero_record :
    (Ty → Run (Option Value)) → Ident → Option RecordDef → Run (Option Value)
zero_record at name none = done none
zero_record at name (some def) =
    zero_fields at (RecordDef.fields def) no_fields >>= λ fs. done (zero_struct name fs)

-- `zero`
unfoldable pub zero_of : (depth : ℕ) → Defs → Ty → Run (Option Value)
zero_of zero defs t = spent
zero_of (suc d) defs (Ty.sealed inner subject) = zero_of d defs inner
zero_of (suc d) defs Ty.bool = done (some (Value.bool false))
zero_of (suc d) defs Ty.int = done (some (Value.int (pos 0)))
zero_of (suc d) defs (Ty.decimal scale) = done (some (Value.decimal (pos 0) scale))
zero_of (suc d) defs Ty.string = done (some (Value.str []))
zero_of (suc d) defs (Ty.money scale) = done (some (Value.money (pos 0) scale))
zero_of (suc d) defs (Ty.enum name) = done (zero_enum name (enum_def defs name))
zero_of (suc d) defs (Ty.struct name) =
    zero_record (zero_of d defs) name (named RecordDef.name name (Defs.records defs))
zero_of (suc d) defs (Ty.opt inner) = done (some (Value.absent inner))
zero_of (suc d) defs (Ty.list inner) = done (some (Value.list inner no_values))
zero_of (suc d) defs (Ty.map k v) = done (some (Value.map k v no_entries))
zero_of (suc d) defs t = done none

unfoldable pub initial : (depth : ℕ) → EntityField → Defs → Run (Option Value)
initial depth f defs = elim (EntityField.default f) [
  | some lit ↦ done (some (of_literal lit))
  | none ↦ zero_of depth defs (EntityField.ty f)
]

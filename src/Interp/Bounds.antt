-- ===== src/Interp/Bounds.antt =====
-- src/interp.rs: a value against the declared `@max` of its field, and of what it holds.
use heklang.Base.{ℕ, suc, Option, none, some, [], ◌∷◌, ◌++◌, length, ltb, if◌then◌else◌}
use heklang.Base.Decimal.{nat_text}
use heklang.Base.Text.{Text}
use heklang.Ir.{Ident, Ty}
use heklang.Ir.Program.{Program, RecordDef, RecordField, record_def, record_field}
use heklang.Value.{
  Value, Values, no_values, element, Fields, no_fields, field, Entries, no_entries, entry, ty,
  has_type,
}
use heklang.Value.Render.{key_text}
use heklang.Interp.Errors.{ErrorKind, too_long, type_mismatch}
use heklang.Interp.Frames.{Run, done, fails}

-- A string of more characters than a declared bound.
unfoldable pub over_long : (at : Text) (max_len : Option ℕ) → Text → Option ErrorKind
over_long at none s = none
over_long at (some max) s = if ltb max (length s) then some (too_long at (length s) max) else none

abbrev pub first_of : Option ErrorKind → Option ErrorKind → Option ErrorKind
first_of none later = later
first_of (some e) later = some e

unfoldable pub field_bound : Option RecordField → Option ℕ
field_bound none = none
field_bound (some f) = RecordField.max_len f

-- `{at}.{name}`, `{at}[{index}]`
abbrev dotted : (at name : Text) → Text
dotted at name = at ++ b'.' ∷ name

abbrev indexed : (at index : Text) → Text
indexed at index = at ++ b'[' ∷ (index ++ b']' ∷ [])

module _ (program : Program) where
  -- One optional is peeled, and the rest is `bounded_held`. A record that is not declared has no
  -- bounds, and neither has what it holds.
  unfoldable mutual
    pub bounded : (at : Text) (max_len : Option ℕ) → Value → Option ErrorKind
    bounded at max_len (Value.present inner v) = bounded_held at max_len v
    bounded at max_len (Value.str s) = over_long at max_len s
    bounded at max_len (Value.struct t fs) = bounded_fields at (record_def program t) fs
    bounded at max_len (Value.list inner vs) = bounded_items at 0 vs
    bounded at max_len (Value.map k v es) = bounded_entries at es
    bounded at max_len other = none

    pub bounded_held : (at : Text) (max_len : Option ℕ) → Value → Option ErrorKind
    bounded_held at max_len (Value.str s) = over_long at max_len s
    bounded_held at max_len (Value.struct t fs) = bounded_fields at (record_def program t) fs
    bounded_held at max_len (Value.list inner vs) = bounded_items at 0 vs
    bounded_held at max_len (Value.map k v es) = bounded_entries at es
    bounded_held at max_len other = none

    pub bounded_fields : (at : Text) → Option RecordDef → Fields → Option ErrorKind
    bounded_fields at none fs = none
    bounded_fields at (some def) no_fields = none
    bounded_fields at (some def) (field name v fs) =
        first_of (bounded (dotted at name) (field_bound (record_field def name)) v)
          (bounded_fields at (some def) fs)

    pub bounded_items : (at : Text) (index : ℕ) → Values → Option ErrorKind
    bounded_items at index no_values = none
    bounded_items at index (element v vs) =
        first_of (bounded (indexed at (nat_text index)) none v) (bounded_items at (suc index) vs)

    pub bounded_entries : (at : Text) → Entries → Option ErrorKind
    bounded_entries at no_entries = none
    bounded_entries at (entry k v es) =
        first_of (bounded (indexed at (key_text k)) none v) (bounded_entries at es)

  unfoldable pub check_field :
      Ty → (max_len : Option ℕ) (name : Ident) → Value → Run (Option ErrorKind)
  check_field t max_len name v =
      if has_type v t then done (bounded name max_len v) else fails (type_mismatch t (ty v))

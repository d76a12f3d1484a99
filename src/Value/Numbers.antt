-- ===== src/Value/Numbers.antt =====
-- src/value.rs: the value of a literal, and the number that a text writes at a scale.
use heklang.Base.{
  ℕ, Bool, true, false, not, ◌&&◌, ◌||◌, Option, none, some, [], ◌∷◌, ◌++◌, all, length, ltb, leb,
  ◌==◌, if◌then◌else◌,
}
use heklang.Base.Int.{ℤ, pos, neg}
use heklang.Base.Decimal.{is_digit, read_unsigned, read_signed}
use heklang.Base.Text.{Text}
use heklang.Scaled.{i128_half, checked_i64}
use heklang.Ir.{Ty}
use heklang.Ir.Literals.{
  Literal, Literals, no_literals, literal, LiteralFields, no_literal_fields, literal_field,
}
use heklang.Ir.Numbers.{Number, Resolved, ok, err, resolve}
use heklang.Value.{
  Value, Values, no_values, element, Fields, no_fields, no_entries, Json, no_members,
}
use heklang.Value.Maps.{insert_field}
use heklang.Value.Calendar.{◌>>=◌}

-- `literal`
unfoldable mutual
  pub of_literal : Literal → Value
  of_literal (Literal.bool b) = Value.bool b
  of_literal (Literal.int n) = Value.int n
  of_literal (Literal.decimal units scale) = Value.decimal units scale
  of_literal (Literal.str s) = Value.str s
  of_literal (Literal.uuid s) = Value.uuid s
  of_literal (Literal.timestamp micros) = Value.timestamp micros
  of_literal (Literal.money units scale) = Value.money units scale
  of_literal (Literal.enum ty variant) = Value.enum ty variant
  of_literal (Literal.absent inner) = Value.absent inner
  of_literal (Literal.present inner lit) = Value.present inner (of_literal lit)
  of_literal (Literal.rounding mode) = Value.rounding mode
  of_literal (Literal.list inner lits) = Value.list inner (of_literals lits)
  of_literal (Literal.empty_map key value) = Value.map key value no_entries
  of_literal Literal.empty_json = Value.json (Json.obj no_members)
  of_literal (Literal.json_num s) = Value.json (Json.num s)
  of_literal (Literal.struct ty lits) = Value.struct ty (of_literal_fields lits no_fields)

  pub of_literals : Literals → Values
  of_literals no_literals = no_values
  of_literals (literal lit lits) = element (of_literal lit) (of_literals lits)

  pub of_literal_fields : LiteralFields → Fields → Fields
  of_literal_fields no_literal_fields fs = fs
  of_literal_fields (literal_field name lit lits) fs =
      of_literal_fields lits (insert_field name (of_literal lit) fs)

-- `split_once` at a character.
unfoldable pub split_once : ℕ → Text → Option (Text × Text)
split_once at [] = none
split_once at (c ∷ s) =
    let rest = split_once at s in
    if c == at
    then some ([], s)
    else elim rest [ some (before, after) ↦ some (c ∷ before, after) | none ↦ none ]

-- The digits of both sides as one number, which is an `i128`, and the places behind the point, which
-- are a `u8`.
unfoldable pub number_of : (negative : Bool) → (whole fraction : Text) → Option Number
number_of negative whole fraction = do
  n ← read_unsigned (whole ++ fraction)
  if ltb n i128_half && leb (length fraction) 255
      then some
          (record { digits = if negative then neg (pos n) else pos n; scale = length fraction })
      else none

abbrev resolved : Resolved → Option Value
resolved (ok lit) = some (of_literal lit)
resolved (err e) = none

-- The `Number` that a text behind its sign writes.
unfoldable pub written : (negative : Bool) → Text → Option Number
written negative rest = elim (split_once b'.' rest) [
  | some (whole, fraction) ↦
      if length whole == 0
        || not (all is_digit whole)
        || length fraction == 0
        || not (all is_digit fraction)
      then none
      else number_of negative whole fraction
  | none ↦ if length rest == 0 || not (all is_digit rest) then none else number_of negative rest []
]

unfoldable pub written_number : Text → Option Number
written_number [] = none
written_number (c ∷ s) = if c == b'-' then written true s else written false (c ∷ s)

unfoldable pub parse_scaled : Text → Ty → Option Value
parse_scaled text ty = do n ← written_number text; resolved (resolve n ty)

-- `parse` of an `i64`
unfoldable pub parse_i64 : Text → Option ℤ
unfolding checked_i64
parse_i64 s = do n ← read_signed s; checked_i64 n

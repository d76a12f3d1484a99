-- ===== src/Interp/Methods/Scalars.antt =====
-- src/interp.rs: the methods of an amount, an optional, a JSON value, a timestamp, an integer and
-- the outcome of a command.
use heklang.Base.{
  ℕ, ◌+◌, ◌-◌, Bool, true, false, ◌||◌, not, Option, none, some, List, ◌++◌, length, replicate,
  if◌then◌else◌,
}
use heklang.Base.Int.{ℤ, pos, pos_part, abs, ◌+ℤ◌, ◌*ℤ◌, ltb_ℤ}
use heklang.Base.Decimal.{nat_text, sign_text}
use heklang.Base.Text.{Text, codes, text_eq, is}
use heklang.Scaled
use heklang.Scaled.{checked_i64}
use heklang.Ir.{Ty}
use heklang.Value.{
  Value, ty, has_type, Values, no_values, element, Json, Items, no_items, item, Invoked,
}
use heklang.Value.Numbers.{parse_i64}
use heklang.Value.Calendar.{Parts, parts}
use heklang.Value.Render.{get, invoked_ok, invoked_code, invoked_message}
use heklang.Interp.Errors.{
  Result, ok, err, ◌>>=◌, map_ok, map_err, from_scaled, overflow, pad_width, unknown_method,
  type_mismatch, bad_argument,
}
use heklang.Interp.Coerce.{
  some_value, none_value, rounding_arg, no_args, one_arg, two_args, text_arg, int_arg,
}
use heklang.Interp.Ops.{selected, ordering}

abbrev decimal_arg : (method : Text) → Value → (ℤ → ℕ → Result Value) → Result Value
decimal_arg method (Value.decimal units scale) k = k units scale
decimal_arg method other k = err (bad_argument method (codes "a Decimal") (ty other))

abbrev divisor_arg : (method : Text) → Value → (ℤ → Result Value) → Result Value
divisor_arg method (Value.int n) k = k n
divisor_arg method other k = err (bad_argument method (codes "an Int") (ty other))

unfoldable pub money_method : (amount : ℤ) (scale : ℕ) (method : Text) → List Value → Result Value
unfolding map_err from_scaled
money_method amount scale method args =
    let made : ℤ → Value = λ u. Value.money u scale in
    if is method "mul"
    then two_args method args (λ a b. decimal_arg method a (λ rate places.
      rounding_arg method b >>= λ mode.
      map_ok made (map_err from_scaled (Scaled.mul_ratio amount rate places mode))))
    else if is method "div"
    then two_args method args (λ a b. divisor_arg method a (λ divisor.
      rounding_arg method b >>= λ mode.
      map_ok made (map_err from_scaled (Scaled.div_round amount divisor mode))))
    else if is method "max" || is method "min"
    then one_arg method args (λ other. selected method (Value.money amount scale) other)
    else err (unknown_method (Ty.money scale) method)

-- An argument that has to be of the optional's type.
abbrev inner_arg : Ty → Value → (Value → Result Value) → Result Value
inner_arg inner v k = if has_type v inner then k v else err (type_mismatch inner (ty v))

-- `max` and `min` of an absent optional, asked of the argument.
unfoldable pub absent_selected : Ty → (method : Text) → Value → Result Value
absent_selected inner method other = elim (ordering other other) [
  | some o ↦ ok other
  | none ↦ err (unknown_method (Ty.opt inner) method)
]

abbrev held_or : Option Value → Value → Value
held_or none v = v
held_or (some held) v = held

abbrev held_selected : Ty → Option Value → (method : Text) → Value → Result Value
held_selected inner none method other = absent_selected inner method other
held_selected inner (some held) method other = selected method held other

abbrev is_held : Option Value → Bool
is_held none = false
is_held (some v) = true

unfoldable pub opt_method : Ty → Option Value → (method : Text) → List Value → Result Value
opt_method inner held method args =
    if is method "is_some"
    then no_args method args (ok (Value.bool (is_held held)))
    else if is method "is_none"
    then no_args method args (ok (Value.bool (not (is_held held))))
    else if is method "unwrap_or"
    then one_arg method args (λ a. inner_arg inner a (λ v. ok (held_or held v)))
    else if is method "max" || is method "min"
    then one_arg method args (λ a. inner_arg inner a (λ v. held_selected inner held method v))
    else err (unknown_method (Ty.opt inner) method)

unfoldable pub json_values : Items → Values
json_values no_items = no_values
json_values (item j js) = element (Value.json j) (json_values js)

-- What `json_field` reads of a field at a type.
unfoldable pub read_json : Json → (want : Ty) → Option Value
read_json (Json.str s) Ty.string = some (Value.str s)
read_json (Json.num s) Ty.int = elim (parse_i64 s) [ some n ↦ some (Value.int n) | none ↦ none ]
read_json (Json.bool b) Ty.bool = some (Value.bool b)
read_json (Json.obj ms) Ty.json = some (Value.json (Json.obj ms))
read_json (Json.arr js) (Ty.list t) = some (Value.list Ty.json (json_values js))
read_json j want = none

abbrev read_field : Option Json → (want : Ty) → Option Value
read_field none want = none
read_field (some j) want = read_json j want

abbrev optional : Ty → Option Value → Value
optional want none = none_value want
optional want (some v) = some_value v

unfoldable pub json_field : Json → (method : Text) → List Value → (want : Ty) → Result Value
json_field j method args want =
    one_arg method args (λ a. text_arg a (λ key. ok (optional want (read_field (get j key) want))))

abbrev number_text : Option Json → Value
number_text (some (Json.num s)) = some_value (Value.str s)
number_text _ = none_value Ty.string

unfoldable pub json_method : Json → (method : Text) → List Value → Result Value
json_method j method args =
    if is method "string"
    then json_field j method args Ty.string
    else if is method "int"
    then json_field j method args Ty.int
    else if is method "bool"
    then json_field j method args Ty.bool
    else if is method "json"
    then json_field j method args Ty.json
    else if is method "array"
    then json_field j method args (Ty.list Ty.json)
    else if is method "number"
    then one_arg method args (λ a. text_arg a (λ key. ok (number_text (get j key))))
    else if is method "max" || is method "min"
    then one_arg method args (λ other. selected method (Value.json j) other)
    else err (unknown_method Ty.json method)

-- The microseconds of the unit that a method adds.
unfoldable pub unit_micros : (method : Text) → Option ℕ
unit_micros method =
    if is method "add_seconds"
    then some 1_000_000
    else if is method "add_minutes"
    then some 60_000_000
    else if is method "add_hours"
    then some 3_600_000_000
    else if is method "add_days"
    then some 86_400_000_000
    else none

unfoldable pub part_of : Parts → (method : Text) → Option ℤ
part_of p method =
    if is method "year"
    then some (Parts.year p)
    else if is method "month"
    then some (Parts.month p)
    else if is method "day"
    then some (Parts.day p)
    else if is method "hour"
    then some (Parts.hour p)
    else if is method "minute"
    then some (Parts.minute p)
    else if is method "second"
    then some (Parts.second p)
    else none

-- Both steps checked.
unfoldable pub add_units : (micros count : ℤ) (unit : ℕ) → Result Value
unfolding checked_i64
add_units micros count unit = elim (checked_i64 (count *ℤ pos unit)) [
  | some delta ↦ elim (checked_i64 (micros +ℤ delta)) [
    | some sum ↦ ok (Value.timestamp sum)
    | none ↦ err overflow
  ]
  | none ↦ err overflow
]

unfoldable pub timestamp_method : (micros : ℤ) (method : Text) → List Value → Result Value
timestamp_method micros method args = elim (part_of (parts micros) method) [
  | some n ↦ no_args method args (ok (Value.int n))
  | none ↦ elim (unit_micros method) [
    | some unit ↦ one_arg method args (λ a. int_arg a (λ count. add_units micros count unit))
    | none ↦
        if is method "max" || is method "min"
        then one_arg method args (λ other. selected method (Value.timestamp micros) other)
        else err (unknown_method Ty.timestamp method)
  ]
]

abbrev pub max_pad : ℕ
max_pad = 4096

-- The sign, then the zeros, then the digits.
unfoldable pub pad : (n width : ℤ) → Result Text
pad n width =
    let digits = nat_text (abs n) in
    let zeros = pos_part width - (length digits + length (sign_text n)) in
    if ltb_ℤ (pos max_pad) width
    then err (pad_width width)
    else ok (sign_text n ++ (replicate zeros b'0' ++ digits))

unfoldable pub int_method : (n : ℤ) (method : Text) → List Value → Result Value
int_method n method args =
    if is method "pad"
    then one_arg method args (λ a. int_arg a (λ width. map_ok Value.str (pad n width)))
    else if is method "max" || is method "min"
    then one_arg method args (λ other. selected method (Value.int n) other)
    else err (unknown_method Ty.int method)

unfoldable pub optional_str : Option Text → Value
optional_str none = none_value Ty.string
optional_str (some s) = some_value (Value.str s)

abbrev refused_with : Option Text → Text → Bool
refused_with none code = false
refused_with (some c) code = text_eq c code

unfoldable pub invoked_method : Invoked → (method : Text) → List Value → Result Value
invoked_method i method args =
    if is method "ok"
    then no_args method args (ok (Value.bool (invoked_ok i)))
    else if is method "code"
    then no_args method args (ok (optional_str (invoked_code i)))
    else if is method "message"
    then no_args method args (ok (optional_str (invoked_message i)))
    else if is method "refused"
    then one_arg method args
        (λ a. text_arg a (λ code. ok (Value.bool (refused_with (invoked_code i) code))))
    else if is method "max" || is method "min"
    then one_arg method args (λ other. selected method (Value.invoked i) other)
    else err (unknown_method Ty.outcome method)

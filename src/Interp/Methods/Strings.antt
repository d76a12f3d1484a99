-- ===== src/Interp/Methods/Strings.antt =====
-- src/interp.rs: the methods of a `String`. The tables of Unicode and the parser of a `Uuid` are the
-- standard library's and a crate's, and stand in a record.
use heklang.Base.{
  ℕ, ◌==◌, Bool, true, false, ◌&&◌, ◌||◌, Option, none, some, List, [], ◌∷◌, length, take,
  if◌then◌else◌,
}
use heklang.Base.Int.{ℤ, pos, pos_part}
use heklang.Base.Text.{Text, is}
use heklang.Ir.{Ty}
use heklang.Value.{Value}
use heklang.Value.Numbers.{parse_i64}
use heklang.Interp.Errors.{Result, ok, err, unknown_method}
use heklang.Interp.Coerce.{some_value, none_value, no_args, one_arg, text_arg, int_arg}
use heklang.Interp.Ops.{selected}

-- `to_lowercase`, `to_uppercase`, `char::is_whitespace`, and `parse_str` and `new_v5` of the crate
-- `uuid`, the last with its `to_string`.
pub record Library : Type 0 where
  pub lower : Text → Text
  pub upper : Text → Text
  pub is_white : ℕ → Bool
  pub is_uuid : Text → Bool
  pub uuid_v5 : (namespace name : Text) → Text

unfoldable pub trim_start : (ℕ → Bool) → Text → Text
trim_start white [] = []
trim_start white (c ∷ s) = elim (white c) [ true ↦ trim_start white s | false ↦ c ∷ s ]

unfoldable pub trim_end : (ℕ → Bool) → Text → Text
trim_end white [] = []
trim_end white (c ∷ s) =
    let rest = trim_end white s in if length rest == 0 && white c then [] else c ∷ rest

-- `str::trim`
unfoldable pub trim : (ℕ → Bool) → Text → Text
trim white s = trim_end white (trim_start white s)

-- `str::strip_prefix`
unfoldable pub strip : (prefix : Text) → Text → Option Text
strip [] s = some s
strip (p ∷ prefix) [] = none
strip (p ∷ prefix) (c ∷ s) = elim (p == c) [ true ↦ strip prefix s | false ↦ none ]

abbrev present : Option Text → Bool
present none = false
present (some t) = true

-- `str::contains`
unfoldable pub contains : (needle : Text) → Text → Bool
contains needle [] = present (strip needle [])
contains needle (c ∷ s) = present (strip needle (c ∷ s)) || contains needle s

-- What stands behind the last occurrence, as `rsplit_once`.
unfoldable pub behind_last : (sep : Text) → Text → Option Text
behind_last sep [] = strip sep []
behind_last sep (c ∷ s) = elim (behind_last sep s) [
  | some tail ↦ some tail
  | none ↦ strip sep (c ∷ s)
]

abbrev pub or_else : Option Text → Text → Text
or_else none t = t
or_else (some s) t = s

-- A count below zero keeps nothing.
unfoldable pub truncate : ℤ → Text → Text
truncate count s = take (pos_part count) s

unfoldable pub string_method : Library → Text → (method : Text) → List Value → Result Value
string_method lib s method args =
    if is method "trim"
    then no_args method args (ok (Value.str (trim (Library.is_white lib) s)))
    else if is method "len"
    then no_args method args (ok (Value.int (pos (length s))))
    else if is method "is_empty"
    then no_args method args (ok (Value.bool (length s == 0)))
    else if is method "lower"
    then no_args method args (ok (Value.str (Library.lower lib s)))
    else if is method "upper"
    then no_args method args (ok (Value.str (Library.upper lib s)))
    else if is method "starts_with"
    then one_arg method args
        (λ a. text_arg a (λ prefix. ok (Value.bool (present (strip prefix s)))))
    else if is method "strip_prefix"
    then one_arg method args
        (λ a. text_arg a (λ prefix. ok (Value.str (or_else (strip prefix s) s))))
    else if is method "after_last"
    then one_arg method args (λ a.
      text_arg a
        (λ sep. ok (Value.str (if length sep == 0 then s else or_else (behind_last sep s) s))))
    else if is method "truncate"
    then one_arg method args (λ a. int_arg a (λ count. ok (Value.str (truncate count s))))
    else if is method "to_int"
    then no_args method args (elim (parse_i64 s) [
      | some n ↦ ok (some_value (Value.int n))
      | none ↦ ok (none_value Ty.int)
    ])
    else if is method "to_uuid"
    then no_args method args
        (ok (if Library.is_uuid lib s then some_value (Value.uuid s) else none_value Ty.uuid))
    else if is method "contains"
    then one_arg method args (λ a. text_arg a (λ needle. ok (Value.bool (contains needle s))))
    else if is method "max" || is method "min"
    then one_arg method args (λ other. selected method (Value.str s) other)
    else err (unknown_method Ty.string method)

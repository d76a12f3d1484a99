-- ===== src/Interp/Methods/Collections.antt =====
-- src/interp.rs: the methods of a list and of a map.
use heklang.Base.{
  ◌==◌, Bool, true, false, ◌||◌, Option, none, some, List, [], ◌∷◌, ◌++◌, length, any,
  if◌then◌else◌,
}
use heklang.Base.Int.{ℤ, pos}
use heklang.Base.Text.{Text, is}
use heklang.Scaled
use heklang.Ir.{Ty}
use heklang.Value.{Value, value_eq, Values, no_values, element, Entries, Key, from_key}
use heklang.Value.Maps.{items_of, values_of, entries_of, insert_entry, find_entry, remove_entry}
use heklang.Interp.Errors.{
  Result, ok, err, ◌>>=◌, malformed_ir, unknown_method, map_err, from_scaled,
}
use heklang.Interp.Coerce.{some_value, none_value, fitted, map_key, no_args, one_arg, two_args}
use heklang.Interp.Ops.{selected}

-- `<[Value]>::contains`
unfoldable pub holds_value : Value → List Value → Bool
holds_value v vs = any (λ w. value_eq w v) vs

-- The scan of `distinct`, behind the values that are kept so far.
unfoldable pub distinct_from : (kept rest : List Value) → List Value
distinct_from kept [] = kept
distinct_from kept (v ∷ vs) = elim (holds_value v kept) [
  | true ↦ distinct_from kept vs
  | false ↦ distinct_from (kept ++ v ∷ []) vs
]

-- Every value but those that are equal to one.
unfoldable pub without : Value → List Value → List Value
without v [] = []
without v (w ∷ vs) = elim (value_eq w v) [ true ↦ without v vs | false ↦ w ∷ without v vs ]

-- The units of an item whose type is the list's.
unfoldable pub units_of : (inner : Ty) → Value → Result ℤ
units_of Ty.int (Value.int n) = ok n
units_of (Ty.decimal scale) (Value.decimal units found) =
    if found == scale then ok units else err malformed_ir
units_of (Ty.money scale) (Value.money units found) =
    if found == scale then ok units else err malformed_ir
units_of inner v = err malformed_ir

unfoldable pub sum_units : (inner : Ty) (total : ℤ) → List Value → Result ℤ
unfolding map_err from_scaled
sum_units inner total [] = ok total
sum_units inner total (v ∷ vs) = do
  n ← units_of inner v
  next ← map_err from_scaled (Scaled.add total n)
  sum_units inner next vs

unfoldable pub sum_value : (inner : Ty) (total : ℤ) → Result Value
sum_value Ty.int total = ok (Value.int total)
sum_value (Ty.decimal scale) total = ok (Value.decimal total scale)
sum_value (Ty.money scale) total = ok (Value.money total scale)
sum_value inner total = err malformed_ir

-- Every value fitted to one type, up to the first that does not fit.
unfoldable pub all_fitted : (inner : Ty) → List Value → Result (List Value)
all_fitted inner [] = ok []
all_fitted inner (v ∷ vs) = do w ← fitted v inner; ws ← all_fitted inner vs; ok (w ∷ ws)

abbrev first_value : Ty → List Value → Value
first_value inner [] = none_value inner
first_value inner (v ∷ vs) = some_value v

-- The argument of `concat`: what is no list is malformed.
abbrev tail_arg : Value → (List Value → Result Value) → Result Value
tail_arg (Value.list inner vs) k = k (items_of vs)
tail_arg v k = err malformed_ir

unfoldable pub list_method : Ty → Values → (method : Text) → List Value → Result Value
list_method inner vs method args =
    let items = items_of vs in
    let made : List Value → Value = λ ws. Value.list inner (values_of ws) in
    if is method "len"
    then no_args method args (ok (Value.int (pos (length items))))
    else if is method "is_empty"
    then no_args method args (ok (Value.bool (length items == 0)))
    else if is method "contains"
    then one_arg method args (λ a. ok (Value.bool (holds_value a items)))
    else if is method "first"
    then no_args method args (ok (first_value inner items))
    else if is method "push"
    then one_arg method args (λ a. fitted a inner >>= λ v. ok (made (items ++ v ∷ [])))
    else if is method "sum"
    then no_args method args (sum_units inner (pos 0) items >>= λ n. sum_value inner n)
    else if is method "concat"
    then one_arg method args
        (λ a. tail_arg a (λ more. all_fitted inner more >>= λ ws. ok (made (items ++ ws))))
    else if is method "distinct"
    then no_args method args (ok (made (distinct_from [] items)))
    else if is method "remove"
    then one_arg method args (λ a. ok (made (without a items)))
    else if is method "max" || is method "min"
    then one_arg method args (λ other. selected method (Value.list inner vs) other)
    else err (unknown_method (Ty.list inner) method)

abbrev found_value : Ty → Option Value → Value
found_value value none = none_value value
found_value value (some v) = some_value v

abbrev is_found : Option Value → Bool
is_found none = false
is_found (some v) = true

unfoldable pub keys_of : List (Key × Value) → Values
keys_of [] = no_values
keys_of ((k, v) ∷ es) = element (from_key k) (keys_of es)

unfoldable pub held_of : List (Key × Value) → Values
held_of [] = no_values
held_of ((k, v) ∷ es) = element v (held_of es)

unfoldable pub map_method : (key value : Ty) → Entries → (method : Text) → List Value → Result Value
map_method key value es method args =
    let entries = entries_of es in
    if is method "len"
    then no_args method args (ok (Value.int (pos (length entries))))
    else if is method "is_empty"
    then no_args method args (ok (Value.bool (length entries == 0)))
    else if is method "contains"
    then one_arg method args (λ a. map_key a >>= λ k. ok (Value.bool (is_found (find_entry k es))))
    else if is method "get"
    then one_arg method args (λ a. map_key a >>= λ k. ok (found_value value (find_entry k es)))
    else if is method "set"
    then two_args method args (λ a b.
      map_key a >>= λ k. fitted b value >>= λ v. ok (Value.map key value (insert_entry k v es)))
    else if is method "remove"
    then one_arg method args (λ a. map_key a >>= λ k. ok (Value.map key value (remove_entry k es)))
    else if is method "keys"
    then no_args method args (ok (Value.list key (keys_of entries)))
    else if is method "values"
    then no_args method args (ok (Value.list value (held_of entries)))
    else if is method "max" || is method "min"
    then one_arg method args (λ other. selected method (Value.map key value es) other)
    else err (unknown_method (Ty.map key value) method)

-- ===== src/Types.antt =====
-- src/types.rs: the tables and the relations of the checker.
pub mod Laws
use heklang.Base.{
  ℕ, ◌≡◌, refl, Bool, true, false, ◌&&◌, ◌||◌, not, Option, none, some, List, [], ◌∷◌, ◌==◌,
  if◌then◌else◌, map as map_list,
}
use heklang.Base.Text.{Text, codes, text_eq, is}
use heklang.Scaled.{ratio_scale}
use heklang.Ir.{
  Ident, Ty, bool, int, string, uuid, timestamp, rounding, json, response, outcome, secret, decimal,
  money, enum, struct, event, subject, list, opt, map, sealed, ty_eq, as_scalar, BinOp, add, sub,
  mul, div, rem, eq, ne, lt, le, gt, ge, and, or,
}

unfoldable pub inner_of : Ty → Ty
inner_of (opt inner) = inner
inner_of ty = ty

unfoldable pub fills : (found ty : Ty) → Bool
unfolding ty_eq
fills found (opt inner) = ty_eq found (opt inner) || ty_eq inner found
fills found ty = ty_eq found ty

unfoldable pub seal : Ty → Ident → Ty
seal (opt inner) s = opt (seal inner s)
seal other s = sealed other s

-- `None` where the pair is not in the table.
unfoldable pub arithmetic : BinOp → (lhs rhs : Ty) → Option Ty
arithmetic add int int = some int
arithmetic sub int int = some int
arithmetic mul int int = some int
arithmetic div int int = some int
arithmetic rem int int = some int
arithmetic add (decimal a) (decimal b) = if a == b then some (decimal a) else none
arithmetic sub (decimal a) (decimal b) = if a == b then some (decimal a) else none
arithmetic mul (decimal a) int = some (decimal a)
arithmetic div (decimal a) int = some (decimal a)
arithmetic mul int (decimal b) = some (decimal b)
arithmetic add (money a) (money b) = if a == b then some (money a) else none
arithmetic sub (money a) (money b) = if a == b then some (money a) else none
arithmetic div (money a) (money b) = if a == b then some (decimal ratio_scale) else none
arithmetic mul (money a) int = some (money a)
arithmetic div (money a) int = some (money a)
arithmetic mul int (money b) = some (money b)
arithmetic mul (money a) (decimal b) = some (money a)
arithmetic mul (decimal a) (money b) = some (money b)
arithmetic op lhs rhs = none

-- The types whose values have an order.
unfoldable pub orders : Ty → Bool
orders int = true
orders (decimal n) = true
orders (money n) = true
orders string = true
orders timestamp = true
orders ty = false

abbrev pub is_equality : BinOp → Bool
is_equality eq = true
is_equality ne = true
is_equality op = false

unfoldable pub comparable : BinOp → (lhs rhs : Ty) → Bool
comparable op lhs rhs =
    if is_equality op && (fills lhs rhs || fills rhs lhs)
    then true
    else if not (ty_eq lhs rhs)
    then false
    else if is_equality op
    then true
    else orders (as_scalar lhs)

unfoldable pub response_field : Text → Option Ty
unfolding is
response_field name =
    if is name "status" then some int else if is name "body" then some json else none

-- `None` among the parameters is one that the table cannot fix.
pub record Sig : Type 0 where
  pub params : List (Option Ty)
  pub ret : Ty

abbrev sig : List Ty → Ty → Option Sig
sig params ret = some (record { params = map_list some params; ret = ret })

unfoldable pub string_sig : Text → Option Sig
unfolding is
string_sig method =
    if is method "trim" || is method "lower" || is method "upper"
    then sig [] string
    else if is method "strip_prefix" || is method "after_last"
    then sig (string ∷ []) string
    else if is method "len"
    then sig [] int
    else if is method "truncate"
    then sig (int ∷ []) string
    else if is method "is_empty"
    then sig [] bool
    else if is method "contains" || is method "starts_with"
    then sig (string ∷ []) bool
    else if is method "to_int"
    then sig [] (opt int)
    else if is method "to_uuid"
    then sig [] (opt uuid)
    else none

unfoldable pub json_sig : Text → Option Sig
unfolding is
json_sig method =
    if is method "string"
    then sig (string ∷ []) (opt string)
    else if is method "int"
    then sig (string ∷ []) (opt int)
    else if is method "bool"
    then sig (string ∷ []) (opt bool)
    else if is method "json"
    then sig (string ∷ []) (opt json)
    else if is method "array"
    then sig (string ∷ []) (opt (list json))
    else if is method "number"
    then sig (string ∷ []) (opt string)
    else none

unfoldable pub opt_sig : Ty → Text → Option Sig
unfolding is
opt_sig inner method =
    if is method "unwrap_or"
    then sig (inner ∷ []) inner
    else if is method "is_some" || is method "is_none"
    then sig [] bool
    else none

-- The guard of `sum`: the element type adds to itself.
unfoldable pub sums : Ty → Bool
unfolding arithmetic ty_eq
sums inner = elim (arithmetic add inner inner) [ some ty ↦ ty_eq ty inner | none ↦ false ]

unfoldable pub list_sig : Ty → Text → Option Sig
unfolding is sums
list_sig inner method =
    if is method "first"
    then sig [] (opt inner)
    else if is method "push" || is method "remove"
    then sig (inner ∷ []) (list inner)
    else if is method "contains"
    then sig (inner ∷ []) bool
    else if is method "len"
    then sig [] int
    else if is method "is_empty"
    then sig [] bool
    else if is method "sum" && sums inner
    then sig [] inner
    else if is method "concat"
    then sig (list inner ∷ []) (list inner)
    else if is method "distinct"
    then sig [] (list inner)
    else none

unfoldable pub map_sig : (key value : Ty) → Text → Option Sig
unfolding is
map_sig key value method =
    if is method "get"
    then sig (key ∷ []) (opt value)
    else if is method "set"
    then sig (key ∷ value ∷ []) (map key value)
    else if is method "remove"
    then sig (key ∷ []) (map key value)
    else if is method "contains"
    then sig (key ∷ []) bool
    else if is method "keys"
    then sig [] (list key)
    else if is method "values"
    then sig [] (list value)
    else if is method "len"
    then sig [] int
    else if is method "is_empty"
    then sig [] bool
    else none

unfoldable pub money_sig : ℕ → Text → Option Sig
unfolding is
money_sig scale method =
    if is method "mul"
    then some (record { params = none ∷ some rounding ∷ []; ret = money scale })
    else if is method "div"
    then sig (int ∷ rounding ∷ []) (money scale)
    else none

unfoldable pub timestamp_sig : Text → Option Sig
unfolding is
timestamp_sig method =
    if is method "year"
      || is method "month"
      || is method "day"
      || is method "hour"
      || is method "minute"
      || is method "second"
    then sig [] int
    else if is method "add_seconds"
        || is method "add_minutes"
        || is method "add_hours"
        || is method "add_days"
    then sig (int ∷ []) timestamp
    else none

unfoldable pub outcome_sig : Text → Option Sig
unfolding is
outcome_sig method =
    if is method "ok"
    then sig [] bool
    else if is method "code" || is method "message"
    then sig [] (opt string)
    else if is method "refused"
    then sig (string ∷ []) bool
    else none

-- `max` and `min`, of an optional first, and then of any type that orders.
unfoldable pub selection_sig : Ty → Text → Option Sig
unfolding is
selection_sig (opt inner) method =
    if (is method "max" || is method "min") && comparable gt inner inner
    then sig (inner ∷ []) inner
    else if (is method "max" || is method "min") && comparable gt (opt inner) (opt inner)
    then sig (opt inner ∷ []) (opt inner)
    else none
selection_sig receiver method =
    if (is method "max" || is method "min") && comparable gt receiver receiver
    then sig (receiver ∷ []) receiver
    else none

-- The rows of the table that name one receiver.
unfoldable pub own_sig : Ty → Text → Option Sig
unfolding is string_sig json_sig opt_sig list_sig map_sig money_sig timestamp_sig outcome_sig
own_sig string method = string_sig method
own_sig json method = json_sig method
own_sig (opt inner) method = opt_sig inner method
own_sig (list inner) method = list_sig inner method
own_sig (map key value) method = map_sig key value method
own_sig (money scale) method = money_sig scale method
own_sig timestamp method = timestamp_sig method
own_sig int method = if is method "pad" then sig (int ∷ []) string else none
own_sig outcome method = outcome_sig method
own_sig receiver method = none

-- A name stands in one row only, so the first row that fits is the receiver's own or a selection.
unfoldable pub method_sig : Ty → Text → Option Sig
unfolding own_sig selection_sig
method_sig receiver method = elim (own_sig receiver method) [
  | some s ↦ some s
  | none ↦ selection_sig receiver method
]

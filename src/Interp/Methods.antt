-- ===== src/Interp/Methods.antt =====
-- src/interp.rs: `call_method`, by the type of the receiver.
pub mod Strings
pub mod Collections
pub mod Scalars
pub mod Lookup
use heklang.Base.{List, Option, none, some, ◌||◌, if◌then◌else◌}
use heklang.Base.Text.{Text, is}
use heklang.Value.{Value, ty}
use heklang.Interp.Errors.{Result, err, unknown_method}
use heklang.Interp.Coerce.{one_arg}
use heklang.Interp.Ops.{selected}
use heklang.Interp.Methods.Strings.{Library, string_method}
use heklang.Interp.Methods.Collections.{list_method, map_method}
use heklang.Interp.Methods.Scalars.{
  money_method, opt_method, json_method, timestamp_method, int_method, invoked_method,
}

-- A receiver with no method of its own has `max` and `min`, which ask whether it orders.
unfoldable pub other_method : Value → (method : Text) → List Value → Result Value
other_method held method args =
    if is method "max" || is method "min"
    then one_arg method args (λ other. selected method held other)
    else err (unknown_method (ty held) method)

unfoldable pub call_method : Library → Value → (method : Text) → List Value → Result Value
call_method lib (Value.str s) method args = string_method lib s method args
call_method lib (Value.money units scale) method args = money_method units scale method args
call_method lib (Value.list inner vs) method args = list_method inner vs method args
call_method lib (Value.map k v es) method args = map_method k v es method args
call_method lib (Value.absent inner) method args = opt_method inner none method args
call_method lib (Value.present inner v) method args = opt_method inner (some v) method args
call_method lib (Value.json j) method args = json_method j method args
call_method lib (Value.timestamp micros) method args = timestamp_method micros method args
call_method lib (Value.int n) method args = int_method n method args
call_method lib (Value.invoked i) method args = invoked_method i method args
call_method lib held method args = other_method held method args

-- ===== src/Interp/Params.antt =====
-- src/interp.rs: the arguments of a command and of a named fold.
use heklang.Base.{Option, none, some, List, [], ◌∷◌, if◌then◌else◌}
use heklang.Ir.{Ident, Ty}
use heklang.Ir.Program.{Param}
use heklang.Value.{Value, Fields, no_fields, field, ty, has_type}
use heklang.Value.Maps.{find_field, remove_field}
use heklang.Interp.Errors.{type_mismatch, missing_argument, unexpected_argument}
use heklang.Interp.Coerce.{some_value, none_value}
use heklang.Interp.Frames.{Frame, Run, done, fails, ◌>>=◌, set}

-- The value of a parameter, from the argument of its name.
unfoldable pub given : Ident → Option Value → Ty → Run Value
given name (some v) (Ty.opt inner) = if has_type v inner then done (some_value v) else done v
given name (some v) t = done v
given name none (Ty.opt inner) = done (none_value inner)
given name none t = fails (missing_argument name)

unfoldable pub typed : Ty → Value → Run Value
typed t v = if has_type v t then done v else fails (type_mismatch t (ty v))

unfoldable pub no_more : Fields → Frame → Run Frame
no_more no_fields fr = done fr
no_more (field name v fs) fr = fails (unexpected_argument name)

unfoldable pub bind_params : List Param → Fields → Frame → Run Frame
bind_params [] args fr = no_more args fr
bind_params (p ∷ ps) args fr =
    let name = Param.name p in
    given name (find_field name args) (Param.ty p) >>= λ v. typed (Param.ty p) v >>= λ w.
    set fr (Param.slot p) w >>= λ fr₁. bind_params ps (remove_field name args) fr₁

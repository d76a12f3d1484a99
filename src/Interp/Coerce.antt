-- ===== src/Interp/Coerce.antt =====
-- src/interp.rs: a value that meets a declared type, and the arguments of a method.
use heklang.Base.{none, some, List, [], ◌∷◌, length, if◌then◌else◌}
use heklang.Base.Int.{ℤ}
use heklang.Base.Text.{Text, codes}
use heklang.Scaled.{Rounding}
use heklang.Ir.{Ty}
use heklang.Value.{Value, ty, has_type, Key, from_value}
use heklang.Interp.Errors.{Result, ok, err, type_mismatch, bad_key, bad_argument, bad_arity}

-- `Value::some` and `Value::none`
abbrev pub some_value : Value → Value
some_value v = Value.present (ty v) v

abbrev pub none_value : Ty → Value
none_value inner = Value.absent inner

unfoldable pub coerce : Value → Ty → Value
coerce v (Ty.opt inner) = if has_type v inner then Value.present inner v else v
coerce v (Ty.sealed inner s) = coerce v inner
coerce v t = v

unfoldable pub fitted : Value → Ty → Result Value
fitted v t =
    if has_type (coerce v t) t then ok (coerce v t) else err (type_mismatch t (ty (coerce v t)))

unfoldable pub map_key : Value → Result Key
map_key v = elim (from_value v) [ some k ↦ ok k | none ↦ err (bad_key (ty v)) ]

unfoldable pub rounding_arg : (method : Text) → Value → Result Rounding
rounding_arg method (Value.rounding mode) = ok mode
rounding_arg method other = err (bad_argument method (codes "a rounding mode") (ty other))

-- `expect_arity`, and the arguments that it finds.
abbrev pub no_args {ℓ} : {A : Type ℓ} → (method : Text) → List Value → Result A → Result A
no_args method [] r = r
no_args method args r = err (bad_arity method 0 (length args))

abbrev pub one_arg {ℓ} : {A : Type ℓ} → (method : Text) → List Value → (Value → Result A) → Result A
one_arg method (a ∷ []) k = k a
one_arg method args k = err (bad_arity method 1 (length args))

abbrev pub two_args {ℓ} :
    {A : Type ℓ} → (method : Text) → List Value → (Value → Value → Result A) → Result A
two_args method (a ∷ b ∷ []) k = k a b
two_args method args k = err (bad_arity method 2 (length args))

-- An argument that has to be a string, and one that has to be an integer.
abbrev pub text_arg {ℓ} : {A : Type ℓ} → Value → (Text → Result A) → Result A
text_arg (Value.str s) k = k s
text_arg other k = err (type_mismatch Ty.string (ty other))

abbrev pub int_arg {ℓ} : {A : Type ℓ} → Value → (ℤ → Result A) → Result A
int_arg (Value.int n) k = k n
int_arg other k = err (type_mismatch Ty.int (ty other))

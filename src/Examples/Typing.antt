-- ===== src/Examples/Typing.antt =====
-- src/ir.rs, src/types.rs, src/value.rs and the operators of src/interp.rs at concrete inputs.
use Prim.Native.Nat.{Ordering}
use heklang.Value.Numbers.{of_literal}
use heklang.Base.{ℕ, ◌-◌, ◌^◌, ◌≤◌, ◌++◌, ◌∷◌, [], ◌≡◌, ◌↔◌, refl, true, some}
use heklang.Base.Int.{◌*ℤ◌, pos}
use heklang.Lex.{Sym, sym_text, symbol, token, closes, counted}
use heklang.Lex.Words.{symbol-text, first_char, other_chars}
use heklang.Ir.Literals.{Literal}
use heklang.Ir.Numbers.{Number, places, literal, resolve, resolve_at}
use heklang.Ir.Written.{units, resolve-exact}
use heklang.Scaled.{rescale, pow10, checked_i128, fit, checked_i64}
use heklang.Base.Text.{codes}
use heklang.Ir.{id_shape, unsealed, Ty, add, ge, le, same_unsealed}
use heklang.Ir.Seals.{erased, same_unsealed_iff}
use heklang.Types.{arithmetic, comparable}
use heklang.Value.{Value, ty, has_type, from_value, can_key}
use heklang.Value.Keys.{is_some, can_key_iff}
use heklang.Value.Fits.{has_type-same_unsealed}
use heklang.Interp.Errors.{err, ok, bad_operands}
use heklang.Interp.Ops.{binary, ordering, selected}
use heklang.Interp.Ops.Typed.{Answers, binary-Answers}
use heklang.Interp.Ops.Refused.{binary-refused}
use heklang.Interp.Ops.Order.{comparable-ordering}
use heklang.Interp.Ops.Select.{selected-IsExtreme, IsExtreme}

binary-Answers_example :
    Answers (Ty.money 2) (binary add (Value.money (pos 1250) 2) (Value.money (pos 99) 2))
unfolding arithmetic ty
binary-Answers_example =
    binary-Answers add (Value.money (pos 1250) 2) (Value.money (pos 99) 2) (Ty.money 2) refl

binary-refused_example :
    binary add (Value.money (pos 1250) 2) (Value.money (pos 99) 3)
    ≡ err (bad_operands add (ty (Value.money (pos 1250) 2)) (ty (Value.money (pos 99) 3)))
unfolding arithmetic ty
binary-refused_example =
    binary-refused add (Value.money (pos 1250) 2) (Value.money (pos 99) 3) tt (λ p. cc) refl

abbrev sealed_id : Ty
sealed_id = Ty.sealed (Ty.subject (codes "C") Ty.int) (codes "C")

same_unsealed_iff_example :
    (same_unsealed sealed_id Ty.int ≡ true) ↔ (erased sealed_id ≡ erased Ty.int)
same_unsealed_iff_example = same_unsealed_iff sealed_id Ty.int tt tt

has_type-same_unsealed_example :
    has_type (Value.absent Ty.int) (Ty.sealed (Ty.opt Ty.int) (codes "C"))
    ≡ same_unsealed (ty (Value.absent Ty.int)) (Ty.sealed (Ty.opt Ty.int) (codes "C"))
unfolding ty
has_type-same_unsealed_example =
    has_type-same_unsealed (Value.absent Ty.int) (Ty.sealed (Ty.opt Ty.int) (codes "C")) tt tt tt

can_key_iff_example :
    can_key (ty (Value.uuid (codes "u"))) ≡ is_some (from_value (Value.uuid (codes "u")))
can_key_iff_example = can_key_iff (Value.uuid (codes "u"))

comparable-ordering_example :
    comparable ge (ty (Value.money (pos 1) 2)) (ty (Value.money (pos 1) 3))
    ≡ is_some (ordering (Value.money (pos 1) 2) (Value.money (pos 1) 3))
comparable-ordering_example =
    comparable-ordering ge (Value.money (pos 1) 2) (Value.money (pos 1) 3) tt

selected-IsExtreme_example :
    ((m : Value) × (selected (codes "max") (Value.int (pos 3)) (Value.int (pos 8)) ≡ ok m)
      × IsExtreme ge (Value.int (pos 3)) (Value.int (pos 8)) m)
    × ((m : Value) × (selected (codes "min") (Value.int (pos 3)) (Value.int (pos 8)) ≡ ok m)
        × IsExtreme le (Value.int (pos 3)) (Value.int (pos 8)) m)
unfolding ordering
selected-IsExtreme_example =
    selected-IsExtreme (Value.int (pos 3)) (Value.int (pos 8)) Ordering.lt refl

-- `<a}` inside a hole with one brace more open.
symbol-text_example :
    symbol (first_char Sym.lt) (other_chars Sym.lt ++ b'a' ∷ codes "}") (2 ∷ [])
    ≡ token Sym.lt (b'a' ∷ codes "}") (counted (first_char Sym.lt) (2 ∷ []))
unfolding closes first_char sym_text
symbol-text_example = symbol-text Sym.lt b'a' (codes "}") (2 ∷ []) refl refl refl

abbrev price : Number
price = record { digits = pos 259; scale = 1 }

-- 25.9 for a sealed `Money(2)`.
resolve-exact_example :
    (target : ℕ) × (places (id_shape (unsealed (Ty.sealed (Ty.money 2) (codes "shop"))))
      ≡ some target)
    × (Number.scale price ≤ target)
    × (units (Literal.money (pos 2590) 2)
        ≡ Number.digits price *ℤ pos (10 ^ (target - Number.scale price)))
    × (ty (of_literal (Literal.money (pos 2590) 2))
        ≡ id_shape (unsealed (Ty.sealed (Ty.money 2) (codes "shop"))))
unfolding resolve resolve_at places literal id_shape unsealed rescale pow10 checked_i128 fit
    checked_i64 ◌*ℤ◌
resolve-exact_example =
    resolve-exact price (Ty.sealed (Ty.money 2) (codes "shop")) (Literal.money (pos 2590) 2) refl

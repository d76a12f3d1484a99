-- ===== src/Interp/Returns/Operands.antt =====
-- src/interp.rs: what is made of values needs no fuel.
use heklang.Base.{
  ℕ, zero, suc, ◌≡◌, refl, Bool, true, false, Option, none, some, List, [], ◌∷◌, get_elem?,
  if◌then◌else◌, arith, ◌⊎◌, inl, inr,
}
use heklang.Base.Int.{ℤ, pos}
use heklang.Ir.{Ident, Ty}
use heklang.Ir.Exprs.{
  Slot, Iter, Builtin, http_get, http_post, http_put, http_patch, http_delete, uuid_derive,
  json_encode, timestamp_parse, timestamp_from_parts, money_parse, decimal_parse,
}
use heklang.Value.{Value, ty, has_type}
use heklang.Interp.Errors.{malformed_ir, unset_slot, type_mismatch}
use heklang.Interp.Coerce.{fitted}
use heklang.Interp.Methods.Strings.{Library}
use heklang.Interp.Frames.{Frame, Run, fails, set, read_slot, read_cell}
use heklang.Interp.Eval.{
  with_frame, as_bool, as_text, pairs_of, declared_fit, fit_field, bind_iter, set_index, field_of,
  unwrapped, wrapped, call_builtin, derive_uuid, int_fields, moment_value,
}
use heklang.Interp.Returns.{Returns, Returns-done, Returns-fails, Returns-result, Returns->>=}

pub Returns-with_frame {ℓ} :
    {A : Type ℓ} {r : Run A} (fr : Frame) → Returns r → Returns (with_frame fr r)
Returns-with_frame fr h = Returns->>= _ h (λ a. Returns-done (a, fr))

pub if-Returns {ℓ} :
    {A : Type ℓ} {r s : Run A} (b : Bool) → Returns r → Returns s → Returns (if b then r else s)
if-Returns true h g = h
if-Returns false h g = g

pub set-Returns : (fr : Frame) (slot : Slot) (v : Value) → Returns (set fr slot v)
unfolding set
set-Returns [] slot v = Returns-fails malformed_ir
set-Returns (c ∷ fr) zero v = Returns-done (some v ∷ fr)
set-Returns (c ∷ fr) (suc slot) v =
    Returns->>= _ (set-Returns fr slot v) (λ fr₁. Returns-done (c ∷ fr₁))

read_cell-Returns : (slot : Slot) (o : Option (Option Value)) → Returns (read_cell slot o)
unfolding read_cell
read_cell-Returns slot none = Returns-fails malformed_ir
read_cell-Returns slot (some none) = Returns-fails (unset_slot slot)
read_cell-Returns slot (some (some v)) = Returns-done v

pub read_slot-Returns : (fr : Frame) (slot : Slot) → Returns (read_slot fr slot)
unfolding read_slot
read_slot-Returns fr slot = read_cell-Returns slot (get_elem? fr slot)

set_index-Returns : (o : Option Slot) (index : Value) (fr : Frame) → Returns (set_index o index fr)
unfolding set_index
set_index-Returns none index fr = Returns-done fr
set_index-Returns (some slot) index fr = set-Returns fr slot index

pub bind_iter-Returns :
    (it : Iter) (index item : Value) (fr : Frame) → Returns (bind_iter it index item fr)
unfolding bind_iter
bind_iter-Returns it index item fr =
    Returns->>= _ (set_index-Returns (Iter.index it) index fr)
      (λ fr₁. set-Returns fr₁ (Iter.item it) item)

pub as_bool-Returns : (v : Value) → Returns (as_bool v)
unfolding as_bool
as_bool-Returns v = record { answers = ground arith }

pub as_text-Returns : (v : Value) → Returns (as_text v)
unfolding as_text
as_text-Returns v = record { answers = ground arith }

pub pairs_of-Returns : (v : Value) → Returns (pairs_of v)
unfolding pairs_of
pairs_of-Returns v = record { answers = ground arith }

pub unwrapped-Returns : (v : Value) → Returns (unwrapped v)
unfolding unwrapped
unwrapped-Returns v = record { answers = ground arith }

pub wrapped-Returns : (inner : Ty) (v : Value) → Returns (wrapped inner v)
unfolding wrapped
wrapped-Returns inner v =
    if-Returns (has_type v inner) (Returns-done (Value.present inner v))
      (Returns-fails (type_mismatch inner (ty v)))

pub field_of-Returns : (v : Value) (name : Ident) → Returns (field_of v name)
unfolding field_of
field_of-Returns v name = record { answers = ground arith }

pub declared_fit-Returns : (o : Option Ty) (v : Value) → Returns (declared_fit o v)
unfolding declared_fit
declared_fit-Returns none v = Returns-done v
declared_fit-Returns (some t) v = Returns-result (fitted v t)

pub fit_field-Returns : (o : Option Ty) (v : Value) → Returns (fit_field o v)
unfolding fit_field
fit_field-Returns none v = Returns-fails malformed_ir
fit_field-Returns (some t) v = Returns-result (fitted v t)

-- A value is an integer, or the fields of a moment stop at it.
int_of :
    (v : Value)
    → ((i : ℤ) × (v ≡ Value.int i))
      ⊎ ((n : ℕ) (vs : List Value) → int_fields (suc n) (v ∷ vs) ≡ fails malformed_ir)
unfolding int_fields
int_of (Value.int i) = inl (i, refl)
int_of v = inr (λ n vs. refl)

int_fields-Returns : (n : ℕ) (vs : List Value) → Returns (int_fields n vs)
unfolding int_fields
int_fields-Returns zero vs = Returns-done []
int_fields-Returns (suc n) [] =
    Returns->>= _ (int_fields-Returns n []) (λ ns. Returns-done (pos 0 ∷ ns))
int_fields-Returns (suc n) (v ∷ vs) = elim (int_of v) [
  | inl (i, h) ↦ rw h (Returns->>= _ (int_fields-Returns n vs) (λ ns. Returns-done (i ∷ ns)))
  | inr h ↦ rw (h n vs) (Returns-fails malformed_ir)
]

moment_value-Returns : (ns : List ℤ) → Returns (moment_value ns)
unfolding moment_value
moment_value-Returns ns = record { answers = ground arith }

derive_uuid-Returns : (lib : Library) (vs : List Value) → Returns (derive_uuid lib vs)
unfolding derive_uuid
derive_uuid-Returns lib vs = record { answers = ground arith }

pub call_builtin-Returns :
    (lib : Library) (b : Builtin) (vs : List Value) → Returns (call_builtin lib b vs)
unfolding call_builtin
call_builtin-Returns lib uuid_derive vs = derive_uuid-Returns lib vs
call_builtin-Returns lib json_encode vs = record { answers = ground arith }
call_builtin-Returns lib timestamp_from_parts vs =
    Returns->>= _ (int_fields-Returns 6 vs) (λ ns. moment_value-Returns ns)
call_builtin-Returns lib timestamp_parse vs = record { answers = ground arith }
call_builtin-Returns lib (money_parse scale) vs = record { answers = ground arith }
call_builtin-Returns lib (decimal_parse scale) vs = record { answers = ground arith }
call_builtin-Returns lib http_get vs = Returns-fails malformed_ir
call_builtin-Returns lib http_post vs = Returns-fails malformed_ir
call_builtin-Returns lib http_put vs = Returns-fails malformed_ir
call_builtin-Returns lib http_patch vs = Returns-fails malformed_ir
call_builtin-Returns lib http_delete vs = Returns-fails malformed_ir

-- ===== src/Interp/Frames.antt =====
-- src/interp.rs: the frame of a body, and what a run answers. Running spends fuel, and what runs out
-- of it is `spent`, which the source has nothing for.
pub mod Binds
pub mod Leaves
use heklang.Base.{ℕ, zero, suc, Option, none, some, List, [], ◌∷◌, replicate, get_elem?}
use heklang.Value.{Value}
use heklang.Ir.Exprs.{Slot}
use heklang.Interp.Errors
use heklang.Interp.Errors.{ErrorKind, Result, malformed_ir, unset_slot}

-- `Frame`, by its slots.
abbrev pub Frame : Type 0
Frame = List (Option Value)

pub data Run {ℓ} (A : Type ℓ) : Type ℓ where
  done : A → Run A
  fails : ErrorKind → Run A
  spent : Run A

infixl 5 ◌>>=◌
abbrev pub ◌>>=◌ {ℓ κ} : {A : Type ℓ} {B : Type κ} → Run A → (A → Run B) → Run B
done a >>= f = f a
fails e >>= f = fails e
spent >>= f = spent

-- A result that needed no fuel.
abbrev pub from_result {ℓ} : {A : Type ℓ} → Result A → Run A
from_result (Errors.ok a) = done a
from_result (Errors.err e) = fails e

abbrev pub or_fails {ℓ} : {A : Type ℓ} → Option A → ErrorKind → Run A
or_fails none e = fails e
or_fails (some a) e = done a

-- `Frame::new`
unfoldable pub new_frame : ℕ → Frame
new_frame size = replicate size none

-- `Frame::set`
unfoldable pub set : Frame → Slot → Value → Run Frame
set [] slot v = fails malformed_ir
set (c ∷ fr) zero v = done (some v ∷ fr)
set (c ∷ fr) (suc slot) v = set fr slot v >>= λ fr₁. done (c ∷ fr₁)

-- `Frame::get`
unfoldable pub read_cell : Slot → Option (Option Value) → Run Value
read_cell slot none = fails malformed_ir
read_cell slot (some none) = fails (unset_slot slot)
read_cell slot (some (some v)) = done v

unfoldable pub read_slot : Frame → Slot → Run Value
unfolding read_cell
read_slot fr slot = read_cell slot (get_elem? fr slot)

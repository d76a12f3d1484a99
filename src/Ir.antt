-- ===== src/Ir.antt =====
-- src/ir.rs: the types of the checked program, what a type is with its seals and its subjects read
-- through, and the operators.
pub mod Seals
pub mod Literals
pub mod Exprs
pub mod Stages
pub mod Program
pub mod Numbers
pub mod Written
pub mod Shift
use native.Mathlib.Decide.{ℕ_discrete}
use heklang.Base.{
  ℕ, ◌≡◌, refl, ◌↔◌, Bool, true, false, ◌&&◌, Option, none, some, List, same, same_iff,
}
use heklang.Base.Text.{Text}

abbrev pub Ident : Type 0
Ident = Text

-- `EventPath`, by its segments
pub record EventPath : Type 0 where
  pub segments : List Ident

-- `Type`. `struct` is the source's `Record`, and `subject name id` its `Subject(SubjectTy)`.
pub data Ty : Type 0 where
  bool int string uuid timestamp rounding json response outcome secret : Ty
  decimal money : ℕ → Ty
  enum struct : Ident → Ty
  event : EventPath → Ty
  subject : Ident → Ty → Ty
  list opt : Ty → Ty
  map : Ty → Ty → Ty
  sealed : Ty → Ident → Ty

unfoldable pub EventPath-discrete : Discrete EventPath
unfolding ℕ_discrete
EventPath-discrete = hlevel ℕ_discrete

unfoldable pub Ty-discrete : Discrete Ty
unfolding ℕ_discrete
Ty-discrete = hlevel ℕ_discrete

-- the derived `==` on `Type`
unfoldable pub ty_eq : Ty → Ty → Bool
unfolding Ty-discrete
ty_eq a b = same Ty-discrete a b

pub ty_eq_iff : (a b : Ty) → (ty_eq a b ≡ true) ↔ (a ≡ b)
unfolding ty_eq
ty_eq_iff a b = same_iff Ty-discrete a b

unfoldable pub as_scalar : Ty → Ty
as_scalar (subject name id) = id
as_scalar other = other

unfoldable pub id_shape : Ty → Ty
id_shape (subject name id) = id
id_shape (opt inner) = opt (id_shape inner)
id_shape other = other

-- `Type::subject`: the subject that the content is filed under
unfoldable pub filed_under : Ty → Option Ident
filed_under (sealed inner s) = some s
filed_under (opt inner) = filed_under inner
filed_under other = none

unfoldable pub peeled : Ty → Ty
peeled (sealed inner s) = peeled inner
peeled other = other

-- The `match` looks at both types peeled, and a call on the parts of the first is structural.
unfoldable pub same_unsealed : Ty → Ty → Bool
unfolding peeled as_scalar ty_eq
same_unsealed (sealed inner s) other = same_unsealed inner other
same_unsealed (opt one) other = elim (peeled other) [
  | opt two ↦ same_unsealed one two
  | two ↦ ty_eq (opt one) (as_scalar two)
]
same_unsealed (list one) other = elim (peeled other) [
  | list two ↦ same_unsealed one two
  | two ↦ ty_eq (list one) (as_scalar two)
]
same_unsealed (map one_key one_value) other = elim (peeled other) [
  | map two_key two_value ↦ same_unsealed one_key two_key && same_unsealed one_value two_value
  | two ↦ ty_eq (map one_key one_value) (as_scalar two)
]
same_unsealed one other = ty_eq (as_scalar one) (as_scalar (peeled other))

unfoldable pub unsealed : Ty → Ty
unsealed (sealed inner s) = unsealed inner
unsealed (opt inner) = opt (unsealed inner)
unsealed (list inner) = list (unsealed inner)
unsealed (map key value) = map (unsealed key) (unsealed value)
unsealed other = other

pub data BinOp : Type 0 where
  add sub mul div rem eq ne lt le gt ge and or : BinOp

pub data UnOp : Type 0 where
  not neg : UnOp

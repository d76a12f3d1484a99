-- ===== src/Ir/Stages.antt =====
-- src/ir.rs: the staged reads of a command and of a named fold. Names that only tools and the digest
-- read, and spans, are left out.
use heklang.Base.{Bool, true, false, List, [], ◌∷◌}
use heklang.Ir.{Ident, EventPath, Ty}
use heklang.Ir.Exprs.{Slot, ExprId, Bind, Block}

-- A conjunct of a slice: a field of the event, or a parameter of the fold.
pub data Filter : Type 0 where
  on_field : (field : Ident) (value : ExprId) → Filter
  on_key : (param : Ident) → Slot → Ty → (value : ExprId) → Filter

pub record Lookup : Type 0 where
  pub fold : Ident
  pub args : List (Ident × ExprId)
  pub slot : Slot
  pub ty : Ty

pub record ComputedKey : Type 0 where
  pub param : Ident
  pub slot : Slot
  pub ty : Ty
  pub value : ExprId
  pub skip : Bool

pub record Update : Type 0 where
  pub slot : Slot
  pub value : ExprId
  pub ty : Ty

pub record Slice : Type 0 where
  pub event : EventPath
  pub filters : List Filter
  pub binds : List Bind
  pub lookups : List Lookup
  pub keys : List ComputedKey
  pub updates : List Update

pub record FoldVar : Type 0 where
  pub name : Ident
  pub ty : Ty
  pub slot : Slot
  pub init : ExprId

pub record Stage : Type 0 where
  pub pre : Block
  pub slices : List Slice
  pub folds : List FoldVar
  pub post : Block

pub data EnvField : Type 0 where
  at id position : EnvField

pub record EnvBind : Type 0 where
  pub field : EnvField
  pub slot : Slot

-- `!is_empty()`
unfoldable pub some_in {ℓ} : {A : Type ℓ} → List A → Bool
some_in [] = false
some_in (x ∷ xs) = true

-- `Stage::reads`
unfoldable pub reads : Stage → Bool
unfolding some_in
reads stage = some_in (Stage.slices stage)

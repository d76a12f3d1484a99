-- ===== src/Ir/Program.antt =====
-- src/ir.rs: the declarations of a program that expressions and statements look up.
use heklang.Base.{ℕ, Option, none, some, List, [], ◌∷◌, same, get_elem?, if◌then◌else◌}
use heklang.Base.Text.{text_eq}
use heklang.Ir.{Ident, EventPath, EventPath-discrete, Ty}
use heklang.Ir.Literals.{Literal}
use heklang.Ir.Exprs.{Slot, Exprs, Block, Bind}
use heklang.Ir.Stages.{Stage, EnvBind}

pub record Param : Type 0 where
  pub name : Ident
  pub slot : Slot
  pub ty : Ty

pub record Function : Type 0 where
  pub name : Ident
  pub params : List Param
  pub ret : Option Ty
  pub frame : ℕ
  pub exprs : Exprs
  pub body : Block

pub record RecordField : Type 0 where
  pub name : Ident
  pub ty : Ty
  pub max_len : Option ℕ
  pub absent : Option Literal

pub record RecordDef : Type 0 where
  pub name : Ident
  pub fields : List RecordField

pub record FieldDef : Type 0 where
  pub name : Ident
  pub ty : Ty
  pub subject : Option Ident
  pub max_len : Option ℕ
  pub absent : Option Literal

pub record EventDef : Type 0 where
  pub path : EventPath
  pub fields : List FieldDef

-- The helpers of an `Effect`.
pub record Effect : Type 0 where
  pub name : Ident
  pub functions : List Function

pub record Command : Type 0 where
  pub name : Ident
  pub params : List Param
  pub frame : ℕ
  pub exprs : Exprs
  pub now : Option Slot
  pub stages : List Stage

-- A named fold; its accumulator is in `slot`.
pub record Fold : Type 0 where
  pub name : Ident
  pub params : List Param
  pub ret : Ty
  pub slot : Slot
  pub frame : ℕ
  pub exprs : Exprs
  pub stage : Stage
  pub envelope : List EnvBind

pub record EnumDef : Type 0 where
  pub name : Ident
  pub variants : List Ident
  pub default : Option ℕ

pub record EntityField : Type 0 where
  pub name : Ident
  pub ty : Ty
  pub max_len : Option ℕ
  pub default : Option Literal

-- The positions of the key columns are in `keys`.
pub record EntityDef : Type 0 where
  pub name : Ident
  pub fields : List EntityField
  pub keys : List ℕ

pub record Handler : Type 0 where
  pub event : EventPath
  pub binds : List Bind
  pub envelope : List EnvBind
  pub frame : ℕ
  pub exprs : Exprs
  pub body : Block

pub record Projector : Type 0 where
  pub name : Ident
  pub enums : List EnumDef
  pub entities : List EntityDef
  pub handlers : List Handler

-- The part of `Program` that running looks at.
pub record Program : Type 0 where
  pub events : List EventDef
  pub records : List RecordDef
  pub functions : List Function
  pub effects : List Effect
  pub commands : List Command
  pub folds : List Fold
  pub enums : List EnumDef
  pub projectors : List Projector

-- The first entry of a name, as `iter().find(..)`.
unfoldable pub named {ℓ} : {A : Type ℓ} → (A → Ident) → Ident → List A → Option A
named name_of name [] = none
named name_of name (x ∷ xs) = if text_eq (name_of x) name then some x else named name_of name xs

-- `RecordDef::field`
unfoldable pub record_field : RecordDef → Ident → Option RecordField
record_field def name = named RecordField.name name (RecordDef.fields def)

-- `EventDef::field`
unfoldable pub event_field : EventDef → Ident → Option FieldDef
event_field def name = named FieldDef.name name (EventDef.fields def)

unfoldable pub find_event : EventPath → List EventDef → Option EventDef
find_event path [] = none
find_event path (e ∷ es) =
    if same EventPath-discrete (EventDef.path e) path then some e else find_event path es

-- `Program::event`
unfoldable pub event_def : Program → EventPath → Option EventDef
event_def p path = find_event path (Program.events p)

-- `Program::record`
unfoldable pub record_def : Program → Ident → Option RecordDef
record_def p name = named RecordDef.name name (Program.records p)

-- `Program::command`
unfoldable pub command_def : Program → Ident → Option Command
command_def p name = named Command.name name (Program.commands p)

-- `Program::fold`
unfoldable pub fold_def : Program → Ident → Option Fold
fold_def p name = named Fold.name name (Program.folds p)

-- `Program::projector` and `Projector::entity`
unfoldable pub projector_def : Program → Ident → Option Projector
projector_def p name = named Projector.name name (Program.projectors p)

unfoldable pub entity_def : Projector → Ident → Option EntityDef
entity_def p name = named EntityDef.name name (Projector.entities p)

-- `EntityDef::field`
unfoldable pub entity_field : EntityDef → Ident → Option EntityField
entity_field def name = named EntityField.name name (EntityDef.fields def)

-- `EnumDef::default_variant`
unfoldable pub default_variant : EnumDef → Option Ident
default_variant def = elim (EnumDef.default def) [
  | none ↦ none
  | some index ↦ get_elem? (EnumDef.variants def) index
]

-- `Program::function_in`
unfoldable pub function_in : Program → (scope : Option Ident) → Ident → Option Function
function_in p none name = named Function.name name (Program.functions p)
function_in p (some effect) name = elim (named Effect.name effect (Program.effects p)) [
  | some e ↦ named Function.name name (Effect.functions e)
  | none ↦ none
]

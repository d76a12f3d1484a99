-- ===== src/Ir/Exprs.antt =====
-- src/ir.rs: expressions, which stand in an arena and name each other by their places in it, and
-- statements. Spans are left out: they place the text of an error, and nothing else reads them.
use heklang.Base.{ℕ, Bool, Option, List}
use heklang.Ir.{Ident, EventPath, Ty, UnOp, BinOp}
use heklang.Ir.Literals.{Literal}

abbrev pub Slot : Type 0
Slot = ℕ

abbrev pub ExprId : Type 0
ExprId = ℕ

pub record Iter : Type 0 where
  pub index : Option Slot
  pub item : Slot
  pub over : ExprId

pub data Builtin : Type 0 where
  http_get http_post http_put http_patch http_delete : Builtin
  uuid_derive json_encode timestamp_parse timestamp_from_parts : Builtin
  money_parse decimal_parse : (scale : ℕ) → Builtin

-- `struct` is the source's `Record`, and `if_else` its `If`.
pub data Expr : Type 0 where
  lit : Literal → Expr
  load : Slot → Expr
  unary : UnOp → (operand : ExprId) → Expr
  binary : BinOp → (lhs rhs : ExprId) → Expr
  method : (receiver : ExprId) (name : Ident) → List ExprId → Expr
  if_else : (cond then_ otherwise : ExprId) → Expr
  field : (receiver : ExprId) (name : Ident) → Expr
  object : List (Ident × ExprId) → Expr
  interp : List ExprId → Expr
  list : List ExprId → (inner : Option Ty) → Expr
  struct : (ty : Ident) → List (Ident × ExprId) → Expr
  event : EventPath → List (Ident × ExprId) → Expr
  call_fn : (function : Ident) (scope : Option Ident) → List ExprId → Expr
  comp : Iter → (cond : Option ExprId) (yields : ExprId) (inner : Option Ty) → Expr
  call : Builtin → List ExprId → Expr
  invoke : (command : Ident) → List (Ident × ExprId) → Expr
  unwrap : ExprId → Expr
  wrap : (value : ExprId) (inner : Ty) → Expr
  reveal : (value : ExprId) (ty : Ty) → Expr
  secret : (name : Ident) (optional : Bool) → Expr
  refusal : (code : Option ExprId) (message : ExprId) → Expr
  invalid : Expr

-- `Exprs`, its nodes
abbrev pub Exprs : Type 0
Exprs = List Expr

-- `Bind`
pub record Bind : Type 0 where
  pub field : Ident
  pub slot : Slot

pub data Absent : Type 0 where
  materialize skip : Absent

pub data Return : Type 0 where
  ok : Return
  invalid value outcome : ExprId → Return
  reject : (code message : ExprId) → Return

mutual
  pub data Stmt : Type 0 where
    assign : Slot → (value : ExprId) → Stmt
    if_else : (cond : ExprId) → (then_ otherwise : Block) → Stmt
    emit : EventPath → List (Ident × ExprId) → Stmt
    put : (entity : Ident) → List (Ident × ExprId) → Stmt
    patch :
        (entity : Ident)
        → (keys : List ExprId) → Absent
        → (loads : List Bind) → List (Ident × ExprId)
        → Stmt
    delete : (entity : Ident) → (keys : List ExprId) → Stmt
    fail log : (message : ExprId) → Stmt
    erase : (subject : Ident) → (value : ExprId) → Stmt
    for_each : Iter → Block → Stmt
    discard : ExprId → Stmt
    call : (function : Ident) (scope : Option Ident) → List ExprId → Stmt
    return : Return → Stmt

  pub data Block : Type 0 where
    end : Block
    next : Stmt → Block → Block

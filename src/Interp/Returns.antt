-- ===== src/Interp/Returns.antt =====
-- src/interp.rs: runs that do not stop for want of fuel, and the arenas that a parser builds: a node
-- names earlier nodes only, and a function calls functions of a lesser height.
pub mod Operands
pub mod Nodes
pub mod Bodies
pub mod Enough
use heklang.Base.{ℕ, zero, suc, ◌<◌, ◌≡◌, ◌≢◌, refl, Option, none, some, List, [], ◌∷◌, get_elem?}
use heklang.Ir.{Ident}
use heklang.Ir.Exprs.{ExprId, Iter, Expr, Exprs, Return, Stmt, Block}
use heklang.Ir.Program.{Program, Function, function_in}
use heklang.Interp.Errors.{ErrorKind}
use heklang.Interp.Errors
use heklang.Interp.Frames.{Run, done, fails, spent, ◌>>=◌, from_result, or_fails}

-- The run answers a value or an error.
pub record Returns {ℓ} {A : Type ℓ} (r : Run A) : Type ℓ where
  pub answers : r ≢ spent

module _ {ℓ} {A : Type ℓ} where
  pub Returns-done : (a : A) → Returns (done a)
  Returns-done a = record { answers = λ p. cc }

  pub Returns-fails : (e : ErrorKind) → Returns {A = A} (fails e)
  Returns-fails e = record { answers = λ p. cc }

  pub Returns-result : (r : Errors.Result A) → Returns (from_result r)
  Returns-result (Errors.ok a) = Returns-done a
  Returns-result (Errors.err e) = Returns-fails e

  pub Returns-option : (o : Option A) (e : ErrorKind) → Returns (or_fails o e)
  Returns-option none e = Returns-fails e
  Returns-option (some a) e = Returns-done a

pub Returns->>= {ℓ κ} :
    {A : Type ℓ} {B : Type κ} {r : Run A} (k : A → Run B)
    → Returns r
    → ((a : A) → Returns (k a))
    → Returns (r >>= k)
Returns->>= {r = done a} k h step = step a
Returns->>= {r = fails e} k h step = Returns-fails e
Returns->>= {r = spent} k h step = absurd (Returns.answers h refl)

-- Every id is below a bound.
abbrev pub IdsBelow : ℕ → List ExprId → Type 0
IdsBelow n [] = Unit
IdsBelow n (id ∷ ids) = (id < n) × IdsBelow n ids

abbrev pub NamedBelow : ℕ → List (Ident × ExprId) → Type 0
NamedBelow n [] = Unit
NamedBelow n ((name, id) ∷ fs) = (id < n) × NamedBelow n fs

abbrev pub OptBelow : ℕ → Option ExprId → Type 0
OptBelow n none = Unit
OptBelow n (some id) = id < n

abbrev pub ReturnBelow : (n : ℕ) → Return → Type 0
ReturnBelow n Return.ok = Unit
ReturnBelow n (Return.invalid v) = v < n
ReturnBelow n (Return.value v) = v < n
ReturnBelow n (Return.outcome v) = v < n
ReturnBelow n (Return.reject code message) = (code < n) × (message < n)

module _ (program : Program) (height : Function → ℕ) where
  -- A name that stands for a function of a lesser height, where it stands for one.
  abbrev pub CallBelow : ℕ → (function : Ident) (scope : Option Ident) → Type 0
  CallBelow h function scope =
      (def : Function) → function_in program scope function ≡ some def → height def < h

  -- A node that names ids below `n` and functions below `h`.
  abbrev pub NodeBelow : (n h : ℕ) → Expr → Type 0
  NodeBelow n h (Expr.unary op operand) = operand < n
  NodeBelow n h (Expr.binary op lhs rhs) = (lhs < n) × (rhs < n)
  NodeBelow n h (Expr.method receiver name args) = (receiver < n) × IdsBelow n args
  NodeBelow n h (Expr.if_else cond then_ otherwise) = (cond < n) × (then_ < n) × (otherwise < n)
  NodeBelow n h (Expr.field receiver name) = receiver < n
  NodeBelow n h (Expr.object fs) = NamedBelow n fs
  NodeBelow n h (Expr.interp ids) = IdsBelow n ids
  NodeBelow n h (Expr.list ids inner) = IdsBelow n ids
  NodeBelow n h (Expr.struct t fs) = NamedBelow n fs
  NodeBelow n h (Expr.event path fs) = NamedBelow n fs
  NodeBelow n h (Expr.call_fn function scope args) = IdsBelow n args × CallBelow h function scope
  NodeBelow n h (Expr.comp it cond yields inner) =
      (Iter.over it < n) × OptBelow n cond × (yields < n)
  NodeBelow n h (Expr.call builtin args) = IdsBelow n args
  NodeBelow n h (Expr.invoke command args) = NamedBelow n args
  NodeBelow n h (Expr.unwrap inner) = inner < n
  NodeBelow n h (Expr.wrap v inner) = v < n
  NodeBelow n h (Expr.reveal v t) = v < n
  NodeBelow n h (Expr.refusal code message) = OptBelow n code × (message < n)
  NodeBelow n h e = Unit

  unfoldable mutual
    pub StmtBelow : (n h : ℕ) → Stmt → Type 0
    StmtBelow n h (Stmt.assign slot v) = v < n
    StmtBelow n h (Stmt.if_else cond then_ otherwise) =
        (cond < n) × BlockBelow n h then_ × BlockBelow n h otherwise
    StmtBelow n h (Stmt.emit path fs) = NamedBelow n fs
    StmtBelow n h (Stmt.put entity fs) = NamedBelow n fs
    StmtBelow n h (Stmt.patch entity keys absent loads fs) = IdsBelow n keys × NamedBelow n fs
    StmtBelow n h (Stmt.delete entity keys) = IdsBelow n keys
    StmtBelow n h (Stmt.fail message) = message < n
    StmtBelow n h (Stmt.log message) = message < n
    StmtBelow n h (Stmt.erase subject v) = v < n
    StmtBelow n h (Stmt.for_each it body) = (Iter.over it < n) × BlockBelow n h body
    StmtBelow n h (Stmt.discard v) = v < n
    StmtBelow n h (Stmt.call function scope args) = IdsBelow n args × CallBelow h function scope
    StmtBelow n h (Stmt.return r) = ReturnBelow n r

    pub BlockBelow : (n h : ℕ) → Block → Type 0
    BlockBelow n h Block.end = Unit
    BlockBelow n h (Block.next s b) = StmtBelow n h s × BlockBelow n h b

  -- Every node names earlier nodes, and functions below `h`; the first stands at a place.
  abbrev pub OrderedFrom : (h place : ℕ) → Exprs → Type 0
  OrderedFrom h place [] = Unit
  OrderedFrom h place (e ∷ es) = NodeBelow place h e × OrderedFrom h (suc place) es

  abbrev pub IsOrdered : (h : ℕ) → Exprs → Type 0
  IsOrdered h es = OrderedFrom h 0 es

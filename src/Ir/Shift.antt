-- ===== src/Ir/Shift.antt =====
-- src/inline.rs: expressions and statements moved to another arena and another frame.
use heklang.Base.{ℕ, ◌+◌, Option, none, some, List, [], ◌∷◌, ◌++◌, length, take, drop, min}
use heklang.Ir.{Ident}
use heklang.Ir.Exprs.{
  Slot, ExprId, Iter, Expr, Bind, Return, ok, invalid, value, outcome, reject, Stmt, assign,
  if_else, emit, put, patch, delete, fail, log, erase, for_each, discard, call, return, Block, end,
  next,
}

-- Puts `what` into `into` at a place, or at the end, and answers how many that was.
unfoldable pub insert {ℓ} : {A : Type ℓ} → (into : List A) (at : ℕ) (what : List A) → List A × ℕ
insert into at what =
    let place = min at (length into) in (take place into ++ (what ++ drop place into), length what)

abbrev pub shift_slot : Slot → (by : ℕ) → Slot
shift_slot slot by = slot + by

abbrev pub shift_expr_id : ExprId → (by : ℕ) → ExprId
shift_expr_id id by = id + by

unfoldable pub shift_bind : Bind → (by : ℕ) → Bind
shift_bind b by = record { field = Bind.field b; slot = shift_slot (Bind.slot b) by }

-- The closure `one` on what may be missing and on lists.
unfoldable pub shift_opt : (by : ℕ) → Option ℕ → Option ℕ
shift_opt by none = none
shift_opt by (some n) = some (n + by)

unfoldable pub shift_ids : (by : ℕ) → List ExprId → List ExprId
shift_ids by [] = []
shift_ids by (id ∷ ids) = shift_expr_id id by ∷ shift_ids by ids

unfoldable pub shift_named : (by : ℕ) → List (Ident × ExprId) → List (Ident × ExprId)
shift_named by [] = []
shift_named by ((name, id) ∷ fs) = (name, shift_expr_id id by) ∷ shift_named by fs

unfoldable pub shift_binds : (by : ℕ) → List Bind → List Bind
shift_binds by [] = []
shift_binds by (b ∷ bs) = shift_bind b by ∷ shift_binds by bs

module _ (expr_off slot_off : ℕ) where
  unfoldable pub shift_iter : Iter → Iter
  shift_iter it = record {
    index = shift_opt slot_off (Iter.index it);
    item = shift_slot (Iter.item it) slot_off;
    over = shift_expr_id (Iter.over it) expr_off;
  }

  unfoldable pub shift_expr : Expr → Expr
  shift_expr (Expr.lit lit) = Expr.lit lit
  shift_expr Expr.invalid = Expr.invalid
  shift_expr (Expr.secret name optional) = Expr.secret name optional
  shift_expr (Expr.load slot) = Expr.load (shift_slot slot slot_off)
  shift_expr (Expr.unary op operand) = Expr.unary op (shift_expr_id operand expr_off)
  shift_expr (Expr.binary op lhs rhs) =
      Expr.binary op (shift_expr_id lhs expr_off) (shift_expr_id rhs expr_off)
  shift_expr (Expr.method receiver name args) =
      Expr.method (shift_expr_id receiver expr_off) name (shift_ids expr_off args)
  shift_expr (Expr.if_else cond then_ otherwise) =
      Expr.if_else (shift_expr_id cond expr_off) (shift_expr_id then_ expr_off)
        (shift_expr_id otherwise expr_off)
  shift_expr (Expr.field receiver name) = Expr.field (shift_expr_id receiver expr_off) name
  shift_expr (Expr.object fs) = Expr.object (shift_named expr_off fs)
  shift_expr (Expr.interp ids) = Expr.interp (shift_ids expr_off ids)
  shift_expr (Expr.list ids inner) = Expr.list (shift_ids expr_off ids) inner
  shift_expr (Expr.struct t fs) = Expr.struct t (shift_named expr_off fs)
  shift_expr (Expr.event path fs) = Expr.event path (shift_named expr_off fs)
  shift_expr (Expr.call_fn function scope args) =
      Expr.call_fn function scope (shift_ids expr_off args)
  shift_expr (Expr.comp it cond yields inner) =
      Expr.comp (shift_iter it) (shift_opt expr_off cond) (shift_expr_id yields expr_off) inner
  shift_expr (Expr.call builtin args) = Expr.call builtin (shift_ids expr_off args)
  shift_expr (Expr.invoke command args) = Expr.invoke command (shift_named expr_off args)
  shift_expr (Expr.unwrap inner) = Expr.unwrap (shift_expr_id inner expr_off)
  shift_expr (Expr.wrap v inner) = Expr.wrap (shift_expr_id v expr_off) inner
  shift_expr (Expr.reveal v t) = Expr.reveal (shift_expr_id v expr_off) t
  shift_expr (Expr.refusal code message) =
      Expr.refusal (shift_opt expr_off code) (shift_expr_id message expr_off)

  unfoldable pub shift_return : Return → Return
  shift_return ok = ok
  shift_return (invalid v) = invalid (shift_expr_id v expr_off)
  shift_return (value v) = value (shift_expr_id v expr_off)
  shift_return (outcome v) = outcome (shift_expr_id v expr_off)
  shift_return (reject code message) =
      reject (shift_expr_id code expr_off) (shift_expr_id message expr_off)

  unfoldable mutual
    pub shift_stmt : Stmt → Stmt
    shift_stmt (assign slot v) = assign (shift_slot slot slot_off) (shift_expr_id v expr_off)
    shift_stmt (if_else cond then_ otherwise) =
        if_else (shift_expr_id cond expr_off) (shift_block then_) (shift_block otherwise)
    shift_stmt (emit path fs) = emit path (shift_named expr_off fs)
    shift_stmt (put entity fs) = put entity (shift_named expr_off fs)
    shift_stmt (patch entity keys absent loads fs) =
        patch entity (shift_ids expr_off keys) absent (shift_binds slot_off loads)
          (shift_named expr_off fs)
    shift_stmt (delete entity keys) = delete entity (shift_ids expr_off keys)
    shift_stmt (fail message) = fail (shift_expr_id message expr_off)
    shift_stmt (log message) = log (shift_expr_id message expr_off)
    shift_stmt (erase subject v) = erase subject (shift_expr_id v expr_off)
    shift_stmt (for_each it body) = for_each (shift_iter it) (shift_block body)
    shift_stmt (discard v) = discard (shift_expr_id v expr_off)
    shift_stmt (call function scope args) = call function scope (shift_ids expr_off args)
    shift_stmt (return r) = return (shift_return r)

    pub shift_block : Block → Block
    shift_block end = end
    shift_block (next s b) = next (shift_stmt s) (shift_block b)

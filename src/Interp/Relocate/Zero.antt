-- ===== src/Interp/Relocate/Zero.antt =====
-- src/inline.rs: what is moved by nothing.
use native.Mathlib.Numerals.{unary_clauses}
use heklang.Base.{ℕ, ◌≡◌, refl, ap, Option, none, some, List, [], ◌∷◌, map}
use heklang.Ir.{Ident}
use heklang.Ir.Exprs.{ExprId, Iter, Expr, Bind, Return, Stmt, Block}
use heklang.Ir.Shift.{
  shift_opt, shift_ids, shift_named, shift_bind, shift_binds, shift_iter, shift_expr, shift_return,
  shift_stmt, shift_block,
}

shift_opt-zero : (o : Option ℕ) → shift_opt 0 o ≡ o
unfolding shift_opt
shift_opt-zero none = refl
shift_opt-zero (some n) = simp unary_clauses refl

shift_ids-zero : (ids : List ExprId) → shift_ids 0 ids ≡ ids
unfolding shift_ids
shift_ids-zero [] = refl
shift_ids-zero (id ∷ ids) = simp (unary_clauses, shift_ids-zero ids) refl

shift_named-zero : (fs : List (Ident × ExprId)) → shift_named 0 fs ≡ fs
unfolding shift_named
shift_named-zero [] = refl
shift_named-zero ((name, id) ∷ fs) = simp (unary_clauses, shift_named-zero fs) refl

shift_binds-zero : (bs : List Bind) → shift_binds 0 bs ≡ bs
unfolding shift_binds shift_bind
shift_binds-zero [] = refl
shift_binds-zero (b ∷ bs) = simp (unary_clauses, shift_binds-zero bs) refl

shift_iter-zero : (it : Iter) → shift_iter 0 0 it ≡ it
unfolding shift_iter
shift_iter-zero it = simp (unary_clauses, shift_opt-zero) refl

ruleset zeros = (
  unary_clauses, shift_opt-zero, shift_ids-zero, shift_named-zero, shift_binds-zero,
  shift_iter-zero,
)

shift_expr-zero : (e : Expr) → shift_expr 0 0 e ≡ e
unfolding shift_expr
shift_expr-zero (Expr.lit lit) = refl
shift_expr-zero (Expr.load slot) = simp zeros refl
shift_expr-zero (Expr.unary op operand) = simp zeros refl
shift_expr-zero (Expr.binary op lhs rhs) = simp zeros refl
shift_expr-zero (Expr.method receiver name args) = simp zeros refl
shift_expr-zero (Expr.if_else cond then_ otherwise) = simp zeros refl
shift_expr-zero (Expr.field receiver name) = simp zeros refl
shift_expr-zero (Expr.object fs) = simp zeros refl
shift_expr-zero (Expr.interp ids) = simp zeros refl
shift_expr-zero (Expr.list ids inner) = simp zeros refl
shift_expr-zero (Expr.struct t fs) = simp zeros refl
shift_expr-zero (Expr.event path fs) = simp zeros refl
shift_expr-zero (Expr.call_fn function scope args) = simp zeros refl
shift_expr-zero (Expr.comp it cond yields inner) = simp zeros refl
shift_expr-zero (Expr.call builtin args) = simp zeros refl
shift_expr-zero (Expr.invoke command args) = simp zeros refl
shift_expr-zero (Expr.unwrap inner) = simp zeros refl
shift_expr-zero (Expr.wrap v inner) = simp zeros refl
shift_expr-zero (Expr.reveal v t) = simp zeros refl
shift_expr-zero (Expr.secret name optional) = refl
shift_expr-zero (Expr.refusal code message) = simp zeros refl
shift_expr-zero Expr.invalid = refl

pub shift_exprs-zero : (es : List Expr) → map (shift_expr 0 0) es ≡ es
shift_exprs-zero [] = refl
shift_exprs-zero (e ∷ es) = simp (shift_expr-zero, shift_exprs-zero es) refl

shift_return-zero : (r : Return) → shift_return 0 0 r ≡ r
unfolding shift_return
shift_return-zero Return.ok = refl
shift_return-zero (Return.invalid v) = simp zeros refl
shift_return-zero (Return.value v) = simp zeros refl
shift_return-zero (Return.outcome v) = simp zeros refl
shift_return-zero (Return.reject code message) = simp zeros refl

mutual
  unfolding shift_stmt shift_block

  shift_stmt-zero : (s : Stmt) → shift_stmt 0 0 s ≡ s
  shift_stmt-zero (Stmt.assign slot v) = simp zeros refl
  shift_stmt-zero (Stmt.if_else cond then_ otherwise) =
      simp (zeros, shift_block-zero then_, shift_block-zero otherwise) refl
  shift_stmt-zero (Stmt.emit path fs) = simp zeros refl
  shift_stmt-zero (Stmt.put entity fs) = simp zeros refl
  shift_stmt-zero (Stmt.patch entity keys absent loads fs) = simp zeros refl
  shift_stmt-zero (Stmt.delete entity keys) = simp zeros refl
  shift_stmt-zero (Stmt.fail message) = simp zeros refl
  shift_stmt-zero (Stmt.log message) = simp zeros refl
  shift_stmt-zero (Stmt.erase subject v) = simp zeros refl
  shift_stmt-zero (Stmt.for_each it body) = simp (zeros, shift_block-zero body) refl
  shift_stmt-zero (Stmt.discard v) = simp zeros refl
  shift_stmt-zero (Stmt.call function scope args) = simp zeros refl
  shift_stmt-zero (Stmt.return r) = ap Stmt.return (shift_return-zero r)

  pub shift_block-zero : (b : Block) → shift_block 0 0 b ≡ b
  shift_block-zero Block.end = refl
  shift_block-zero (Block.next s b) = simp (shift_stmt-zero s, shift_block-zero b) refl

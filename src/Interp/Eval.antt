-- ===== src/Interp/Eval.antt =====
-- src/interp.rs: `eval`, for what has no effect context: a command, a fold, a projector and a `fn`.
-- One node is evaluated by `eval_node`, whose parameters evaluate the nodes that it names, in the
-- same arena, and enter a function.
pub mod Operands
unfoldable pub use Operands.*
use heklang.Base.{
  ℕ, zero, suc, Bool, true, false, ◌||◌, Option, none, some, List, [], ◌∷◌, ◌++◌, if◌then◌else◌,
}
use heklang.Base.Int.{ℤ, pos}
use heklang.Base.Text.{Text, codes, is}
use heklang.Ir.{Ident, Ty, BinOp, and, or}
use heklang.Ir.Exprs.{
  ExprId, Slot, Iter, Builtin, Expr, uuid_derive, json_encode, timestamp_parse,
  timestamp_from_parts, money_parse, decimal_parse,
}
use heklang.Ir.Program.{
  Program, RecordField, FieldDef, record_field, event_field, event_def, record_def,
}
use heklang.Value.{
  Value, ty, has_type, Fields, no_fields, Json, Members, no_members, invalid, reject, Key, from_key,
}
use heklang.Value.Maps.{insert_field, find_field, insert_member, items_of, values_of, entries_of}
use heklang.Value.Render.{to_json, text, redacted_text, json_text}
use heklang.Value.Numbers.{of_literal, parse_scaled}
use heklang.Value.Calendar.{from_parts, timestamp}
use heklang.Interp.Errors.{
  malformed_ir, type_mismatch, no_such_field, not_iterable, bad_argument, bad_uuid,
}
use heklang.Interp.Coerce.{fitted, some_value, none_value}
use heklang.Interp.Ops.{unary, binary}
use heklang.Interp.Methods.{call_method}
use heklang.Interp.Methods.Strings.{Library}
use heklang.Interp.Frames.{Frame, Run, done, fails, ◌>>=◌, from_result, or_fails, set, read_slot}

module _ (ev : Eval) where
  unfoldable pub eval_bool : ExprId → Frame → Answer Bool
  eval_bool id fr = ev id fr >>= λ (v, fr₁). with_frame fr₁ (as_bool v)

  unfoldable pub eval_string : ExprId → Frame → Answer Text
  eval_string id fr = ev id fr >>= λ (v, fr₁). with_frame fr₁ (as_text v)

  unfoldable pub elements : Iter → Frame → Answer (List Pair)
  elements it fr = ev (Iter.over it) fr >>= λ (v, fr₁). with_frame fr₁ (pairs_of v)

  -- Arguments, from the left.
  unfoldable pub eval_all : List ExprId → Frame → Answer (List Value)
  eval_all [] fr = done ([], fr)
  eval_all (id ∷ ids) fr =
      ev id fr >>= λ (v, fr₁). eval_all ids fr₁ >>= λ (vs, fr₂). done (v ∷ vs, fr₂)

  -- The items of a list literal, each fitted before the next.
  unfoldable pub eval_items : Option Ty → List ExprId → Frame → Answer (List Value)
  eval_items inner [] fr = done ([], fr)
  eval_items inner (id ∷ ids) fr = ev id fr >>= λ (v, fr₁).
      declared_fit inner v >>= λ w. eval_items inner ids fr₁ >>= λ (vs, fr₂). done (w ∷ vs, fr₂)

  unfoldable pub eval_object : List (Ident × ExprId) → Members → Frame → Answer Members
  eval_object [] ms fr = done (ms, fr)
  eval_object ((name, id) ∷ fs) ms fr =
      ev id fr >>= λ (v, fr₁). eval_object fs (insert_member name (to_json v) ms) fr₁

  -- The fields of a record or of an event, by the types that it declares.
  unfoldable pub eval_fields :
      (Ident → Option Ty) → List (Ident × ExprId) → Fields → Frame → Answer Fields
  eval_fields declared [] vs fr = done (vs, fr)
  eval_fields declared ((name, id) ∷ fs) vs fr = ev id fr >>= λ (v, fr₁).
      fit_field (declared name) v >>= λ w. eval_fields declared fs (insert_field name w vs) fr₁

  unfoldable pub eval_parts : List ExprId → Spelled → Frame → Answer Spelled
  eval_parts [] s fr = done (s, fr)
  eval_parts (id ∷ ids) s fr = ev id fr >>= λ (v, fr₁). eval_parts ids (spell s v) fr₁

  -- The arguments of `invoke`, which is refused behind them.
  unfoldable pub eval_named : List (Ident × ExprId) → Frame → Answer Fields
  eval_named [] fr = done (no_fields, fr)
  eval_named ((name, id) ∷ fs) fr =
      ev id fr >>= λ (v, fr₁). eval_named fs fr₁ >>= λ (vs, fr₂). done (insert_field name v vs, fr₂)

  unfoldable pub eval_cond : Option ExprId → Frame → Answer Bool
  eval_cond none fr = done (true, fr)
  eval_cond (some id) fr = eval_bool id fr

  -- The value that one round of a comprehension yields.
  unfoldable pub eval_yield :
      (yields : ExprId) → Option Ty → (taken : Bool) → Frame → Answer (List Value)
  eval_yield yields declared false fr = done ([], fr)
  eval_yield yields declared true fr =
      ev yields fr >>= λ (v, fr₁). declared_fit declared v >>= λ w. done (w ∷ [], fr₁)

  unfoldable pub eval_round :
      Iter → Option ExprId → (yields : ExprId) → Option Ty → Pair → Frame → Answer (List Value)
  eval_round it cond yields declared (index, item) fr = bind_iter it index item fr >>= λ fr₁.
      eval_cond cond fr₁ >>= λ (taken, fr₂). eval_yield yields declared taken fr₂

  unfoldable pub eval_rounds :
      Iter → Option ExprId → (yields : ExprId) → Option Ty → List Pair → Frame → Answer (List Value)
  eval_rounds it cond yields declared [] fr = done ([], fr)
  eval_rounds it cond yields declared (p ∷ ps) fr =
      eval_round it cond yields declared p fr >>= λ (vs, fr₁).
      eval_rounds it cond yields declared ps fr₁ >>= λ (ws, fr₂). done (vs ++ ws, fr₂)

  -- The right operand of `&&` and `||`, unless the left one decides.
  unfoldable pub eval_right : (stops decided : Bool) → (rhs : ExprId) → Frame → Answer Value
  eval_right true true rhs fr = done (Value.bool true, fr)
  eval_right false false rhs fr = done (Value.bool false, fr)
  eval_right stops decided rhs fr = eval_bool rhs fr >>= λ (b, fr₁). done (Value.bool b, fr₁)

  unfoldable pub eval_binary : Strategy → BinOp → (lhs rhs : ExprId) → Frame → Answer Value
  eval_binary (short_circuit stops) op lhs rhs fr =
      eval_bool lhs fr >>= λ (b, fr₁). eval_right stops b rhs fr₁
  eval_binary strict op lhs rhs fr = ev lhs fr >>= λ (a, fr₁).
      ev rhs fr₁ >>= λ (b, fr₂). with_frame fr₂ (from_result (binary op a b))

  unfoldable pub eval_code : Option ExprId → (message : Text) → Frame → Answer Value
  eval_code none message fr = done (Value.invoked (invalid message), fr)
  eval_code (some code) message fr =
      eval_string code fr >>= λ (c, fr₁). done (Value.invoked (reject c message), fr₁)

  module _ (lib : Library) (program : Program) (call : Call) where
    unfoldable pub eval_node : Expr → Frame → Answer Value
    eval_node (Expr.lit lit) fr = done (of_literal lit, fr)
    eval_node (Expr.load slot) fr = with_frame fr (read_slot fr slot)
    eval_node (Expr.secret name optional) fr = fails malformed_ir
    eval_node (Expr.unary op operand) fr =
        ev operand fr >>= λ (v, fr₁). with_frame fr₁ (from_result (unary op v))
    eval_node (Expr.binary op lhs rhs) fr = eval_binary (strategy op) op lhs rhs fr
    eval_node (Expr.method receiver name args) fr = ev receiver fr >>= λ (v, fr₁).
        eval_all args fr₁ >>= λ (vs, fr₂). with_frame fr₂ (from_result (call_method lib v name vs))
    eval_node (Expr.if_else cond then_ otherwise) fr =
        eval_bool cond fr >>= λ (taken, fr₁). ev (if taken then then_ else otherwise) fr₁
    eval_node (Expr.field receiver name) fr =
        ev receiver fr >>= λ (v, fr₁). with_frame fr₁ (field_of v name)
    eval_node (Expr.object fs) fr =
        eval_object fs no_members fr >>= λ (ms, fr₁). done (Value.json (Json.obj ms), fr₁)
    eval_node (Expr.list items inner) fr = eval_items inner items fr >>= λ (vs, fr₁).
        done (Value.list (element_ty inner vs) (values_of vs), fr₁)
    eval_node (Expr.comp it cond yields declared) fr = elements it fr >>= λ (ps, fr₁).
        eval_rounds it cond yields declared ps fr₁ >>= λ (vs, fr₂).
        done (Value.list (element_ty declared vs) (values_of vs), fr₂)
    eval_node (Expr.call_fn function scope args) fr =
        eval_all args fr >>= λ (vs, fr₁). with_frame fr₁ (call function scope vs)
    eval_node (Expr.struct t fs) fr = or_fails (record_def program t) malformed_ir >>= λ def.
        eval_fields (λ name. field_ty (record_field def name)) fs no_fields fr >>= λ (vs, fr₁).
        done (Value.struct t vs, fr₁)
    eval_node (Expr.event path fs) fr = or_fails (event_def program path) malformed_ir >>= λ def.
        eval_fields (λ name. def_ty (event_field def name)) fs no_fields fr >>= λ (vs, fr₁).
        done (Value.event path vs, fr₁)
    eval_node (Expr.interp ids) fr =
        eval_parts ids nothing_spelled fr >>= λ (s, fr₁). done (spelled s, fr₁)
    eval_node (Expr.call builtin args) fr =
        eval_all args fr >>= λ (vs, fr₁). with_frame fr₁ (call_builtin lib builtin vs)
    eval_node (Expr.invoke command args) fr = eval_named args fr >>= λ _. fails malformed_ir
    eval_node (Expr.unwrap inner) fr = ev inner fr >>= λ (v, fr₁). with_frame fr₁ (unwrapped v)
    eval_node (Expr.wrap value inner) fr =
        ev value fr >>= λ (v, fr₁). with_frame fr₁ (wrapped inner v)
    eval_node (Expr.reveal value t) fr = ev value fr >>= λ _. fails malformed_ir
    eval_node (Expr.refusal code message) fr =
        eval_string message fr >>= λ (m, fr₁). eval_code code m fr₁
    eval_node Expr.invalid fr = fails malformed_ir

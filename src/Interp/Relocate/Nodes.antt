-- ===== src/Interp/Relocate/Nodes.antt =====
-- src/interp.rs and src/inline.rs: what `eval` makes of a node that is moved.
use heklang.Base.{ℕ, ◌+◌, Bool, true, false, Option, List, length, if◌then◌else◌}
use heklang.Ir.{Ident}
use heklang.Ir.Exprs.{ExprId, Expr}
use heklang.Ir.Shift.{shift_expr}
use heklang.Ir.Program.{Program, record_def, event_def, record_field, event_field}
use heklang.Value.{Value, no_fields, Json, no_members}
use heklang.Value.Maps.{values_of}
use heklang.Value.Numbers.{of_literal}
use heklang.Interp.Errors.{malformed_ir}
use heklang.Interp.Methods.{call_method}
use heklang.Interp.Methods.Strings.{Library}
use heklang.Interp.Ops.{unary}
use heklang.Interp.Frames.{Frame, from_result, or_fails}
use heklang.Interp.Eval.{
  Eval, Call, eval_node, strategy, field_of, unwrapped, wrapped, element_ty, spelled,
  nothing_spelled, call_builtin, field_ty, def_ty,
}
use heklang.Interp.Relocate.{Follows, Follows->>=, same->>=, Follows-done, Follows-fails, unmoved}
use heklang.Interp.Relocate.Frames.{between, read_slot-between}
use heklang.Interp.Relocate.Exprs.{
  moved, Evals, with_frame-moved, eval_bool-moved, eval_string-moved, elements-moved,
  eval_all-moved, eval_items-moved, eval_object-moved, eval_fields-moved, eval_parts-moved,
  eval_named-moved, eval_rounds-moved, eval_binary-moved, eval_code-moved,
}

-- Two ways to call a function, with the same answers.
abbrev pub Calls : (call call₀ : Call) → Type 0
Calls call call₀ =
    (function : Ident) (scope : Option Ident) (vs : List Value)
    → Follows unmoved (call function scope vs) (call₀ function scope vs)

module _ (before after : Frame) (off : ℕ) (ev ev₀ : Eval) (evals : Evals before after off ev ev₀)
    (lib : Library) (program : Program) (call call₀ : Call) (calls : Calls call call₀) where
  branch-moved :
      (taken : Bool) (then_ otherwise : ExprId) (fr : Frame)
      → Follows
          (moved before after)
          (ev (if taken then then_ + off else otherwise + off) (between before after fr))
          (ev₀ (if taken then then_ else otherwise) fr)
  branch-moved true then_ otherwise fr = evals then_ fr
  branch-moved false then_ otherwise fr = evals otherwise fr

  pub eval_node-moved :
      (e : Expr) (fr : Frame)
      → Follows
          (moved before after)
          (eval_node ev lib program call
            (shift_expr off (length before) e)
            (between before after fr))
          (eval_node ev₀ lib program call₀ e fr)
  unfolding eval_node shift_expr
  eval_node-moved (Expr.lit lit) fr = Follows-done (of_literal lit, fr)
  eval_node-moved (Expr.load slot) fr =
      Follows->>= _ _ (read_slot-between before after fr slot) (λ v. Follows-done (v, fr))
  eval_node-moved (Expr.secret name optional) fr = Follows-fails malformed_ir
  eval_node-moved (Expr.unary op operand) fr =
      Follows->>= _ _ (evals operand fr)
        (λ (v, fr₁). with_frame-moved before after fr₁ (from_result (unary op v)))
  eval_node-moved (Expr.binary op lhs rhs) fr =
      eval_binary-moved before after off ev ev₀ evals (strategy op) op lhs rhs fr
  eval_node-moved (Expr.method receiver name args) fr =
      Follows->>= _ _ (evals receiver fr) (λ (v, fr₁).
        Follows->>= _ _ (eval_all-moved before after off ev ev₀ evals args fr₁) (λ (vs, fr₂).
          with_frame-moved before after fr₂ (from_result (call_method lib v name vs))))
  eval_node-moved (Expr.if_else cond then_ otherwise) fr =
      Follows->>= _ _ (eval_bool-moved before after off ev ev₀ evals cond fr)
        (λ (taken, fr₁). branch-moved taken then_ otherwise fr₁)
  eval_node-moved (Expr.field receiver name) fr =
      Follows->>= _ _ (evals receiver fr)
        (λ (v, fr₁). with_frame-moved before after fr₁ (field_of v name))
  eval_node-moved (Expr.object fs) fr =
      Follows->>= _ _ (eval_object-moved before after off ev ev₀ evals fs no_members fr)
        (λ (ms, fr₁). Follows-done (Value.json (Json.obj ms), fr₁))
  eval_node-moved (Expr.list items inner) fr =
      Follows->>= _ _ (eval_items-moved before after off ev ev₀ evals inner items fr)
        (λ (vs, fr₁). Follows-done (Value.list (element_ty inner vs) (values_of vs), fr₁))
  eval_node-moved (Expr.comp it cond yields declared) fr =
      Follows->>= _ _ (elements-moved before after off ev ev₀ evals it fr) (λ (ps, fr₁).
        Follows->>= _ _
          (eval_rounds-moved before after off ev ev₀ evals it cond yields declared ps fr₁)
          (λ (vs, fr₂). Follows-done (Value.list (element_ty declared vs) (values_of vs), fr₂)))
  eval_node-moved (Expr.call_fn function scope args) fr =
      Follows->>= _ _ (eval_all-moved before after off ev ev₀ evals args fr)
        (λ (vs, fr₁). Follows->>= _ _ (calls function scope vs) (λ v. Follows-done (v, fr₁)))
  eval_node-moved (Expr.struct t fs) fr =
      same->>= _ _ (or_fails (record_def program t) malformed_ir) (λ def.
        Follows->>= _ _
          (eval_fields-moved before after off ev ev₀ evals
            (λ name. field_ty (record_field def name)) fs no_fields fr)
          (λ (vs, fr₁). Follows-done (Value.struct t vs, fr₁)))
  eval_node-moved (Expr.event path fs) fr =
      same->>= _ _ (or_fails (event_def program path) malformed_ir) (λ def.
        Follows->>= _ _
          (eval_fields-moved before after off ev ev₀ evals (λ name. def_ty (event_field def name))
            fs no_fields fr)
          (λ (vs, fr₁). Follows-done (Value.event path vs, fr₁)))
  eval_node-moved (Expr.interp ids) fr =
      Follows->>= _ _ (eval_parts-moved before after off ev ev₀ evals ids nothing_spelled fr)
        (λ (s, fr₁). Follows-done (spelled s, fr₁))
  eval_node-moved (Expr.call builtin args) fr =
      Follows->>= _ _ (eval_all-moved before after off ev ev₀ evals args fr)
        (λ (vs, fr₁). with_frame-moved before after fr₁ (call_builtin lib builtin vs))
  eval_node-moved (Expr.invoke command args) fr =
      Follows->>= _ _ (eval_named-moved before after off ev ev₀ evals args fr)
        (λ p. Follows-fails malformed_ir)
  eval_node-moved (Expr.unwrap inner) fr =
      Follows->>= _ _ (evals inner fr) (λ (v, fr₁). with_frame-moved before after fr₁ (unwrapped v))
  eval_node-moved (Expr.wrap value inner) fr =
      Follows->>= _ _ (evals value fr)
        (λ (v, fr₁). with_frame-moved before after fr₁ (wrapped inner v))
  eval_node-moved (Expr.reveal value t) fr =
      Follows->>= _ _ (evals value fr) (λ p. Follows-fails malformed_ir)
  eval_node-moved (Expr.refusal code message) fr =
      Follows->>= _ _ (eval_string-moved before after off ev ev₀ evals message fr)
        (λ (m, fr₁). eval_code-moved before after off ev ev₀ evals code m fr₁)
  eval_node-moved Expr.invalid fr = Follows-fails malformed_ir

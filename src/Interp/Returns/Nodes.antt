-- ===== src/Interp/Returns/Nodes.antt =====
-- src/interp.rs: a node answers where the nodes that it names do.
use heklang.Base.{ℕ, ◌<◌, Bool, true, false, Option, none, some, List, [], ◌∷◌, ◌++◌, if◌then◌else◌}
use heklang.Base.Text.{Text}
use heklang.Ir.{Ident, Ty, BinOp}
use heklang.Ir.Exprs.{ExprId, Iter, Expr}
use heklang.Ir.Program.{Program, Function, record_def, event_def, record_field, event_field}
use heklang.Value.{Value, Fields, no_fields, Members, no_members, Json, invalid, reject}
use heklang.Value.Maps.{insert_field, insert_member, values_of}
use heklang.Value.Render.{to_json}
use heklang.Value.Numbers.{of_literal}
use heklang.Interp.Errors.{malformed_ir}
use heklang.Interp.Ops.{unary, binary}
use heklang.Interp.Methods.{call_method}
use heklang.Interp.Methods.Strings.{Library}
use heklang.Interp.Frames.{Frame}
use heklang.Interp.Eval.{
  Eval, Call, Pair, Spelled, spell, spelled, nothing_spelled, Strategy, short_circuit, strict,
  strategy, eval_bool, eval_string, elements, eval_all, eval_items, eval_object, eval_fields,
  eval_parts, eval_named, eval_cond, eval_yield, eval_round, eval_rounds, eval_right, eval_binary,
  eval_code, eval_node, element_ty, field_ty, def_ty,
}
use heklang.Interp.Returns.{
  Returns, Returns-done, Returns-fails, Returns-result, Returns-option, Returns->>=, IdsBelow,
  NamedBelow, OptBelow, CallBelow, NodeBelow,
}
use heklang.Interp.Returns.Operands.{
  Returns-with_frame, read_slot-Returns, bind_iter-Returns, as_bool-Returns, as_text-Returns,
  pairs_of-Returns, unwrapped-Returns, wrapped-Returns, field_of-Returns, declared_fit-Returns,
  fit_field-Returns, call_builtin-Returns,
}

module _ (n : ℕ) (ev : Eval)
    (evals : (id : ExprId) → id < n → (fr : Frame) → Returns (ev id fr)) where
  pub eval_bool-Returns : (id : ExprId) → id < n → (fr : Frame) → Returns (eval_bool ev id fr)
  unfolding eval_bool
  eval_bool-Returns id lt fr =
      Returns->>= _ (evals id lt fr) (λ (v, fr₁). Returns-with_frame fr₁ (as_bool-Returns v))

  pub eval_string-Returns : (id : ExprId) → id < n → (fr : Frame) → Returns (eval_string ev id fr)
  unfolding eval_string
  eval_string-Returns id lt fr =
      Returns->>= _ (evals id lt fr) (λ (v, fr₁). Returns-with_frame fr₁ (as_text-Returns v))

  pub elements-Returns : (it : Iter) → Iter.over it < n → (fr : Frame) → Returns (elements ev it fr)
  unfolding elements
  elements-Returns it lt fr =
      Returns->>= _ (evals (Iter.over it) lt fr)
        (λ (v, fr₁). Returns-with_frame fr₁ (pairs_of-Returns v))

  pub eval_all-Returns :
      (ids : List ExprId) → IdsBelow n ids → (fr : Frame) → Returns (eval_all ev ids fr)
  unfolding eval_all
  eval_all-Returns [] lt fr = Returns-done ([], fr)
  eval_all-Returns (id ∷ ids) (lt, lts) fr = Returns->>= _ (evals id lt fr) (λ (v, fr₁).
      Returns->>= _ (eval_all-Returns ids lts fr₁) (λ (vs, fr₂). Returns-done (v ∷ vs, fr₂)))

  eval_items-Returns :
      (inner : Option Ty) (ids : List ExprId)
      → IdsBelow n ids
      → (fr : Frame) → Returns (eval_items ev inner ids fr)
  unfolding eval_items
  eval_items-Returns inner [] lt fr = Returns-done ([], fr)
  eval_items-Returns inner (id ∷ ids) (lt, lts) fr = Returns->>= _ (evals id lt fr) (λ (v, fr₁).
      Returns->>= _ (declared_fit-Returns inner v) (λ w.
        Returns->>= _ (eval_items-Returns inner ids lts fr₁)
          (λ (vs, fr₂). Returns-done (w ∷ vs, fr₂))))

  eval_object-Returns :
      (fs : List (Ident × ExprId))
      → NamedBelow n fs
      → (ms : Members) (fr : Frame) → Returns (eval_object ev fs ms fr)
  unfolding eval_object
  eval_object-Returns [] lt ms fr = Returns-done (ms, fr)
  eval_object-Returns ((name, id) ∷ fs) (lt, lts) ms fr =
      Returns->>= _ (evals id lt fr)
        (λ (v, fr₁). eval_object-Returns fs lts (insert_member name (to_json v) ms) fr₁)

  eval_fields-Returns :
      (declared : Ident → Option Ty) (fs : List (Ident × ExprId))
      → NamedBelow n fs
      → (vs : Fields) (fr : Frame) → Returns (eval_fields ev declared fs vs fr)
  unfolding eval_fields
  eval_fields-Returns declared [] lt vs fr = Returns-done (vs, fr)
  eval_fields-Returns declared ((name, id) ∷ fs) (lt, lts) vs fr =
      Returns->>= _ (evals id lt fr) (λ (v, fr₁).
        Returns->>= _ (fit_field-Returns (declared name) v)
          (λ w. eval_fields-Returns declared fs lts (insert_field name w vs) fr₁))

  eval_parts-Returns :
      (ids : List ExprId)
      → IdsBelow n ids
      → (s : Spelled) (fr : Frame) → Returns (eval_parts ev ids s fr)
  unfolding eval_parts
  eval_parts-Returns [] lt s fr = Returns-done (s, fr)
  eval_parts-Returns (id ∷ ids) (lt, lts) s fr =
      Returns->>= _ (evals id lt fr) (λ (v, fr₁). eval_parts-Returns ids lts (spell s v) fr₁)

  eval_named-Returns :
      (fs : List (Ident × ExprId)) → NamedBelow n fs → (fr : Frame) → Returns (eval_named ev fs fr)
  unfolding eval_named
  eval_named-Returns [] lt fr = Returns-done (no_fields, fr)
  eval_named-Returns ((name, id) ∷ fs) (lt, lts) fr = Returns->>= _ (evals id lt fr) (λ (v, fr₁).
      Returns->>= _ (eval_named-Returns fs lts fr₁)
        (λ (vs, fr₂). Returns-done (insert_field name v vs, fr₂)))

  eval_cond-Returns :
      (cond : Option ExprId) → OptBelow n cond → (fr : Frame) → Returns (eval_cond ev cond fr)
  unfolding eval_cond
  eval_cond-Returns none lt fr = Returns-done (true, fr)
  eval_cond-Returns (some id) lt fr = eval_bool-Returns id lt fr

  eval_yield-Returns :
      (yields : ExprId)
      → yields < n
      → (declared : Option Ty) (taken : Bool) (fr : Frame)
      → Returns (eval_yield ev yields declared taken fr)
  unfolding eval_yield
  eval_yield-Returns yields lt declared false fr = Returns-done ([], fr)
  eval_yield-Returns yields lt declared true fr = Returns->>= _ (evals yields lt fr) (λ (v, fr₁).
      Returns->>= _ (declared_fit-Returns declared v) (λ w. Returns-done (w ∷ [], fr₁)))

  eval_rounds-Returns :
      (it : Iter) (cond : Option ExprId)
      → OptBelow n cond
      → (yields : ExprId) → yields < n
      → (declared : Option Ty) (ps : List Pair) (fr : Frame)
      → Returns (eval_rounds ev it cond yields declared ps fr)
  unfolding eval_rounds eval_round
  eval_rounds-Returns it cond cl yields yl declared [] fr = Returns-done ([], fr)
  eval_rounds-Returns it cond cl yields yl declared ((index, item) ∷ ps) fr =
      Returns->>= _
        (Returns->>= _ (bind_iter-Returns it index item fr) (λ fr₁.
          Returns->>= _ (eval_cond-Returns cond cl fr₁)
            (λ (taken, fr₂). eval_yield-Returns yields yl declared taken fr₂)))
        (λ (vs, fr₁).
          Returns->>= _ (eval_rounds-Returns it cond cl yields yl declared ps fr₁)
            (λ (ws, fr₂). Returns-done (vs ++ ws, fr₂)))

  eval_right-Returns :
      (stops decided : Bool) (rhs : ExprId)
      → rhs < n
      → (fr : Frame) → Returns (eval_right ev stops decided rhs fr)
  unfolding eval_right
  eval_right-Returns true true rhs lt fr = Returns-done (Value.bool true, fr)
  eval_right-Returns false false rhs lt fr = Returns-done (Value.bool false, fr)
  eval_right-Returns true false rhs lt fr =
      Returns->>= _ (eval_bool-Returns rhs lt fr) (λ (b, fr₁). Returns-done (Value.bool b, fr₁))
  eval_right-Returns false true rhs lt fr =
      Returns->>= _ (eval_bool-Returns rhs lt fr) (λ (b, fr₁). Returns-done (Value.bool b, fr₁))

  eval_binary-Returns :
      (s : Strategy) (op : BinOp) (lhs rhs : ExprId)
      → lhs < n
      → rhs < n
      → (fr : Frame) → Returns (eval_binary ev s op lhs rhs fr)
  unfolding eval_binary
  eval_binary-Returns (short_circuit stops) op lhs rhs ll rl fr =
      Returns->>= _ (eval_bool-Returns lhs ll fr)
        (λ (b, fr₁). eval_right-Returns stops b rhs rl fr₁)
  eval_binary-Returns strict op lhs rhs ll rl fr = Returns->>= _ (evals lhs ll fr) (λ (a, fr₁).
      Returns->>= _ (evals rhs rl fr₁)
        (λ (b, fr₂). Returns-with_frame fr₂ (Returns-result (binary op a b))))

  eval_code-Returns :
      (code : Option ExprId)
      → OptBelow n code
      → (message : Text) (fr : Frame) → Returns (eval_code ev code message fr)
  unfolding eval_code
  eval_code-Returns none lt message fr = Returns-done (Value.invoked (invalid message), fr)
  eval_code-Returns (some code) lt message fr =
      Returns->>= _ (eval_string-Returns code lt fr)
        (λ (c, fr₁). Returns-done (Value.invoked (reject c message), fr₁))

  branch-Returns :
      (taken : Bool) (then_ otherwise : ExprId)
      → then_ < n
      → otherwise < n
      → (fr : Frame) → Returns (ev (if taken then then_ else otherwise) fr)
  branch-Returns true then_ otherwise tl ol fr = evals then_ tl fr
  branch-Returns false then_ otherwise tl ol fr = evals otherwise ol fr

  module _ (lib : Library) (program : Program) (height : Function → ℕ) (h : ℕ) (call : Call)
      (calls : (function : Ident) (scope : Option Ident)
        → CallBelow program height h function scope
        → (vs : List Value) → Returns (call function scope vs)) where
    pub eval_node-Returns :
        (e : Expr)
        → NodeBelow program height n h e
        → (fr : Frame) → Returns (eval_node ev lib program call e fr)
    unfolding eval_node
    eval_node-Returns (Expr.lit lit) lt fr = Returns-done (of_literal lit, fr)
    eval_node-Returns (Expr.load slot) lt fr = Returns-with_frame fr (read_slot-Returns fr slot)
    eval_node-Returns (Expr.secret name optional) lt fr = Returns-fails malformed_ir
    eval_node-Returns (Expr.unary op operand) lt fr =
        Returns->>= _ (evals operand lt fr)
          (λ (v, fr₁). Returns-with_frame fr₁ (Returns-result (unary op v)))
    eval_node-Returns (Expr.binary op lhs rhs) (ll, rl) fr =
        eval_binary-Returns (strategy op) op lhs rhs ll rl fr
    eval_node-Returns (Expr.method receiver name args) (lt, lts) fr =
        Returns->>= _ (evals receiver lt fr) (λ (v, fr₁).
          Returns->>= _ (eval_all-Returns args lts fr₁)
            (λ (vs, fr₂). Returns-with_frame fr₂ (Returns-result (call_method lib v name vs))))
    eval_node-Returns (Expr.if_else cond then_ otherwise) (cl, tl, ol) fr =
        Returns->>= _ (eval_bool-Returns cond cl fr)
          (λ (taken, fr₁). branch-Returns taken then_ otherwise tl ol fr₁)
    eval_node-Returns (Expr.field receiver name) lt fr =
        Returns->>= _ (evals receiver lt fr)
          (λ (v, fr₁). Returns-with_frame fr₁ (field_of-Returns v name))
    eval_node-Returns (Expr.object fs) lt fr =
        Returns->>= _ (eval_object-Returns fs lt no_members fr)
          (λ (ms, fr₁). Returns-done (Value.json (Json.obj ms), fr₁))
    eval_node-Returns (Expr.list items inner) lt fr =
        Returns->>= _ (eval_items-Returns inner items lt fr)
          (λ (vs, fr₁). Returns-done (Value.list (element_ty inner vs) (values_of vs), fr₁))
    eval_node-Returns (Expr.comp it cond yields declared) (il, cl, yl) fr =
        Returns->>= _ (elements-Returns it il fr) (λ (ps, fr₁).
          Returns->>= _ (eval_rounds-Returns it cond cl yields yl declared ps fr₁)
            (λ (vs, fr₂). Returns-done (Value.list (element_ty declared vs) (values_of vs), fr₂)))
    eval_node-Returns (Expr.call_fn function scope args) (lts, cl) fr =
        Returns->>= _ (eval_all-Returns args lts fr)
          (λ (vs, fr₁). Returns-with_frame fr₁ (calls function scope cl vs))
    eval_node-Returns (Expr.struct t fs) lt fr =
        Returns->>= _ (Returns-option (record_def program t) malformed_ir) (λ def.
          Returns->>= _
            (eval_fields-Returns (λ name. field_ty (record_field def name)) fs lt no_fields fr)
            (λ (vs, fr₁). Returns-done (Value.struct t vs, fr₁)))
    eval_node-Returns (Expr.event path fs) lt fr =
        Returns->>= _ (Returns-option (event_def program path) malformed_ir) (λ def.
          Returns->>= _
            (eval_fields-Returns (λ name. def_ty (event_field def name)) fs lt no_fields fr)
            (λ (vs, fr₁). Returns-done (Value.event path vs, fr₁)))
    eval_node-Returns (Expr.interp ids) lt fr =
        Returns->>= _ (eval_parts-Returns ids lt nothing_spelled fr)
          (λ (s, fr₁). Returns-done (spelled s, fr₁))
    eval_node-Returns (Expr.call builtin args) lt fr =
        Returns->>= _ (eval_all-Returns args lt fr)
          (λ (vs, fr₁). Returns-with_frame fr₁ (call_builtin-Returns lib builtin vs))
    eval_node-Returns (Expr.invoke command args) lt fr =
        Returns->>= _ (eval_named-Returns args lt fr) (λ p. Returns-fails malformed_ir)
    eval_node-Returns (Expr.unwrap inner) lt fr =
        Returns->>= _ (evals inner lt fr) (λ (v, fr₁). Returns-with_frame fr₁ (unwrapped-Returns v))
    eval_node-Returns (Expr.wrap value inner) lt fr =
        Returns->>= _ (evals value lt fr)
          (λ (v, fr₁). Returns-with_frame fr₁ (wrapped-Returns inner v))
    eval_node-Returns (Expr.reveal value t) lt fr =
        Returns->>= _ (evals value lt fr) (λ p. Returns-fails malformed_ir)
    eval_node-Returns (Expr.refusal code message) (cl, ml) fr =
        Returns->>= _ (eval_string-Returns message ml fr)
          (λ (m, fr₁). eval_code-Returns code cl m fr₁)
    eval_node-Returns Expr.invalid lt fr = Returns-fails malformed_ir

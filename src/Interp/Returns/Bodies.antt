-- ===== src/Interp/Returns/Bodies.antt =====
-- src/interp.rs: a statement answers where the nodes that it names do.
use heklang.Base.{ℕ, ◌<◌, Bool, true, false, Option, none, some, List, [], ◌∷◌, ◌++◌, arith}
use heklang.Ir.{Ident, EventPath, Ty}
use heklang.Ir.Exprs.{ExprId, Iter, Return, Stmt, Block}
use heklang.Ir.Program.{Program, Function, EventDef, FieldDef, event_def, event_field}
use heklang.Value.{Value, Fields, no_fields, ty, has_type}
use heklang.Value.Maps.{insert_field}
use heklang.Log.{Event}
use heklang.Interp.Errors.{
  malformed_ir, unknown_event, unknown_field, missing_field, bad_subject, type_mismatch,
}
use heklang.Interp.Coerce.{coerce, map_key}
use heklang.Interp.Bounds.{check_field, bounded}
use heklang.Interp.Frames.{Frame, Run}
use heklang.Interp.Eval.{Eval, Pair}
use heklang.Interp.Exec.{
  ok, value, invalid, reject, Flow, next, returned, Sink, pure, emit, CallVoid, proceed, Payload,
  complete, too_large, fault_text, outcome_of, erase_refused, subject_id, emitted, finish_emit,
  Body, rounds, eval_return, subscript, eval_payload, exec_emit, exec_stmt, exec_block,
  first_missing, field_list,
}
use heklang.Interp.Returns.{
  Returns, Returns-done, Returns-fails, Returns-result, Returns-option, Returns->>=, IdsBelow,
  NamedBelow, CallBelow, ReturnBelow, StmtBelow, BlockBelow,
}
use heklang.Interp.Returns.Operands.{Returns-with_frame, if-Returns, set-Returns, bind_iter-Returns}
use heklang.Interp.Returns.Nodes.{
  eval_bool-Returns, eval_string-Returns, elements-Returns, eval_all-Returns,
}

bool-Returns {ℓ} :
    {A : Type ℓ} {r s : Run A} (b : Bool)
    → Returns r
    → Returns s
    → Returns (elim b [ true ↦ r | false ↦ s ])
bool-Returns true h g = h
bool-Returns false h g = g

option-Returns {ℓ κ} :
    {A : Type ℓ} {X : Type κ} {r : Run A} (f : X → Run A) (o : Option X)
    → Returns r
    → ((x : X) → Returns (f x))
    → Returns (elim o [ none ↦ r | some x ↦ f x ])
option-Returns f none h g = h
option-Returns f (some x) h g = g x

proceed-Returns :
    (k : Body)
    → ((fr : Frame) (sk : Sink) → Returns (k fr sk))
    → (flow : Flow) (fr : Frame) (sk : Sink) → Returns (proceed flow fr sk k)
unfolding proceed
proceed-Returns k h next fr sk = h fr sk
proceed-Returns k h (returned r) fr sk = Returns-done (returned r, fr, sk)

rounds-Returns :
    (body : Body)
    → ((fr : Frame) (sk : Sink) → Returns (body fr sk))
    → (it : Iter) (ps : List Pair) (fr : Frame) (sk : Sink) → Returns (rounds body it ps fr sk)
unfolding rounds
rounds-Returns body h it [] fr sk = Returns-done (next, fr, sk)
rounds-Returns body h it ((index, item) ∷ ps) fr sk =
    Returns->>= _ (bind_iter-Returns it index item fr) (λ fr₁.
      Returns->>= _ (h fr₁ sk) (λ (flow, fr₂, sk₁).
        proceed-Returns (rounds body it ps) (rounds-Returns body h it ps) flow fr₂ sk₁))

outcome_of-Returns : (v : Value) → Returns (outcome_of v)
unfolding outcome_of
outcome_of-Returns v = record { answers = ground arith }

subject_id-Returns : (v : Value) → Returns (subject_id v)
unfolding subject_id
subject_id-Returns (Value.present inner v) = subject_id-Returns v
subject_id-Returns v = record { answers = ground arith }

erase_refused-Returns : (v : Value) → Returns (erase_refused v)
unfolding erase_refused
erase_refused-Returns v = Returns->>= _ (subject_id-Returns v) (λ id.
    option-Returns _ id (Returns-fails (bad_subject (ty v))) (λ t. Returns-fails malformed_ir))

finish_emit-Returns :
    (path : EventPath) (def : EventDef) (p : Payload) (fr : Frame) (events : List Event)
    → Returns (finish_emit path def p fr events)
unfolding finish_emit emitted
finish_emit-Returns path def (complete fs) fr events =
    option-Returns _ (first_missing (EventDef.fields def) fs)
      (Returns-done
        (next, fr, emit (events ++ record { path = path; fields = field_list fs } ∷ [])))
      (λ name. Returns-fails (missing_field path name))
finish_emit-Returns path def (too_large message) fr events =
    Returns-done (returned (invalid message), fr, emit events)

check_field-Returns :
    (program : Program) (t : Ty) (max_len : Option ℕ) (name : Ident) (v : Value)
    → Returns (check_field program t max_len name v)
unfolding check_field
check_field-Returns program t max_len name v =
    if-Returns (has_type v t) (Returns-done (bounded program name max_len v))
      (Returns-fails (type_mismatch t (ty v)))

module _ (n : ℕ) (ev : Eval)
    (evals : (id : ExprId) → id < n → (fr : Frame) → Returns (ev id fr)) where
  eval_return-Returns :
      (r : Return) → ReturnBelow n r → (fr : Frame) → Returns (eval_return ev r fr)
  unfolding eval_return
  eval_return-Returns Return.ok lt fr = Returns-done (ok, fr)
  eval_return-Returns (Return.invalid message) lt fr =
      Returns->>= _ (eval_string-Returns n ev evals message lt fr)
        (λ (m, fr₁). Returns-done (invalid m, fr₁))
  eval_return-Returns (Return.reject code message) (cl, ml) fr =
      Returns->>= _ (eval_string-Returns n ev evals code cl fr) (λ (c, fr₁).
        Returns->>= _ (eval_string-Returns n ev evals message ml fr₁)
          (λ (m, fr₂). Returns-done (reject c m, fr₂)))
  eval_return-Returns (Return.value v) lt fr =
      Returns->>= _ (evals v lt fr) (λ (w, fr₁). Returns-done (value w, fr₁))
  eval_return-Returns (Return.outcome v) lt fr =
      Returns->>= _ (evals v lt fr) (λ (w, fr₁). Returns-with_frame fr₁ (outcome_of-Returns w))

  subscript-Returns :
      (ids : List ExprId) → IdsBelow n ids → (fr : Frame) → Returns (subscript ev ids fr)
  unfolding subscript
  subscript-Returns [] lt fr = Returns-done (tt, fr)
  subscript-Returns (id ∷ ids) (lt, lts) fr =
      Returns->>= _ (evals id lt fr) (λ (v, fr₁).
        Returns->>= _ (Returns-result (map_key v)) (λ k. subscript-Returns ids lts fr₁))

  module _ (program : Program) where
    eval_payload-Returns :
        (path : EventPath) (def : EventDef) (fs : List (Ident × ExprId))
        → NamedBelow n fs
        → (vs : Fields) (fr : Frame) → Returns (eval_payload ev program path def fs vs fr)
    unfolding eval_payload
    eval_payload-Returns path def [] lt vs fr = Returns-done (complete vs, fr)
    eval_payload-Returns path def ((name, id) ∷ fs) (lt, lts) vs fr =
        Returns->>= _ (Returns-option (event_field def name) (unknown_field path name)) (λ d.
          Returns->>= _ (evals id lt fr) (λ (v, fr₁).
            Returns->>= _
              (check_field-Returns program (FieldDef.ty d) (FieldDef.max_len d) name
                (coerce v (FieldDef.ty d)))
              (λ fault.
                option-Returns _ fault
                  (eval_payload-Returns path def fs lts
                    (insert_field name (coerce v (FieldDef.ty d)) vs) fr₁)
                  (λ e. Returns-done (too_large (fault_text e), fr₁)))))

    exec_emit-Returns :
        (path : EventPath) (fs : List (Ident × ExprId))
        → NamedBelow n fs
        → (fr : Frame) (sk : Sink) → Returns (exec_emit ev program path fs fr sk)
    unfolding exec_emit
    exec_emit-Returns path fs lt fr pure = Returns-fails malformed_ir
    exec_emit-Returns path fs lt fr (emit events) =
        Returns->>= _ (Returns-option (event_def program path) (unknown_event path)) (λ def.
          Returns->>= _ (eval_payload-Returns path def fs lt no_fields fr)
            (λ (p, fr₁). finish_emit-Returns path def p fr₁ events))

    module _ (height : Function → ℕ) (h : ℕ) (call : CallVoid)
        (calls : (function : Ident) (scope : Option Ident)
          → CallBelow program height h function scope
          → (vs : List Value) → Returns (call function scope vs)) where
      mutual
        unfolding exec_stmt exec_block StmtBelow BlockBelow

        pub exec_stmt-Returns :
            (s : Stmt)
            → StmtBelow program height n h s
            → (fr : Frame) (sk : Sink) → Returns (exec_stmt ev program call s fr sk)
        exec_stmt-Returns (Stmt.assign slot v) lt fr sk = Returns->>= _ (evals v lt fr) (λ (w, fr₁).
            Returns->>= _ (set-Returns fr₁ slot w) (λ fr₂. Returns-done (next, fr₂, sk)))
        exec_stmt-Returns (Stmt.if_else cond then_ otherwise) (cl, tl, ol) fr sk =
            Returns->>= _ (eval_bool-Returns n ev evals cond cl fr) (λ (taken, fr₁).
              bool-Returns taken (exec_block-Returns then_ tl fr₁ sk)
                (exec_block-Returns otherwise ol fr₁ sk))
        exec_stmt-Returns (Stmt.for_each it body) (il, bl) fr sk =
            Returns->>= _ (elements-Returns n ev evals it il fr) (λ (ps, fr₁).
              rounds-Returns (λ f s. exec_block ev program call body f s)
                (λ f s. exec_block-Returns body bl f s) it ps fr₁ sk)
        exec_stmt-Returns (Stmt.emit path fs) lt fr sk = exec_emit-Returns path fs lt fr sk
        exec_stmt-Returns (Stmt.put entity fs) lt fr sk = Returns-fails malformed_ir
        exec_stmt-Returns (Stmt.patch entity keys absent loads fs) (kl, fl) fr sk =
            Returns->>= _ (subscript-Returns keys kl fr) (λ p. Returns-fails malformed_ir)
        exec_stmt-Returns (Stmt.delete entity []) lt fr sk = Returns-fails malformed_ir
        exec_stmt-Returns (Stmt.delete entity (id ∷ ids)) lt fr sk =
            Returns->>= _ (subscript-Returns (id ∷ ids) lt fr) (λ p. Returns-fails malformed_ir)
        exec_stmt-Returns (Stmt.fail message) lt fr sk = Returns-fails malformed_ir
        exec_stmt-Returns (Stmt.log message) lt fr sk =
            Returns->>= _ (eval_string-Returns n ev evals message lt fr)
              (λ p. Returns-fails malformed_ir)
        exec_stmt-Returns (Stmt.erase subject v) lt fr sk =
            Returns->>= _ (evals v lt fr) (λ (w, fr₁).
              Returns->>= _ (erase_refused-Returns w) (λ u. Returns-fails malformed_ir))
        exec_stmt-Returns (Stmt.discard v) lt fr sk =
            Returns->>= _ (evals v lt fr) (λ (w, fr₁). Returns-done (next, fr₁, sk))
        exec_stmt-Returns (Stmt.call function scope args) (al, cl) fr sk =
            Returns->>= _ (eval_all-Returns n ev evals args al fr) (λ (vs, fr₁).
              Returns->>= _ (calls function scope cl vs) (λ u. Returns-done (next, fr₁, sk)))
        exec_stmt-Returns (Stmt.return r) lt fr sk =
            Returns->>= _ (eval_return-Returns r lt fr)
              (λ (w, fr₁). Returns-done (returned w, fr₁, sk))

        pub exec_block-Returns :
            (b : Block)
            → BlockBelow program height n h b
            → (fr : Frame) (sk : Sink) → Returns (exec_block ev program call b fr sk)
        exec_block-Returns Block.end lt fr sk = Returns-done (next, fr, sk)
        exec_block-Returns (Block.next s b) (sl, bl) fr sk =
            Returns->>= _ (exec_stmt-Returns s sl fr sk) (λ (flow, fr₁, sk₁).
              proceed-Returns (λ f s. exec_block ev program call b f s)
                (λ f s. exec_block-Returns b bl f s) flow fr₁ sk₁)

-- ===== src/Interp/Relocate/Stmts.antt =====
-- src/interp.rs and src/inline.rs: what `exec_stmt` makes of a statement that is moved.
use heklang.Base.{ℕ, Option, List, [], ◌∷◌, ◌++◌, length}
use heklang.Ir.{Ident, EventPath}
use heklang.Ir.Exprs.{ExprId, Iter, Return, Stmt, Block}
use heklang.Ir.Shift.{shift_iter, shift_ids, shift_named, shift_return, shift_stmt, shift_block}
use heklang.Ir.Program.{Program, EventDef, FieldDef, event_def, event_field}
use heklang.Value.{Value, Fields, no_fields}
use heklang.Value.Maps.{insert_field}
use heklang.Log.{Event}
use heklang.Interp.Errors.{malformed_ir, unknown_event, unknown_field, missing_field}
use heklang.Interp.Coerce.{coerce, map_key}
use heklang.Interp.Bounds.{check_field}
use heklang.Interp.Frames.{Frame, from_result, or_fails}
use heklang.Interp.Eval.{Eval, Pair}
use heklang.Interp.Exec.{
  ok, value, invalid, reject, Flow, next, returned, Sink, pure, emit, CallVoid, proceed, Payload,
  complete, too_large, fault_text, outcome_of, erase_refused, emitted, finish_emit, Body, rounds,
  eval_return, subscript, eval_payload, exec_emit, exec_stmt, exec_block, first_missing, field_list,
}
use heklang.Interp.Relocate.{
  Follows, Follows->>=, same->>=, Follows-done, Follows-fails, unmoved, Follows-bool,
  Follows-option,
}
use heklang.Interp.Relocate.Frames.{between, set-between}
use heklang.Interp.Relocate.Exprs.{
  moved, Evals, with_frame-moved, bind_iter-moved, eval_bool-moved, eval_string-moved,
  elements-moved, eval_all-moved,
}

-- Two ways to call a function that answers nothing.
abbrev pub CallsVoid : (call call₀ : CallVoid) → Type 0
CallsVoid call call₀ =
    (function : Ident) (scope : Option Ident) (vs : List Value)
    → Follows unmoved (call function scope vs) (call₀ function scope vs)

module _ (before after : Frame) where
  abbrev pub moved_step : Flow × Frame × Sink → Flow × Frame × Sink
  moved_step (flow, fr, sk) = (flow, between before after fr, sk)

  -- Two bodies, the left one in the wider frame.
  abbrev pub Bodies : (body body₀ : Body) → Type 0
  Bodies body body₀ =
      (fr : Frame) (sk : Sink)
      → Follows moved_step (body (between before after fr) sk) (body₀ fr sk)

  proceed-moved :
      (k k₀ : Body)
      → Bodies k k₀
      → (flow : Flow) (fr : Frame) (sk : Sink)
      → Follows moved_step (proceed flow (between before after fr) sk k) (proceed flow fr sk k₀)
  unfolding proceed
  proceed-moved k k₀ h next fr sk = h fr sk
  proceed-moved k k₀ h (returned r) fr sk = Follows-done (returned r, fr, sk)

  emitted-moved :
      (path : EventPath) (def : EventDef) (fs : Fields) (fr : Frame) (events : List Event)
      → Follows moved_step
          (emitted path def fs (between before after fr) events)
          (emitted path def fs fr events)
  unfolding emitted
  emitted-moved path def fs fr events =
      Follows-option _ _ (first_missing (EventDef.fields def) fs)
        (Follows-done
          (next, fr, emit (events ++ record { path = path; fields = field_list fs } ∷ [])))
        (λ name. Follows-fails (missing_field path name))

  module _ (off : ℕ) where
    rounds-moved :
        (body body₀ : Body)
        → Bodies body body₀
        → (it : Iter) (ps : List Pair) (fr : Frame) (sk : Sink)
        → Follows moved_step
            (rounds body (shift_iter off (length before) it) ps (between before after fr) sk)
            (rounds body₀ it ps fr sk)
    unfolding rounds
    rounds-moved body body₀ h it [] fr sk = Follows-done (next, fr, sk)
    rounds-moved body body₀ h it ((index, item) ∷ ps) fr sk =
        Follows->>= _ _ (bind_iter-moved before after off it index item fr) (λ fr₁.
          Follows->>= _ _ (h fr₁ sk) (λ (flow, fr₂, sk₁).
            proceed-moved (rounds body (shift_iter off (length before) it) ps) (rounds body₀ it ps)
              (rounds-moved body body₀ h it ps) flow fr₂ sk₁))

  module _ (off : ℕ) (ev ev₀ : Eval) (evals : Evals before after off ev ev₀) where
    eval_return-moved :
        (r : Return) (fr : Frame)
        → Follows
            (moved before after)
            (eval_return ev (shift_return off (length before) r) (between before after fr))
            (eval_return ev₀ r fr)
    unfolding eval_return shift_return
    eval_return-moved Return.ok fr = Follows-done (ok, fr)
    eval_return-moved (Return.invalid message) fr =
        Follows->>= _ _ (eval_string-moved before after off ev ev₀ evals message fr)
          (λ (m, fr₁). Follows-done (invalid m, fr₁))
    eval_return-moved (Return.reject code message) fr =
        Follows->>= _ _ (eval_string-moved before after off ev ev₀ evals code fr) (λ (c, fr₁).
          Follows->>= _ _ (eval_string-moved before after off ev ev₀ evals message fr₁)
            (λ (m, fr₂). Follows-done (reject c m, fr₂)))
    eval_return-moved (Return.value v) fr =
        Follows->>= _ _ (evals v fr) (λ (w, fr₁). Follows-done (value w, fr₁))
    eval_return-moved (Return.outcome v) fr =
        Follows->>= _ _ (evals v fr) (λ (w, fr₁). with_frame-moved before after fr₁ (outcome_of w))

    subscript-moved :
        (ids : List ExprId) (fr : Frame)
        → Follows
            (moved before after)
            (subscript ev (shift_ids off ids) (between before after fr))
            (subscript ev₀ ids fr)
    unfolding subscript shift_ids
    subscript-moved [] fr = Follows-done (tt, fr)
    subscript-moved (id ∷ ids) fr =
        Follows->>= _ _ (evals id fr)
          (λ (v, fr₁). same->>= _ _ (from_result (map_key v)) (λ k. subscript-moved ids fr₁))

    module _ (program : Program) where
      eval_payload-moved :
          (path : EventPath) (def : EventDef) (fs : List (Ident × ExprId)) (vs : Fields)
          (fr : Frame)
          → Follows
              (moved before after)
              (eval_payload ev program path def (shift_named off fs) vs (between before after fr))
              (eval_payload ev₀ program path def fs vs fr)
      unfolding eval_payload shift_named
      eval_payload-moved path def [] vs fr = Follows-done (complete vs, fr)
      eval_payload-moved path def ((name, id) ∷ fs) vs fr =
          same->>= _ _ (or_fails (event_field def name) (unknown_field path name)) (λ d.
            Follows->>= _ _ (evals id fr) (λ (v, fr₁).
              same->>= _ _
                (check_field program (FieldDef.ty d) (FieldDef.max_len d) name
                  (coerce v (FieldDef.ty d)))
                (λ fault.
                  Follows-option _ _ fault
                    (eval_payload-moved path def fs
                      (insert_field name (coerce v (FieldDef.ty d)) vs) fr₁)
                    (λ e. Follows-done (too_large (fault_text e), fr₁)))))

      finish_emit-moved :
          (path : EventPath) (def : EventDef) (p : Payload) (fr : Frame) (events : List Event)
          → Follows moved_step
              (finish_emit path def p (between before after fr) events)
              (finish_emit path def p fr events)
      unfolding finish_emit
      finish_emit-moved path def (complete fs) fr events = emitted-moved path def fs fr events
      finish_emit-moved path def (too_large message) fr events =
          Follows-done (returned (invalid message), fr, emit events)

      exec_emit-moved :
          (path : EventPath) (fs : List (Ident × ExprId)) (fr : Frame) (sk : Sink)
          → Follows moved_step
              (exec_emit ev program path (shift_named off fs) (between before after fr) sk)
              (exec_emit ev₀ program path fs fr sk)
      unfolding exec_emit
      exec_emit-moved path fs fr pure = Follows-fails malformed_ir
      exec_emit-moved path fs fr (emit events) =
          same->>= _ _ (or_fails (event_def program path) (unknown_event path)) (λ def.
            Follows->>= _ _ (eval_payload-moved path def fs no_fields fr)
              (λ (p, fr₁). finish_emit-moved path def p fr₁ events))

      module _ (call call₀ : CallVoid) (calls : CallsVoid call call₀) where
        mutual
          unfolding exec_stmt exec_block shift_stmt shift_block shift_ids

          pub exec_stmt-moved :
              (s : Stmt) (fr : Frame) (sk : Sink)
              → Follows moved_step
                  (exec_stmt ev program call
                    (shift_stmt off (length before) s)
                    (between before after fr)
                    sk)
                  (exec_stmt ev₀ program call₀ s fr sk)
          exec_stmt-moved (Stmt.assign slot v) fr sk = Follows->>= _ _ (evals v fr) (λ (w, fr₁).
              Follows->>= _ _ (set-between before after fr₁ slot w)
                (λ fr₂. Follows-done (next, fr₂, sk)))
          exec_stmt-moved (Stmt.if_else cond then_ otherwise) fr sk =
              Follows->>= _ _ (eval_bool-moved before after off ev ev₀ evals cond fr)
                (λ (taken, fr₁).
                  Follows-bool taken (exec_block-moved then_ fr₁ sk)
                    (exec_block-moved otherwise fr₁ sk))
          exec_stmt-moved (Stmt.for_each it body) fr sk =
              Follows->>= _ _ (elements-moved before after off ev ev₀ evals it fr) (λ (ps, fr₁).
                rounds-moved off
                  (λ f s. exec_block ev program call (shift_block off (length before) body) f s)
                  (λ f s. exec_block ev₀ program call₀ body f s) (λ f s. exec_block-moved body f s)
                  it ps fr₁ sk)
          exec_stmt-moved (Stmt.emit path fs) fr sk = exec_emit-moved path fs fr sk
          exec_stmt-moved (Stmt.put entity fs) fr sk = Follows-fails malformed_ir
          exec_stmt-moved (Stmt.patch entity keys absent loads fs) fr sk =
              Follows->>= _ _ (subscript-moved keys fr) (λ p. Follows-fails malformed_ir)
          exec_stmt-moved (Stmt.delete entity []) fr sk = Follows-fails malformed_ir
          exec_stmt-moved (Stmt.delete entity (id ∷ ids)) fr sk =
              Follows->>= _ _ (subscript-moved (id ∷ ids) fr) (λ p. Follows-fails malformed_ir)
          exec_stmt-moved (Stmt.fail message) fr sk = Follows-fails malformed_ir
          exec_stmt-moved (Stmt.log message) fr sk =
              Follows->>= _ _ (eval_string-moved before after off ev ev₀ evals message fr)
                (λ p. Follows-fails malformed_ir)
          exec_stmt-moved (Stmt.erase subject v) fr sk =
              Follows->>= _ _ (evals v fr)
                (λ (w, fr₁). same->>= _ _ (erase_refused w) (λ u. Follows-fails malformed_ir))
          exec_stmt-moved (Stmt.discard v) fr sk =
              Follows->>= _ _ (evals v fr) (λ (w, fr₁). Follows-done (next, fr₁, sk))
          exec_stmt-moved (Stmt.call function scope args) fr sk =
              Follows->>= _ _ (eval_all-moved before after off ev ev₀ evals args fr) (λ (vs, fr₁).
                Follows->>= _ _ (calls function scope vs) (λ u. Follows-done (next, fr₁, sk)))
          exec_stmt-moved (Stmt.return r) fr sk =
              Follows->>= _ _ (eval_return-moved r fr)
                (λ (w, fr₁). Follows-done (returned w, fr₁, sk))

          pub exec_block-moved :
              (b : Block) (fr : Frame) (sk : Sink)
              → Follows moved_step
                  (exec_block ev program call
                    (shift_block off (length before) b)
                    (between before after fr)
                    sk)
                  (exec_block ev₀ program call₀ b fr sk)
          exec_block-moved Block.end fr sk = Follows-done (next, fr, sk)
          exec_block-moved (Block.next s b) fr sk =
              Follows->>= _ _ (exec_stmt-moved s fr sk) (λ (flow, fr₁, sk₁).
                proceed-moved
                  (λ f s. exec_block ev program call (shift_block off (length before) b) f s)
                  (λ f s. exec_block ev₀ program call₀ b f s) (λ f s. exec_block-moved b f s) flow
                  fr₁ sk₁)

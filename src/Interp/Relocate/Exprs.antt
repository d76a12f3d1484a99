-- ===== src/Interp/Relocate/Exprs.antt =====
-- src/interp.rs and src/inline.rs: what `eval` makes of an expression that is moved.
use heklang.Base.{ℕ, ◌+◌, Bool, true, false, Option, none, some, List, [], ◌∷◌, ◌++◌, length}
use heklang.Ir.{Ident, Ty, BinOp}
use heklang.Ir.Exprs.{ExprId, Slot, Iter}
use heklang.Ir.Shift.{shift_ids, shift_named, shift_opt, shift_iter}
use heklang.Base.Text.{Text}
use heklang.Value.{Value, Fields, no_fields, Members, invalid, reject}
use heklang.Value.Maps.{insert_field, insert_member}
use heklang.Value.Render.{to_json}
use heklang.Interp.Ops.{binary}
use heklang.Interp.Frames.{Frame, Run, from_result}
use heklang.Interp.Eval.{
  Eval, Pair, Spelled, spell, Strategy, short_circuit, strict, with_frame, eval_bool, eval_string,
  elements, eval_all, eval_items, eval_object, eval_fields, eval_parts, eval_named, eval_cond,
  eval_yield, eval_round, eval_rounds, eval_right, eval_binary, eval_code, as_bool, as_text,
  pairs_of, declared_fit, fit_field, bind_iter, set_index,
}
use heklang.Interp.Relocate.{Follows, Follows->>=, same->>=, Follows-done}
use heklang.Interp.Relocate.Frames.{between, set-between}

module _ (before after : Frame) where
  -- An answer with the frame that it leaves, between the others.
  abbrev pub moved {ℓ} : {A : Type ℓ} → A × Frame → A × Frame
  moved (a, fr) = (a, between before after fr)

  -- Two evaluators of the same nodes, the left one at an offset.
  abbrev pub Evals : (off : ℕ) (ev ev₀ : Eval) → Type 0
  Evals off ev ev₀ =
      (id : ℕ) (fr : Frame) → Follows moved (ev (id + off) (between before after fr)) (ev₀ id fr)

  -- What needs no frame, behind an answer.
  pub with_frame-moved {ℓ} :
      {A : Type ℓ} (fr : Frame) (r : Run A)
      → Follows moved (with_frame (between before after fr) r) (with_frame fr r)
  with_frame-moved fr r = same->>= _ _ r (λ a. Follows-done (a, fr))

  module _ (off : ℕ) where
    pub bind_iter-moved :
        (it : Iter) (index item : Value) (fr : Frame)
        → Follows
            (between before after)
            (bind_iter (shift_iter off (length before) it) index item (between before after fr))
            (bind_iter it index item fr)
    unfolding bind_iter shift_iter set_index shift_opt
    bind_iter-moved it index item fr =
        Follows->>= _ _ (at_index (Iter.index it))
          (λ fr₁. set-between before after fr₁ (Iter.item it) item)
      where
        at_index :
            (o : Option Slot)
            → Follows
                (between before after)
                (set_index (shift_opt (length before) o) index (between before after fr))
                (set_index o index fr)
        at_index none = Follows-done fr
        at_index (some slot) = set-between before after fr slot index

  module _ (off : ℕ) (ev ev₀ : Eval) (evals : Evals off ev ev₀) where
    pub eval_bool-moved :
        (id : ℕ) (fr : Frame)
        → Follows moved (eval_bool ev (id + off) (between before after fr)) (eval_bool ev₀ id fr)
    unfolding eval_bool
    eval_bool-moved id fr =
        Follows->>= _ _ (evals id fr) (λ (v, fr₁). with_frame-moved fr₁ (as_bool v))

    pub eval_string-moved :
        (id : ℕ) (fr : Frame)
        → Follows moved
            (eval_string ev (id + off) (between before after fr))
            (eval_string ev₀ id fr)
    unfolding eval_string
    eval_string-moved id fr =
        Follows->>= _ _ (evals id fr) (λ (v, fr₁). with_frame-moved fr₁ (as_text v))

    pub elements-moved :
        (it : Iter) (fr : Frame)
        → Follows moved
            (elements ev (shift_iter off (length before) it) (between before after fr))
            (elements ev₀ it fr)
    unfolding elements shift_iter
    elements-moved it fr =
        Follows->>= _ _ (evals (Iter.over it) fr) (λ (v, fr₁). with_frame-moved fr₁ (pairs_of v))

    pub eval_all-moved :
        (ids : List ExprId) (fr : Frame)
        → Follows moved
            (eval_all ev (shift_ids off ids) (between before after fr))
            (eval_all ev₀ ids fr)
    unfolding eval_all shift_ids
    eval_all-moved [] fr = Follows-done ([], fr)
    eval_all-moved (id ∷ ids) fr = Follows->>= _ _ (evals id fr) (λ (v, fr₁).
        Follows->>= _ _ (eval_all-moved ids fr₁) (λ (vs, fr₂). Follows-done (v ∷ vs, fr₂)))

    pub eval_items-moved :
        (inner : Option Ty) (ids : List ExprId) (fr : Frame)
        → Follows moved
            (eval_items ev inner (shift_ids off ids) (between before after fr))
            (eval_items ev₀ inner ids fr)
    unfolding eval_items shift_ids
    eval_items-moved inner [] fr = Follows-done ([], fr)
    eval_items-moved inner (id ∷ ids) fr = Follows->>= _ _ (evals id fr) (λ (v, fr₁).
        same->>= _ _ (declared_fit inner v) (λ w.
          Follows->>= _ _ (eval_items-moved inner ids fr₁)
            (λ (vs, fr₂). Follows-done (w ∷ vs, fr₂))))

    pub eval_object-moved :
        (fs : List (Ident × ExprId)) (ms : Members) (fr : Frame)
        → Follows moved
            (eval_object ev (shift_named off fs) ms (between before after fr))
            (eval_object ev₀ fs ms fr)
    unfolding eval_object shift_named
    eval_object-moved [] ms fr = Follows-done (ms, fr)
    eval_object-moved ((name, id) ∷ fs) ms fr =
        Follows->>= _ _ (evals id fr)
          (λ (v, fr₁). eval_object-moved fs (insert_member name (to_json v) ms) fr₁)

    pub eval_fields-moved :
        (declared : Ident → Option Ty) (fs : List (Ident × ExprId)) (vs : Fields) (fr : Frame)
        → Follows moved
            (eval_fields ev declared (shift_named off fs) vs (between before after fr))
            (eval_fields ev₀ declared fs vs fr)
    unfolding eval_fields shift_named
    eval_fields-moved declared [] vs fr = Follows-done (vs, fr)
    eval_fields-moved declared ((name, id) ∷ fs) vs fr = Follows->>= _ _ (evals id fr) (λ (v, fr₁).
        same->>= _ _ (fit_field (declared name) v)
          (λ w. eval_fields-moved declared fs (insert_field name w vs) fr₁))

    pub eval_parts-moved :
        (ids : List ExprId) (s : Spelled) (fr : Frame)
        → Follows moved
            (eval_parts ev (shift_ids off ids) s (between before after fr))
            (eval_parts ev₀ ids s fr)
    unfolding eval_parts shift_ids
    eval_parts-moved [] s fr = Follows-done (s, fr)
    eval_parts-moved (id ∷ ids) s fr =
        Follows->>= _ _ (evals id fr) (λ (v, fr₁). eval_parts-moved ids (spell s v) fr₁)

    pub eval_named-moved :
        (fs : List (Ident × ExprId)) (fr : Frame)
        → Follows moved
            (eval_named ev (shift_named off fs) (between before after fr))
            (eval_named ev₀ fs fr)
    unfolding eval_named shift_named
    eval_named-moved [] fr = Follows-done (no_fields, fr)
    eval_named-moved ((name, id) ∷ fs) fr = Follows->>= _ _ (evals id fr) (λ (v, fr₁).
        Follows->>= _ _ (eval_named-moved fs fr₁)
          (λ (vs, fr₂). Follows-done (insert_field name v vs, fr₂)))

    eval_cond-moved :
        (cond : Option ExprId) (fr : Frame)
        → Follows moved
            (eval_cond ev (shift_opt off cond) (between before after fr))
            (eval_cond ev₀ cond fr)
    unfolding eval_cond shift_opt
    eval_cond-moved none fr = Follows-done (true, fr)
    eval_cond-moved (some id) fr = eval_bool-moved id fr

    eval_yield-moved :
        (yields : ExprId) (declared : Option Ty) (taken : Bool) (fr : Frame)
        → Follows moved
            (eval_yield ev (yields + off) declared taken (between before after fr))
            (eval_yield ev₀ yields declared taken fr)
    unfolding eval_yield
    eval_yield-moved yields declared false fr = Follows-done ([], fr)
    eval_yield-moved yields declared true fr =
        Follows->>= _ _ (evals yields fr)
          (λ (v, fr₁). same->>= _ _ (declared_fit declared v) (λ w. Follows-done (w ∷ [], fr₁)))

    pub eval_rounds-moved :
        (it : Iter) (cond : Option ExprId) (yields : ExprId) (declared : Option Ty) (ps : List Pair)
        (fr : Frame)
        → Follows moved
            (eval_rounds ev
              (shift_iter off (length before) it)
              (shift_opt off cond)
              (yields + off)
              declared
              ps
              (between before after fr))
            (eval_rounds ev₀ it cond yields declared ps fr)
    unfolding eval_rounds eval_round
    eval_rounds-moved it cond yields declared [] fr = Follows-done ([], fr)
    eval_rounds-moved it cond yields declared ((index, item) ∷ ps) fr =
        Follows->>= _ _
          (Follows->>= _ _ (bind_iter-moved off it index item fr) (λ fr₁.
            Follows->>= _ _ (eval_cond-moved cond fr₁)
              (λ (taken, fr₂). eval_yield-moved yields declared taken fr₂)))
          (λ (vs, fr₁).
            Follows->>= _ _ (eval_rounds-moved it cond yields declared ps fr₁)
              (λ (ws, fr₂). Follows-done (vs ++ ws, fr₂)))

    eval_right-moved :
        (stops decided : Bool) (rhs : ExprId) (fr : Frame)
        → Follows moved
            (eval_right ev stops decided (rhs + off) (between before after fr))
            (eval_right ev₀ stops decided rhs fr)
    unfolding eval_right
    eval_right-moved true true rhs fr = Follows-done (Value.bool true, fr)
    eval_right-moved false false rhs fr = Follows-done (Value.bool false, fr)
    eval_right-moved true false rhs fr =
        Follows->>= _ _ (eval_bool-moved rhs fr) (λ (b, fr₁). Follows-done (Value.bool b, fr₁))
    eval_right-moved false true rhs fr =
        Follows->>= _ _ (eval_bool-moved rhs fr) (λ (b, fr₁). Follows-done (Value.bool b, fr₁))

    pub eval_binary-moved :
        (s : Strategy) (op : BinOp) (lhs rhs : ExprId) (fr : Frame)
        → Follows moved
            (eval_binary ev s op (lhs + off) (rhs + off) (between before after fr))
            (eval_binary ev₀ s op lhs rhs fr)
    unfolding eval_binary
    eval_binary-moved (short_circuit stops) op lhs rhs fr =
        Follows->>= _ _ (eval_bool-moved lhs fr) (λ (b, fr₁). eval_right-moved stops b rhs fr₁)
    eval_binary-moved strict op lhs rhs fr = Follows->>= _ _ (evals lhs fr) (λ (a, fr₁).
        Follows->>= _ _ (evals rhs fr₁)
          (λ (b, fr₂). with_frame-moved fr₂ (from_result (binary op a b))))

    pub eval_code-moved :
        (code : Option ExprId) (message : Text) (fr : Frame)
        → Follows moved
            (eval_code ev (shift_opt off code) message (between before after fr))
            (eval_code ev₀ code message fr)
    unfolding eval_code shift_opt
    eval_code-moved none message fr = Follows-done (Value.invoked (invalid message), fr)
    eval_code-moved (some code) message fr =
        Follows->>= _ _ (eval_string-moved code fr)
          (λ (c, fr₁). Follows-done (Value.invoked (reject c message), fr₁))

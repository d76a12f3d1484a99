-- ===== src/Interp/Relocate/Fuel.antt =====
-- src/interp.rs and src/inline.rs: evaluation in an arena and a frame that others stand around, and
-- with more fuel.
use heklang.Base.{
  ℕ, zero, suc, ◌+◌, ◌≤◌, ◌≡◌, refl, List, [], ◌∷◌, ◌++◌, some, length, get_elem?, map, inl, inr,
  Option-cases, append-nil, arith, ap, sym, ◌∙◌,
}
use heklang.Ir.Exprs.{Expr, Exprs, Block}
use heklang.Ir.Shift.{shift_expr}
use heklang.Ir.Program.{Program, Function, function_in}
use heklang.Value.{Value}
use heklang.Interp.Errors.{malformed_ir, unknown_function}
use heklang.Interp.Methods.Strings.{Library}
use heklang.Interp.Frames.{Frame, Run, done, fails, spent, or_fails, new_frame}
use heklang.Interp.Eval.{Eval}
use heklang.Interp.Exec.{exec_block, Flow, Sink, pure}
use heklang.Interp.Run.{
  eval, enter_function, call_function, call_void, call_def, Enter, bind_args, same_count, value_of,
  void_of, left_body,
}
use heklang.Interp.Relocate.{
  Matches, Follows, Follows->>=, same->>=, Follows-same, Follows-broken, unmoved,
}
use heklang.Interp.Relocate.Frames.{get_elem?-append, get_elem?-front}
use heklang.Interp.Relocate.Exprs.{Evals}
use heklang.Interp.Relocate.Nodes.{Calls, eval_node-moved}
use heklang.Interp.Relocate.Stmts.{CallsVoid, moved_step, exec_block-moved}
use heklang.Interp.Relocate.Zero.{shift_exprs-zero, shift_block-zero}

get_elem?-map :
    {A B : Type 0} (f : A → B) (xs : List A) (i : ℕ) (x : A)
    → get_elem? xs i ≡ some x
    → get_elem? (map f xs) i ≡ some (f x)
get_elem?-map f [] i x h = absurd cc
get_elem?-map f (y ∷ xs) zero x h = cc
get_elem?-map f (y ∷ xs) (suc i) x h = get_elem?-map f xs i x h

-- An arena whose nodes stand behind and before others.
abbrev pub placed : (front back : Exprs) (slots : ℕ) → Exprs → Exprs
placed front back slots es = front ++ (map (shift_expr (length front) slots) es ++ back)

abbrev pub Enters : (enter enter₀ : Enter) → Type 0
Enters enter enter₀ =
    (def : Function) (vs : List Value) → Follows unmoved (enter def vs) (enter₀ def vs)

call_function-Follows :
    (program : Program) (enter enter₀ : Enter)
    → Enters enter enter₀
    → Calls (call_function program enter) (call_function program enter₀)
unfolding call_function call_def
call_function-Follows program enter enter₀ enters function scope vs =
    same->>= _ _ (or_fails (function_in program scope function) (unknown_function function)) (λ def.
      same->>= _ _ (or_fails (Function.ret def) malformed_ir)
        (λ ret. Follows->>= _ _ (enters def vs) (λ flow. Follows-same (value_of ret flow))))

pub call_void-Follows :
    (program : Program) (enter enter₀ : Enter)
    → Enters enter enter₀
    → CallsVoid (call_void program enter) (call_void program enter₀)
unfolding call_void
call_void-Follows program enter enter₀ enters function scope vs =
    same->>= _ _ (or_fails (function_in program scope function) (unknown_function function))
      (λ def. Follows->>= _ _ (enters def vs) (λ flow. Follows-same (void_of flow)))

get_elem?-placed :
    (front back es : Exprs) (slots id : ℕ) (e : Expr)
    → get_elem? es id ≡ some e
    → get_elem? (placed front back slots es) (id + length front)
      ≡ some (shift_expr (length front) slots e)
get_elem?-placed front back es slots id e h =
    let f : Expr → Expr = shift_expr (length front) slots in
    get_elem?-append front (map f es ++ back) id
    ∙ get_elem?-front (map f es) back id (f e) (get_elem?-map f es id e h)

unmove : (r s : Run (Flow × Frame × Sink)) → Follows (moved_step [] []) r s → Follows unmoved r s
unmove r s h = record { agrees = go s (Follows.agrees h) }
  where
    go : (s : Run (Flow × Frame × Sink)) → Matches (moved_step [] []) r s → Matches unmoved r s
    go (done (flow, fr, sk)) h = h ∙ ap (λ f. done (flow, f, sk)) (append-nil fr)
    go (fails e) h = h
    go spent h = h

module _ (lib : Library) (program : Program) where
  pub unplaced :
      (g : ℕ) (es : Exprs) → eval lib program g (placed [] [] 0 es) ≡ eval lib program g es
  unplaced g es =
      ap (λ a. eval lib program g a) (append-nil (map (shift_expr 0 0) es) ∙ shift_exprs-zero es)

  -- A body, run with two evaluators of the same nodes.
  pub block-Follows :
      (ev ev₀ : Eval)
      → Evals [] [] 0 ev ev₀
      → (enter enter₀ : Enter) → Enters enter enter₀
      → (b : Block) (fr : Frame) (sk : Sink)
      → Follows unmoved
          (exec_block ev program (call_void program enter) b fr sk)
          (exec_block ev₀ program (call_void program enter₀) b fr sk)
  block-Follows ev ev₀ evals enter enter₀ enters b fr sk =
      unmove (exec_block ev program (call_void program enter) b fr sk)
        (exec_block ev₀ program (call_void program enter₀) b fr sk)
        (simp (shift_block-zero, append-nil) at
          (exec_block-moved [] [] 0 ev ev₀ evals program (call_void program enter)
            (call_void program enter₀) (call_void-Follows program enter enter₀ enters) b fr sk))

  mutual
    unfolding eval enter_function

    -- A node of an arena that stands between others answers, in a frame that stands between others
    -- and with no less fuel, what it answers by itself, unless it is broken by itself.
    pub eval-placed :
        (f g : ℕ)
        → f ≤ g
        → (front back es : Exprs) (before after : Frame)
        → Evals before after
            (length front)
            (eval lib program g (placed front back (length before) es))
            (eval lib program f es)
    eval-placed zero g le front back es before after id fr = record { agrees = tt }
    eval-placed (suc f) zero le front back es before after id fr = absurd (omega arith)
    eval-placed (suc f) (suc g) le front back es before after id fr =
        elim (Option-cases (get_elem? es id)) [
          | inl h ↦ rw h (Follows-broken _ malformed_ir refl)
          | inr (e, h) ↦
              rw (get_elem?-placed front back es (length before) id e h, h)
                (eval_node-moved before after (length front)
                  (eval lib program g (placed front back (length before) es))
                  (eval lib program f es) (eval-placed f g (omega arith) front back es before after)
                  lib program (call_function program (enter_function lib program g))
                  (call_function program (enter_function lib program f))
                  (call_function-Follows program (enter_function lib program g)
                    (enter_function lib program f) (enter-Follows f g (omega arith)))
                  e fr)
        ]

    pub enter-Follows :
        (f g : ℕ) → f ≤ g → Enters (enter_function lib program g) (enter_function lib program f)
    enter-Follows zero g le def vs = record { agrees = tt }
    enter-Follows (suc f) zero le def vs = absurd (omega arith)
    enter-Follows (suc f) (suc g) le def vs =
        same->>= _ _ (same_count (Function.params def) vs) (λ u.
          same->>= _ _ (bind_args (Function.params def) vs (new_frame (Function.frame def))) (λ fr.
            Follows->>= _ _
              (block-Follows (eval lib program g (Function.exprs def))
                (eval lib program f (Function.exprs def))
                (rw (sym (unplaced g (Function.exprs def)))
                  (eval-placed f g (omega arith) [] [] (Function.exprs def) [] []))
                (enter_function lib program g) (enter_function lib program f)
                (enter-Follows f g (omega arith)) (Function.body def) fr pure)
              (λ end. Follows-same (left_body end))))

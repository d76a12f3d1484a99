-- ===== src/Interp/Fold/Replay.antt =====
-- src/interp.rs: a fold whose lookups replay the log that it folds (`Asof::Replay`).
use heklang.Base.{
  ℕ, zero, suc, ◌+◌, ◌<◌, ◌≤◌, ◌≡◌, refl, sym, ap, ◌∙◌, Bool, true, false, Option, none, some, List,
  [], ◌∷◌, arith, Bool-cases, inl, inr, length,
}
use heklang.Ir.{Ident}
use heklang.Ir.Exprs.{Exprs}
use heklang.Ir.Program.{Program, Fold, fold_def}
use heklang.Ir.Stages.{Slice, Lookup, EnvBind, Stage, some_in}
use heklang.Value.{Value}
use heklang.Interp.Errors.{malformed_ir, unknown_fold}
use heklang.Interp.Frames.{Frame, Run, done, ◌>>=◌, or_fails, set, read_slot}
use heklang.Interp.Frames.Binds.{bind_ext}
use heklang.Interp.Eval.{Eval}
use heklang.Interp.Resolve.{Resolved, narrowing, matches}
use heklang.Interp.Fold.{
  Asof, Steps, lookups, looked_up, look_args, apply_slice, bind_fields, visit_slice, visit_slices,
  visit_record, each_record, set_envelope, fold_with, fold, fold_to, prepare, folding, replay,
}
use heklang.Interp.Fold.Reads.{fold-each, fold-dead}
use heklang.Interp.Fold.Resume.{fold-pinned, fold-resumed}
use heklang.Log.{Event, Record, Harness, push_all, head}
use heklang.Log.Appends.{IsPlaced}
use heklang.Log.Reads.{filter}

-- Two ways to look up that answer the same before a position.
abbrev pub Agree : Asof → Asof → ℕ → Type 0
Agree A B upto = (name : Ident) (args : List (Ident × Value)) → A upto name args ≡ B upto name args

module _ (ev : Eval) (program : Program) (A B : Asof) where
  looked_up-Agree :
      (upto : ℕ) (l : Lookup) (found : Option (List (Ident × Value)))
      → Agree A B upto
      → looked_up ev program A upto l found ≡ looked_up ev program B upto l found
  unfolding looked_up
  looked_up-Agree upto l none g = refl
  looked_up-Agree upto l (some args) g = rw (g (Lookup.fold l) args) refl

  lookups-Agree :
      (upto : ℕ) (ls : List Lookup) (fr : Frame)
      → Agree A B upto
      → lookups ev program A upto ls fr ≡ lookups ev program B upto ls fr
  unfolding lookups
  lookups-Agree upto [] fr g = refl
  lookups-Agree upto (l ∷ ls) fr g =
      bind_ext (or_fails (fold_def program (Lookup.fold l)) malformed_ir) _ _ λ def.
        bind_ext (look_args ev program (Fold.params def) (Lookup.args l) [] fr) _ _ λ (args, fr₁).
          rw (looked_up-Agree upto l args g) (
            bind_ext (looked_up ev program B upto l args) _ _
              λ v. bind_ext (set fr₁ (Lookup.slot l) v) _ _ λ fr₂. lookups-Agree upto ls fr₂ g)

  apply_slice-Agree :
      (s : Slice) (r : Record) (fr : Frame)
      → Agree A B (Record.position r)
      → apply_slice ev program A s r fr ≡ apply_slice ev program B s r fr
  unfolding apply_slice
  apply_slice-Agree s r fr g =
      bind_ext (bind_fields ev program (Slice.binds s) (Record.event r) fr) _ _
        λ fr₁. rw (lookups-Agree (Record.position r) (Slice.lookups s) fr₁ g) refl

  visit_slice-Agree :
      (s : Slice) (res : Resolved) (r : Record) (fr : Frame)
      → Agree A B (Record.position r)
      → visit_slice ev program A s res r fr ≡ visit_slice ev program B s res r fr
  unfolding visit_slice
  visit_slice-Agree s res r fr g = elim (Bool-cases (Resolved.live res)) [
    | inl k ↦
        rw (k, visit_slice)
          (bind_ext (matches (Resolved.predicate res) (Record.event r)) _ _ λ m.
            ap (λ (run : Run Frame). elim m [ true ↦ run | false ↦ done fr ])
              (apply_slice-Agree s r fr g))
    | inr k ↦ rw (k, visit_slice) refl
  ]

  visit_slices-Agree :
      (ss : List Slice) (rs : List Resolved) (r : Record) (fr : Frame)
      → Agree A B (Record.position r)
      → visit_slices ev program A ss rs r fr ≡ visit_slices ev program B ss rs r fr
  unfolding visit_slices
  visit_slices-Agree [] rs r fr g = refl
  visit_slices-Agree (s ∷ ss) [] r fr g = refl
  visit_slices-Agree (s ∷ ss) (res ∷ rs) r fr g =
      rw (visit_slice-Agree s res r fr g)
        (bind_ext (visit_slice ev program B s res r fr) _ _ λ fr₁. visit_slices-Agree ss rs r fr₁ g)

  module _ {S : Type 0} (slices : List Slice) (rs : List Resolved) (envelope : List EnvBind)
      (steps : Option (Steps S)) where
    visit_record-Agree :
        (r : Record) (at : Frame × S)
        → Agree A B (Record.position r)
        → visit_record ev program A slices rs envelope steps at r
          ≡ visit_record ev program B slices rs envelope steps at r
    unfolding visit_record
    visit_record-Agree r (fr, s) g =
        bind_ext (set_envelope envelope r fr) _ _
          λ fr₁. rw (visit_slices-Agree slices rs r fr₁ g) refl

    each-Agree :
        (n : ℕ) (keep : Record → Bool) (l : List Record) (at : Frame × S)
        → IsPlaced n l
        → ((upto : ℕ) → upto < n + length l → Agree A B upto)
        → each_record (visit_record ev program A slices rs envelope steps) at (filter keep l)
          ≡ each_record (visit_record ev program B slices rs envelope steps) at (filter keep l)
    unfolding each_record IsPlaced
    each-Agree n keep [] at p g = refl
    each-Agree n keep (r ∷ l) at (e, p) g =
        let rest : (at₁ : Frame × S)
            → each_record (visit_record ev program A slices rs envelope steps) at₁ (filter keep l)
              ≡ each_record (visit_record ev program B slices rs envelope steps) at₁
                  (filter keep l) =
          λ at₁. each-Agree (suc n) keep l at₁ p λ upto below. g upto (omega (arith, below)) in
        elim (Bool-cases (keep r)) [
          | inl k ↦
              rw (k, filter)
                (rw (visit_record-Agree r at (g (Record.position r) (omega (arith, e))))
                  (bind_ext (visit_record ev program B slices rs envelope steps at r) _ _ rest))
          | inr k ↦ rw (k, filter) (rest at)
        ]

    pub fold-Agree :
        (h : Harness) (from : ℕ) (upto : Option ℕ) (at : Frame × S)
        → IsPlaced 0 (Harness.records h)
        → ((upto : ℕ) → upto < head h → Agree A B upto)
        → fold_with ev program A slices rs envelope steps h from upto at
          ≡ fold_with ev program B slices rs envelope steps h from upto at
    unfolding head
    fold-Agree h from upto at p g = elim (Bool-cases (some_in (narrowing rs))) [
      | inl live ↦
          fold-each ev program A slices rs envelope steps h from upto at p live
          ∙ each-Agree 0 _ (Harness.records h) at p (λ upto below. g upto (omega (arith, below)))
          ∙ sym (fold-each ev program B slices rs envelope steps h from upto at p live)
      | inr dead ↦
          fold-dead ev program A slices rs envelope steps h from upto at dead
          ∙ sym (fold-dead ev program B slices rs envelope steps h from upto at dead)
    ]

module _ (evals : Exprs → Eval) (program : Program) (h : Harness) (es : List Event)
    (placed : IsPlaced 0 (Harness.records h)) where
  abbrev grown : Harness
  grown = push_all h es

  folding-none :
      (d : ℕ) (def : Fold) (args : List (Ident × Value))
      → folding evals program h {S = Unit {0}}
          (replay evals program h d)
          def
          args
          (some zero)
          none
          tt
        ≡ folding evals program grown {S = Unit {0}}
            (replay evals program grown d)
            def
            args
            (some zero)
            none
            tt
  unfolding folding fold_to prepare
  folding-none d def args = refl

  folding-Agree :
      (A B : Asof) (def : Fold) (args : List (Ident × Value)) (last : ℕ)
      → suc last ≤ head h
      → ((upto : ℕ) → upto < head h → Agree A B upto)
      → folding evals program h {S = Unit {0}} A def args (some (suc last)) none tt
        ≡ folding evals program grown {S = Unit {0}} B def args (some (suc last)) none tt
  unfolding folding fold_to prepare
  folding-Agree A B def args last l g = bind_ext (prepare evals program h def args) _ _ λ (rs, fr).
      let slices = Stage.slices (Fold.stage def) in
      let same =
        fold-Agree (evals (Fold.exprs def)) program A B {S = Unit {0}} slices rs (Fold.envelope def)
          none h 0 (some last) (fr, tt) placed g
        ∙ sym (
            fold-pinned (evals (Fold.exprs def)) program B {S = Unit {0}} slices rs
              (Fold.envelope def) none h es 0 last (fr, tt) placed (omega (arith, l))) in
      ap (λ m. m >>= λ (fr₁, s₁). read_slot fr₁ (Fold.slot def) >>= λ v. done (v, s₁)) same

  -- What is looked up before a position of a log stays as it is when the log grows.
  pub replay-Agree :
      (depth upto : ℕ)
      → upto ≤ head h
      → Agree (replay evals program h depth) (replay evals program grown depth) upto
  unfolding replay
  replay-Agree zero upto l name args = refl
  replay-Agree (suc d) zero l name args =
      bind_ext (or_fails (fold_def program name) (unknown_fold name)) _ _
        λ def. ap (λ m. m >>= λ (v, _). done v) (folding-none d def args)
  replay-Agree (suc d) (suc last) l name args =
      bind_ext (or_fails (fold_def program name) (unknown_fold name)) _ _ λ def.
        ap (λ m. m >>= λ (v, _). done v)
          (folding-Agree (replay evals program h d) (replay evals program grown d) def args last l
            λ upto below. replay-Agree d upto (omega (arith, below)))

  -- A fold of a log up to a position below its head, and from there on a fold of what the log has
  -- become once more events were appended, is one fold of what it has become. Each fold looks other
  -- folds up in the log that it folds, and the records of the log stand at their own positions.
  pub fold-replay :
      (depth : ℕ) (exprs : Exprs) {S : Type 0} (slices : List Slice) (rs : List Resolved)
      (envelope : List EnvBind) (steps : Option (Steps S)) (from a b : ℕ) (at : Frame × S)
      → a < head h
      → from ≤ suc a
      → a ≤ b
      → (fold evals program depth exprs slices rs envelope steps h from (some a) at >>= λ at₁.
          fold evals program depth exprs slices rs envelope steps grown (suc a) (some b) at₁)
        ≡ fold evals program depth exprs slices rs envelope steps grown from (some b) at
  unfolding fold
  fold-replay depth exprs slices rs envelope steps from a b at l f m =
      let A = replay evals program h depth in
      let B = replay evals program grown depth in
      let same =
        fold-Agree (evals exprs) program A B slices rs envelope steps h from (some a) at placed
          λ upto below. replay-Agree depth upto (omega (arith, below)) in
      ap
        (λ m. m >>= λ at₁.
          fold_with (evals exprs) program B slices rs envelope steps grown (suc a) (some b) at₁)
        same
      ∙ fold-resumed (evals exprs) program B slices rs envelope steps h es from a b at placed l f m

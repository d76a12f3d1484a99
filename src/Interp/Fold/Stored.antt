-- ===== src/Interp/Fold/Stored.antt =====
-- src/interp.rs: `fold_steps` beside `fold_stored`.
use heklang.Base.{
  ℕ, suc, ◌≡◌, refl, sym, ap, ◌∙◌, true, none, some, List, [], ◌∷◌, map, All, Bool-cases, inl, inr,
}
use heklang.Ir.{Ident}
use heklang.Ir.Exprs.{Exprs}
use heklang.Ir.Stages.{Stage, some_in}
use heklang.Ir.Program.{Fold, Program}
use heklang.Value.{Value}
use heklang.Interp.Frames.{Frame, Run, done, ◌>>=◌, read_slot}
use heklang.Interp.Frames.Binds.{>>=-eq-done, done-inj}
use heklang.Interp.Eval.{Eval}
use heklang.Interp.Resolve.{Resolved, narrowing}
use heklang.Interp.Fold.{Asof, fold_with, fold_to, folding, prepare}
use heklang.Interp.Fold.Reads.{fold-each, fold-dead}
use heklang.Interp.Fold.Resume.{range}
use heklang.Log.{Record, Harness}
use heklang.Log.Appends.{IsPlaced}
use heklang.Log.Reads.{selects, filter}
use heklang.Interp.Fold.History.{
  History, recorder, HeldAt, StepsFrom, steps-held, steps-positions, filter-unasked,
}

module _ (evals : Exprs → Eval) (program : Program) (h : Harness) (asof : Asof)
    (placed : IsPlaced 0 (Harness.records h)) (def : Fold) (args : List (Ident × Value)) where
  -- What the fold answers of the first events of the log.
  abbrev Stored : ℕ → Value → Type 0
  Stored n v = folding evals program h {S = Unit {0}} asof def args (some n) none tt ≡ done (v, tt)

  module _ (rs : List Resolved) (fr : Frame)
      (prepared : prepare evals program h def args ≡ done (rs, fr)) where
    Stored-held :
        (step : ℕ × Value)
        → some_in (narrowing rs) ≡ true
        → HeldAt
            (evals (Fold.exprs def))
            program
            asof
            (Stage.slices (Fold.stage def))
            rs
            (Fold.envelope def)
            (Fold.slot def)
            fr
            (Harness.records h)
            step
        → Stored (suc step.0) step.1
    unfolding folding fold_to
    Stored-held (at, w) live (fr', walk, held) =
        let folded =
          fold-each (evals (Fold.exprs def)) program asof (Stage.slices (Fold.stage def)) rs
            (Fold.envelope def) none h 0 (some at) (fr, tt) placed live
          ∙ walk in
        rw (prepared, folded, held) refl

    Stored-All :
        (vs : History) (n : ℕ)
        → some_in (narrowing rs) ≡ true
        → StepsFrom
            (evals (Fold.exprs def))
            program
            asof
            (Stage.slices (Fold.stage def))
            rs
            (Fold.envelope def)
            (Fold.slot def)
            n
            fr
            (Harness.records h)
            vs
        → All (λ step. Stored (suc step.0) step.1) vs
    Stored-All [] n live _ = tt
    Stored-All (step ∷ vs) n live ((_, held), rest) =
        (Stored-held step live held, Stored-All vs n live rest)

    -- Each step of a history, by the records that it is of and by the fold of the log up to it.
    abbrev Tells : ℕ → History → Type 0
    Tells last vs =
        (map (λ step. step.0) vs
          ≡ map Record.position
              (filter (selects (range (narrowing rs) 0 last)) (Harness.records h)))
        × All (λ step. Stored (suc step.0) step.1) vs

    Tells-eq : (last : ℕ) (vs ws : History) → ws ≡ vs → Tells last vs → Tells last ws
    Tells-eq last vs ws e t = rw (e) t

    abbrev Walked : ℕ → Run (Frame × History)
    Walked last =
        fold_with (evals (Fold.exprs def)) program asof (Stage.slices (Fold.stage def)) rs
          (Fold.envelope def) (some (recorder (Fold.slot def))) h 0 (some last) (fr, [])

    answer : Frame × History → Run (Value × History)
    answer (fr₁, s₁) = read_slot fr₁ (Fold.slot def) >>= λ v. done (v, s₁)

    folding_ends :
        (last : ℕ) (v : Value) (vs : History)
        → folding evals program h asof def args
            (some (suc last))
            (some (recorder (Fold.slot def)))
            []
          ≡ done (v, vs)
        → (q : Frame × History) × (Walked last ≡ done q) × (q.1 ≡ vs)
    unfolding folding fold_to answer
    folding_ends last v vs r =
        let r' : (Walked last >>= answer) ≡ done (v, vs) = rw (prepared) at r in
        let (q, folded, r₁) = >>=-eq-done (Walked last) answer r' in
        let (w, _, r₂) = >>=-eq-done (read_slot q.0 (Fold.slot def)) (λ v. done (v, q.1)) r₁ in
        (q, folded, ap (λ (x : Value × History). x.1) (done-inj r₂))

    -- A history of the first events of a log has a step for each record that a live slice of the fold
    -- names, in their order, and the value of a step is what the fold answers of the log up to that
    -- record. The records of the log stand at their own positions.
    pub folding-history :
        (last : ℕ) (v : Value) (vs : History)
        → folding evals program h asof def args
            (some (suc last))
            (some (recorder (Fold.slot def)))
            []
          ≡ done (v, vs)
        → Tells last vs
    folding-history last v vs r =
        let (q, folded, told) = folding_ends last v vs r in
        elim (Bool-cases (some_in (narrowing rs))) [
          | inl live ↦
              let walked =
                sym (
                  fold-each (evals (Fold.exprs def)) program asof (Stage.slices (Fold.stage def)) rs
                    (Fold.envelope def) (some (recorder (Fold.slot def))) h 0 (some last) (fr, [])
                    placed live)
                ∙ folded in
              let (ws, e, held) =
                steps-held (evals (Fold.exprs def)) program asof (Stage.slices (Fold.stage def)) rs
                  (Fold.envelope def) (Fold.slot def) last 0 (Harness.records h) fr [] q placed
                  walked in
              let positions =
                steps-positions (evals (Fold.exprs def)) program asof
                  (Stage.slices (Fold.stage def)) rs (Fold.envelope def) (Fold.slot def) _ fr [] q
                  walked in
              Tells-eq last ws vs (sym told ∙ e)
                (ap (map (λ step. step.0)) (sym e) ∙ positions, Stored-All ws 0 live held)
          | inr dead ↦
              let still =
                sym (
                  fold-dead (evals (Fold.exprs def)) program asof (Stage.slices (Fold.stage def)) rs
                    (Fold.envelope def) (some (recorder (Fold.slot def))) h 0 (some last) (fr, [])
                    dead)
                ∙ folded in
              Tells-eq last [] vs (sym told ∙ sym (ap (λ x. x.1) (done-inj still))) (
                sym (
                    ap (map Record.position)
                      (filter-unasked (narrowing rs) last (Harness.records h) dead)),
                tt,
              )
        ]

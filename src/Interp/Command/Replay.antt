-- ===== src/Interp/Command/Replay.antt =====
-- src/interp.rs: an attempt whose lookups replay the log that it reads.
use heklang.Base.{
  ℕ, ◌<◌, ◌≡◌, refl, ap, true, false, ◌||◌, Option, none, some, List, [], ◌∷◌, ltb, ◌-◌, Bool-cases,
  inl, inr,
}
use heklang.Ir.Exprs.{Exprs}
use heklang.Ir.Program.{Program, Command}
use heklang.Ir.Stages.{Stage, some_in, reads}
use heklang.Interp.Frames.{Frame, Run, done, ◌>>=◌}
use heklang.Interp.Frames.Binds.{bind_ext}
use heklang.Interp.Eval.{Eval}
use heklang.Interp.Exec.{Flow, next, returned}
use heklang.Interp.Resolve.{Resolved, resolve}
use heklang.Interp.Fold.{Asof}
use heklang.Interp.Fold.Replay.{Agree, fold-Agree}
use heklang.Interp.Command.{
  Carry, Attempt, Statements, fold_below, carry_on, run_reads, run_started, run_folds, run_half,
  run_stages, decide, onward, start_folds, resume, through, pinned, fresh,
}
use heklang.Log.{Harness, head}
use heklang.Log.Appends.{IsPlaced}

module _ (evals : Exprs → Eval) (exec : Statements) (program : Program) (A B : Asof) (h : Harness)
    (placed : IsPlaced 0 (Harness.records h)) (agree : (upto : ℕ) → upto < head h → Agree A B upto)
    (exprs : Exprs) where
  fold_below-Agree :
      (stage : Stage) (rs : List Resolved) (from at : ℕ) (fr : Frame)
      → fold_below evals exec program A exprs stage rs h from at fr
        ≡ fold_below evals exec program B exprs stage rs h from at fr
  unfolding fold_below
  fold_below-Agree stage rs from at fr = elim (Bool-cases (ltb from at)) [
    | inl k ↦
        rw (k, fold_below)
          (ap (λ m. m >>= λ (fr₁, _). done fr₁)
            (fold-Agree (evals exprs) program A B (Stage.slices stage) rs [] none h from
              (some (at - 1)) (fr, tt) placed agree))
    | inr k ↦ rw (k, fold_below) refl
  ]

  run_reads-Agree :
      (stage : Stage) (rs : List Resolved) (from : ℕ) (a : Attempt)
      → run_reads evals exec program A exprs stage rs h from a
        ≡ run_reads evals exec program B exprs stage rs h from a
  unfolding run_reads carry_on
  run_reads-Agree stage rs from a =
      rw (fold_below-Agree stage rs from (pinned (Attempt.after a) (head h)) (Attempt.frame a)) refl

  run_started-Agree :
      (stage : Stage) (rs : List Resolved) (from : ℕ) (a : Attempt)
      → run_started evals exec program A exprs stage rs h from a
        ≡ run_started evals exec program B exprs stage rs h from a
  unfolding run_started
  run_started-Agree stage rs from a =
      ap (λ (run : Run Attempt). elim (reads stage) [ true ↦ run | false ↦ done a ])
        (run_reads-Agree stage rs from a)

  run_folds-Agree :
      (stage : Stage) (carried : Option Carry) (a : Attempt)
      → run_folds evals exec program A exprs stage h carried a
        ≡ run_folds evals exec program B exprs stage h carried a
  unfolding run_folds start_folds
  run_folds-Agree stage carried a = elim (Bool-cases (some_in (Stage.folds stage) || reads stage)) [
    | inl k ↦
        rw (k, run_folds)
          (bind_ext (resolve (evals exprs) program (Stage.slices stage) (Attempt.frame a)) _ _
            λ (rs, fr).
              let from = resume (Attempt.leading a) carried rs in
              bind_ext (start_folds evals exec program A exprs (Stage.folds stage) from fr) _ _
                λ fr₁. run_started-Agree stage rs (through from) (record a { frame = fr₁ }))
    | inr k ↦ rw (k, run_folds) refl
  ]

  onward-ext :
      (flow : Flow) (a : Attempt) (f g : Attempt → Run (Flow × Attempt))
      → ((b : Attempt) → f b ≡ g b)
      → onward flow a f ≡ onward flow a g
  unfolding onward
  onward-ext next a f g same = same a
  onward-ext (returned r) a f g same = refl

  run_stages-Agree :
      (stages : List Stage) (carried : Option Carry) (a : Attempt)
      → run_stages evals exec program A exprs stages h carried a
        ≡ run_stages evals exec program B exprs stages h carried a
  unfolding run_stages run_half
  run_stages-Agree [] carried a = refl
  run_stages-Agree (s ∷ ss) carried a =
      bind_ext (run_half evals exec program A exprs (Stage.pre s) a) _ _ λ (flow, a₁).
        onward-ext flow a₁ _ _ λ a₂. rw (run_folds-Agree s carried a₂) (
          bind_ext (run_folds evals exec program B exprs s h carried a₂) _ _ λ a₃.
            bind_ext (run_half evals exec program A exprs (Stage.post s) a₃) _ _
              λ (flow₁, a₄). onward-ext flow₁ a₄ _ _ λ a₅. run_stages-Agree ss carried a₅)

pub decide-Agree :
    (evals : Exprs → Eval) (exec : Statements) (program : Program) (A B : Asof) (h : Harness)
    → IsPlaced 0 (Harness.records h)
    → ((upto : ℕ) → upto < head h → Agree A B upto)
    → (c : Command) (carried : Option Carry) (fr : Frame)
    → decide evals exec program A c h carried fr ≡ decide evals exec program B c h carried fr
unfolding decide
decide-Agree evals exec program A B h placed agree c carried fr =
    rw
      (run_stages-Agree evals exec program A B h placed agree (Command.exprs c) (Command.stages c)
        carried (fresh fr))
      refl

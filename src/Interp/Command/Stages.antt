-- ===== src/Interp/Command/Stages.antt =====
-- src/interp.rs: the stages of an attempt, on the log that it read and on the log that it appends to.
use heklang.Base.{◌≡◌, refl, ap, Option, List, [], ◌∷◌}
use heklang.Interp.Frames.{Run, done, ◌>>=◌}
use heklang.Interp.Frames.Binds.{>>=-eq-done, done-inj}
use heklang.Interp.Eval.{Eval}
use heklang.Interp.Exec.{Flow, next, returned, emit}
use heklang.Interp.Fold.{Asof}
use heklang.Interp.Fold.Ignored.{Ignored}
use heklang.Interp.Command.{
  Attempt, Carry, Statements, run_half, run_folds, run_stages, onward, after_half,
}
use heklang.Interp.Command.Serial.{
  moved, half-moved, Later, IsPinned, Serial, run_folds-Serial, run_folds-IsPinned, read_by,
}
use heklang.Ir.Exprs.{Exprs, Block}
use heklang.Ir.Program.{Program}
use heklang.Ir.Stages.{Stage}
use heklang.Log.{Event, Harness, head}
use heklang.Log.Appends.{IsPlaced}

module _ (evals : Exprs → Eval) (exec : Statements) (program : Program) (asof : Asof) (h : Harness)
    (es : List Event) (placed : IsPlaced 0 (Harness.records h)) where
  abbrev pub Pins : Attempt → Type 0
  Pins = IsPinned evals exec program asof h es placed

  abbrev pub Top : Attempt → Attempt
  Top = moved (head (Later evals exec program asof h es placed))

  abbrev pub Next : Type 0
  Next = Attempt → Run (Flow × Attempt)

  -- What one continuation does on the log that was read, the other does on the later one.
  abbrev pub Lifts : Next → Next → Type 0
  Lifts k l =
      (a : Attempt) (p : Flow × Attempt)
      → k a ≡ done p
      → Pins a
      → Ignored (Attempt.read p.1) es
      → Serial evals exec program asof h es placed a p.1 × (l (Top a) ≡ done (p.0, Top p.1))

  onward-Lifts :
      (flow : Flow) (k l : Next) → Lifts k l → Lifts (λ a. onward flow a k) (λ a. onward flow a l)
  unfolding onward
  onward-Lifts next k l lifts a p r i j = lifts a p r i j
  onward-Lifts (returned ret) k l lifts a p r i j =
      let e : (returned ret, a) ≡ p = done-inj r in
      rw (← e) (
        (
          read_by evals exec program asof h es placed (λ ps. Ignored ps es) a p.1 (ap (λ q. q.1) e)
              j,
          i,
        ),
        refl,
      )

  half-Lifts :
      (exprs : Exprs) (b : Block) (k l : Next)
      → Lifts k l
      → Lifts
          (λ a. run_half evals exec program asof exprs b a >>= λ (flow, a₁). onward flow a₁ k)
          (λ a. run_half evals exec program asof exprs b a >>= λ (flow, a₁). onward flow a₁ l)
  unfolding run_half
  half-Lifts exprs b k l lifts a p r i j =
      let m = exec exprs b (Attempt.frame a) (emit (Attempt.emitted a)) in
      let ((flow, a₁), ran, r₁) = >>=-eq-done (m >>= λ end. done (after_half a end)) _ r in
      let (again, same_read, same_after) =
        half-moved (head (Later evals exec program asof h es placed)) a m (flow, a₁) ran in
      let i₁ : Pins a₁ = rw (same_after) i in
      let (rest, lifted) = onward-Lifts flow k l lifts a₁ p r₁ i₁ j in
      rw (again) ((rw (← same_read) rest.0, rest.1), lifted)

  pub run_stages-Lifts :
      (exprs : Exprs) (ss : List Stage) (carried : Option Carry)
      → Lifts (run_stages evals exec program asof exprs ss h carried) (
          run_stages evals exec program asof exprs ss
            (Later evals exec program asof h es placed)
            carried)
  unfolding run_stages
  run_stages-Lifts exprs [] carried = λ a p r i j.
      let e : (next, a) ≡ p = done-inj r in
      rw (← e) (
        (
          read_by evals exec program asof h es placed (λ ps. Ignored ps es) a p.1 (ap (λ q. q.1) e)
              j,
          i,
        ),
        refl,
      )
  run_stages-Lifts exprs (s ∷ ss) carried = half-Lifts exprs (Stage.pre s) _ _ λ a p r i j.
      let (a₃, folded, r₁) =
        >>=-eq-done (run_folds evals exec program asof exprs s h carried a) _ r in
      let i₃ =
        run_folds-IsPinned evals exec program asof h es placed exprs s carried a a₃ folded i in
      let (left, lifted) =
        half-Lifts exprs (Stage.post s) _ _ (run_stages-Lifts exprs ss carried) a₃ p r₁ i₃ j in
      let (before, folded') =
        run_folds-Serial evals exec program asof h es placed exprs s carried a a₃ folded i left.0 in
      rw (folded') ((before.0, left.1), lifted)

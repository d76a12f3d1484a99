-- ===== src/Interp/Command/Retry.antt =====
-- src/interp.rs: an attempt that no other writer comes between, and how attempts end.
use heklang.Base.{
  ℕ, ◌≤◌, ◌≡◌, ◌⊎◌, refl, sym, ap, ◌∙◌, false, Option, none, some, List, [], ◌∷◌, any, arith, leb,
  Bool-cases, inl, inr,
}
use heklang.Interp.Frames.{Frame, Run, done, fails, spent, ◌>>=◌}
use heklang.Interp.Frames.Binds.{>>=-eq-done, done-inj}
use heklang.Interp.Errors
use heklang.Interp.Eval.{Eval}
use heklang.Interp.Exec.{Flow, next, returned, emit, Step}
use heklang.Interp.Resolve.{Resolved}
use heklang.Interp.Fold.{Asof}
use heklang.Interp.Command.{
  Attempt, Carry, Statements, Execution, Outcome, pinned, run_half, run_folds, run_started,
  run_reads, run_stages, decide, condition_of, fresh, commit, onward, after_half, after_reads,
  fold_below, carry_on, settled, resume, through,
}
use heklang.Interp.Command.Serial.{run_folds_cases}
use heklang.Interp.Command.Decide.{ends}
use heklang.Ir.Exprs.{Exprs, Block}
use heklang.Ir.Stages.{Stage, reads}
use heklang.Ir.Program.{Program, Command}
use heklang.Log.{
  Event, Record, Predicate, AppendCondition, Harness, push_all, head, append, conflicts, beats,
}
use heklang.Log.Appends.{IsPlaced, append-at-head}

-- What an attempt read, and the head that it pinned, are one with another's.
abbrev SameRead : (a b : Attempt) → Type 0
SameRead a b = (Attempt.read a ≡ Attempt.read b) × (Attempt.after a ≡ Attempt.after b)

half-SameRead :
    (a : Attempt) (m : Step) (p : Flow × Attempt)
    → (m >>= λ end. done (after_half a end)) ≡ done p
    → SameRead a p.1
unfolding after_half
half-SameRead a (done (flow, fr, sk)) p h = rw (← done-inj h) (refl, refl)
half-SameRead a (fails e) p h = absurd cc
half-SameRead a spent p h = absurd cc

module _ (evals : Exprs → Eval) (exec : Statements) (program : Program) (asof : Asof) (h : Harness)
    (placed : IsPlaced 0 (Harness.records h)) (P : Attempt → Type 0)
    (same : (a b : Attempt) → SameRead a b → P a → P b)
    (step : (exprs : Exprs) (stage : Stage) (rs : List Resolved) (from : ℕ) (a b : Attempt)
      → run_reads evals exec program asof exprs stage rs h from a ≡ done b
      → P a
      → P b) where
  abbrev Kept : (Attempt → Run (Flow × Attempt)) → Type 0
  Kept k = (a : Attempt) (p : Flow × Attempt) → k a ≡ done p → P a → P p.1

  onward-Kept :
      (flow : Flow) (k : Attempt → Run (Flow × Attempt)) → Kept k → Kept (λ a. onward flow a k)
  unfolding onward
  onward-Kept next k keeps a p r i = keeps a p r i
  onward-Kept (returned ret) k keeps a p r i =
      same a p.1 (ap (λ q. Attempt.read q.1) (done-inj r), ap (λ q. Attempt.after q.1) (done-inj r))
        i

  half-Kept :
      (exprs : Exprs) (b : Block) (k : Attempt → Run (Flow × Attempt))
      → Kept k
      → Kept (λ a. run_half evals exec program asof exprs b a >>= λ (flow, a₁). onward flow a₁ k)
  unfolding run_half
  half-Kept exprs b k keeps a p r i =
      let m = exec exprs b (Attempt.frame a) (emit (Attempt.emitted a)) in
      let ((flow, a₁), ran, r₁) = >>=-eq-done (m >>= λ end. done (after_half a end)) _ r in
      onward-Kept flow k keeps a₁ p r₁ (same a a₁ (half-SameRead a m (flow, a₁) ran) i)

  started-Kept :
      (exprs : Exprs) (stage : Stage) (rs : List Resolved) (from : ℕ) (a b : Attempt)
      → run_started evals exec program asof exprs stage rs h from a ≡ done b
      → P a
      → P b
  unfolding run_started
  started-Kept exprs stage rs from a b r i = elim (Bool-cases (reads stage)) [
    | inl k ↦ step exprs stage rs from a b (rw (k, run_started) at r) i
    | inr k ↦
        let e : a ≡ b = done-inj (rw (k, run_started) at r) in
        same a b (ap Attempt.read e, ap Attempt.after e) i
  ]

  folds-Kept :
      (exprs : Exprs) (stage : Stage) (carried : Option Carry) (a b : Attempt)
      → run_folds evals exec program asof exprs stage h carried a ≡ done b
      → P a
      → P b
  folds-Kept exprs stage carried a b r i =
      elim (run_folds_cases evals exec program asof h [] placed exprs stage carried a b r) [
        | inl (k, e) ↦ same a b (ap Attempt.read e, ap Attempt.after e) i
        | inr (k, (rs, fr, fr₁, resolved, started, r₂)) ↦
            started-Kept exprs stage rs (through (resume (Attempt.leading a) carried rs))
              (record a { frame = fr₁ }) b r₂ (same a (record a { frame = fr₁ }) (refl, refl) i)
      ]

  -- What every read of a stage keeps, a run of stages keeps.
  run_stages-Kept :
      (exprs : Exprs) (ss : List Stage) (carried : Option Carry)
      → Kept (run_stages evals exec program asof exprs ss h carried)
  unfolding run_stages
  run_stages-Kept exprs [] carried = λ a p r i.
      same a p.1 (ap (λ q. Attempt.read q.1) (done-inj r), ap (λ q. Attempt.after q.1) (done-inj r))
        i
  run_stages-Kept exprs (s ∷ ss) carried = half-Kept exprs (Stage.pre s) _ λ a p r i.
      let (a₃, folded, r₁) =
        >>=-eq-done (run_folds evals exec program asof exprs s h carried a) _ r in
      half-Kept exprs (Stage.post s) _ (run_stages-Kept exprs ss carried) a₃ p r₁
        (folds-Kept exprs s carried a a₃ folded i)

-- What is read is read below the head of the log.
abbrev IsBelow : Harness → Attempt → Type 0
IsBelow h a = (Attempt.after a ≡ some (head h)) ⊎ ((Attempt.after a ≡ none) × (Attempt.read a ≡ []))

IsBelow-same : (h : Harness) (a b : Attempt) → SameRead a b → IsBelow h a → IsBelow h b
IsBelow-same h a b (read, after) (inl e) = inl (sym after ∙ e)
IsBelow-same h a b (read, after) (inr (e, f)) = inr (sym after ∙ e, sym read ∙ f)

-- A condition at the head, or on nothing.
abbrev AtHead : Harness → AppendCondition → Type 0
AtHead h c = (head h ≤ AppendCondition.after c) ⊎ (AppendCondition.slices c ≡ [])

by_condition : (h : Harness) (c d : AppendCondition) → c ≡ d → AtHead h c → AtHead h d
by_condition h c d e k = rw (← e) k

below-condition : (h : Harness) (a : Attempt) → IsBelow h a → AtHead h (condition_of a)
unfolding condition_of pinned
below-condition h a (inl e) = inl (rw (e) (omega arith))
below-condition h a (inr (e, f)) = inr f

unread-conflicts :
    (c : AppendCondition) (rs : List Record)
    → AppendCondition.slices c ≡ []
    → any (beats c) rs ≡ false
unfolding beats
unread-conflicts c [] e = refl
unread-conflicts c (r ∷ rs) e =
    let rest = unread-conflicts c rs e in
    elim (Bool-cases (leb (AppendCondition.after c) (Record.position r))) [
      | inl k ↦ rw (k, e) rest
      | inr k ↦ rw (k) rest
    ]

append-unread :
    (h : Harness) (es : List Event) (c : AppendCondition)
    → AppendCondition.slices c ≡ []
    → append h es c ≡ (Errors.ok tt, push_all h es)
unfolding append conflicts
append-unread h es c e = rw (unread-conflicts c (Harness.records h) e) refl

append-calm :
    (h : Harness) (c : AppendCondition)
    → IsPlaced 0 (Harness.records h)
    → AtHead h c
    → (es : List Event) → append h es c ≡ (Errors.ok tt, push_all h es)
append-calm h c placed (inl l) = λ es. append-at-head h es c placed l
append-calm h c placed (inr e) = λ es. append-unread h es c e

-- A commit goes as its append does.
commit-calm :
    (h : Harness) (x : Execution) (out : Outcome)
    → Execution.outcome x ≡ out
    → ((es : List Event) → append h es (Execution.condition x) ≡ (Errors.ok tt, push_all h es))
    → (h₁ : Harness) × (commit x h ≡ (Errors.ok tt, h₁))
unfolding commit
commit-calm h x (Outcome.ok es) e calm = (push_all h es, rw (e, commit) (calm es))
commit-calm h x (Outcome.invalid message) e calm = (h, rw (e, commit) refl)
commit-calm h x (Outcome.reject code message) e calm = (h, rw (e, commit) refl)

module _ (evals : Exprs → Eval) (exec : Statements) (program : Program) (asof : Asof) (h : Harness)
    (placed : IsPlaced 0 (Harness.records h)) where
  pinned-head :
      (o : Option ℕ) (ps : List Predicate)
      → ((o ≡ some (head h)) ⊎ ((o ≡ none) × (ps ≡ [])))
      → pinned o (head h) ≡ head h
  unfolding pinned
  pinned-head o ps (inl e) = rw (e) refl
  pinned-head o ps (inr (e, _)) = rw (e) refl

  reads-IsBelow :
      (exprs : Exprs) (stage : Stage) (rs : List Resolved) (from : ℕ) (a b : Attempt)
      → run_reads evals exec program asof exprs stage rs h from a ≡ done b
      → IsBelow h a
      → IsBelow h b
  unfolding run_reads after_reads
  reads-IsBelow exprs stage rs from a b r i =
      let at = pinned (Attempt.after a) (head h) in
      let (fr, _, r₁) =
        >>=-eq-done (fold_below evals exec program asof exprs stage rs h from at (Attempt.frame a))
          _ r in
      let (c, _, r₂) =
        >>=-eq-done
          (carry_on evals exec program asof (Attempt.leading a) at rs (Stage.folds stage) fr
            (Attempt.folded a))
          _ r₁ in
      inl (
        sym (ap Attempt.after (done-inj r₂))
        ∙ ap some (pinned-head (Attempt.after a) (Attempt.read a) i))

  -- On a log whose records stand at their own positions, an attempt that decides is not refused where
  -- no other writer comes between.
  pub commit-unrivalled :
      (c : Command) (carried : Option Carry) (fr : Frame) (x : Execution) (carry : Option Carry)
      → decide evals exec program asof c h carried fr ≡ done (x, carry)
      → (h₁ : Harness) × (commit x h ≡ (Errors.ok tt, h₁))
  unfolding condition_of
  commit-unrivalled c carried fr x carry decided =
      let ((flow, a), (ran, settled, e)) =
        ends evals exec program asof h placed c carried fr x carry decided in
      let below =
        run_stages-Kept evals exec program asof h placed (IsBelow h) (IsBelow-same h) reads-IsBelow
          (Command.exprs c) (Command.stages c) carried (fresh fr) (flow, a) ran
          (inr (refl, refl)) in
      commit-calm h x (Execution.outcome x) refl (
        append-calm h (Execution.condition x) placed
          (by_condition h (condition_of a) (Execution.condition x) e (below-condition h a below)))

-- ===== src/Interp/Command/Decide.antt =====
-- src/interp.rs: an attempt and its append, with what others append in between.
use heklang.Base.{
  ℕ, ◌≤◌, ◌≡◌, refl, ap, ◌∙◌, Bool, true, false, Option, none, some, List, [], ◌∷◌, ◌++◌, All, any,
  arith, Bool-cases, inl, inr, length,
}
use heklang.Interp.Frames.{Frame, done}
use heklang.Interp.Frames.Binds.{>>=-eq-done, done-inj}
use heklang.Interp.Errors
use heklang.Interp.Eval.{Eval}
use heklang.Interp.Exec.{Flow}
use heklang.Interp.Fold.{Asof}
use heklang.Interp.Fold.Ignored.{Misses, Ignored, readable}
use heklang.Interp.Command.{
  Attempt, Carry, Statements, Execution, Outcome, pinned, run_stages, decide, condition_of, outcome,
  ret_of, kept, fresh, commit,
}
use heklang.Interp.Command.Stages.{Top, run_stages-Lifts}
use heklang.Ir.Exprs.{Exprs}
use heklang.Ir.Program.{Program, Command}
use heklang.Log.{
  Event, Predicate, AppendCondition, Harness, push_all, head, append, conflicts, beats, holds,
}
use heklang.Log.Appends.{IsPlaced, push_all-records, stamped_from, stamped_from-beats, in_slices}

-- The events can be asked by the slices.
abbrev pub Readable : List Predicate → List Event → Type 0
Readable ps es = All (λ e. All (λ p. readable e p ≡ true) ps) es

-- Events that no slice of a condition holds.
missed :
    (e : Event) (ps : List Predicate)
    → any (λ p. holds p e) ps ≡ false
    → All (λ p. readable e p ≡ true) ps
    → All (Misses e) ps
missed e [] h r = tt
missed e (p ∷ ps) h (r, rs) = elim (Bool-cases (holds p e)) [
  | inl k ↦ let no : true ≡ false = rw (k) at h in absurd cc
  | inr k ↦
      let rest : any (λ p. holds p e) ps ≡ false = rw (k) at h in ((k, r), missed e ps rest rs)
]

unheld-Ignored :
    (c : AppendCondition) (es : List Event)
    → any (in_slices c) es ≡ false
    → Readable (AppendCondition.slices c) es
    → Ignored (AppendCondition.slices c) es
unfolding in_slices
unheld-Ignored c [] h r = tt
unheld-Ignored c (e ∷ es) h (r, rs) = elim (Bool-cases (in_slices c e)) [
  | inl k ↦ let no : true ≡ false = rw (k) at h in absurd cc
  | inr k ↦
      let rest : any (in_slices c) es ≡ false = rw (k) at h in
      (missed e (AppendCondition.slices c) k r, unheld-Ignored c es rest rs)
]

any-append-false :
    {A : Type 0} (p : A → Bool) (xs ys : List A) → any p (xs ++ ys) ≡ false → any p ys ≡ false
any-append-false p [] ys h = h
any-append-false p (x ∷ xs) ys h = elim (Bool-cases (p x)) [
  | inl k ↦ let no : true ≡ false = rw (k) at h in absurd cc
  | inr k ↦ any-append-false p xs ys (rw (k) at h)
]

-- What came behind the position of a condition that does not conflict, no slice of it holds.
unconflicted :
    (h : Harness) (es : List Event) (c : AppendCondition)
    → AppendCondition.after c ≤ head h
    → conflicts c (Harness.records (push_all h es)) ≡ false
    → any (in_slices c) es ≡ false
unfolding conflicts head
unconflicted h es c l k =
    let n = length (Harness.records h) in
    let k' : any (beats c) (Harness.records h ++ stamped_from n es) ≡ false =
      rw (push_all-records h es) at k in
    elim (Bool-cases (any (in_slices c) es)) [
      | inl m ↦
          let beaten = stamped_from-beats n c es l m in
          let unbeaten = any-append-false (beats c) (Harness.records h) (stamped_from n es) k' in
          absurd cc
      | inr m ↦ m
    ]

append-ok :
    (h h₁ : Harness) (evs : List Event) (c : AppendCondition)
    → append h evs c ≡ (Errors.ok tt, h₁)
    → (conflicts c (Harness.records h) ≡ false) × (h₁ ≡ push_all h evs)
unfolding append
append-ok h h₁ evs c k = ground arith

pinned-le : (o : Option ℕ) (n : ℕ) → pinned o n ≡ n → pinned o 0 ≤ n
unfolding pinned
pinned-le none n h = omega arith
pinned-le (some at) n h = omega (arith, h)

slices_by :
    (k l : AppendCondition) (es : List Event)
    → k ≡ l
    → Ignored (AppendCondition.slices l) es
    → Ignored (AppendCondition.slices k) es
slices_by k l es e i = rw (e) i

module _ (evals : Exprs → Eval) (exec : Statements) (program : Program) (asof : Asof) (h : Harness)
    (placed : IsPlaced 0 (Harness.records h)) (c : Command) (carried : Option Carry) (fr : Frame)
    (x : Execution) (carry : Option Carry)
    (decided : decide evals exec program asof c h carried fr ≡ done (x, carry)) where
  fresh-Pins : pinned none (head h) ≡ head h
  unfolding pinned
  fresh-Pins = refl

  -- The end of the attempt.
  abbrev pub Ends : Flow × Attempt → Type 0
  Ends (flow, a) =
      (run_stages evals exec program asof (Command.exprs c) (Command.stages c) h carried (fresh fr)
        ≡ done (flow, a))
      × (outcome (ret_of flow) (Attempt.emitted a) ≡ done (Execution.outcome x))
      × (condition_of a ≡ Execution.condition x)

  pub ends : (p : Flow × Attempt) × Ends p
  unfolding decide
  ends =
      let ((flow, a), ran, r₁) =
        >>=-eq-done
          (run_stages evals exec program asof (Command.exprs c) (Command.stages c) h carried
            (fresh fr))
          _ decided in
      let (out, settled, r₂) = >>=-eq-done (outcome (ret_of flow) (Attempt.emitted a)) _ r₁ in
      let e = ap (λ q. q.0) (done-inj r₂) in
      ((flow, a), (ran, settled ∙ ap (λ y. done (Execution.outcome y)) e, ap Execution.condition e))

  -- A condition is read no later than the head.
  pub condition-le-head : AppendCondition.after (Execution.condition x) ≤ head h
  unfolding condition_of
  condition-le-head =
      let ((flow, a), (ran, _, e)) = ends in
      let ((_, pins), _) =
        run_stages-Lifts evals exec program asof h [] placed (Command.exprs c) (Command.stages c)
          carried (fresh fr) (flow, a) ran fresh-Pins tt in
      let l = pinned-le (Attempt.after a) (head h) pins in rw (← e) l

  module _ (es : List Event) where
    -- The same decision, on a log to which came nothing that the condition holds.
    abbrev pub DecidesLater : Type 0
    DecidesLater =
        (y : Execution) × (carry' : Option Carry) × (decide evals exec program asof c
            (push_all h es) carried fr
          ≡ done (y, carry'))
        × (Execution.outcome y ≡ Execution.outcome x)

    decide-grown : Ignored (AppendCondition.slices (Execution.condition x)) es → DecidesLater
    unfolding decide condition_of pinned
    decide-grown i =
        let ((flow, a), (ran, settled, e)) = ends in
        let i' = slices_by (condition_of a) (Execution.condition x) es e i in
        let (_, lifted) =
          run_stages-Lifts evals exec program asof h es placed (Command.exprs c) (Command.stages c)
            carried (fresh fr) (flow, a) ran refl i' in
        let top = Top evals exec program asof h es placed a in
        (
          record { outcome = Execution.outcome x; condition = condition_of top },
          kept (Attempt.folded top) carried,
          rw (lifted, settled) refl,
          refl,
        )

    pub commit-serial :
        (evs : List Event) (h₁ : Harness)
        → Readable (AppendCondition.slices (Execution.condition x)) es
        → Execution.outcome x ≡ Outcome.ok evs
        → commit x (push_all h es) ≡ (Errors.ok tt, h₁)
        → (h₁ ≡ push_all (push_all h es) evs) × DecidesLater
    unfolding commit
    commit-serial evs h₁ readable out k =
        let k' : append (push_all h es) evs (Execution.condition x) ≡ (Errors.ok tt, h₁) =
          rw (out, commit) at k in
        let (calm, appended) = append-ok (push_all h es) h₁ evs (Execution.condition x) k' in
        let unheld = unconflicted h es (Execution.condition x) condition-le-head calm in
        (appended, decide-grown (unheld-Ignored (Execution.condition x) es unheld readable))

-- ===== src/Interp/Command/Attempts.antt =====
-- src/interp.rs: the loop of `execute` over attempts.
use heklang.Base.{
  ℕ, suc, ◌≤◌, ◌≡◌, ◌≢◌, ◌⊎◌, refl, sym, ap, ◌∙◌, Bool, false, Option, none, List, arith,
  Bool-cases, inl, inr,
}
use heklang.Interp.Frames.{Frame, Run, done, fails, spent}
use heklang.Interp.Errors
use heklang.Interp.Errors.{ErrorKind, conflict}
use heklang.Interp.Frames.Binds.{Run-cases, done-inj}
use heklang.Interp.Eval.{Eval}
use heklang.Interp.Fold.{replay}
use heklang.Interp.Fold.Replay.{replay-Agree}
use heklang.Interp.Command.Replay.{decide-Agree}
use heklang.Interp.Command.{
  Carry, Statements, Execution, Outcome, decide, commit, settled, attempts,
}
use heklang.Interp.Command.Decide.{Readable, commit-serial}
use heklang.Ir.Exprs.{Exprs}
use heklang.Ir.Program.{Program, Command}
use heklang.Log.{Event, AppendCondition, Harness, push_all, append, conflicts}
use heklang.Log.Appends.{IsPlaced}

-- A commit goes through, or it meets a conflict and leaves the log.
abbrev Commits : Execution → Harness → Type 0
Commits x h =
    ((h₁ : Harness) × (commit x h ≡ (Errors.ok tt, h₁)))
    ⊎ (commit x h ≡ (Errors.err (conflict (AppendCondition.after (Execution.condition x))), h))

commit_cases :
    (x : Execution) (h : Harness) (out : Outcome) → Execution.outcome x ≡ out → Commits x h
unfolding commit append
commit_cases x h (Outcome.invalid message) e = inl (h, rw (e, commit) refl)
commit_cases x h (Outcome.reject code message) e = inl (h, rw (e, commit) refl)
commit_cases x h (Outcome.ok es) e =
    elim (Bool-cases (conflicts (Execution.condition x) (Harness.records h))) [
      | inl k ↦ inr (rw (e, commit, k, append) refl)
      | inr k ↦ inl (push_all h es, rw (e, commit, k, append) refl)
    ]

fails-ne-done : {A : Type 0} {e : ErrorKind} {a : A} → fails e ≢ done a
fails-ne-done h = cc

spent-ne-done : {A : Type 0} {a : A} → spent ≢ done a
spent-ne-done h = cc

pair_done :
    (x y : Execution) (h k : Harness)
    → ◌≡◌ {A = Run Execution × Harness} (done x, h) (done y, k)
    → (x ≡ y) × (h ≡ k)
pair_done x y h k r = (done-inj (ap (λ q. q.0) r), ap (λ q. q.1) r)

module _ (evals : Exprs → Eval) (exec : Statements) (program : Program) (depth : ℕ) (c : Command)
    (rivals : ℕ → List Event) (fr : Frame) where
  abbrev Attempts : (again : ℕ → Bool) → ℕ → ℕ → Option Carry → Harness → Run Execution × Harness
  Attempts again = attempts evals exec program depth c again rivals fr

  -- One attempt on a log.
  abbrev pub Attempted : Option Carry → Harness → Run (Execution × Option Carry)
  Attempted carried h = decide evals exec program (replay evals program h depth) c h carried fr

  -- The attempts that conflicts lead to: each is the next of one that decided and whose events were
  -- refused for what the others had appended, with what that one carried on.
  pub data Reached (n : ℕ) (carried : Option Carry) (h : Harness)
      : ℕ → Option Carry → Harness → Type 0 where
    first : Reached n carried h n carried h
    again :
        {m : ℕ} {before after : Option Carry} {k : Harness} {x : Execution}
        → Reached n carried h m before k
        → Attempted before k ≡ done (x, after)
        → commit x (push_all k (rivals m)) ≡ (
          Errors.err (conflict (AppendCondition.after (Execution.condition x))),
          push_all k (rivals m),
        )
        → Reached n carried h (suc m) after (push_all k (rivals m))

  -- What a run leaves that ends by an attempt: what that one decided and committed, or its error, or
  -- that its fuel ran out.
  abbrev pub EndsBy : ℕ → Option Carry → Harness → Run Execution × Harness → Type 0
  EndsBy m before k r =
      ((x : Execution) × (after : Option Carry) × (h₁ : Harness) × (Attempted before k
          ≡ done (x, after))
        × (commit x (push_all k (rivals m)) ≡ (Errors.ok tt, h₁))
        × (r ≡ (done x, h₁)))
      ⊎ ((e : ErrorKind) × (Attempted before k ≡ fails e) × (r ≡ (fails e, k)))
      ⊎ ((Attempted before k ≡ spent) × (r ≡ (spent, k)))

  -- A run that ends by an attempt no later than `last`.
  pub record Settles (last n : ℕ) (carried : Option Carry) (h : Harness)
      (r : Run Execution × Harness) : Type 0 where
    pub attempt : ℕ
    pub before : Option Carry
    pub on : Harness
    pub timely : attempt ≤ last
    pub reached : Reached n carried h attempt before on
    pub ends : EndsBy attempt before on r

  -- What a run that does not retry answers, its one attempt decided and appended.
  run_once :
      (t : ℕ) (h : Harness) (x : Execution) (h₁ : Harness)
      → Attempts (λ _. false) (suc t) 0 none h ≡ (done x, h₁)
      → (carry : Option Carry) × (Attempted none h ≡ done (x, carry))
        × (commit x (push_all h (rivals 0)) ≡ (Errors.ok tt, h₁))
  unfolding attempts settled
  run_once t h x h₁ r = elim (Run-cases (Attempted none h)) [
    | inl ((y, carry), decided) ↦
        let out = commit_cases y (push_all h (rivals 0)) (Execution.outcome y) refl in
        elim out [
          | inl (h₂, through) ↦
              let r' : (done y, h₂) ≡ (done x, h₁) =
                rw (decided, attempts, through, settled) at r in
              let (same_x, same_h) = pair_done y x h₂ h₁ r' in
              (carry, rw (← same_x) decided, rw (← same_x, ← same_h) through)
          | inr refused ↦
              let r' : (
                fails (conflict (AppendCondition.after (Execution.condition y))),
                push_all h (rivals 0),
              )
                  ≡ (done x, h₁) =
                rw (decided, attempts, refused, settled) at r in
              absurd (fails-ne-done (ap (λ q. q.0) r'))
        ]
    | inr (inl (e, failed)) ↦
        let r' : (fails e, h) ≡ (done x, h₁) = rw (failed, attempts) at r in
        absurd (fails-ne-done (ap (λ q. q.0) r'))
    | inr (inr out) ↦
        let r' : (spent, h) ≡ (done x, h₁) = rw (out, attempts) at r in
        absurd (spent-ne-done (ap (λ q. q.0) r'))
  ]

  -- A run that does not retry and that answers events decided as on the log that it appended to: the
  -- log then holds what it held, what others brought meanwhile, and those events, and deciding on
  -- what others left, with lookups that replay that, has the same outcome. The events that others
  -- brought have the fields that the slices of the condition filter by, and the records of the log
  -- stand at their own positions.
  pub run-serial :
      (t : ℕ) (h : Harness) (x : Execution) (h₁ : Harness) (evs : List Event)
      → IsPlaced 0 (Harness.records h)
      → Readable (AppendCondition.slices (Execution.condition x)) (rivals 0)
      → Attempts (λ _. false) (suc t) 0 none h ≡ (done x, h₁)
      → Execution.outcome x ≡ Outcome.ok evs
      → (h₁ ≡ push_all (push_all h (rivals 0)) evs)
        × ((y : Execution) × (carry : Option Carry) × (Attempted none (push_all h (rivals 0))
              ≡ done (y, carry))
            × (Execution.outcome y ≡ Outcome.ok evs))
  run-serial t h x h₁ evs placed readable r out =
      let (carry, decided, committed) = run_once t h x h₁ r in
      let A = replay evals program h depth in
      let B = replay evals program (push_all h (rivals 0)) depth in
      let same =
        decide-Agree evals exec program A B h placed
          (λ upto below.
            replay-Agree evals program h (rivals 0) placed depth upto (omega (arith, below)))
          c none fr in
      let (appended, (y, carry', decided', alike)) =
        commit-serial evals exec program B h placed c none fr x carry (sym same ∙ decided)
          (rivals 0) evs h₁ readable out committed in
      (appended, (y, carry', decided', alike ∙ out))

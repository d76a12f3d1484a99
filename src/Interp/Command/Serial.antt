-- ===== src/Interp/Command/Serial.antt =====
-- src/interp.rs: what an attempt decides on the log that it read, and on the log that it appends to.
use heklang.Base.{
  ℕ, suc, ◌+◌, ◌-◌, ◌≡◌, ◌⊎◌, refl, ap, ◌∙◌, Bool, true, false, ◌||◌, Option, none, some, List, [],
  ◌∷◌, ◌++◌, All, ltb, arith, Bool-cases, inl, inr, length, length-append,
}
use heklang.Interp.Frames.{Frame, Run, done, fails, spent, ◌>>=◌}
use heklang.Interp.Frames.Binds.{>>=-eq-done, done-inj}
use heklang.Interp.Eval.{Eval}
use heklang.Interp.Exec.{Flow, Step}
use heklang.Interp.Resolve.{Resolved, narrowing, resolve}
use heklang.Interp.Fold.{Asof}
use heklang.Interp.Fold.Ignored.{Misses, Ignored, fold-grown, fold-tail}
use heklang.Interp.Command.{
  Attempt, Carry, Statements, pinned, fold_below, carry_on, run_reads, run_started, run_folds,
  start_folds, after_reads, resume, through, after_half, held_folds,
}
use heklang.Ir.Exprs.{Exprs}
use heklang.Ir.Program.{Program}
use heklang.Ir.Stages.{Stage, FoldVar, reads, some_in}
use heklang.Log.{Event, Predicate, Harness, push_all, head}
use heklang.Log.Appends.{IsPlaced, push_all-records, stamped_from}

-- The same attempt with its head at `n`.
abbrev pub moved_after : ℕ → Option ℕ → Option ℕ
moved_after n none = none
moved_after n (some at) = some n

abbrev pub moved_carry : ℕ → Option Carry → Option Carry
moved_carry n none = none
moved_carry n (some c) = some (record c { through = n })

abbrev pub moved : ℕ → Attempt → Attempt
moved n a = record {
  frame = Attempt.frame a;
  after = moved_after n (Attempt.after a);
  read = Attempt.read a;
  emitted = Attempt.emitted a;
  leading = Attempt.leading a;
  folded = moved_carry n (Attempt.folded a);
}

pinned-moved : (n : ℕ) (after : Option ℕ) → pinned (moved_after n after) n ≡ n
unfolding pinned
pinned-moved n none = refl
pinned-moved n (some at) = refl

All-left {ℓ κ} :
    {A : Type ℓ} (P : A → Type κ) (xs ys : List A) → All P (xs ++ ys) → All P xs × All P ys
All-left P [] ys h = (tt, h)
All-left P (x ∷ xs) ys (p, h) = let both = All-left P xs ys h in ((p, both.0), both.1)

Ignored-append :
    (ps qs : List Predicate) (es : List Event)
    → Ignored (ps ++ qs) es
    → Ignored ps es × Ignored qs es
Ignored-append ps qs [] h = (tt, tt)
Ignored-append ps qs (e ∷ es) (h, hs) =
    let both = All-left (Misses e) ps qs h in
    let rest = Ignored-append ps qs es hs in ((both.0, rest.0), (both.1, rest.1))

length-stamped : (n : ℕ) (es : List Event) → length (stamped_from n es) ≡ length es
unfolding stamped_from
length-stamped n [] = refl
length-stamped n (e ∷ es) = ap suc (length-stamped (suc n) es)

pub head-push_all : (h : Harness) (es : List Event) → head (push_all h es) ≡ head h + length es
unfolding head
head-push_all h es =
    let n = length (Harness.records h) in
    rw (push_all-records h es)
      (omega (arith, length-append (Harness.records h) (stamped_from n es), length-stamped n es))

pub half-moved :
    (n : ℕ) (a : Attempt) (m : Step) (p : Flow × Attempt)
    → (m >>= λ end. done (after_half a end)) ≡ done p
    → ((m >>= λ end. done (after_half (moved n a) end)) ≡ done (p.0, moved n p.1))
      × (Attempt.read p.1 ≡ Attempt.read a)
      × (Attempt.after p.1 ≡ Attempt.after a)
unfolding after_half
half-moved n a (done (flow, fr, sk)) p h = rw (← done-inj h) (refl, refl, refl)
half-moved n a (fails e) p h = absurd cc
half-moved n a spent p h = absurd cc

abbrev got_frame : Run (Frame × Unit {0}) → Run Frame
got_frame m = m >>= λ (fr, _). done fr

module _ (evals : Exprs → Eval) (exec : Statements) (program : Program) (asof : Asof) (h : Harness)
    (es : List Event) (placed : IsPlaced 0 (Harness.records h)) where
  -- The log that the events of others have come to.
  abbrev pub Later : Harness
  Later = push_all h es

  fold_below-grown :
      (exprs : Exprs) (stage : Stage) (rs : List Resolved) (from : ℕ) (fr : Frame)
      → Ignored (narrowing rs) es
      → fold_below evals exec program asof exprs stage rs Later from (head Later) fr
        ≡ fold_below evals exec program asof exprs stage rs h from (head h) fr
  unfolding fold_below
  fold_below-grown exprs stage rs from fr i =
      let grown = head-push_all h es in
      elim (Bool-cases (ltb from (head h))) [
        | inl k ↦
            let k' : ltb from (head Later) ≡ true = ground (arith, grown) in
            rw (k, k', fold_below)
              (ap got_frame (
                fold-grown (evals exprs) program asof (Stage.slices stage) rs h es from (head h - 1)
                  (head Later - 1) (fr, tt) placed i (ground arith) (ground arith)
                  (ground (arith, grown))))
        | inr k ↦ elim (Bool-cases (ltb from (head Later))) [
          | inl k' ↦
              rw (k, k', fold_below)
                (ap got_frame (
                  fold-tail (evals exprs) program asof (Stage.slices stage) rs h es from
                    (head Later - 1) (fr, tt) placed i (ground arith)))
          | inr k' ↦ rw (k, k', fold_below) refl
        ]
      ]

  carry_on-moved :
      (leading : Bool) (n at : ℕ) (rs : List Resolved) (xs : List FoldVar) (fr : Frame)
      (old c : Option Carry)
      → carry_on evals exec program asof leading at rs xs fr old ≡ done c
      → carry_on evals exec program asof leading n rs xs fr (moved_carry n old)
        ≡ done (moved_carry n c)
  unfolding carry_on
  carry_on-moved true n at rs xs fr old c h =
      let (vs, got, last) = >>=-eq-done (held_folds xs fr) _ h in rw (got, ← done-inj last) refl
  carry_on-moved false n at rs xs fr old c h = rw (done-inj h) refl

  abbrev pub IsPinned : Attempt → Type 0
  IsPinned a = pinned (Attempt.after a) (head h) ≡ head h

  -- What is left of an attempt is the same on the later log, with its head.
  abbrev pub Serial : (a b : Attempt) → Type 0
  Serial a b = Ignored (Attempt.read a) es × IsPinned b

  pub read_by :
      (P : List Predicate → Type 0) (a b : Attempt)
      → a ≡ b
      → P (Attempt.read b)
      → P (Attempt.read a)
  read_by P a b e p = rw (e) p

  run_reads-Serial :
      (exprs : Exprs) (stage : Stage) (rs : List Resolved) (from : ℕ) (a b : Attempt)
      → run_reads evals exec program asof exprs stage rs h from a ≡ done b
      → IsPinned a
      → Ignored (Attempt.read b) es
      → Serial a b
        × (run_reads evals exec program asof exprs stage rs Later from (moved (head Later) a)
            ≡ done (moved (head Later) b))
  unfolding run_reads after_reads pinned
  run_reads-Serial exprs stage rs from a b r p i =
      let at = pinned (Attempt.after a) (head h) in
      let n = head Later in
      let (fr, below, r₁) =
        >>=-eq-done (fold_below evals exec program asof exprs stage rs h from at (Attempt.frame a))
          _ r in
      let (c, carried, r₂) =
        >>=-eq-done
          (carry_on evals exec program asof (Attempt.leading a) at rs (Stage.folds stage) fr
            (Attempt.folded a))
          _ r₁ in
      let e : after_reads a at rs fr c ≡ b = done-inj r₂ in
      let both =
        Ignored-append (Attempt.read a) (narrowing rs) es
          (read_by (λ ps. Ignored ps es) (after_reads a at rs fr c) b e i) in
      let below' =
        fold_below-grown exprs stage rs from (Attempt.frame a) both.1 ∙ (rw (p) at below) in
      let carried' =
        carry_on-moved (Attempt.leading a) n at rs (Stage.folds stage) fr (Attempt.folded a) c
          carried in
      rw (← e, after_reads, pinned-moved n (Attempt.after a), below', carried') ((both.0, p), refl)

  run_started-Serial :
      (exprs : Exprs) (stage : Stage) (rs : List Resolved) (from : ℕ) (a b : Attempt)
      → run_started evals exec program asof exprs stage rs h from a ≡ done b
      → IsPinned a
      → Ignored (Attempt.read b) es
      → Serial a b
        × (run_started evals exec program asof exprs stage rs Later from (moved (head Later) a)
            ≡ done (moved (head Later) b))
  unfolding run_started
  run_started-Serial exprs stage rs from a b r p i = elim (Bool-cases (reads stage)) [
    | inl k ↦
        let r' : run_reads evals exec program asof exprs stage rs h from a ≡ done b =
          rw (k, run_started) at r in
        rw (k, run_started) (run_reads-Serial exprs stage rs from a b r' p i)
    | inr k ↦
        let r' : done a ≡ done b = rw (k, run_started) at r in
        rw (k, run_started, ← done-inj r')
          ((read_by (λ ps. Ignored ps es) a b (done-inj r') i, p), refl)
  ]

  -- The two ways of a stage, with or without anything to fold.
  pub run_folds_cases :
      (exprs : Exprs) (stage : Stage) (carried : Option Carry) (a b : Attempt)
      → run_folds evals exec program asof exprs stage h carried a ≡ done b
      → ((some_in (Stage.folds stage) || reads stage) ≡ false) × (a ≡ b)
        ⊎ ((some_in (Stage.folds stage) || reads stage) ≡ true)
          × ((rs : List Resolved) × (fr : Frame) × (fr₁ : Frame) × (resolve
                  (evals exprs)
                  program
                  (Stage.slices stage)
                  (Attempt.frame a)
                ≡ done (rs, fr))
              × (start_folds evals exec program asof exprs
                    (Stage.folds stage)
                    (resume (Attempt.leading a) carried rs)
                    fr
                  ≡ done fr₁)
              × (run_started evals exec program asof exprs stage rs h
                    (through (resume (Attempt.leading a) carried rs))
                    (record a { frame = fr₁ })
                  ≡ done b))
  unfolding run_folds
  run_folds_cases exprs stage carried a b r =
      elim (Bool-cases (some_in (Stage.folds stage) || reads stage)) [
        | inl k ↦
            let r' : (resolve (evals exprs) program (Stage.slices stage) (Attempt.frame a)
                  >>= λ (rs, fr).
                      start_folds evals exec program asof exprs (Stage.folds stage)
                        (resume (Attempt.leading a) carried rs) fr
                      >>= λ fr₁.
                          run_started evals exec program asof exprs stage rs h
                            (through (resume (Attempt.leading a) carried rs))
                            (record a { frame = fr₁ }))
                ≡ done b =
              rw (k, run_folds) at r in
            let ((rs, fr), resolved, r₁) =
              >>=-eq-done (resolve (evals exprs) program (Stage.slices stage) (Attempt.frame a)) _
                r' in
            let (fr₁, started, r₂) =
              >>=-eq-done
                (start_folds evals exec program asof exprs (Stage.folds stage)
                  (resume (Attempt.leading a) carried rs) fr)
                _ r₁ in
            inr (k, (rs, fr, fr₁, resolved, started, r₂))
        | inr k ↦ let r' : done a ≡ done b = rw (k, run_folds) at r in inl (k, done-inj r')
      ]

  pub run_folds-Serial :
      (exprs : Exprs) (stage : Stage) (carried : Option Carry) (a b : Attempt)
      → run_folds evals exec program asof exprs stage h carried a ≡ done b
      → IsPinned a
      → Ignored (Attempt.read b) es
      → Serial a b
        × (run_folds evals exec program asof exprs stage Later carried (moved (head Later) a)
            ≡ done (moved (head Later) b))
  unfolding run_folds
  run_folds-Serial exprs stage carried a b r p i =
      elim (run_folds_cases exprs stage carried a b r) [
        | inl (k, e) ↦ rw (k, run_folds, ← e) ((read_by (λ ps. Ignored ps es) a b e i, p), refl)
        | inr (k, (rs, fr, fr₁, resolved, started, r₂)) ↦
            rw (k, run_folds, resolved, started)
              (run_started-Serial exprs stage rs (through (resume (Attempt.leading a) carried rs))
                (record a { frame = fr₁ }) b r₂ p i)
      ]

  by_after : (a b : Attempt) → Attempt.after a ≡ Attempt.after b → IsPinned a → IsPinned b
  by_after a b e p = rw (← e) p

  run_started-IsPinned :
      (exprs : Exprs) (stage : Stage) (rs : List Resolved) (from : ℕ) (a b : Attempt)
      → run_started evals exec program asof exprs stage rs h from a ≡ done b
      → IsPinned a
      → IsPinned b
  unfolding run_started run_reads after_reads pinned
  run_started-IsPinned exprs stage rs from a b r p = elim (Bool-cases (reads stage)) [
    | inl k ↦
        let at = pinned (Attempt.after a) (head h) in
        let r' : run_reads evals exec program asof exprs stage rs h from a ≡ done b =
          rw (k, run_started) at r in
        let (fr, _, r₁) =
          >>=-eq-done
            (fold_below evals exec program asof exprs stage rs h from at (Attempt.frame a)) _ r' in
        let (c, _, r₂) =
          >>=-eq-done
            (carry_on evals exec program asof (Attempt.leading a) at rs (Stage.folds stage) fr
              (Attempt.folded a))
            _ r₁ in
        by_after (after_reads a at rs fr c) b (ap Attempt.after (done-inj r₂)) p
    | inr k ↦
        let r' : done a ≡ done b = rw (k, run_started) at r in
        by_after a b (ap Attempt.after (done-inj r')) p
  ]

  pub run_folds-IsPinned :
      (exprs : Exprs) (stage : Stage) (carried : Option Carry) (a b : Attempt)
      → run_folds evals exec program asof exprs stage h carried a ≡ done b
      → IsPinned a
      → IsPinned b
  run_folds-IsPinned exprs stage carried a b r p =
      elim (run_folds_cases exprs stage carried a b r) [
        | inl (k, e) ↦ by_after a b (ap Attempt.after e) p
        | inr (k, (rs, fr, fr₁, resolved, started, r₂)) ↦
            run_started-IsPinned exprs stage rs (through (resume (Attempt.leading a) carried rs))
              (record a { frame = fr₁ }) b r₂ p
      ]

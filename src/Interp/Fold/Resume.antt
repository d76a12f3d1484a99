-- ===== src/Interp/Fold/Resume.antt =====
-- src/interp.rs: a fold bounded below and above, over a log and over what that log becomes.
use heklang.Base.{
  ℕ, suc, ◌<◌, ◌≤◌, ◌≡◌, refl, sym, ap, ◌∙◌, Bool, true, false, Option, some, List, [], ◌∷◌, ◌++◌,
  append-nil, ltb, leb, if◌then◌else◌, arith, Bool-cases, inl, inr, length,
}
use heklang.Interp.Frames.{Frame, Run, ◌>>=◌}
use heklang.Interp.Frames.Binds.{bind_ext}
use heklang.Interp.Eval.{Eval}
use heklang.Interp.Resolve.{Resolved, narrowing}
use heklang.Interp.Fold.{Asof, Steps, fold_with, each_record}
use heklang.Interp.Fold.Reads.{Visit, fold-each, fold-dead, each-append}
use heklang.Ir.Program.{Program}
use heklang.Ir.Stages.{Slice, EnvBind, some_in}
use heklang.Log.{Event, Record, Predicate, Query, Harness, past, push_all, head}
use heklang.Log.Appends.{
  IsPlaced, push_all-records, stamped_from, push_all-IsPlaced, stamped_from-IsPlaced,
}
use heklang.Log.Reads.{selects, filter, past-none}

pub filter-if :
    (p : Record → Bool) (r : Record) (xs ys zs : List Record)
    → xs ≡ ys ++ zs
    → (if p r then r ∷ xs else xs) ≡ ((if p r then r ∷ ys else ys) ++ zs)
filter-if p r xs ys zs h = elim (Bool-cases (p r)) [
  | inl k ↦ rw (k) (ap (λ t. r ∷ t) h)
  | inr k ↦ rw (k) h
]

pub filter-append :
    (p : Record → Bool) (xs ys : List Record) → filter p (xs ++ ys) ≡ filter p xs ++ filter p ys
filter-append p [] ys = refl
filter-append p (x ∷ xs) ys = filter-if p x _ _ _ (filter-append p xs ys)

abbrev pub range : List Predicate → ℕ → ℕ → Query
range ps from upto = record { slices = ps; from = from; upto = some upto }

module _ (ps : List Predicate) (from a b : ℕ) (r : Record) where
  below-same :
      Record.position r ≤ a → a ≤ b → selects (range ps from b) r ≡ selects (range ps from a) r
  unfolding selects past
  below-same h l =
      let far : ltb b (Record.position r) ≡ false = ground arith in
      let near : ltb a (Record.position r) ≡ false = ground arith in rw (far, near) refl

  below-out : Record.position r ≤ a → selects (range ps (suc a) b) r ≡ false
  unfolding selects past
  below-out h =
      let low : leb (suc a) (Record.position r) ≡ false = ground arith in
      elim (Bool-cases (ltb b (Record.position r))) [
        | inl k ↦ rw (k) refl
        | inr k ↦ rw (k, low) refl
      ]

  above-out : a < Record.position r → selects (range ps from a) r ≡ false
  unfolding selects past
  above-out h = let far : ltb a (Record.position r) ≡ true = ground arith in rw (far) refl

  above-same :
      a < Record.position r
      → from ≤ suc a
      → selects (range ps from b) r ≡ selects (range ps (suc a) b) r
  unfolding selects past
  above-same h l =
      let reached : leb from (Record.position r) ≡ true = ground arith in
      let reached' : leb (suc a) (Record.position r) ≡ true = ground arith in
      rw (reached, reached') refl

past-far : (a n : ℕ) → a < n → past (some a) n ≡ true
unfolding past
past-far a n h = ground arith

pub filter-far :
    (ps : List Predicate) (from a n : ℕ) (rs : List Record)
    → IsPlaced n rs
    → a < n
    → filter (selects (range ps from a)) rs ≡ []
filter-far ps from a n rs p h = past-none (range ps from a) n rs p (past-far a n h)

-- Where the first part of a range ends, the second begins.
filter-split :
    (ps : List Predicate) (from a b n : ℕ) (rs : List Record)
    → IsPlaced n rs
    → from ≤ suc a
    → a ≤ b
    → filter (selects (range ps from b)) rs
      ≡ filter (selects (range ps from a)) rs ++ filter (selects (range ps (suc a) b)) rs
unfolding IsPlaced
filter-split ps from a b n [] p f l = refl
filter-split ps from a b n (r ∷ rs) (e, p) f l =
    let rest = filter-split ps from a b (suc n) rs p f l in
    elim (Bool-cases (leb (Record.position r) a)) [
      | inl k ↦
          let low : Record.position r ≤ a = ground arith in
          rw (below-same ps from a b r low l, below-out ps from a b r low)
            (filter-if (selects (range ps from a)) r _ _ _ rest)
      | inr k ↦
          let high : a < Record.position r = ground arith in
          let none-left = filter-far ps from a (suc n) rs p (omega (arith, e, high)) in
          let rest' = rest ∙ ap (λ t. t ++ filter (selects (range ps (suc a) b)) rs) none-left in
          rw (above-out ps from a b r high, none-left, above-same ps from a b r high f, rest') refl
    ]

-- What a bounded range selects of a log is what it selects once more was appended.
filter-pinned :
    (ps : List Predicate) (from a : ℕ) (h : Harness) (es : List Event)
    → IsPlaced 0 (Harness.records h)
    → a < head h
    → filter (selects (range ps from a)) (Harness.records (push_all h es))
      ≡ filter (selects (range ps from a)) (Harness.records h)
unfolding head
filter-pinned ps from a h es p l =
    let n = length (Harness.records h) in
    let far = filter-far ps from a n (stamped_from n es) (stamped_from-IsPlaced n es) l in
    rw (push_all-records h es, filter-append (selects (range ps from a)) (Harness.records h))
      (ap (λ t. filter (selects (range ps from a)) (Harness.records h) ++ t) far ∙ append-nil _)

module _ (ev : Eval) (program : Program) (asof : Asof) {S : Type 0} (slices : List Slice)
    (rs : List Resolved) (envelope : List EnvBind) (steps : Option (Steps S)) where
  abbrev pub Folds : Harness → ℕ → Option ℕ → Frame × S → Run (Frame × S)
  Folds = fold_with ev program asof slices rs envelope steps

  -- A fold up to a position below the head is the same fold once more events were appended.
  pub fold-pinned :
      (h : Harness) (es : List Event) (from a : ℕ) (at : Frame × S)
      → IsPlaced 0 (Harness.records h)
      → a < head h
      → Folds (push_all h es) from (some a) at ≡ Folds h from (some a) at
  fold-pinned h es from a at p l = elim (Bool-cases (some_in (narrowing rs))) [
    | inl live ↦
        fold-each ev program asof slices rs envelope steps (push_all h es) from (some a) at
          (push_all-IsPlaced h es p) live
        ∙ ap (each_record (Visit ev program asof slices rs envelope steps) at)
            (filter-pinned (narrowing rs) from a h es p l)
        ∙ sym (fold-each ev program asof slices rs envelope steps h from (some a) at p live)
    | inr dead ↦
        fold-dead ev program asof slices rs envelope steps (push_all h es) from (some a) at dead
        ∙ sym (fold-dead ev program asof slices rs envelope steps h from (some a) at dead)
  ]

  pub fold-split :
      (h : Harness) (from a b : ℕ) (at : Frame × S)
      → IsPlaced 0 (Harness.records h)
      → from ≤ suc a
      → a ≤ b
      → Folds h from (some b) at
        ≡ (Folds h from (some a) at >>= λ at₁. Folds h (suc a) (some b) at₁)
  fold-split h from a b at p f l =
      let Walk = each_record (Visit ev program asof slices rs envelope steps) in
      let part =
        λ (from b : ℕ). filter (selects (range (narrowing rs) from b)) (Harness.records h) in
      elim (Bool-cases (some_in (narrowing rs))) [
        | inl live ↦
            let first =
              fold-each ev program asof slices rs envelope steps h from (some a) at p live in
            let both =
              fold-each ev program asof slices rs envelope steps h from (some b) at p live in
            let second = λ (at₁ : Frame × S).
              sym (
                fold-each ev program asof slices rs envelope steps h (suc a) (some b) at₁ p live) in
            both
            ∙ ap (Walk at) (filter-split (narrowing rs) from a b 0 (Harness.records h) p f l)
            ∙ each-append (Visit ev program asof slices rs envelope steps) (part from a)
                (part (suc a) b) at
            ∙ ap (λ m. m >>= λ at₁. Walk at₁ (part (suc a) b)) (sym first)
            ∙ bind_ext (Folds h from (some a) at) _ _ second
        | inr dead ↦
            let whole =
              fold-dead ev program asof slices rs envelope steps h from (some b) at dead in
            let first =
              fold-dead ev program asof slices rs envelope steps h from (some a) at dead in
            let second =
              fold-dead ev program asof slices rs envelope steps h (suc a) (some b) at dead in
            whole ∙ sym (ap (λ m. m >>= λ at₁. Folds h (suc a) (some b) at₁) first ∙ second)
      ]

  -- A fold of a log up to a position, and from there on a fold of what the log has become, is one
  -- fold of what it has become.
  pub fold-resumed :
      (h : Harness) (es : List Event) (from a b : ℕ) (at : Frame × S)
      → IsPlaced 0 (Harness.records h)
      → a < head h
      → from ≤ suc a
      → a ≤ b
      → (Folds h from (some a) at >>= λ at₁. Folds (push_all h es) (suc a) (some b) at₁)
        ≡ Folds (push_all h es) from (some b) at
  fold-resumed h es from a b at p l f m =
      rw (← fold-pinned h es from a at p l)
        (sym (fold-split (push_all h es) from a b at (push_all-IsPlaced h es p) f m))

-- ===== src/Interp/Fold/Ignored.antt =====
-- src/interp.rs: records that no live slice of a stage holds pass a fold by.
use heklang.Base.{
  ℕ, suc, ◌+◌, ◌≤◌, ◌≡◌, refl, ap, ◌∙◌, Bool, true, false, none, some, List, [], ◌∷◌, ◌++◌, all,
  All, leb, if◌then◌else◌, arith, Bool-cases, Option-cases, inl, inr, length,
}
use heklang.Ir.{Ident}
use heklang.Value.{Value}
use heklang.Interp.Frames.{Frame, done}
use heklang.Interp.Frames.Binds.{bind_ext, bind-done}
use heklang.Interp.Eval.{Eval}
use heklang.Interp.Resolve.{Resolved, narrowing, need_field, matches, match_filters}
use heklang.Interp.Fold.{
  Asof, each_record, visit_record, visit_slices, visit_slice, set_envelope, report,
}
use heklang.Interp.Fold.Reads.{Visit, fold-each, fold-dead}
use heklang.Interp.Fold.Resume.{Folds, fold-pinned, fold-split, filter-append, range}
use heklang.Ir.Program.{Program}
use heklang.Ir.Stages.{Slice, some_in}
use heklang.Log.{
  Event, Record, Predicate, Harness, past, field, path_eq, wanted, holds, push_all, head, stamped,
}
use heklang.Log.Appends.{IsPlaced, push_all-records, stamped_from, push_all-IsPlaced}
use heklang.Log.Reads.{selects, filter}

-- Each filter names a field that the event has.
unfoldable pub has_fields : Event → List (Ident × Value) → Bool
has_fields e fs = all (λ f. elim (field e f.0) [ some v ↦ true | none ↦ false ]) fs

-- An event of the slice's type has the fields that the slice filters by.
unfoldable pub readable : Event → Predicate → Bool
readable e p =
    if path_eq (Predicate.event p) (Event.path e) then has_fields e (Predicate.filters p) else true

-- An event that the slice does not hold, and that can be asked.
abbrev pub Misses : Event → Predicate → Type 0
Misses e p = (holds p e ≡ false) × (readable e p ≡ true)

abbrev pub Ignored : List Predicate → List Event → Type 0
Ignored ps es = All (λ e. All (Misses e) ps) es

match_filters-all :
    (e : Event) (fs : List (Ident × Value))
    → has_fields e fs ≡ true
    → match_filters e fs ≡ done (all (wanted e) fs)
unfolding match_filters need_field has_fields wanted
match_filters-all e [] h = refl
match_filters-all e ((name, want) ∷ fs) h = elim (Option-cases (field e name)) [
  | inl k ↦ let no : false ≡ true = rw (k) at h in absurd cc
  | inr (v, k) ↦
      let rest : has_fields e fs ≡ true = rw (k) at h in
      rw (k) (ground (arith, match_filters-all e fs rest))
]

matches-holds : (p : Predicate) (e : Event) → readable e p ≡ true → matches p e ≡ done (holds p e)
unfolding matches holds readable
matches-holds p e h = elim (Bool-cases (path_eq (Predicate.event p) (Event.path e))) [
  | inl k ↦
      let has : has_fields e (Predicate.filters p) ≡ true = rw (k) at h in
      rw (k, matches) (match_filters-all e (Predicate.filters p) has)
  | inr k ↦ rw (k, matches) refl
]

module _ (rs : List Resolved) where
  -- Records of events that no live slice holds.
  abbrev Quiet : List Record → Type 0
  Quiet l = All (λ r. All (Misses (Record.event r)) (narrowing rs)) l

  filter-Quiet : (p : Record → Bool) (l : List Record) → Quiet l → Quiet (filter p l)
  filter-Quiet p [] q = q
  filter-Quiet p (r ∷ l) (q, qs) = elim (Bool-cases (p r)) [
    | inl k ↦ rw (k) (q, filter-Quiet p l qs)
    | inr k ↦ rw (k) (filter-Quiet p l qs)
  ]

  stamped-Quiet : (n : ℕ) (es : List Event) → Ignored (narrowing rs) es → Quiet (stamped_from n es)
  unfolding stamped_from stamped
  stamped-Quiet n [] h = h
  stamped-Quiet n (e ∷ es) (h, hs) = (h, stamped-Quiet (suc n) es hs)

filter-below :
    (ps : List Predicate) (from b n : ℕ) (rs : List Record)
    → IsPlaced n rs
    → n + length rs ≤ from
    → filter (selects (range ps from b)) rs ≡ []
unfolding IsPlaced selects
filter-below ps from b n [] p l = refl
filter-below ps from b n (r ∷ rs) (e, p) l =
    let low : leb from (Record.position r) ≡ false = ground arith in
    let rest = filter-below ps from b (suc n) rs p (omega (arith, l)) in
    elim (Bool-cases (past (some b) (Record.position r))) [
      | inl k ↦ rw (k) rest
      | inr k ↦ rw (k, low) rest
    ]

module _ (ev : Eval) (program : Program) (asof : Asof) where
  visit_slice-missed :
      (s : Slice) (res : Resolved) (r : Record) (fr : Frame)
      → Resolved.live res ≡ true
      → Misses (Record.event r) (Resolved.predicate res)
      → visit_slice ev program asof s res r fr ≡ done fr
  unfolding visit_slice
  visit_slice-missed s res r fr live (h, f) =
      rw (live, matches-holds (Resolved.predicate res) (Record.event r) f, h) refl

  visit_slice-dead :
      (s : Slice) (res : Resolved) (r : Record) (fr : Frame)
      → Resolved.live res ≡ false
      → visit_slice ev program asof s res r fr ≡ done fr
  unfolding visit_slice
  visit_slice-dead s res r fr dead = rw (dead) refl

  visit_slices-missed :
      (ss : List Slice) (rs : List Resolved) (r : Record) (fr : Frame)
      → All (Misses (Record.event r)) (narrowing rs)
      → visit_slices ev program asof ss rs r fr ≡ done fr
  unfolding visit_slices narrowing
  visit_slices-missed [] rs r fr h = refl
  visit_slices-missed (s ∷ ss) [] r fr h = refl
  visit_slices-missed (s ∷ ss) (res ∷ rs) r fr h = elim (Bool-cases (Resolved.live res)) [
    | inl k ↦
        let both : Misses (Record.event r) (Resolved.predicate res)
            × All (Misses (Record.event r)) (narrowing rs) =
          rw (k) at h in
        rw (visit_slice-missed s res r fr k both.0) (visit_slices-missed ss rs r fr both.1)
    | inr k ↦
        let rest : All (Misses (Record.event r)) (narrowing rs) = rw (k) at h in
        rw (visit_slice-dead s res r fr k) (visit_slices-missed ss rs r fr rest)
  ]

  module _ {S : Type 0} (slices : List Slice) (rs : List Resolved) where
    each-Quiet :
        (l : List Record) (at : Frame × S)
        → Quiet rs l
        → each_record (Visit ev program asof slices rs [] none) at l ≡ done at
    unfolding each_record visit_record set_envelope report
    each-Quiet [] at q = refl
    each-Quiet (r ∷ l) (fr, s) (q, qs) =
        rw (visit_slices-missed slices rs r fr q) (each-Quiet l (fr, s) qs)

    -- Behind the head there is nothing to fold.
    pub fold-tail :
        (h : Harness) (es : List Event) (from b : ℕ) (at : Frame × S)
        → IsPlaced 0 (Harness.records h)
        → Ignored (narrowing rs) es
        → head h ≤ from
        → Folds ev program asof slices rs [] none (push_all h es) from (some b) at ≡ done at
    unfolding head
    fold-tail h es from b at p i l = elim (Bool-cases (some_in (narrowing rs))) [
      | inl live ↦
          let n = length (Harness.records h) in
          let sel = selects (range (narrowing rs) from b) in
          let old = filter-below (narrowing rs) from b 0 (Harness.records h) p (omega (arith, l)) in
          let new = filter-Quiet rs sel (stamped_from n es) (stamped-Quiet rs n es i) in
          let all =
            ap (filter sel) (push_all-records h es)
            ∙ filter-append sel (Harness.records h) (stamped_from n es)
            ∙ ap (λ t. t ++ filter sel (stamped_from n es)) old in
          fold-each ev program asof slices rs [] none (push_all h es) from (some b) at
            (push_all-IsPlaced h es p) live
          ∙ ap (each_record (Visit ev program asof slices rs [] none) at) all
          ∙ each-Quiet (filter sel (stamped_from n es)) at new
      | inr dead ↦ fold-dead ev program asof slices rs [] none (push_all h es) from (some b) at dead
    ]

    -- What others append that no live slice holds changes nothing of a fold up to the head.
    pub fold-grown :
        (h : Harness) (es : List Event) (from a b : ℕ) (at : Frame × S)
        → IsPlaced 0 (Harness.records h)
        → Ignored (narrowing rs) es
        → suc a ≡ head h
        → from ≤ suc a
        → a ≤ b
        → Folds ev program asof slices rs [] none (push_all h es) from (some b) at
          ≡ Folds ev program asof slices rs [] none h from (some a) at
    fold-grown h es from a b at p i l f m =
        let old = Folds ev program asof slices rs [] none (push_all h es) in
        fold-split ev program asof slices rs [] none (push_all h es) from a b at
          (push_all-IsPlaced h es p) f m
        ∙ bind_ext (old from (some a) at) (λ at₁. old (suc a) (some b) at₁) done
            (λ at₁. fold-tail h es (suc a) b at₁ p i (omega (arith, l)))
        ∙ bind-done (old from (some a) at)
        ∙ fold-pinned ev program asof slices rs [] none h es from a at p (omega (arith, l))

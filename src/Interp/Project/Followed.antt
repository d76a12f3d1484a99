-- ===== src/Interp/Project/Followed.antt =====
-- src/interp.rs: a projection that is applied to each record of a log, and one that reads those that
-- its query selects.
use heklang.Base.{
  ℕ, suc, ◌+◌, ◌≤◌, ◌^◌, ◌-◌, ◌<◌, ◌≡◌, refl, sym, ap, ◌∙◌, Bool, true, false, ◌||◌, List, [], ◌∷◌,
  ◌++◌, any, ltb, leb, arith, Bool-cases, inl, inr, length, length-append, same_iff,
}
use heklang.Ir.{EventPath, EventPath-discrete}
use heklang.Ir.Exprs.{Exprs}
use heklang.Ir.Program.{Program, Projector, Handler}
use heklang.Interp.Frames.{Run, done, ◌>>=◌}
use heklang.Interp.Frames.Binds.{bind_ext}
use heklang.Interp.Eval.{Eval}
use heklang.Interp.Exec.{CallVoid}
use heklang.Interp.Fold.{each_record}
use heklang.Interp.Fold.Reads.{read_log-each, each-append}
use heklang.Interp.Rows.{Rows}
use heklang.Interp.Project.{
  apply_handlers, apply, add_slice, handled, projection_query, project_into,
}
use heklang.Log.{Event, Record, Predicate, Harness, names, past, path_eq, predicate, push_all, head}
use heklang.Log.Appends.{IsPlaced, push_all-records, stamped_from, push_all-IsPlaced}
use heklang.Log.Reads.{selects, filter}

path_eq_trans : (a b c : EventPath) → path_eq a b ≡ true → path_eq b c ≡ true → path_eq a c ≡ true
unfolding path_eq
path_eq_trans a b c h k =
    let p = (same_iff EventPath-discrete a b).0 h in
    let q = (same_iff EventPath-discrete b c).0 k in (same_iff EventPath-discrete a c).1 (p ∙ q)

or_assoc : (a b c : Bool) → (a || (b || c)) ≡ ((a || b) || c)
or_assoc true b c = refl
or_assoc false b c = refl

or_false : (a : Bool) → (a || false) ≡ a
or_false true = refl
or_false false = refl

or_absorbed : (a b : Bool) → (b ≡ true → a ≡ true) → a ≡ (a || b)
or_absorbed true b h = refl
or_absorbed false true h = h refl
or_absorbed false false h = refl

module _ (r : Record) where
  abbrev at : EventPath
  at = Event.path (Record.event r)

  names-known :
      (path : EventPath) (ps : List Predicate)
      → any (λ p. path_eq (Predicate.event p) path) ps ≡ true
      → path_eq path at ≡ true
      → names ps r ≡ true
  unfolding names
  names-known path [] h k = absurd cc
  names-known path (p ∷ ps) h k = elim (Bool-cases (path_eq (Predicate.event p) path)) [
    | inl e ↦ rw (path_eq_trans (Predicate.event p) path at e k) refl
    | inr e ↦
        let rest : any (λ p. path_eq (Predicate.event p) path) ps ≡ true = rw (e) at h in
        let known = names-known path ps rest k in ground arith
  ]

  names-append : (ps qs : List Predicate) → names (ps ++ qs) r ≡ (names ps r || names qs r)
  unfolding names
  names-append [] qs = refl
  names-append (p ∷ ps) qs = rw (names-append ps qs) (or_assoc (path_eq (Predicate.event p) at) _ _)

  names-add_slice :
      (path : EventPath) (ps : List Predicate)
      → names (add_slice path ps) r ≡ (names ps r || path_eq path at)
  unfolding add_slice names predicate
  names-add_slice path ps = elim (Bool-cases (any (λ p. path_eq (Predicate.event p) path) ps)) [
    | inl e ↦ rw (e) (or_absorbed (names ps r) (path_eq path at) (names-known path ps e))
    | inr e ↦ rw (e) (
        names-append ps (predicate path [] ∷ [])
        ∙ ap (λ b. names ps r || b) (or_false (path_eq path at)))
  ]

  names-handled :
      (hs : List Handler) (ps : List Predicate)
      → names (handled hs ps) r ≡ (names ps r || any (λ h. path_eq (Handler.event h) at) hs)
  unfolding handled
  names-handled [] ps = sym (or_false (names ps r))
  names-handled (h ∷ hs) ps =
      names-handled hs (add_slice (Handler.event h) ps)
      ∙ ap (λ b. b || any (λ h. path_eq (Handler.event h) at) hs)
          (names-add_slice (Handler.event h) ps)
      ∙ sym (or_assoc (names ps r) (path_eq (Handler.event h) at) _)

module _ (evals : Exprs → Eval) (depth : ℕ) (program : Program) (call_void : CallVoid)
    (projector : Projector) {S : Type 0} (rows : Rows S) where
  abbrev applied : S → Record → Run S
  applied = apply evals depth program call_void projector rows

  unhandled :
      (hs : List Handler) (r : Record) (s : S)
      → any (λ h. path_eq (Handler.event h) (Event.path (Record.event r))) hs ≡ false
      → apply_handlers evals depth program call_void projector rows hs r s ≡ done s
  unfolding apply_handlers
  unhandled [] r s h = refl
  unhandled (x ∷ hs) r s h = elim (Bool-cases (path_eq (Handler.event x) (at r))) [
    | inl e ↦ let no : true ≡ false = rw (e) at h in absurd cc
    | inr e ↦
        let rest : any (λ h. path_eq (Handler.event h) (Event.path (Record.event r))) hs ≡ false =
          rw (e) at h in
        rw (e, apply_handlers) (unhandled hs r s rest)
  ]

  unselected :
      (r : Record) (s : S)
      → names (handled (Projector.handlers projector) []) r ≡ false
      → applied s r ≡ done s
  unfolding apply names
  unselected r s h =
      unhandled (Projector.handlers projector) r s
        (sym (names-handled r (Projector.handlers projector) []) ∙ h)

  selects-names :
      (r : Record)
      → Record.position r < 2 ^ 64
      → selects (projection_query projector) r ≡ names (handled (Projector.handlers projector) []) r
  unfolding selects past projection_query
  selects-names r l =
      let short : ltb (2 ^ 64 - 1) (Record.position r) ≡ false = ground arith in
      let started : leb 0 (Record.position r) ≡ true = ground arith in rw (short, started) refl

  each-selected :
      (n : ℕ) (rs : List Record) (s : S)
      → IsPlaced n rs
      → n + length rs ≤ 2 ^ 64
      → each_record applied s (filter (selects (projection_query projector)) rs)
        ≡ each_record applied s rs
  unfolding each_record IsPlaced
  each-selected n [] s p l = refl
  each-selected n (r ∷ rs) s (e, p) l =
      let rest : (s₁ : S)
          → each_record applied s₁ (filter (selects (projection_query projector)) rs)
            ≡ each_record applied s₁ rs =
        λ s₁. each-selected (suc n) rs s₁ p (omega (arith, l)) in
      let near = selects-names r (omega (arith, l, e)) in
      elim (Bool-cases (selects (projection_query projector) r)) [
        | inl k ↦ rw (k, filter) (bind_ext (applied s r) _ _ rest)
        | inr k ↦
            rw (k, filter)
              (rest s
                ∙ sym (
                    ap (λ m. m >>= λ s₁. each_record applied s₁ rs)
                      (unselected r s (sym near ∙ k))))
      ]

  -- A rebuild, which reads the records that the projector subscribes to, leaves the rows that
  -- following the log leaves, where each of its records is applied; the log has no more records than
  -- a `u64` counts.
  pub project_into-each :
      (h : Harness) (s : S)
      → IsPlaced 0 (Harness.records h)
      → head h ≤ 2 ^ 64
      → project_into evals depth program call_void projector rows h s
        ≡ each_record applied s (Harness.records h)
  unfolding project_into head
  project_into-each h s p l =
      read_log-each applied h (projection_query projector) s p
      ∙ each-selected 0 (Harness.records h) s p (omega (arith, l))

  -- Once events were appended, a rebuild leaves the rows that the records of these leave, applied to
  -- the rows of a rebuild from before; the records stood at their own positions, and the log has no
  -- more of them than a `u64` counts.
  pub project_into-push_all :
      (h : Harness) (es : List Event) (s : S)
      → IsPlaced 0 (Harness.records h)
      → head (push_all h es) ≤ 2 ^ 64
      → project_into evals depth program call_void projector rows (push_all h es) s ≡ (
          project_into evals depth program call_void projector rows h s >>= λ s₁.
          each_record applied s₁ (stamped_from (head h) es))
  unfolding head
  project_into-push_all h es s p l =
      let less : head h ≤ 2 ^ 64 =
        let sum = ap length (push_all-records h es) ∙ length-append (Harness.records h) _ in
        omega (arith, l, sum) in
      project_into-each (push_all h es) s (push_all-IsPlaced h es p) l
      ∙ ap (each_record applied s) (push_all-records h es)
      ∙ each-append applied (Harness.records h) (stamped_from (head h) es) s
      ∙ ap (λ m. m >>= λ s₁. each_record applied s₁ (stamped_from (head h) es))
          (sym (project_into-each h s p less))

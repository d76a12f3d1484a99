-- ===== src/Interp/Fold/Reads.antt =====
-- src/interp.rs: `fold` as a walk over the records that its query selects.
use heklang.Base.{
  ℕ, ◌≡◌, refl, ap, ◌∙◌, Bool, true, false, Option, List, [], ◌∷◌, ◌++◌, append_assoc, append-nil,
}
use heklang.Interp.Frames.{Frame, Run, done, fails, spent, ◌>>=◌}
use heklang.Interp.Errors
use heklang.Interp.Eval.{Eval}
use heklang.Interp.Resolve.{Resolved, narrowing}
use heklang.Interp.Fold.{
  Visitor, as_result, visiting, visited, read_log, each_record, Asof, Steps, visit_record,
  read_records, fold_with,
}
use heklang.Ir.Program.{Program}
use heklang.Ir.Stages.{Slice, EnvBind, some_in}
use heklang.Log.{Record, Query, Harness}
use heklang.Log.Appends.{IsPlaced}
use heklang.Log.Reads.{selects, filter, visit_all, read-visit_all}

module _ {S : Type 0} (visit : Visitor S) where
  visited-spent : (l : List Record) → visited (visit_all (visiting visit) spent l) ≡ spent
  unfolding visiting
  visited-spent [] = refl
  visited-spent (r ∷ rs) = visited-spent rs

  visited-result :
      (l : List Record) (m : Run S)
      → ((s : S) → visited (visit_all (visiting visit) (done s) l) ≡ each_record visit s l)
      → visited (Errors.◌>>=◌ (as_result m) λ m₁. visit_all (visiting visit) m₁ l)
        ≡ (m >>= λ s₁. each_record visit s₁ l)
  unfolding as_result
  visited-result l (done s) h = h s
  visited-result l (fails e) h = refl
  visited-result l spent h = visited-spent l

  visited-each :
      (l : List Record) (s : S)
      → visited (visit_all (visiting visit) (done s) l) ≡ each_record visit s l
  unfolding visiting each_record
  visited-each [] s = refl
  visited-each (r ∷ rs) s = visited-result rs (visit s r) (visited-each rs)

  pub read_log-each :
      (h : Harness) (q : Query) (s : S)
      → IsPlaced 0 (Harness.records h)
      → read_log h q visit s ≡ each_record visit s (filter (selects q) (Harness.records h))
  unfolding read_log
  read_log-each h q s p =
      ap visited (read-visit_all h q (visiting visit) (done s) p)
      ∙ visited-each (filter (selects q) (Harness.records h)) s

  each-bind :
      (ys : List Record) (m : Run S) (f g : S → Run S)
      → ((s : S) → f s ≡ (g s >>= λ s₁. each_record visit s₁ ys))
      → (m >>= f) ≡ ((m >>= g) >>= λ s₁. each_record visit s₁ ys)
  each-bind ys (done s) f g h = h s
  each-bind ys (fails e) f g h = refl
  each-bind ys spent f g h = refl

  pub each-append :
      (xs ys : List Record) (s : S)
      → each_record visit s (xs ++ ys) ≡ (each_record visit s xs >>= λ s₁. each_record visit s₁ ys)
  unfolding each_record
  each-append [] ys s = refl
  each-append (x ∷ xs) ys s =
      each-bind ys (visit s x) (λ s₁. each_record visit s₁ (xs ++ ys))
        (λ s₁. each_record visit s₁ xs) (each-append xs ys)

each-collect :
    (l found : List Record)
    → each_record (λ (found : List Record) r. done (found ++ r ∷ [])) found l ≡ done (found ++ l)
unfolding each_record
each-collect [] found = rw (append-nil found) refl
each-collect (r ∷ rs) found =
    each-collect rs (found ++ r ∷ []) ∙ ap done (append_assoc found (r ∷ []) rs)

module _ (ev : Eval) (program : Program) (asof : Asof) {S : Type 0} (slices : List Slice)
    (rs : List Resolved) (envelope : List EnvBind) (steps : Option (Steps S)) where
  abbrev pub Visit : Visitor (Frame × S)
  Visit = visit_record ev program asof slices rs envelope steps

  pub read_records-each :
      (buffered : Bool) (h : Harness) (q : Query) (at : Frame × S)
      → IsPlaced 0 (Harness.records h)
      → read_records ev program asof slices rs envelope steps buffered h q at
        ≡ each_record Visit at (filter (selects q) (Harness.records h))
  unfolding read_records
  read_records-each false h q at p = read_log-each Visit h q at p
  read_records-each true h q at p =
      let l = filter (selects q) (Harness.records h) in
      let found = read_log-each (λ (found : List Record) r. done (found ++ r ∷ [])) h q [] p in
      rw (found, each-collect l []) refl

  abbrev pub query : (from : ℕ) → (upto : Option ℕ) → Query
  query from upto = record { slices = narrowing rs; from = from; upto = upto }

  -- A fold is a walk over the records that its live slices and its range select.
  pub fold-each :
      (h : Harness) (from : ℕ) (upto : Option ℕ) (at : Frame × S)
      → IsPlaced 0 (Harness.records h)
      → some_in (narrowing rs) ≡ true
      → fold_with ev program asof slices rs envelope steps h from upto at
        ≡ each_record Visit at (filter (selects (query from upto)) (Harness.records h))
  unfolding fold_with
  fold-each h from upto at p live =
      rw (live, fold_with) (read_records-each _ h (query from upto) at p)

  pub fold-dead :
      (h : Harness) (from : ℕ) (upto : Option ℕ) (at : Frame × S)
      → some_in (narrowing rs) ≡ false
      → fold_with ev program asof slices rs envelope steps h from upto at ≡ done at
  unfolding fold_with
  fold-dead h from upto at dead = rw (dead, fold_with) refl

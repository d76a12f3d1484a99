-- ===== src/Interp/Fold/History.antt =====
-- src/interp.rs: `fold_steps`, the value of a fold after each of its records.
use heklang.Base.{
  ℕ, suc, ◌≤◌, ◌≡◌, refl, sym, ap, ◌∙◌, true, false, none, some, List, [], ◌∷◌, ◌++◌, append_assoc,
  append-nil, map, All, leb, ltb, arith, Bool-cases, inl, inr,
}
use mathlib.Core.List.{map-append}
use heklang.Ir.Exprs.{Slot}
use heklang.Ir.Stages.{Slice, EnvBind, some_in}
use heklang.Ir.Program.{Program}
use heklang.Value.{Value}
use heklang.Interp.Frames.{Frame, Run, done, ◌>>=◌, read_slot}
use heklang.Interp.Frames.Binds.{>>=-eq-done, done-inj}
use heklang.Interp.Eval.{Eval}
use heklang.Interp.Resolve.{Resolved, narrowing}
use heklang.Interp.Fold.{Asof, Steps, each_record, visit_record, visit_slices, set_envelope, report}
use heklang.Interp.Fold.Reads.{Visit}
use heklang.Interp.Fold.Resume.{range, filter-far}
use heklang.Log.{Record, Predicate, past, names}
use heklang.Log.Appends.{IsPlaced}
use heklang.Log.Reads.{selects, filter}

-- Each step with the position of its record.
abbrev pub History : Type 0
History = List (ℕ × Value)

abbrev pub recorder : Slot → Steps History
recorder slot = record { slot = slot; visit = λ s r v. done (s ++ (Record.position r, v) ∷ []) }

module _ (ps : List Predicate) (r : Record) where
  -- A record that a slice names, and the ends of a range.
  selects-upto : (b : ℕ) → Record.position r ≤ b → selects (range ps 0 b) r ≡ names ps r
  unfolding selects past
  selects-upto b l =
      let near : ltb b (Record.position r) ≡ false = ground arith in
      let low : leb 0 (Record.position r) ≡ true = ground arith in rw (near, low) refl

  filter-named :
      (b : ℕ) (rs : List Record)
      → Record.position r ≤ b
      → names ps r ≡ true
      → filter (selects (range ps 0 b)) (r ∷ rs) ≡ r ∷ filter (selects (range ps 0 b)) rs
  filter-named b rs l k = rw (selects-upto b l, k) refl

  filter-unnamed :
      (b : ℕ) (rs : List Record)
      → Record.position r ≤ b
      → names ps r ≡ false
      → filter (selects (range ps 0 b)) (r ∷ rs) ≡ filter (selects (range ps 0 b)) rs
  filter-unnamed b rs l k = rw (selects-upto b l, k) refl

-- Without a slice there is nothing to read.
unasked :
    (ps : List Predicate) (last : ℕ) (r : Record)
    → some_in ps ≡ false
    → selects (range ps 0 last) r ≡ false
unfolding selects names some_in
unasked [] last r h = elim (Bool-cases (past (some last) (Record.position r))) [
  | inl k ↦ rw (k) refl
  | inr k ↦ elim (Bool-cases (leb 0 (Record.position r))) [
    | inl l ↦ rw (k, l) refl
    | inr l ↦ rw (k, l) refl
  ]
]
unasked (p ∷ ps) last r h = absurd cc

pub filter-unasked :
    (ps : List Predicate) (last : ℕ) (l : List Record)
    → some_in ps ≡ false
    → filter (selects (range ps 0 last)) l ≡ []
filter-unasked ps last [] h = refl
filter-unasked ps last (r ∷ l) h = rw (unasked ps last r h) (filter-unasked ps last l h)

module _ (ev : Eval) (program : Program) (asof : Asof) (slices : List Slice) (rs : List Resolved)
    (envelope : List EnvBind) (slot : Slot) where
  abbrev Plain : Frame × Unit {0} → Record → Run (Frame × Unit {0})
  Plain = Visit ev program asof slices rs envelope none

  abbrev Told : Frame × History → Record → Run (Frame × History)
  Told = Visit ev program asof slices rs envelope (some (recorder slot))

  -- A record that is told goes as one that is not, and its step is what the slot holds then.
  told-plain :
      (fr : Frame) (s : History) (r : Record) (p : Frame × History)
      → Told (fr, s) r ≡ done p
      → (w : Value) × (Plain (fr, tt) r ≡ done (p.0, tt))
        × (read_slot p.0 slot ≡ done w)
        × (p.1 ≡ s ++ (Record.position r, w) ∷ [])
  unfolding visit_record report
  told-plain fr s r p h =
      let (fr₁, enveloped, h₁) = >>=-eq-done (set_envelope envelope r fr) _ h in
      let (fr₂, visited, h₂) = >>=-eq-done (visit_slices ev program asof slices rs r fr₁) _ h₁ in
      let (s₁, told, h₃) =
        >>=-eq-done (read_slot fr₂ slot >>= λ v. done (s ++ (Record.position r, v) ∷ []))
          (λ (s₁ : History). done (fr₂, s₁)) h₂ in
      let (w, held, h₄) = >>=-eq-done (read_slot fr₂ slot) _ told in
      let e : (fr₂, s₁) ≡ p = done-inj h₃ in
      (
        w,
        rw (enveloped, visited) (ap (λ (q : Frame × History). done (q.0, tt)) e),
        ap (λ (q : Frame × History). read_slot q.0 slot) (sym e) ∙ held,
        ap (λ (q : Frame × History). q.1) (sym e) ∙ sym (done-inj h₄),
      )

  -- What the plain fold of the records up to a position leaves in the slot.
  abbrev pub HeldAt : Frame → List Record → ℕ × Value → Type 0
  HeldAt fr l (at, w) =
      (fr' : Frame) × (each_record Plain (fr, tt) (filter (selects (range (narrowing rs) 0 at)) l)
        ≡ done (fr', tt))
      × (read_slot fr' slot ≡ done w)

  -- The steps behind position `n`.
  abbrev pub StepsFrom : ℕ → Frame → List Record → History → Type 0
  StepsFrom n fr l vs = All (λ step. (n ≤ step.0) × HeldAt fr l step) vs

  past-unnamed :
      (n : ℕ) (fr : Frame) (x : Record) (l : List Record) (vs : History)
      → Record.position x ≤ n
      → names (narrowing rs) x ≡ false
      → StepsFrom (suc n) fr l vs
      → StepsFrom n fr (x ∷ l) vs
  past-unnamed n fr x l [] e k all = tt
  past-unnamed n fr x l ((at, w) ∷ vs) e k ((m, (fr', walk, held)), all) =
      let same = filter-unnamed (narrowing rs) x at l (omega (arith, e, m)) k in
      (
        (omega (arith, m), (fr', ap (each_record Plain (fr, tt)) same ∙ walk, held)),
        past-unnamed n fr x l vs e k all,
      )

  past-named :
      (n : ℕ) (fr fr₁ : Frame) (x : Record) (l : List Record) (vs : History)
      → Record.position x ≤ n
      → names (narrowing rs) x ≡ true
      → Plain (fr, tt) x ≡ done (fr₁, tt)
      → StepsFrom (suc n) fr₁ l vs
      → StepsFrom n fr (x ∷ l) vs
  unfolding each_record
  past-named n fr fr₁ x l [] e k plain all = tt
  past-named n fr fr₁ x l ((at, w) ∷ vs) e k plain ((m, (fr', walk, held)), all) =
      let same = filter-named (narrowing rs) x at l (omega (arith, e, m)) k in
      let walk' =
        ap
          (λ m. m >>= λ (q : Frame × Unit {0}).
            each_record Plain q (filter (selects (range (narrowing rs) 0 at)) l))
          plain
        ∙ walk in
      (
        (omega (arith, m), (fr', ap (each_record Plain (fr, tt)) same ∙ walk', held)),
        past-named n fr fr₁ x l vs e k plain all,
      )

  first-held :
      (fr fr₁ : Frame) (n : ℕ) (x : Record) (l : List Record)
      → Record.position x ≡ n
      → IsPlaced (suc n) l
      → names (narrowing rs) x ≡ true
      → Plain (fr, tt) x ≡ done (fr₁, tt)
      → each_record Plain
          (fr, tt)
          (filter (selects (range (narrowing rs) 0 (Record.position x))) (x ∷ l))
        ≡ done (fr₁, tt)
  unfolding each_record
  first-held fr fr₁ n x l e placed k plain =
      let at = Record.position x in
      let far = filter-far (narrowing rs) 0 at (suc n) l placed (omega (arith, e)) in
      let same = filter-named (narrowing rs) x at l (omega arith) k ∙ ap (λ t. x ∷ t) far in
      ap (each_record Plain (fr, tt)) same ∙ ap (λ m. m >>= λ (q : Frame × Unit {0}). done q) plain

  pub steps-held :
      (b n : ℕ) (l : List Record) (fr : Frame) (s : History) (p : Frame × History)
      → IsPlaced n l
      → each_record Told (fr, s) (filter (selects (range (narrowing rs) 0 b)) l) ≡ done p
      → (vs : History) × (p.1 ≡ s ++ vs) × StepsFrom n fr l vs
  unfolding each_record IsPlaced
  steps-held b n [] fr s p placed r =
      ([], ap (λ q. q.1) (sym (done-inj r)) ∙ sym (append-nil s), tt)
  steps-held b n (x ∷ l) fr s p (e, placed) r = elim (Bool-cases (leb (Record.position x) b)) [
    | inr far ↦
        let gone = filter-far (narrowing rs) 0 b n (x ∷ l) (e, placed) (ground arith) in
        let r' = ap (each_record Told (fr, s)) (sym gone) ∙ r in
        ([], ap (λ q. q.1) (sym (done-inj r')) ∙ sym (append-nil s), tt)
    | inl near ↦
        let low : Record.position x ≤ b = ground arith in
        elim (Bool-cases (names (narrowing rs) x)) [
          | inr k ↦
              let r' =
                ap (each_record Told (fr, s)) (sym (filter-unnamed (narrowing rs) x b l low k))
                ∙ r in
              let (vs, e', all) = steps-held b (suc n) l fr s p placed r' in
              (vs, e', past-unnamed n fr x l vs (omega (arith, e)) k all)
          | inl k ↦
              let r' =
                ap (each_record Told (fr, s)) (sym (filter-named (narrowing rs) x b l low k)) ∙ r in
              let (q, told, r₂) = >>=-eq-done (Told (fr, s) x) _ r' in
              let (w, plain, held, e₁) = told-plain fr s x q told in
              let (vs, e', all) = steps-held b (suc n) l q.0 q.1 p placed r₂ in
              let at = Record.position x in
              let here : HeldAt fr (x ∷ l) (at, w) =
                (q.0, first-held fr q.0 n x l e placed k plain, held) in
              (
                (at, w) ∷ vs,
                e' ∙ ap (λ t. t ++ vs) e₁ ∙ append_assoc s ((at, w) ∷ []) vs,
                (
                  (omega (arith, e), here),
                  past-named n fr q.0 x l vs (omega (arith, e)) k plain all,
                ),
              )
        ]
  ]

  pub steps-positions :
      (l : List Record) (fr : Frame) (s : History) (p : Frame × History)
      → each_record Told (fr, s) l ≡ done p
      → map (λ step. step.0) p.1 ≡ map (λ step. step.0) s ++ map Record.position l
  unfolding each_record
  steps-positions [] fr s p r =
      ap (λ (q : Frame × History). map (λ step. step.0) q.1) (sym (done-inj r)) ∙ sym (append-nil _)
  steps-positions (x ∷ l) fr s p r =
      let (q, told, r₁) = >>=-eq-done (Told (fr, s) x) _ r in
      let (w, _, _, e) = told-plain fr s x q told in
      steps-positions l q.0 q.1 p r₁
      ∙ ap (λ t. map (λ step. step.0) t ++ map Record.position l) e
      ∙ ap (λ t. t ++ map Record.position l) (map-append (λ step. step.0) s _)
      ∙ append_assoc (map (λ step. step.0) s) (Record.position x ∷ []) (map Record.position l)

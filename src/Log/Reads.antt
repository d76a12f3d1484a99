-- ===== src/Log/Reads.antt =====
-- src/harness.rs: what `read` visits.
use heklang.Base.{
  ℕ, suc, ◌-◌, ◌^◌, ◌<◌, ◌≤◌, ◌≡◌, refl, Bool, true, false, not, ◌&&◌, Option, none, some, List, [],
  ◌∷◌, any, ltb, leb, if◌then◌else◌, arith, Bool-cases, inl, inr,
}
use heklang.Interp.Errors.{Result, ok, err, ◌>>=◌}
use heklang.Log.{
  Event, Record, Query, Predicate, Harness, read, scan, names, past, holds, path_eq,
  AppendCondition, beats,
}
use heklang.Log.Appends.{IsPlaced, or-true}

-- The query selects the record: its position lies in the range and a slice names its event.
unfoldable pub selects : Query → Record → Bool
selects q r =
    not (past (Query.upto q) (Record.position r))
    && leb (Query.from q) (Record.position r)
    && names (Query.slices q) r

abbrev pub filter : {A : Type 0} → (A → Bool) → List A → List A
filter p [] = []
filter p (x ∷ xs) = let rest = filter p xs in if p x then x ∷ rest else rest

-- Each record in turn, up to the first error.
abbrev pub visit_all {ℓ} : {S : Type ℓ} → (S → Record → Result S) → S → List Record → Result S
visit_all visit s [] = ok s
visit_all visit s (r ∷ rs) = visit s r >>= λ s'. visit_all visit s' rs

past-later : (u : Option ℕ) (n m : ℕ) → n ≤ m → past u n ≡ true → past u m ≡ true
unfolding past
past-later none n m l h = ground arith
past-later (some u) n m l h = ground arith

-- Behind a position that is past the range there is nothing to visit.
pub past-none :
    (q : Query) (n : ℕ) (rs : List Record)
    → IsPlaced n rs
    → past (Query.upto q) n ≡ true
    → filter (selects q) rs ≡ []
unfolding selects IsPlaced
past-none q n [] p h = refl
past-none q n (r ∷ rs) (e, p) h =
    rw (e, h) (past-none q (suc n) rs p (past-later (Query.upto q) n (suc n) (omega arith) h))

bind-cong {ℓ κ} :
    {A : Type ℓ} {B : Type κ} (r : Result A) (f g : A → Result B)
    → ((a : A) → f a ≡ g a)
    → (r >>= f) ≡ (r >>= g)
bind-cong (ok a) f g h = h a
bind-cong (err e) f g h = refl

scan-visit_all {ℓ} :
    {S : Type ℓ} (q : Query) (visit : S → Record → Result S) (n : ℕ) (rs : List Record) (s : S)
    → IsPlaced n rs
    → scan q visit rs s ≡ visit_all visit s (filter (selects q) rs)
unfolding scan selects IsPlaced
scan-visit_all q visit n [] s p = refl
scan-visit_all q visit n (r ∷ rs) s (e, p) =
    let at : ℕ = Record.position r in
    elim (Bool-cases (past (Query.upto q) at)) [
      | inl k ↦
          let none-left =
            past-none q (suc n) rs p (past-later (Query.upto q) at (suc n) (omega (arith, e)) k) in
          rw (k, none-left) refl
      | inr k ↦ elim (Bool-cases (ltb at (Query.from q))) [
        | inl l ↦
            let below : leb (Query.from q) at ≡ false = ground arith in
            rw (k, l, below) (scan-visit_all q visit (suc n) rs s p)
        | inr l ↦
            let reached : leb (Query.from q) at ≡ true = ground arith in
            elim (Bool-cases (names (Query.slices q) r)) [
              | inl m ↦
                  rw (k, l, reached, m)
                    (bind-cong (visit s r) _ _ λ s'. scan-visit_all q visit (suc n) rs s' p)
              | inr m ↦ rw (k, l, reached, m) (scan-visit_all q visit (suc n) rs s p)
            ]
      ]
    ]

-- In a log whose records stand at their own positions, `read` hands the visitor the records in the
-- query's range whose event a slice names, whatever values the filters of the slice want, and no
-- other, each of them once, in the order of the log, up to the visitor's first error.
pub read-visit_all {ℓ} :
    {S : Type ℓ} (h : Harness) (q : Query) (visit : S → Record → Result S) (s : S)
    → IsPlaced 0 (Harness.records h)
    → read h q visit s ≡ visit_all visit s (filter (selects q) (Harness.records h))
unfolding read
read-visit_all h q visit s p = scan-visit_all q visit 0 (Harness.records h) s p

pub any-weaken :
    {A : Type 0} (p q : A → Bool) (xs : List A)
    → ((x : A) → p x ≡ true → q x ≡ true)
    → any p xs ≡ true
    → any q xs ≡ true
any-weaken p q [] w h = h
any-weaken p q (x ∷ xs) w h = elim (Bool-cases (p x)) [
  | inl k ↦ rw (w x k) refl
  | inr k ↦
      let rest : any p xs ≡ true = rw (k) at h in rw (any-weaken p q xs w rest) (or-true (q x))
]

pub and-parts : (a b : Bool) → (a && b) ≡ true → (a ≡ true) × (b ≡ true)
and-parts true b h = (refl, h)
and-parts false b h = absurd cc

holds-path_eq :
    (e : Event) (p : Predicate)
    → holds p e ≡ true
    → path_eq (Predicate.event p) (Event.path e) ≡ true
unfolding holds
holds-path_eq e p h = ground arith

-- Each record that a condition conflicts with is one that a retry reads: a query for the same slices
-- from the condition's position on, with no end, selects it, if its position is a `u64`.
pub beats-selects :
    (c : AppendCondition) (r : Record)
    → Record.position r < 2 ^ 64
    → beats c r ≡ true
    → selects
        (record { slices = AppendCondition.slices c; from = AppendCondition.after c; upto = none })
        r
      ≡ true
unfolding beats selects past names
beats-selects c r l h =
    let e = Record.event r in
    let (reached, some-slice) = and-parts (leb (AppendCondition.after c) (Record.position r)) _ h in
    let named =
      any-weaken (λ p. holds p e) (λ p. path_eq (Predicate.event p) (Event.path e))
        (AppendCondition.slices c) (holds-path_eq e) some-slice in
    let short : ltb (2 ^ 64 - 1) (Record.position r) ≡ false = ground arith in
    rw (short, reached, named) refl

-- ===== src/Log/Slices.antt =====
-- src/host.rs: the filters that `Predicate::new` sorts.
use heklang.Base.{
  ◌≡◌, refl, ap, ◌∙◌, Bool, true, false, ◌&&◌, List, [], ◌∷◌, all, Bool-cases, inl, inr, arith,
}
use heklang.Base.Text.{Text}
use heklang.Ir.{Ident, EventPath}
use heklang.Value.{Value}
use heklang.Log.Reads.{and-parts}
use heklang.Log.{Event, predicate, holds, wanted, insert_filter, sort_filters, text_leb}

and_swap : (a b c : Bool) → (a && (b && c)) ≡ (b && (a && c))
and_swap true b c = refl
and_swap false true c = refl
and_swap false false c = refl

all-insert_filter :
    (p : Ident × Value → Bool) (f : Ident × Value) (fs : List (Ident × Value))
    → all p (insert_filter f fs) ≡ (p f && all p fs)
unfolding insert_filter
all-insert_filter p f [] = refl
all-insert_filter p f (g ∷ gs) = elim (Bool-cases (text_leb f.0 g.0)) [
  | inl k ↦ rw (k) refl
  | inr k ↦ rw (k, all-insert_filter p f gs) (and_swap (p g) (p f) (all p gs))
]

all-sort_filters :
    (p : Ident × Value → Bool) (fs : List (Ident × Value)) → all p (sort_filters fs) ≡ all p fs
unfolding sort_filters
all-sort_filters p [] = refl
all-sort_filters p (f ∷ fs) =
    all-insert_filter p f (sort_filters fs) ∙ ap (λ b. p f && b) (all-sort_filters p fs)

-- The slice that `Predicate::new` makes holds the events that the filters as they were written hold.
pub holds-predicate :
    (path : EventPath) (fs : List (Ident × Value)) (e : Event)
    → holds (predicate path fs) e ≡ holds (record { event = path; filters = fs }) e
unfolding holds predicate
holds-predicate path fs e = rw (all-sort_filters (wanted e) fs) refl

-- No name of the list lies below one that stands before it.
pub IsSorted : List (Ident × Value) → Type 0
IsSorted [] = Unit
IsSorted (f ∷ fs) = (all (λ g. text_leb f.0 g.0) fs ≡ true) × IsSorted fs

text_leb_total : (s t : Text) → text_leb s t ≡ false → text_leb t s ≡ true
unfolding text_leb
text_leb_total [] t h = ground arith
text_leb_total (a ∷ s) [] h = refl
text_leb_total (a ∷ s) (b ∷ t) h = ground (arith, text_leb_total s t)

text_leb_trans : (s t u : Text) → text_leb s t ≡ true → text_leb t u ≡ true → text_leb s u ≡ true
unfolding text_leb
text_leb_trans [] t u h k = refl
text_leb_trans (a ∷ s) [] u h k = ground arith
text_leb_trans (a ∷ s) (b ∷ t) [] h k = ground arith
text_leb_trans (a ∷ s) (b ∷ t) (c ∷ u) h k = ground (arith, text_leb_trans s t u)

below : Ident × Value → Ident × Value → Bool
below f g = text_leb f.0 g.0

all-below :
    (f g : Ident × Value) (hs : List (Ident × Value))
    → below f g ≡ true
    → all (below g) hs ≡ true
    → all (below f) hs ≡ true
unfolding below
all-below f g [] h k = refl
all-below f g (x ∷ hs) h k =
    let (a, b) = and-parts (text_leb g.0 x.0) (all (below g) hs) k in
    rw (text_leb_trans f.0 g.0 x.0 h a, all-below f g hs h b) refl

insert_filter-IsSorted :
    (f : Ident × Value) (gs : List (Ident × Value)) → IsSorted gs → IsSorted (insert_filter f gs)
unfolding insert_filter IsSorted below
insert_filter-IsSorted f [] _ = (refl, tt)
insert_filter-IsSorted f (g ∷ gs) (h, hs) = elim (Bool-cases (text_leb f.0 g.0)) [
  | inl k ↦ rw (k) ((rw (k, all-below f g gs k h) refl, (h, hs)))
  | inr k ↦
      let back : text_leb g.0 f.0 ≡ true = text_leb_total f.0 g.0 k in
      let first : all (below g) (insert_filter f gs) ≡ true =
        rw (all-insert_filter (below g) f gs, back) h in
      rw (k) (first, insert_filter-IsSorted f gs hs)
]

-- The filters of a slice stand in the order of their names.
pub sort_filters-IsSorted : (fs : List (Ident × Value)) → IsSorted (sort_filters fs)
unfolding sort_filters IsSorted
sort_filters-IsSorted [] = tt
sort_filters-IsSorted (f ∷ fs) =
    insert_filter-IsSorted f (sort_filters fs) (sort_filters-IsSorted fs)

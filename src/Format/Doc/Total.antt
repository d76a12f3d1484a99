-- ===== src/Format/Doc/Total.antt =====
-- cli/src/fmt/doc.rs: the layout of a document with the fuel that `render` gives it.
use native.Mathlib.Omega.{arith}
use heklang.Base.{
  ℕ, zero, suc, ◌+◌, ◌-◌, ◌<◌, ◌≤◌, ◌≡◌, ◌≢◌, refl, Bool, true, false, Option, none, some, List, [],
  ◌∷◌, ◌++◌, any, leb, Bool-cases, Option-cases, inl, inr, if◌then◌else◌, sym,
}
use heklang.Format.Doc.{
  Doc, Docs, Mode, flat, breaks, nil, part, Item, Work, work_parts, Progress, settled, measured,
  measure, fits, weight, weights, work_weight, stack_weight, Cursor, stack_parts, group_mode, place,
  layout, render, columns, taken_off, is_newline, Placed, start,
}

none_is_none : {A : Type 0} {a : A} → none ≡ some a → ⊥
none_is_none p = cc

work_weight-append : (xs ys : List Work) → work_weight (xs ++ ys) ≡ work_weight xs + work_weight ys
unfolding work_weight
work_weight-append [] ys = omega arith
work_weight-append ((m, d) ∷ xs) ys = omega (arith, work_weight-append xs ys)

stack_weight-append :
    (xs ys : List Item) → stack_weight (xs ++ ys) ≡ stack_weight xs + stack_weight ys
unfolding stack_weight
stack_weight-append [] ys = omega arith
stack_weight-append ((i, m, d) ∷ xs) ys = omega (arith, stack_weight-append xs ys)

work_weight-parts : (m : Mode) (ds : Docs) → work_weight (work_parts m ds) ≡ weights ds
unfolding work_weight work_parts weights
work_weight-parts m nil = refl
work_weight-parts m (part d ds) = omega (arith, work_weight-parts m ds)

stack_weight-parts : (i : ℕ) (m : Mode) (ds : Docs) → stack_weight (stack_parts i m ds) ≡ weights ds
unfolding stack_weight stack_parts weights
stack_weight-parts i m nil = refl
stack_weight-parts i m (part d ds) = omega (arith, stack_weight-parts i m ds)

-- What a measured document puts back weighs less than the document.
abbrev Light : ℕ → Progress → Type 0
Light n (settled b) = Unit
Light n (measured r work) = suc (work_weight work) ≤ n

taken_off-Light : (taken r n : ℕ) → 1 ≤ n → Light n (taken_off taken r)
unfolding work_weight
taken_off-Light taken r n le = elim (Bool-cases (leb taken r)) [
  | inl h ↦ rw h (omega arith)
  | inr h ↦ rw h tt
]

verbatim-Light :
    (b : Bool) (taken r n : ℕ) → 1 ≤ n → Light n (if b then settled true else taken_off taken r)
verbatim-Light true taken r n le = tt
verbatim-Light false taken r n le = taken_off-Light taken r n le

measure-Light : (r : ℕ) (m : Mode) (d : Doc) → Light (weight d) (measure r m d)
unfolding measure weight work_weight
measure-Light r m (Doc.text s) = taken_off-Light (columns s) r 1 (omega arith)
measure-Light r m (Doc.verbatim s) = verbatim-Light (any is_newline s) (columns s) r 1 (omega arith)
measure-Light r m (Doc.line_suffix s) = omega arith
measure-Light r m Doc.break_parent = omega arith
measure-Light r flat Doc.line = taken_off-Light 1 r 1 (omega arith)
measure-Light r breaks Doc.line = tt
measure-Light r flat Doc.softline = omega arith
measure-Light r breaks Doc.softline = tt
measure-Light r m Doc.hardline = tt
measure-Light r breaks (Doc.if_break broken other) = omega arith
measure-Light r flat (Doc.if_break broken other) = omega arith
measure-Light r m (Doc.concat ds) = omega (arith, work_weight-parts m ds)
measure-Light r m (Doc.indent d) = omega arith
measure-Light r m (Doc.group d true) = omega arith
measure-Light r m (Doc.group d false) = omega arith

fits-answers :
    (f r : ℕ) (work : List Work) (queued : List Item)
    → work_weight work + stack_weight queued < f
    → fits f r work queued ≢ none
unfolding fits work_weight stack_weight
fits-answers zero r work queued lt = absurd (omega arith)
fits-answers (suc f) r [] [] lt = λ p. cc
fits-answers (suc f) r [] ((i, m, d) ∷ queued) lt =
    go (measure r m d) (measure-Light r m d)
      (λ r₁ more le. fits-answers f r₁ more queued (omega arith))
  where
    go :
        (p : Progress)
        → Light (weight d) p
        → ((r₁ : ℕ) (more : List Work)
            → suc (work_weight more) ≤ weight d
            → fits f r₁ more queued ≢ none)
        → elim p [ settled b ↦ some b | measured r₁ more ↦ fits f r₁ more queued ] ≢ none
    go (settled b) l rest = λ p. cc
    go (measured r₁ more) l rest = rest r₁ more l
fits-answers (suc f) r ((m, d) ∷ work) queued lt =
    go (measure r m d) (measure-Light r m d) (λ r₁ more le.
      fits-answers f r₁ (more ++ work) queued (omega (arith, work_weight-append more work)))
  where
    go :
        (p : Progress)
        → Light (weight d) p
        → ((r₁ : ℕ) (more : List Work)
            → suc (work_weight more) ≤ weight d
            → fits f r₁ (more ++ work) queued ≢ none)
        → elim p [ settled b ↦ some b | measured r₁ more ↦ fits f r₁ (more ++ work) queued ] ≢ none
    go (settled b) l rest = λ p. cc
    go (measured r₁ more) l rest = rest r₁ more l

-- A document is placed, and what it puts back weighs less than the document.
abbrev Lighter : ℕ → Placed → Type 0
Lighter n none = ⊥
Lighter n (some (c, more)) = suc (stack_weight more) ≤ n

group-Lighter :
    (n i : ℕ) (d : Doc) (c : Cursor) (must_break : Bool) (fitted : Option Bool)
    → fitted ≢ none
    → Lighter (suc (weight d)) (elim (group_mode must_break fitted) [
      | some mode ↦ some (c, (i, mode, d) ∷ [])
      | none ↦ none
    ])
unfolding group_mode stack_weight
group-Lighter n i d c true fitted h = omega arith
group-Lighter n i d c false none h = h refl
group-Lighter n i d c false (some true) h = omega arith
group-Lighter n i d c false (some false) h = omega arith

place-Lighter :
    (width i : ℕ) (m : Mode) (d : Doc) (c : Cursor) (st : List Item)
    → Lighter (weight d) (place width i m d c st)
unfolding place weight stack_weight work_weight
place-Lighter width i m (Doc.text s) c st = omega arith
place-Lighter width i m (Doc.verbatim s) c st = omega arith
place-Lighter width i m (Doc.line_suffix s) c st = omega arith
place-Lighter width i m Doc.break_parent c st = omega arith
place-Lighter width i flat Doc.line c st = omega arith
place-Lighter width i breaks Doc.line c st = omega arith
place-Lighter width i flat Doc.softline c st = omega arith
place-Lighter width i breaks Doc.softline c st = omega arith
place-Lighter width i m Doc.hardline c st = omega arith
place-Lighter width i breaks (Doc.if_break broken other) c st = omega arith
place-Lighter width i flat (Doc.if_break broken other) c st = omega arith
place-Lighter width i m (Doc.concat ds) c st = omega (arith, stack_weight-parts i m ds)
place-Lighter width i m (Doc.indent d) c st = omega arith
place-Lighter width i m (Doc.group d must_break) c st =
    group-Lighter 0 i d c must_break
      (fits (suc (weight d + stack_weight st)) (width - Cursor.column c) ((flat, d) ∷ []) st)
      (fits-answers (suc (weight d + stack_weight st)) (width - Cursor.column c) ((flat, d) ∷ []) st
        (omega arith))

layout-answers :
    (f width : ℕ) (c : Cursor) (st : List Item) → stack_weight st < f → layout f width c st ≢ none
unfolding layout stack_weight
layout-answers zero width c st lt = absurd (omega arith)
layout-answers (suc f) width c [] lt = λ p. cc
layout-answers (suc f) width c ((i, m, d) ∷ st) lt =
    go (place width i m d c st) (place-Lighter width i m d c st) (λ c₁ more le.
      layout-answers f width c₁ (more ++ st) (omega (arith, stack_weight-append more st)))
  where
    go :
        (p : Placed)
        → Lighter (weight d) p
        → ((c₁ : Cursor) (more : List Item)
            → suc (stack_weight more) ≤ weight d
            → layout f width c₁ (more ++ st) ≢ none)
        → elim p [ some (c₁, more) ↦ layout f width c₁ (more ++ st) | none ↦ none ] ≢ none
    go none l rest = absurd l
    go (some (c₁, more)) l rest = rest c₁ more l

-- `render` lays every document out at every width: neither its loop nor a measurement in it runs out
-- of the fuel that the parts of the document give.
pub render-answers : (d : Doc) (width : ℕ) → render d width ≢ none
unfolding render stack_weight
render-answers d width h =
    elim (Option-cases (layout (suc (weight d)) width start ((0, breaks, d) ∷ []))) [
      | inl e ↦ layout-answers (suc (weight d)) width start ((0, breaks, d) ∷ []) (omega arith) e
      | inr (c, e) ↦ none_is_none (sym (rw e at h))
    ]

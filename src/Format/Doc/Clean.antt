-- ===== src/Format/Doc/Clean.antt =====
-- cli/src/fmt/doc.rs: the ends of the lines that a layout writes.
use heklang.Base.{
  ℕ, zero, suc, ◌+◌, ◌≡◌, refl, true, false, ◌==◌, Option, none, some, List, [], ◌∷◌, ◌++◌, any,
  replicate, All, All-append, Bool-cases, inl, inr, sym, ◌∙◌, ◌-◌,
}
use heklang.Base.Text.{Text}
use heklang.Format.Doc.{
  Doc, Docs, Mode, flat, breaks, nil, part, Item, is_newline, Cursor, push_str, push_all_str,
  truncate_trailing_spaces, new_line, push_text, push_verbatim, hold_back, stack_parts, group_mode,
  Placed, place, layout, finish, start, finished, render, fits, weight, stack_weight,
}

-- No space stands before the end of the text or before the end of a line.
abbrev Goes : Text → Type 0
Goes [] = ⊥
Goes (c ∷ s) = is_newline c ≡ false

abbrev pub IsTidy : Text → Type 0
IsTidy [] = Unit
IsTidy (c ∷ s) = (elim (c == b' ') [ true ↦ Goes s | false ↦ Unit ]) × IsTidy s

-- The same of an output, whose last character stands first: no space stands behind a newline.
abbrev Starts : Text → Type 0
Starts [] = Unit
Starts (c ∷ out) = (c == b' ') ≡ false

abbrev After : ℕ → Text → Type 0
After c out = elim (is_newline c) [ true ↦ Starts out | false ↦ Unit ]

abbrev IsClean : Text → Type 0
IsClean [] = Unit
IsClean (c ∷ out) = After c out × IsClean out

abbrev HasNoLines : Text → Type 0
HasNoLines s = any is_newline s ≡ false

-- A document whose texts end no lines, as `text` asserts of its own.
unfoldable mutual
  pub IsPlain : Doc → Type 0
  IsPlain (Doc.text s) = HasNoLines s
  IsPlain (Doc.verbatim s) = HasNoLines s
  IsPlain (Doc.line_suffix s) = HasNoLines s
  IsPlain (Doc.if_break broken other) = IsPlain broken × IsPlain other
  IsPlain (Doc.concat ds) = ArePlain ds
  IsPlain (Doc.indent d) = IsPlain d
  IsPlain (Doc.group d must_break) = IsPlain d
  IsPlain d = Unit

  pub ArePlain : Docs → Type 0
  ArePlain nil = Unit
  ArePlain (part d ds) = IsPlain d × ArePlain ds

abbrev AllPlain : List Item → Type 0
AllPlain [] = Unit
AllPlain ((i, m, d) ∷ st) = IsPlain d × AllPlain st

abbrev IsCleanCursor : Cursor → Type 0
IsCleanCursor c = IsClean (Cursor.out c) × All HasNoLines (Cursor.suffixes c)

AllPlain-append : (xs ys : List Item) → AllPlain xs → AllPlain ys → AllPlain (xs ++ ys)
AllPlain-append [] ys p q = q
AllPlain-append ((i, m, d) ∷ xs) ys (p, ps) q = (p, AllPlain-append xs ys ps q)

AllPlain-parts : (i : ℕ) (m : Mode) (ds : Docs) → ArePlain ds → AllPlain (stack_parts i m ds)
unfolding ArePlain stack_parts
AllPlain-parts i m nil p = tt
AllPlain-parts i m (part d ds) (p, ps) = (p, AllPlain-parts i m ds ps)

true_is_false : true ≡ false → ⊥
true_is_false p = cc

none_is_none : {A : Type 0} {a : A} → none ≡ some a → ⊥
none_is_none p = cc

cons-IsClean : (c : ℕ) (out : Text) → is_newline c ≡ false → IsClean out → IsClean (c ∷ out)
cons-IsClean c out h k = (rw (After, h) tt, k)

no_line : (c : ℕ) (s : Text) → HasNoLines (c ∷ s) → (is_newline c ≡ false) × HasNoLines s
no_line c s h = elim (Bool-cases (is_newline c)) [
  | inl e ↦ absurd (true_is_false (rw e at h))
  | inr e ↦ (e, rw e at h)
]

push_str-IsClean : (s out : Text) → HasNoLines s → IsClean out → IsClean (push_str s out)
unfolding push_str
push_str-IsClean [] out h k = k
push_str-IsClean (c ∷ s) out h k =
    let (e, rest) = no_line c s h in push_str-IsClean s (c ∷ out) rest (cons-IsClean c out e k)

push_all_str-IsClean :
    (ss : List Text) (out : Text) → All HasNoLines ss → IsClean out → IsClean (push_all_str ss out)
unfolding push_all_str
push_all_str-IsClean [] out h k = k
push_all_str-IsClean (s ∷ ss) out (h, hs) k =
    push_all_str-IsClean ss (push_str s out) hs (push_str-IsClean s out h k)

truncate-IsClean :
    (out : Text)
    → IsClean out
    → IsClean (truncate_trailing_spaces out) × Starts (truncate_trailing_spaces out)
unfolding truncate_trailing_spaces
truncate-IsClean [] k = (tt, tt)
truncate-IsClean (c ∷ out) (h, k) = elim (Bool-cases (c == b' ')) [
  | inl e ↦ rw e (truncate-IsClean out k)
  | inr e ↦ rw e ((h, k), e)
]

spaces-IsClean : (i : ℕ) (out : Text) → IsClean out → IsClean (replicate i b' ' ++ out)
spaces-IsClean zero out k = k
spaces-IsClean (suc i) out k = (tt, spaces-IsClean i out k)

new_line-IsClean : (i : ℕ) (c : Cursor) → IsCleanCursor c → IsCleanCursor (new_line i c)
unfolding new_line
new_line-IsClean i c (k, h) =
    let (clean, starts) =
      truncate-IsClean (push_all_str (Cursor.suffixes c) (Cursor.out c))
        (push_all_str-IsClean (Cursor.suffixes c) (Cursor.out c) h k) in
    (
      spaces-IsClean i
          (b'\n' ∷ truncate_trailing_spaces (push_all_str (Cursor.suffixes c) (Cursor.out c)))
          (starts, clean),
      tt,
    )

-- What a document leaves is clean, and what it puts back is plain.
abbrev Keeps : Placed → Type 0
Keeps none = Unit
Keeps (some (c, more)) = IsCleanCursor c × AllPlain more

group-Keeps :
    (i : ℕ) (d : Doc) (c : Cursor) (mode : Option Mode)
    → IsPlain d
    → IsCleanCursor c
    → Keeps (elim mode [ some m ↦ some (c, (i, m, d) ∷ []) | none ↦ none ])
group-Keeps i d c none p k = tt
group-Keeps i d c (some m) p k = (k, (p, tt))

place-Keeps :
    (width i : ℕ) (m : Mode) (d : Doc) (c : Cursor) (st : List Item)
    → IsPlain d
    → IsCleanCursor c
    → Keeps (place width i m d c st)
unfolding place IsPlain push_text push_verbatim hold_back
place-Keeps width i m (Doc.text s) c st p (k, h) = ((push_str-IsClean s (Cursor.out c) p k, h), tt)
place-Keeps width i m (Doc.verbatim s) c st p (k, h) =
    ((push_str-IsClean s (Cursor.out c) p k, h), tt)
place-Keeps width i m (Doc.line_suffix s) c st p (k, h) =
    ((k, All-append HasNoLines (Cursor.suffixes c) (s ∷ []) h (p, tt)), tt)
place-Keeps width i m Doc.break_parent c st p k = (k, tt)
place-Keeps width i flat Doc.line c st p (k, h) =
    ((push_str-IsClean (b' ' ∷ []) (Cursor.out c) refl k, h), tt)
place-Keeps width i breaks Doc.line c st p k = (new_line-IsClean i c k, tt)
place-Keeps width i flat Doc.softline c st p k = (k, tt)
place-Keeps width i breaks Doc.softline c st p k = (new_line-IsClean i c k, tt)
place-Keeps width i m Doc.hardline c st p k = (new_line-IsClean i c k, tt)
place-Keeps width i breaks (Doc.if_break broken other) c st (p, q) k = (k, (p, tt))
place-Keeps width i flat (Doc.if_break broken other) c st (p, q) k = (k, (q, tt))
place-Keeps width i m (Doc.concat ds) c st p k = (k, AllPlain-parts i m ds p)
place-Keeps width i m (Doc.indent d) c st p k = (k, (p, tt))
place-Keeps width i m (Doc.group d must_break) c st p k =
    group-Keeps i d c
      (group_mode must_break
        (fits (suc (weight d + stack_weight st)) (width - Cursor.column c) ((flat, d) ∷ []) st))
      p k

abbrev LeavesClean : Option Cursor → Type 0
LeavesClean none = Unit
LeavesClean (some c) = IsCleanCursor c

layout-LeavesClean :
    (f width : ℕ) (c : Cursor) (st : List Item)
    → IsCleanCursor c
    → AllPlain st
    → LeavesClean (layout f width c st)
unfolding layout
layout-LeavesClean zero width c st k p = tt
layout-LeavesClean (suc f) width c [] k p = k
layout-LeavesClean (suc f) width c ((i, m, d) ∷ st) k (p, ps) =
    go (place width i m d c st) (place-Keeps width i m d c st p k)
      (λ c₁ more k₁ q. layout-LeavesClean f width c₁ (more ++ st) k₁ (AllPlain-append more st q ps))
  where
    go :
        (r : Placed)
        → Keeps r
        → ((c₁ : Cursor) (more : List Item)
            → IsCleanCursor c₁
            → AllPlain more
            → LeavesClean (layout f width c₁ (more ++ st)))
        → LeavesClean (elim r [ some (c₁, more) ↦ layout f width c₁ (more ++ st) | none ↦ none ])
    go none h rest = tt
    go (some (c₁, more)) (h, q) rest = rest c₁ more h q

-- Where the output, last character first, meets the text behind it.
abbrev Meets : (out behind : Text) → Type 0
Meets [] behind = Unit
Meets (c ∷ out) behind = elim (c == b' ') [ true ↦ Goes behind | false ↦ Unit ]

no_newline : (c x : ℕ) (out : Text) → (x == b' ') ≡ true → After c (x ∷ out) → is_newline c ≡ false
no_newline c x out e h = elim (Bool-cases (is_newline c)) [
  | inr n ↦ n
  | inl n ↦ let q : (x == b' ') ≡ false = rw (n, After) at h in absurd (true_is_false (sym e ∙ q))
]

Meets-next : (c : ℕ) (out behind : Text) → After c out → Meets out (c ∷ behind)
Meets-next c [] behind h = tt
Meets-next c (x ∷ out) behind h = elim (Bool-cases (x == b' ')) [
  | inr e ↦ rw (Meets, e) tt
  | inl e ↦ rw (Meets, e) (no_newline c x out e h)
]

push_str-IsTidy :
    (out behind : Text)
    → IsClean out
    → IsTidy behind
    → Meets out behind
    → IsTidy (push_str out behind)
unfolding push_str
push_str-IsTidy [] behind k t h = t
push_str-IsTidy (c ∷ out) behind (n, k) t h =
    push_str-IsTidy out (c ∷ behind) k (h, t) (Meets-next c out behind n)

Meets-end : (out : Text) → Starts out → Meets out []
Meets-end [] h = tt
Meets-end (c ∷ out) h = rw (Meets, h) tt

finish-IsTidy : (c : Cursor) → IsCleanCursor c → IsTidy (finish c)
unfolding finish
finish-IsTidy c (k, h) =
    let out = push_all_str (Cursor.suffixes c) (Cursor.out c) in
    let (clean, starts) =
      truncate-IsClean out (push_all_str-IsClean (Cursor.suffixes c) (Cursor.out c) h k) in
    push_str-IsTidy (truncate_trailing_spaces out) [] clean tt
      (Meets-end (truncate_trailing_spaces out) starts)

-- What `render` lays out at any width has no space before the end of a line or at its end, where
-- the texts of the document hold no newline.
pub render-IsTidy :
    (d : Doc) (width : ℕ) (s : Text) → IsPlain d → render d width ≡ some s → IsTidy s
unfolding render
render-IsTidy d width s p h =
    go (layout (suc (weight d)) width start ((0, breaks, d) ∷ []))
      (layout-LeavesClean (suc (weight d)) width start ((0, breaks, d) ∷ []) (tt, tt) (p, tt)) h
  where
    go : (r : Option Cursor) → LeavesClean r → finished r ≡ some s → IsTidy s
    go none k h = absurd (none_is_none h)
    go (some c) k h = let e : finish c ≡ s = cc in rw (sym e) (finish-IsTidy c k)

-- ===== src/Digest/Sexp/RoundTrip.antt =====
-- src/digest/sexp.rs: `parse` on what `pack` writes.
use heklang.Base.{
  ℕ, zero, suc, ◌+◌, ◌*◌, ◌<◌, ◌≤◌, ◌≡◌, refl, ap, ◌∙◌, Bool, true, false, List, [], ◌∷◌, ◌++◌,
  append_assoc, append-nil, arith, ◌==◌, if◌then◌else◌, length, length-append, All, drop,
}
use heklang.Base.Text.{Text}
use heklang.Digest.Sexp.{
  Sexp, Items, atom, str, list, no_items, item, Result, ok, is_whitespace, in_atom, quote,
  quote_chars, pack, pack_items, Reader, space, atom_text, read_atom, read_value, read_items,
  finish, parse,
}
use heklang.Digest.Sexp.Strings.{read_string-quote_chars, length-quote_chars}

-- The values that have a packed form of their own: an atom is not empty and every character of it
-- is one that `atom` takes. A string is arbitrary.
unfoldable mutual
  pub IsPackable : Sexp → Type 0
  IsPackable (atom text) = (0 < length text) × All (λ c. in_atom c ≡ true) text
  IsPackable (str value) = Unit
  IsPackable (list items) = ArePackable items

  pub ArePackable : Items → Type 0
  ArePackable no_items = Unit
  ArePackable (item x xs) = IsPackable x × ArePackable xs

-- The text is over, or goes on with a character that no atom takes.
Delimited : Text → Type 0
Delimited [] = Unit
Delimited (c ∷ s) = in_atom c ≡ false

drop-length : {A : Type 0} (xs ys : List A) → drop (length xs) (xs ++ ys) ≡ ys
drop-length [] ys = refl
drop-length (x ∷ xs) ys = drop-length xs ys

atom_text-append :
    (t rest : Text) → All (λ c. in_atom c ≡ true) t → Delimited rest → atom_text (t ++ rest) ≡ t
unfolding atom_text Delimited
atom_text-append [] [] _ _ = refl
atom_text-append [] (c ∷ s) _ d = rw (d) refl
atom_text-append (c ∷ t) rest (h, hs) d = rw (h) (ap (λ w. c ∷ w) (atom_text-append t rest hs d))

-- A value starts here: a character that is neither white space nor a `)`.
Starts : Text → Type 0
Starts t = (c : ℕ) × (s : Text) × (t ≡ c ∷ s) × (is_whitespace c ≡ false) × ((c == b')') ≡ false)

in_atom-tests :
    (c : ℕ)
    → in_atom c ≡ true
    → (is_whitespace c ≡ false)
      × ((c == b')') ≡ false)
      × ((c == b'(') ≡ false)
      × ((c == b'"') ≡ false)
unfolding in_atom
in_atom-tests c h = ground arith

pack-Starts : (x : Sexp) (rest : Text) → IsPackable x → Starts (pack x ++ rest)
unfolding IsPackable Starts pack quote is_whitespace
pack-Starts (atom []) rest h = absurd (omega (arith, h.0))
pack-Starts (atom (c ∷ t)) rest (h, (hc, hs)) =
    let (w, p, _, _) = in_atom-tests c hc in (c, t ++ rest, refl, w, p)
pack-Starts (str value) rest h = (b'"', _, refl, refl, refl)
pack-Starts (list items) rest h = (b'(', _, refl, refl, refl)

space-Starts : (t : Text) (at : ℕ) → Starts t → space t at ≡ (t, at)
unfolding Starts space
space-Starts t at (c, s, e, w, p) = rw (e, w) refl

space-32 : (t : Text) (at : ℕ) → Starts t → space (32 ∷ t) at ≡ (t, at + 1)
unfolding space is_whitespace
space-32 t at h = space-Starts t (at + 1) h

read_items-step :
    (f at : ℕ) (t u : Text) (at' : ℕ) (x : Sexp) (xs : Items) (r₁ r₂ : Reader)
    → space t at ≡ (u, at')
    → Starts u
    → read_value f (u, at') ≡ ok (x, r₁)
    → read_items f r₁ ≡ ok (xs, r₂)
    → read_items (suc f) (t, at) ≡ ok (item x xs, r₂)
unfolding read_items Starts
read_items-step f at t u at' x xs r₁ r₂ e (c, s, q, w, p) v i =
    let v' : read_value f (space t at) ≡ ok (x, r₁) = ap (read_value f) e ∙ v in
    rw (e, q, p, v', i, read_items) refl

-- A unit of fuel for each call of `value` and each round of `list`.
mutual
  fuel : Sexp → ℕ
  fuel (atom text) = 1
  fuel (str value) = 1
  fuel (list items) = suc (fuel_items items)

  fuel_items : Items → ℕ
  fuel_items no_items = 1
  fuel_items (item x xs) = suc (fuel x + fuel_items xs)

items-Delimited : (xs : Items) (rest : Text) → Delimited (pack_items xs false ++ b')' ∷ rest)
unfolding Delimited pack_items in_atom is_whitespace
items-Delimited no_items rest = refl
items-Delimited (item x xs) rest = refl

full : (n : ℕ) → (suc n == 0) ≡ false
full n = ground arith

read_value-atom :
    (f at : ℕ) (t rest : Text)
    → 0 < length t
    → All (λ c. in_atom c ≡ true) t
    → Delimited rest
    → read_value (suc f) (t ++ rest, at) ≡ ok (atom t, (rest, at + length t))
unfolding read_value read_atom
read_value-atom f at [] rest h hs d = absurd (omega (arith, h))
read_value-atom f at (c ∷ t) rest h hs d =
    let (w, p, q, r) = in_atom-tests c hs.0 in
    let e : atom_text (c ∷ (t ++ rest)) ≡ c ∷ t = atom_text-append (c ∷ t) rest hs d in
    let l : drop (length t) (t ++ rest) ≡ rest = drop-length t rest in
    rw (q, p, r, e, l, full (length t), read_atom, read_value) refl

read_value-str :
    (f at : ℕ) (s rest : Text)
    → read_value (suc f) (quote s ++ rest, at) ≡ ok (str s, (rest, at + length (quote s)))
unfolding read_value quote
read_value-str f at s rest =
    let body : Text = quote_chars s ++ b'"' ∷ rest in
    let e : (quote_chars s ++ b'"' ∷ []) ++ rest ≡ body =
      append_assoc (quote_chars s) (b'"' ∷ []) rest in
    let l : length s < suc (length body) =
      omega (arith, length-quote_chars s, length-append (quote_chars s) (b'"' ∷ rest)) in
    rw (e, read_string-quote_chars (suc (length body)) s [] rest (at + 1) l, read_value)
      (ap (λ n. ok (str s, (rest, n))) (omega (arith, length-append (quote_chars s) (b'"' ∷ []))))

read_value-list :
    (f at : ℕ) (t : Text) (xs : Items) (r : Reader)
    → read_items f (t, at + 1) ≡ ok (xs, r)
    → read_value (suc f) (b'(' ∷ t, at) ≡ ok (list xs, r)
unfolding read_value
read_value-list f at t xs r i = rw (i, read_value) refl

read_items-end :
    (f at : ℕ) (rest : Text) → read_items (suc f) (b')' ∷ rest, at) ≡ ok (no_items, (rest, at + 1))
unfolding read_items space is_whitespace
read_items-end f at rest = refl

-- The space before an item that is not the first is skipped.
gap : Bool → Text
gap first = if first then [] else 32 ∷ []

space-gap :
    (first : Bool) (t : Text) (at : ℕ)
    → Starts t
    → space (gap first ++ t) at ≡ (t, at + length (gap first))
unfolding gap
space-gap true t at h = space-Starts t at h ∙ ap (λ n. (t, n)) (omega arith)
space-gap false t at h = space-32 t at h

ok_at :
    {A : Type 0} (x : A) (rest : Text) {n m : ℕ}
    → n ≡ m
    → Path (Result (A × Reader)) (ok (x, (rest, n))) (ok (x, (rest, m)))
ok_at x rest p = ap (λ n. ok (x, (rest, n))) p

mutual
  unfolding pack fuel IsPackable gap

  value-pack :
      (f : ℕ) (x : Sexp) (rest : Text) (at : ℕ)
      → IsPackable x
      → Delimited rest
      → fuel x ≤ f
      → read_value f (pack x ++ rest, at) ≡ ok (x, (rest, at + length (pack x)))
  value-pack zero (atom t) rest at h d l = absurd (omega (arith, l))
  value-pack zero (str t) rest at h d l = absurd (omega (arith, l))
  value-pack zero (list xs) rest at h d l = absurd (omega (arith, l))
  value-pack (suc f) (atom t) rest at h d l = read_value-atom f at t rest h.0 h.1 d
  value-pack (suc f) (str s) rest at h d l = read_value-str f at s rest
  value-pack (suc f) (list xs) rest at h d l =
      let e = append_assoc (pack_items xs true) (b')' ∷ []) rest in
      rw (e) (
        read_value-list f at _ xs _ (items-pack f xs true rest (at + 1) h (omega (arith, l)))
        ∙ ok_at (list xs) rest (omega (arith, length-append (pack_items xs true) (b')' ∷ []))))

  items-pack :
      (f : ℕ) (xs : Items) (first : Bool) (rest : Text) (at : ℕ)
      → ArePackable xs
      → fuel_items xs ≤ f
      → read_items f (pack_items xs first ++ b')' ∷ rest, at)
        ≡ ok (xs, (rest, at + (length (pack_items xs first) + 1)))
  items-pack zero no_items first rest at h l = absurd (omega (arith, l))
  items-pack zero (item x xs) first rest at h l = absurd (omega (arith, l))
  items-pack (suc f) no_items first rest at h l = read_items-end f at rest
  items-pack (suc f) (item x xs) first rest at h l =
      let more : Text = pack_items xs false ++ b')' ∷ rest in
      let e : (gap first ++ (pack x ++ pack_items xs false)) ++ b')' ∷ rest
          ≡ gap first ++ (pack x ++ more) =
        append_assoc (gap first) (pack x ++ pack_items xs false) (b')' ∷ rest)
        ∙ ap (λ w. gap first ++ w) (append_assoc (pack x) (pack_items xs false) (b')' ∷ rest)) in
      let start : Starts (pack x ++ more) = pack-Starts x more h.0 in
      let at' : ℕ = at + length (gap first) in
      rw (e) (
        read_items-step f at _ _ at' x xs _ _ (space-gap first _ at start) start
          (value-pack f x more at' h.0 (items-Delimited xs rest) (omega (arith, l)))
          (items-pack f xs false rest (at' + length (pack x)) h.1 (omega (arith, l)))
        ∙ ok_at (item x xs) rest (
            omega (
              arith,
              length-append (gap first) (pack x ++ pack_items xs false),
              length-append (pack x) (pack_items xs false),
            )))

gap-length : (first : Bool) (t : Text) → length t ≤ length (gap first ++ t)
unfolding gap
gap-length true t = omega arith
gap-length false t = omega arith

mutual
  unfolding pack quote fuel IsPackable gap

  fuel-bound : (x : Sexp) → IsPackable x → fuel x + 1 ≤ 2 * length (pack x)
  fuel-bound (atom t) h = omega (arith, h.0)
  fuel-bound (str s) h = omega (arith, length-append (quote_chars s) (b'"' ∷ []))
  fuel-bound (list xs) h =
      omega (arith, fuel_items-bound xs true h, length-append (pack_items xs true) (b')' ∷ []))

  fuel_items-bound :
      (xs : Items) (first : Bool)
      → ArePackable xs
      → fuel_items xs ≤ 2 * length (pack_items xs first) + 2
  fuel_items-bound no_items first h = omega arith
  fuel_items-bound (item x xs) first h = omega (
    arith,
    fuel-bound x h.0,
    fuel_items-bound xs false h.1,
    gap-length first (pack x ++ pack_items xs false),
    length-append (pack x) (pack_items xs false),
  )

space-pack : (x : Sexp) → IsPackable x → space (pack x) 0 ≡ (pack x, 0)
space-pack x h =
    let s : Starts (pack x) = rw (append-nil (pack x)) at (pack-Starts x [] h) in space-Starts _ 0 s

read_value-pack :
    (x : Sexp)
    → IsPackable x
    → read_value (2 * length (pack x) + 2) (pack x, 0) ≡ ok (x, ([], length (pack x)))
unfolding Delimited
read_value-pack x h = rw (append-nil (pack x)) at (
    value-pack (2 * length (pack x) + 2) x [] 0 h tt (omega (arith, fuel-bound x h))
    ∙ ok_at x [] {m = length (pack x)} (omega arith))

-- What `pack` writes of a value whose atoms are tokens, `parse` reads back as that value, whatever
-- characters the strings hold and however the lists are nested.
pub parse-pack : (x : Sexp) → IsPackable x → parse (pack x) ≡ ok x
unfolding parse finish space
parse-pack x h = rw (space-pack x h, read_value-pack x h) refl

-- ===== src/Digest/Sexp/Total.antt =====
-- src/digest/sexp.rs: the fuel that `parse` hands out, and what each call of the reader leaves.
use heklang.Base.{
  ℕ, zero, suc, ◌+◌, ◌*◌, ◌<◌, ◌≤◌, ◌≡◌, ◌≢◌, refl, false, [], ◌∷◌, ◌++◌, arith, ◌==◌, Bool-cases,
  Option-cases, inl, inr, length, take, drop,
}
use heklang.Base.Text.{Text}
use heklang.Digest.Sexp.{
  Sexp, str, list, item, Result, ok, err, out_of_fuel, bind, is_whitespace, in_atom, Reader, space,
  atom_text, read_atom, from_str_radix, is_char, read_unicode, read_escape, read_string, read_value,
  read_items, finish, parse,
}

-- The result is an error, or a success that has left less than `n` characters.
Leaves {ℓ} : {A : Type ℓ} → Result (A × Reader) → ℕ → Type 0
Leaves (ok (a, (s, at))) n = length s < n
Leaves (err e) n = Unit
Leaves out_of_fuel n = ⊥

Leaves-weaken {ℓ} :
    {A : Type ℓ} (r : Result (A × Reader)) (n m : ℕ) → n ≤ m → Leaves r n → Leaves r m
unfolding Leaves
Leaves-weaken (ok (a, (s, at))) n m h l = omega (arith, h, l)
Leaves-weaken (err e) n m h l = l
Leaves-weaken out_of_fuel n m h l = l

Leaves-bind {ℓ κ} :
    {A : Type ℓ} {B : Type κ} (r : Result (A × Reader)) (g : A × Reader → Result (B × Reader))
    (n m : ℕ)
    → Leaves r n
    → ((a : A) (s : Text) (at : ℕ) → length s < n → Leaves (g (a, (s, at))) m)
    → Leaves (bind r g) m
unfolding Leaves
Leaves-bind (ok (a, (s, at))) g n m l h = h a s at l
Leaves-bind (err e) g n m l h = tt
Leaves-bind out_of_fuel g n m l h = l

length-drop : (n : ℕ) (s : Text) → length (drop n s) ≤ length s
length-drop zero s = omega arith
length-drop (suc n) [] = omega arith
length-drop (suc n) (c ∷ s) = omega (arith, length-drop n s)

space-length : (s : Text) (at : ℕ) → length (space s at).0 ≤ length s
unfolding space
space-length [] at = omega arith
space-length (c ∷ s) at = elim (Bool-cases (is_whitespace c)) [
  | inl h ↦ rw (h) (omega (arith, space-length s (at + 1)))
  | inr h ↦ rw (h) (omega arith)
]

unicode-Leaves : (s : Text) (at : ℕ) → Leaves (read_unicode (s, at)) (suc (length s))
unfolding read_unicode Leaves
unicode-Leaves s at = elim (Option-cases (from_str_radix (take 4 s))) [
  | inl h ↦ rw (h, read_unicode) tt
  | inr (c, h) ↦ elim (Bool-cases (is_char c)) [
    | inl k ↦ rw (h, k, read_unicode) (omega (arith, length-drop 4 s))
    | inr k ↦ rw (h, k, read_unicode) tt
  ]
]

escape-Leaves : (s : Text) (at : ℕ) → Leaves (read_escape (s, at)) (suc (length s))
unfolding read_escape Leaves
escape-Leaves [] at = tt
escape-Leaves (e ∷ s) at =
    let u : Leaves (read_unicode (s, at + 1)) (suc (suc (length s))) =
      Leaves-weaken _ _ _ (omega arith) (unicode-Leaves s (at + 1)) in
    ground (arith, u)

string-Leaves :
    (f : ℕ) (v s : Text) (at : ℕ) → length s < f → Leaves (read_string f v (s, at)) (suc (length s))
unfolding read_string Leaves
string-Leaves zero v s at h = absurd (omega (arith, h))
string-Leaves (suc f) v [] at h = tt
string-Leaves (suc f) v (c ∷ s) at h =
    let plain : Leaves (read_string f (v ++ c ∷ []) (s, at + 1)) (suc (suc (length s))) =
      Leaves-weaken _ _ _ (omega arith)
        (string-Leaves f (v ++ c ∷ []) s (at + 1) (omega (arith, h))) in
    let escaped =
      Leaves-bind (read_escape (s, at + 1)) (λ (d, r). read_string f (v ++ d ∷ []) r) _
        (suc (suc (length s))) (escape-Leaves s (at + 1))
        λ d s' at' l.
          Leaves-weaken _ _ _ (omega (arith, l))
            (string-Leaves f (v ++ d ∷ []) s' at' (omega (arith, h, l))) in
    elim (Bool-cases (c == b'"')) [
      | inl k ↦ rw (k, read_string) (omega arith)
      | inr k ↦ elim (Bool-cases (c == b'\\')) [
        | inl m ↦ rw (k, m, read_string) escaped
        | inr m ↦ rw (k, m, read_string) plain
      ]
    ]

-- An atom takes at least a character.
atom-Leaves : (c : ℕ) (s : Text) (at : ℕ) → Leaves (read_atom (c ∷ s, at)) (suc (length s))
unfolding read_atom Leaves atom_text
atom-Leaves c s at = elim (Bool-cases (in_atom c)) [
  | inl h ↦
      let full : (suc (length (atom_text s)) == 0) ≡ false = ground arith in
      rw (h, full, read_atom) (omega (arith, length-drop (length (atom_text s)) s))
  | inr h ↦ rw (h, read_atom) tt
]

-- A round of the loop of `list`, when fuel `f` is enough for what the round calls.
round-Leaves :
    (f : ℕ) (s : Text) (at : ℕ)
    → ((t : Text) (n : ℕ) → 2 * length t + 1 ≤ f → Leaves (read_value f (t, n)) (length t))
    → ((t : Text) (n : ℕ) → 2 * length t + 2 ≤ f → Leaves (read_items f (t, n)) (suc (length t)))
    → 2 * length s + 2 ≤ suc f
    → (u : Text) (n : ℕ) → space s at ≡ (u, n)
    → length u ≤ length s
    → Leaves (read_items (suc f) (s, at)) (suc (length s))
unfolding Leaves read_items
round-Leaves f s at value items h [] n e l = rw (e, read_items) tt
round-Leaves f s at value items h (c ∷ u) n e l =
    let more =
      Leaves-bind (read_value f (space s at))
        (λ (x, r₁). bind (read_items f r₁) λ (xs, r₂). ok (item x xs, r₂)) (length (c ∷ u))
        (suc (length s)) (rw (e) (value (c ∷ u) n (omega (arith, h, l))))
        λ x t m k.
          Leaves-bind (read_items f (t, m)) (λ (xs, r). ok (item x xs, r)) (suc (length t))
            (suc (length s)) (items t m (omega (arith, h, l, k)))
            λ _ _ _ j. omega (arith, j, k, l) in
    elim (Bool-cases (c == b')')) [
      | inl k ↦
          rw (e, k, read_items) (omega (arith, length-drop 1 (space s at).0, space-length s at))
      | inr k ↦ rw (e, k, read_items) more
    ]

mutual
  unfolding Leaves read_value

  value-Leaves :
      (f : ℕ) (s : Text) (at : ℕ) → 2 * length s + 1 ≤ f → Leaves (read_value f (s, at)) (length s)
  value-Leaves zero s at h = absurd (omega (arith, h))
  value-Leaves (suc f) [] at h = tt
  value-Leaves (suc f) (c ∷ s) at h =
      let items =
        Leaves-bind (read_items f (s, at + 1)) (λ (xs, r). ok (list xs, r)) _ (suc (length s))
          (items-Leaves f s (at + 1) (omega (arith, h))) λ _ _ _ l. l in
      let string =
        Leaves-bind (read_string (suc (length s)) [] (s, at + 1)) (λ (v, r). ok (str v, r)) _
          (suc (length s)) (string-Leaves (suc (length s)) [] s (at + 1) (omega arith))
          λ _ _ _ l. l in
      let atom = atom-Leaves c s at in
      elim (Bool-cases (c == b'(')) [
        | inl k ↦ rw (k, read_value) items
        | inr k ↦ elim (Bool-cases (c == b')')) [
          | inl m ↦ rw (k, m, read_value) tt
          | inr m ↦ elim (Bool-cases (c == b'"')) [
            | inl n ↦ rw (k, m, n, read_value) string
            | inr n ↦ rw (k, m, n, read_value) atom
          ]
        ]
      ]

  items-Leaves :
      (f : ℕ) (s : Text) (at : ℕ)
      → 2 * length s + 2 ≤ f
      → Leaves (read_items f (s, at)) (suc (length s))
  items-Leaves zero s at h = absurd (omega (arith, h))
  items-Leaves (suc f) s at h =
      round-Leaves f s at (value-Leaves f) (items-Leaves f) h (space s at).0 (space s at).1 refl
        (space-length s at)

bind-answers {ℓ κ} :
    {A : Type ℓ} {B : Type κ} (r : Result (A × Reader)) (g : A × Reader → Result B) (n : ℕ)
    → Leaves r n
    → ((a : A × Reader) → g a ≢ out_of_fuel)
    → bind r g ≢ out_of_fuel
unfolding Leaves
bind-answers (ok a) g n l h = h a
bind-answers (err e) g n l h = λ p. cc
bind-answers out_of_fuel g n l h = absurd l

finish-answers : (x : Sexp) (s : Text) (at : ℕ) → finish x (s, at) ≢ out_of_fuel
unfolding finish
finish-answers x [] at p = cc
finish-answers x (c ∷ s) at p = cc

-- `parse` answers on every text: the fuel that it hands out never runs out.
pub parse-answers : (text : Text) → parse text ≢ out_of_fuel
unfolding parse
parse-answers text =
    let s = space text 0 in
    bind-answers (read_value (2 * length text + 2) s) (λ (x, r). finish x (space r.0 r.1))
      (length s.0) (value-Leaves (2 * length text + 2) s.0 s.1 (omega (arith, space-length text 0)))
      λ (x, r). finish-answers x (space r.0 r.1).0 (space r.0 r.1).1

-- ===== src/Digest/Sexp/Strings.antt =====
-- src/digest/sexp.rs: `string` on what `quote` escapes.
use heklang.Base.{
  ℕ, zero, suc, ◌+◌, ◌*◌, ◌/◌, ◌%◌, ◌<◌, ◌≤◌, ◌≡◌, refl, sym, ap, ◌∙◌, true, false, some, [], ◌∷◌,
  ◌++◌, append_assoc, append-nil, arith, ltb, ◌==◌, ==_iff, Bool-cases, inl, inr, length,
  length-append,
}
use heklang.Base.Text.{Text}
use heklang.Digest.Sexp.{
  Result, ok, hex_digit, hex_value, hex_digits, from_str_radix, is_char, quote_char, quote_chars,
  read_unicode, read_escape, read_string, Reader,
}

hex_value-hex_digit : (d : ℕ) → d < 16 → hex_value (hex_digit d) ≡ some d
unfolding hex_value
hex_value-hex_digit d h = ground arith

hex_digits-step :
    (c d n : ℕ) (s : Text) → hex_value c ≡ some d → hex_digits (c ∷ s) n ≡ hex_digits s (n * 16 + d)
unfolding hex_digits
hex_digits-step c d n s p = rw (p, hex_digits) refl

four_digits :
    (a b x y : ℕ)
    → hex_value a ≡ some x
    → hex_value b ≡ some y
    → from_str_radix (b'0' ∷ b'0' ∷ a ∷ b ∷ []) ≡ some (x * 16 + y)
unfolding from_str_radix hex_digits
four_digits a b x y p q =
    let z : hex_value b'0' ≡ some 0 = hex_value-hex_digit 0 (omega arith) in
    hex_digits-step b'0' 0 0 (b'0' ∷ a ∷ b ∷ []) z
    ∙ hex_digits-step b'0' 0 0 (a ∷ b ∷ []) z
    ∙ hex_digits-step a x 0 (b ∷ []) p
    ∙ hex_digits-step b y (0 * 16 + x) [] q
    ∙ ap some (omega arith)

-- Four digits of a control character.
radix_control :
    (c : ℕ)
    → c < 32
    → from_str_radix (b'0' ∷ b'0' ∷ hex_digit (c / 16) ∷ hex_digit (c % 16) ∷ []) ≡ some c
radix_control c h =
    four_digits (hex_digit (c / 16)) (hex_digit (c % 16)) (c / 16) (c % 16)
      (hex_value-hex_digit (c / 16) (omega arith)) (hex_value-hex_digit (c % 16) (omega arith))
    ∙ ap some (omega arith)

control-is_char : (c : ℕ) → c < 32 → is_char c ≡ true
unfolding is_char
control-is_char c h = ground arith

module _ (f : ℕ) (v rest : Text) (at : ℕ) where
  Step : ℕ → Text → Type 0
  Step c t =
      read_string (suc f) v (t ++ rest, at) ≡ read_string f (v ++ c ∷ []) (rest, at + length t)

  at_position :
      (c n m : ℕ)
      → n ≡ m
      → read_string f (v ++ c ∷ []) (rest, n) ≡ read_string f (v ++ c ∷ []) (rest, m)
  at_position c n m h = ap (λ k. read_string f (v ++ c ∷ []) (rest, k)) h

  unicode-Step :
      (c a b : ℕ)
      → from_str_radix (b'0' ∷ b'0' ∷ a ∷ b ∷ []) ≡ some c
      → is_char c ≡ true
      → Step c (b'\\' ∷ b'u' ∷ b'0' ∷ b'0' ∷ a ∷ b ∷ [])
  unfolding Step read_string read_escape read_unicode
  unicode-Step c a b h k =
      rw (h, k, read_unicode) (at_position c (at + 1 + 1 + 4) (at + 6) (omega arith))

  control-Step :
      (c : ℕ)
      → c < 32
      → Step c (b'\\' ∷ b'u' ∷ b'0' ∷ b'0' ∷ hex_digit (c / 16) ∷ hex_digit (c % 16) ∷ [])
  control-Step c h = unicode-Step c _ _ (radix_control c h) (control-is_char c h)

  plain-Step : (c : ℕ) → (c == b'"') ≡ false → (c == b'\\') ≡ false → Step c (c ∷ [])
  unfolding Step read_string
  plain-Step c h k = rw (h, k) refl

  two-Step :
      Step b'"' (b'\\' ∷ b'"' ∷ [])
      × Step b'\\' (b'\\' ∷ b'\\' ∷ [])
      × Step 10 (b'\\' ∷ b'n' ∷ [])
      × Step 13 (b'\\' ∷ b'r' ∷ [])
      × Step 9 (b'\\' ∷ b't' ∷ [])
  unfolding Step read_string read_escape
  two-Step =
      let e : at + 1 + 1 ≡ at + 2 = omega arith in
      (
        at_position _ _ _ e,
        at_position _ _ _ e,
        at_position _ _ _ e,
        at_position _ _ _ e,
        at_position _ _ _ e,
      )

  quote_char-Step : (c : ℕ) → Step c (quote_char c)
  unfolding quote_char
  quote_char-Step c = elim (Bool-cases (c == b'"')) [
    | inl z ↦ rw ((==_iff _ _).0 z) two-Step.0
    | inr h1 ↦ elim (Bool-cases (c == b'\\')) [
      | inl z ↦ rw ((==_iff _ _).0 z) two-Step.1
      | inr h2 ↦ elim (Bool-cases (c == 10)) [
        | inl z ↦ rw ((==_iff _ _).0 z) two-Step.2
        | inr h3 ↦ elim (Bool-cases (c == 13)) [
          | inl z ↦ rw ((==_iff _ _).0 z) two-Step.3
          | inr h4 ↦ elim (Bool-cases (c == 9)) [
            | inl z ↦ rw ((==_iff _ _).0 z) two-Step.4
            | inr h5 ↦ elim (Bool-cases (ltb c 32)) [
              | inl z ↦ rw (h1, h2, h3, h4, h5, z) (control-Step c (ground arith))
              | inr h6 ↦ rw (h1, h2, h3, h4, h5, h6) (plain-Step c h1 h2)
            ]
          ]
        ]
      ]
    ]
  ]

ok_at :
    (rest : Text) {n m : ℕ} {w u : Text}
    → n ≡ m
    → w ≡ u
    → Path (Result (Text × Reader)) (ok (w, (rest, n))) (ok (u, (rest, m)))
ok_at rest p q = cc

closing :
    (f : ℕ) (v rest : Text) (at : ℕ)
    → read_string (suc f) v (b'"' ∷ rest, at) ≡ ok (v, (rest, at + 1))
unfolding read_string
closing f v rest at = refl

-- With more fuel than characters, the loop of `string` reads back what `quote_chars` wrote and stops
-- behind the closing quote, whatever the characters are and whatever follows.
pub read_string-quote_chars :
    (f : ℕ) (s v rest : Text) (at : ℕ)
    → length s < f
    → read_string f v (quote_chars s ++ b'"' ∷ rest, at)
      ≡ ok (v ++ s, (rest, at + (length (quote_chars s) + 1)))
unfolding quote_chars Step
read_string-quote_chars zero s v rest at h = absurd (omega arith)
read_string-quote_chars (suc f) [] v rest at h =
    closing f v rest at ∙ ap (λ w. ok (w, (rest, at + 1))) (sym (append-nil v))
read_string-quote_chars (suc f) (c ∷ s) v rest at h =
    let tail : Text = quote_chars s ++ b'"' ∷ rest in
    rw (append_assoc (quote_char c) (quote_chars s) (b'"' ∷ rest)) (
      quote_char-Step f v tail at c
      ∙ read_string-quote_chars f s (v ++ c ∷ []) rest (at + length (quote_char c))
          (omega (arith, h))
      ∙ ok_at rest (omega (arith, length-append (quote_char c) (quote_chars s)))
          (append_assoc v (c ∷ []) s))

quote_char-long : (c : ℕ) → 1 ≤ length (quote_char c)
unfolding quote_char
quote_char-long c = ground arith

-- `quote_chars` writes at least a character for each.
pub length-quote_chars : (s : Text) → length s ≤ length (quote_chars s)
unfolding quote_chars
length-quote_chars [] = omega arith
length-quote_chars (c ∷ s) =
    omega
      (arith, length-append (quote_char c) (quote_chars s), quote_char-long c, length-quote_chars s)

-- ===== src/Lex/Words.antt =====
-- src/lex.rs: keywords and symbols against their texts.
use heklang.Base.{ℕ, ◌≡◌, refl, false, some, List, [], ◌∷◌, ◌++◌, ◌==◌}
use heklang.Base.Text.{Text, is, text_eq}
use heklang.Lex.{
  Keyword, keyword_text, lookup_keyword, Sym, sym_text, symbol, paired, single, counted, closes,
  one_character, pair_or_single, token,
}

-- The lexer reads the text of each keyword as that keyword.
pub lookup-text : (k : Keyword) → lookup_keyword (keyword_text k) ≡ some k
unfolding lookup_keyword keyword_text is text_eq
lookup-text Keyword.as_ = refl
lookup-text k = refl

-- The first character of a symbol, and the others.
unfoldable pub first_char : Sym → ℕ
unfolding sym_text
first_char s = elim (sym_text s) [ [] ↦ 0 | c ∷ cs ↦ c ]

unfoldable pub other_chars : Sym → Text
unfolding sym_text
other_chars s = elim (sym_text s) [ [] ↦ [] | c ∷ cs ↦ cs ]

pair_or_single-text :
    (s : Sym) (c : ℕ) (rest : Text) (interp : List ℕ)
    → (c == b'=') ≡ false
    → (c == b'>') ≡ false
    → pair_or_single (first_char s) (other_chars s ++ c ∷ rest) interp ≡ token s (c ∷ rest) interp
unfolding pair_or_single one_character paired single first_char other_chars sym_text
pair_or_single-text Sym.assign c rest interp h k = rw (h, k, pair_or_single, paired) refl
pair_or_single-text Sym.lt c rest interp h k = rw (h, pair_or_single, paired) refl
pair_or_single-text Sym.gt c rest interp h k = rw (h, pair_or_single, paired) refl
pair_or_single-text Sym.minus c rest interp h k = rw (k, pair_or_single, paired) refl
pair_or_single-text Sym.bang c rest interp h k = rw (h, pair_or_single, paired) refl
pair_or_single-text s c rest interp h k = refl

-- Where the text of a symbol is followed by a character that is neither `=` nor `>`, and it is not the
-- brace that ends a hole, the scanner of symbols, called at its first character, answers that symbol
-- and leaves the text from that character on.
pub symbol-text :
    (s : Sym) (c : ℕ) (rest : Text) (interp : List ℕ)
    → (c == b'=') ≡ false
    → (c == b'>') ≡ false
    → closes (first_char s) interp ≡ false
    → symbol (first_char s) (other_chars s ++ c ∷ rest) interp
      ≡ token s (c ∷ rest) (counted (first_char s) interp)
unfolding symbol
symbol-text s c rest interp h k e =
    rw (e) (pair_or_single-text s c rest (counted (first_char s) interp) h k)

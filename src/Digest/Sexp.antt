-- ===== src/Digest/Sexp.antt =====
-- src/digest/sexp.rs: the packed form of an s-expression, and its reader. A reader is the text that
-- it has not read yet with the position that it has reached. What a call leaves is not a structural
-- part of the text, so calls are counted by fuel: one unit for each list, element and character of a
-- string. `Sexp.Total` is about the fuel that `parse` hands out.
pub mod Strings
pub mod RoundTrip
pub mod Total
use heklang.Base.{
  ℕ, zero, suc, ◌+◌, ◌-◌, ◌*◌, ◌/◌, ◌%◌, Bool, true, false, not, ◌&&◌, ◌||◌, Option, none, some,
  List, [], ◌∷◌, ◌++◌, ltb, leb, ◌==◌, if◌then◌else◌, length, take, drop,
}
use heklang.Base.Text.{Text, codes}

mutual
  pub data Sexp : Type 0 where
    atom : Text → Sexp
    str : Text → Sexp
    list : Items → Sexp

  pub data Items : Type 0 where
    no_items : Items
    item : Sexp → Items → Items

-- `SexpError`
pub record SexpError : Type 0 where
  pub at : ℕ
  pub message : Text

-- `out_of_fuel` has no counterpart in the source.
pub data Result {ℓ} (A : Type ℓ) : Type ℓ where
  ok : A → Result A
  err : SexpError → Result A
  out_of_fuel : Result A

abbrev pub bind {ℓ κ} : {A : Type ℓ} {B : Type κ} → Result A → (A → Result B) → Result B
bind (ok a) f = f a
bind (err e) f = err e
bind out_of_fuel f = out_of_fuel

-- `char::is_whitespace`: the code points with the property White_Space
unfoldable pub is_whitespace : ℕ → Bool
is_whitespace c =
    (leb 9 c && leb c 13)
    || c == 32
    || c == 0x85
    || c == 0xa0
    || c == 0x1680
    || (leb 0x2000 c && leb c 0x200a)
    || c == 0x2028
    || c == 0x2029
    || c == 0x202f
    || c == 0x205f
    || c == 0x3000

-- A digit of `{:x}`.
abbrev pub hex_digit : ℕ → ℕ
hex_digit d = if ltb d 10 then b'0' + d else b'a' + (d - 10)

-- What one round of `quote` pushes; `{:04x}` of a character below 0x20 has two leading zeros.
unfoldable pub quote_char : ℕ → Text
quote_char c =
    if c == b'"'
    then b'\\' ∷ b'"' ∷ []
    else if c == b'\\'
    then b'\\' ∷ b'\\' ∷ []
    else if c == 10
    then b'\\' ∷ b'n' ∷ []
    else if c == 13
    then b'\\' ∷ b'r' ∷ []
    else if c == 9
    then b'\\' ∷ b't' ∷ []
    else if ltb c 32
    then b'\\' ∷ b'u' ∷ b'0' ∷ b'0' ∷ hex_digit (c / 16) ∷ hex_digit (c % 16) ∷ []
    else c ∷ []

unfoldable pub quote_chars : Text → Text
quote_chars [] = []
quote_chars (c ∷ s) = quote_char c ++ quote_chars s

unfoldable pub quote : Text → Text
quote value = b'"' ∷ (quote_chars value ++ b'"' ∷ [])

unfoldable mutual
  pub pack : Sexp → Text
  pack (atom text) = text
  pack (str value) = quote value
  pack (list items) = b'(' ∷ (pack_items items true ++ b')' ∷ [])

  -- the loop over the items, a space before all but the first
  pub pack_items : Items → Bool → Text
  pack_items no_items first = []
  pack_items (item x xs) first = (if first then [] else 32 ∷ []) ++ (pack x ++ pack_items xs false)

-- `Reader`: the characters from `at` on, and `at`.
abbrev pub Reader : Type 0
Reader = Text × ℕ

abbrev pub peek : Reader → Option ℕ
peek ([], at) = none
peek (c ∷ s, at) = some c

-- `self.at += n`, which may pass the end
abbrev pub advance : ℕ → Reader → Reader
advance n (s, at) = (drop n s, at + n)

abbrev pub fail {ℓ} : {A : Type ℓ} → Reader → Text → Result A
fail r message = err (record { at = r.1; message = message })

unfoldable pub space : Text → ℕ → Reader
space [] at = ([], at)
space (c ∷ s) at = let more = space s (at + 1) in if is_whitespace c then more else (c ∷ s, at)

unfoldable pub in_atom : ℕ → Bool
in_atom c = not (is_whitespace c) && not (c == b'(') && not (c == b')') && not (c == b'"')

unfoldable pub atom_text : Text → Text
atom_text [] = []
atom_text (c ∷ s) = let more = atom_text s in if in_atom c then c ∷ more else []

unfoldable pub read_atom : Reader → Result (Sexp × Reader)
read_atom r =
    let text = atom_text r.0 in
    if length text == 0
    then fail r (codes "an empty token")
    else ok (atom text, advance (length text) r)

-- `char::to_digit(16)`
unfoldable pub hex_value : ℕ → Option ℕ
hex_value c =
    if leb b'0' c && leb c b'9'
    then some (c - b'0')
    else if leb b'a' c && leb c b'f'
    then some (c - b'a' + 10)
    else if leb b'A' c && leb c b'F'
    then some (c - b'A' + 10)
    else none

unfoldable pub hex_digits : Text → ℕ → Option ℕ
hex_digits [] n = some n
hex_digits (c ∷ s) n = elim (hex_value c) [ some d ↦ hex_digits s (n * 16 + d) | none ↦ none ]

-- `u32::from_str_radix(_, 16)` on at most four characters: digits, and before them a `+`.
unfoldable pub from_str_radix : Text → Option ℕ
from_str_radix [] = none
from_str_radix (c ∷ []) = hex_digits (c ∷ []) 0
from_str_radix (c ∷ d ∷ s) = if c == b'+' then hex_digits (d ∷ s) 0 else hex_digits (c ∷ d ∷ s) 0

-- `char::from_u32` answers.
unfoldable pub is_char : ℕ → Bool
is_char c = ltb c 0xd800 || (leb 0xe000 c && ltb c 0x110000)

unfoldable pub read_unicode : Reader → Result (ℕ × Reader)
read_unicode r = elim (from_str_radix (take 4 r.0)) [
  | none ↦ fail r (codes "`\\u` wants four hex digits")
  | some c ↦ if is_char c then ok (c, advance 4 r) else fail (advance 4 r) (codes "not a character")
]

-- The `match escape`, behind the backslash.
unfoldable pub read_escape : Reader → Result (ℕ × Reader)
read_escape r = elim (peek r) [
  | none ↦ fail r (codes "a trailing `\\`")
  | some e ↦
      let r' = advance 1 r in
      if e == b'"'
      then ok (b'"', r')
      else if e == b'\\'
      then ok (b'\\', r')
      else if e == b'n'
      then ok (10, r')
      else if e == b'r'
      then ok (13, r')
      else if e == b't'
      then ok (9, r')
      else if e == b'u'
      then read_unicode r'
      else fail r' (codes "`\\" ++ (e ∷ codes "` is not an escape"))
]

-- The loop of `string`, with the value so far.
unfoldable pub read_string : ℕ → Text → Reader → Result (Text × Reader)
read_string zero value r = out_of_fuel
read_string (suc f) value r =
    let escaped = bind (read_escape (advance 1 r)) λ (c, r'). read_string f (value ++ c ∷ []) r' in
    elim (peek r) [
      | none ↦ fail r (codes "a string was opened and never closed")
      | some c ↦
          let plain = read_string f (value ++ c ∷ []) (advance 1 r) in
          if c == b'"' then ok (value, advance 1 r) else if c == b'\\' then escaped else plain
    ]

unfoldable mutual
  pub read_value : ℕ → Reader → Result (Sexp × Reader)
  read_value zero r = out_of_fuel
  read_value (suc f) r =
      let items = bind (read_items f (advance 1 r)) λ (xs, r'). ok (list xs, r') in
      elim (peek r) [
        | none ↦ fail r (codes "a value, and the line ended")
        | some c ↦
            if c == b'('
            then items
            else if c == b')'
            then fail r (codes "`)` with no list open")
            else if c == b'"'
            then bind (read_string (length r.0) [] (advance 1 r)) (λ (s, r'). ok (str s, r'))
            else read_atom r
      ]

  -- the loop of `list`, behind the `(`
  pub read_items : ℕ → Reader → Result (Items × Reader)
  read_items zero r = out_of_fuel
  read_items (suc f) r =
      let r' = space r.0 r.1 in
      let more =
        bind (read_value f r') λ (x, r₁). bind (read_items f r₁) λ (xs, r₂). ok (item x xs, r₂) in
      elim (peek r') [
        | none ↦ fail r' (codes "a list was opened and never closed")
        | some c ↦ if c == b')' then ok (no_items, advance 1 r') else more
      ]

unfoldable pub finish : Sexp → Reader → Result Sexp
finish sexp r = elim (peek r) [
  | none ↦ ok sexp
  | some _ ↦ fail r (codes "one s-expression per line, and this line has more")
]

unfoldable pub parse : Text → Result Sexp
parse text =
    bind (read_value (2 * length text + 2) (space text 0)) λ (sexp, r). finish sexp (space r.0 r.1)

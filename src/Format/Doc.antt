-- ===== src/Format/Doc.antt =====
-- cli/src/fmt/doc.rs: documents and their layout. The text that is laid out so far is kept with its
-- last character first, and a loop over a stack runs on fuel.
pub mod Total
pub mod Clean
use heklang.Base.{
  ℕ, zero, suc, ◌+◌, ◌-◌, Bool, true, false, not, ◌||◌, ◌==◌, Option, none, some, List, [], ◌∷◌,
  ◌++◌, any, length, replicate, leb, if◌then◌else◌,
}
use heklang.Base.Text.{Text}

abbrev pub indent_width : ℕ
indent_width = 2

pub data Mode : Type 0 where
  flat breaks : Mode

mutual
  pub data Doc : Type 0 where
    text verbatim line_suffix : Text → Doc
    break_parent line softline hardline : Doc
    if_break : (broken other : Doc) → Doc
    concat : Docs → Doc
    indent : Doc → Doc
    group : Doc → (must_break : Bool) → Doc

  pub data Docs : Type 0 where
    nil : Docs
    part : Doc → Docs → Docs

abbrev pub is_newline : ℕ → Bool
is_newline c = c == b'\n'

unfoldable mutual
  pub contains_hardline : Doc → Bool
  contains_hardline (text s) = false
  contains_hardline (verbatim s) = any is_newline s
  contains_hardline (line_suffix s) = false
  contains_hardline break_parent = true
  contains_hardline line = false
  contains_hardline softline = false
  contains_hardline hardline = true
  contains_hardline (if_break broken other) = contains_hardline broken || contains_hardline other
  contains_hardline (concat ds) = parts_hardline ds
  contains_hardline (indent d) = contains_hardline d
  contains_hardline (group d must_break) = contains_hardline d

  pub parts_hardline : Docs → Bool
  parts_hardline nil = false
  parts_hardline (part d ds) = contains_hardline d || parts_hardline ds

-- `Doc::group`
unfoldable pub grouped : Doc → Doc
unfolding contains_hardline
grouped d = group d (contains_hardline d)

unfoldable pub columns : Text → ℕ
columns s = length s

abbrev pub Item : Type 0
Item = ℕ × Mode × Doc

abbrev pub Work : Type 0
Work = Mode × Doc

unfoldable pub work_parts : Mode → Docs → List Work
work_parts m nil = []
work_parts m (part d ds) = (m, d) ∷ work_parts m ds

-- What `fits` makes of one document: an answer, or the room that is left with what to measure next.
pub data Progress : Type 0 where
  settled : Bool → Progress
  measured : (remaining : ℕ) → List Work → Progress

abbrev pub taken_off : (taken remaining : ℕ) → Progress
taken_off taken remaining =
    if leb taken remaining then measured (remaining - taken) [] else settled false

unfoldable pub measure : (remaining : ℕ) → Mode → Doc → Progress
unfolding work_parts columns
measure r m (text s) = taken_off (columns s) r
measure r m (verbatim s) = if any is_newline s then settled true else taken_off (columns s) r
measure r m (line_suffix s) = measured r []
measure r m break_parent = measured r []
measure r flat line = taken_off 1 r
measure r breaks line = settled true
measure r flat softline = measured r []
measure r breaks softline = settled true
measure r m hardline = settled true
measure r breaks (if_break broken other) = measured r ((breaks, broken) ∷ [])
measure r Mode.flat (if_break broken other) = measured r ((Mode.flat, other) ∷ [])
measure r m (concat ds) = measured r (work_parts m ds)
measure r m (indent d) = measured r ((m, d) ∷ [])
measure r m (group d true) = measured r ((breaks, d) ∷ [])
measure r m (group d false) = measured r ((m, d) ∷ [])

-- What is queued is measured behind the work.
unfoldable pub fits : (fuel remaining : ℕ) → List Work → List Item → Option Bool
fits zero r work queued = none
fits (suc f) r [] [] = some true
fits (suc f) r [] ((i, m, d) ∷ queued) = elim (measure r m d) [
  | settled b ↦ some b
  | measured r₁ more ↦ fits f r₁ more queued
]
fits (suc f) r ((m, d) ∷ work) queued = elim (measure r m d) [
  | settled b ↦ some b
  | measured r₁ more ↦ fits f r₁ (more ++ work) queued
]

-- The fuel for a document: one for each of its parts.
unfoldable mutual
  pub weight : Doc → ℕ
  weight (if_break broken other) = suc (weight broken + weight other)
  weight (concat ds) = suc (weights ds)
  weight (indent d) = suc (weight d)
  weight (group d must_break) = suc (weight d)
  weight d = 1

  pub weights : Docs → ℕ
  weights nil = 0
  weights (part d ds) = weight d + weights ds

unfoldable pub work_weight : List Work → ℕ
work_weight [] = 0
work_weight ((m, d) ∷ work) = weight d + work_weight work

unfoldable pub stack_weight : List Item → ℕ
stack_weight [] = 0
stack_weight ((i, m, d) ∷ st) = weight d + stack_weight st

pub record Cursor : Type 0 where
  pub out : Text
  pub column : ℕ
  pub suffixes : List Text

-- A text behind the output, whose last character stands first.
unfoldable pub push_str : Text → (out : Text) → Text
push_str [] out = out
push_str (c ∷ s) out = push_str s (c ∷ out)

unfoldable pub push_all_str : List Text → (out : Text) → Text
push_all_str [] out = out
push_all_str (s ∷ ss) out = push_all_str ss (push_str s out)

unfoldable pub truncate_trailing_spaces : Text → Text
truncate_trailing_spaces [] = []
truncate_trailing_spaces (c ∷ out) =
    let rest = truncate_trailing_spaces out in if c == b' ' then rest else c ∷ out

-- The end of a line, with what was held back for it.
unfoldable pub new_line : (by : ℕ) → Cursor → Cursor
new_line i c = record {
  out =
      replicate i b' '
      ++ b'\n' ∷ truncate_trailing_spaces (push_all_str (Cursor.suffixes c) (Cursor.out c));
  column = i;
  suffixes = [];
}

unfoldable pub push_text : Text → Cursor → Cursor
push_text s c = record {
  out = push_str s (Cursor.out c);
  column = Cursor.column c + columns s;
  suffixes = Cursor.suffixes c;
}

-- The column behind a text that may end lines itself.
unfoldable pub verbatim_column : (column : ℕ) → Text → ℕ
verbatim_column column [] = column
verbatim_column column (c ∷ s) =
    if is_newline c then verbatim_column 0 s else verbatim_column (suc column) s

unfoldable pub push_verbatim : Text → Cursor → Cursor
push_verbatim s c = record {
  out = push_str s (Cursor.out c);
  column = verbatim_column (Cursor.column c) s;
  suffixes = Cursor.suffixes c;
}

unfoldable pub hold_back : Text → Cursor → Cursor
hold_back s c = record {
  out = Cursor.out c;
  column = Cursor.column c;
  suffixes = Cursor.suffixes c ++ s ∷ [];
}

unfoldable pub stack_parts : ℕ → Mode → Docs → List Item
stack_parts i m nil = []
stack_parts i m (part d ds) = (i, m, d) ∷ stack_parts i m ds

-- The mode of a group, from whether it must break and whether it fits.
unfoldable pub group_mode : (must_break : Bool) → Option Bool → Option Mode
group_mode true fitted = some breaks
group_mode false none = none
group_mode false (some true) = some flat
group_mode false (some false) = some breaks

abbrev pub Placed : Type 0
Placed = Option (Cursor × List Item)

-- One document on the stack: the cursor behind it, and what it puts back.
unfoldable pub place : (width by : ℕ) → Mode → Doc → Cursor → List Item → Placed
place width i m (text s) c st = some (push_text s c, [])
place width i m (verbatim s) c st = some (push_verbatim s c, [])
place width i m (line_suffix s) c st = some (hold_back s c, [])
place width i m break_parent c st = some (c, [])
place width i flat line c st = some (push_text (b' ' ∷ []) c, [])
place width i breaks line c st = some (new_line i c, [])
place width i flat softline c st = some (c, [])
place width i breaks softline c st = some (new_line i c, [])
place width i m hardline c st = some (new_line i c, [])
place width i breaks (if_break broken other) c st = some (c, (i, breaks, broken) ∷ [])
place width i flat (if_break broken other) c st = some (c, (i, flat, other) ∷ [])
place width i m (concat ds) c st = some (c, stack_parts i m ds)
place width i m (indent d) c st = some (c, (i + indent_width, m, d) ∷ [])
place width i m (group d must_break) c st =
    elim (group_mode must_break
      (fits (suc (weight d + stack_weight st)) (width - Cursor.column c) ((flat, d) ∷ []) st)) [
        | some mode ↦ some (c, (i, mode, d) ∷ [])
        | none ↦ none
      ]

unfoldable pub layout : (fuel width : ℕ) → Cursor → List Item → Option Cursor
layout zero width c st = none
layout (suc f) width c [] = some c
layout (suc f) width c ((i, m, d) ∷ st) = elim (place width i m d c st) [
  | some (c₁, more) ↦ layout f width c₁ (more ++ st)
  | none ↦ none
]

-- The output, and what is still held back, with no spaces at its end.
unfoldable pub finish : Cursor → Text
finish c = push_str (truncate_trailing_spaces (push_all_str (Cursor.suffixes c) (Cursor.out c))) []

abbrev pub start : Cursor
start = record { out = []; column = 0; suffixes = [] }

abbrev pub finished : Option Cursor → Option Text
finished none = none
finished (some c) = some (finish c)

unfoldable pub render : Doc → (width : ℕ) → Option Text
render d width = finished (layout (suc (weight d)) width start ((0, breaks, d) ∷ []))

-- ===== src/Lex.antt =====
-- src/lex.rs: the keywords and the symbols, and the scanner of a symbol.
pub mod Words
use heklang.Base.{
  ℕ, ◌+◌, ◌-◌, ◌&&◌, Bool, true, false, Option, none, some, List, [], ◌∷◌, ◌==◌, if◌then◌else◌,
}
use heklang.Base.Text.{Text, codes, is, text_eq}

-- A keyword whose word is taken here ends in `_`.
pub data Keyword : Type 0 where
  as_ command const delete_ effect else_ emit entity enum event : Keyword
  false_ fn_ fold for guard if_ in_ invalid invoke let_ : Keyword
  none_ on_ patch projector put record_ refusal reject return test : Keyword
  true_ update : Keyword

-- `Keyword::text`
unfoldable pub keyword_text : Keyword → Text
keyword_text as_ = codes "as"
keyword_text command = codes "command"
keyword_text const = codes "const"
keyword_text delete_ = codes "delete"
keyword_text effect = codes "effect"
keyword_text else_ = codes "else"
keyword_text emit = codes "emit"
keyword_text entity = codes "entity"
keyword_text enum = codes "enum"
keyword_text event = codes "event"
keyword_text false_ = codes "false"
keyword_text fn_ = codes "fn"
keyword_text fold = codes "fold"
keyword_text for = codes "for"
keyword_text guard = codes "guard"
keyword_text if_ = codes "if"
keyword_text in_ = codes "in"
keyword_text invalid = codes "invalid"
keyword_text invoke = codes "invoke"
keyword_text let_ = codes "let"
keyword_text none_ = codes "none"
keyword_text on_ = codes "on"
keyword_text patch = codes "patch"
keyword_text projector = codes "projector"
keyword_text put = codes "put"
keyword_text record_ = codes "record"
keyword_text refusal = codes "refusal"
keyword_text reject = codes "reject"
keyword_text return = codes "return"
keyword_text test = codes "test"
keyword_text true_ = codes "true"
keyword_text update = codes "update"

-- `Keyword::lookup`, test by test.
unfoldable pub lookup_keyword : Text → Option Keyword
lookup_keyword word =
    if is word "as"
    then some as_
    else if is word "command"
    then some command
    else if is word "const"
    then some const
    else if is word "delete"
    then some delete_
    else if is word "effect"
    then some effect
    else if is word "else"
    then some else_
    else if is word "emit"
    then some emit
    else if is word "entity"
    then some entity
    else if is word "enum"
    then some enum
    else if is word "event"
    then some event
    else if is word "false"
    then some false_
    else if is word "fn"
    then some fn_
    else if is word "fold"
    then some fold
    else if is word "for"
    then some for
    else if is word "guard"
    then some guard
    else if is word "if"
    then some if_
    else if is word "in"
    then some in_
    else if is word "invalid"
    then some invalid
    else if is word "invoke"
    then some invoke
    else if is word "let"
    then some let_
    else if is word "none"
    then some none_
    else if is word "on"
    then some on_
    else if is word "patch"
    then some patch
    else if is word "projector"
    then some projector
    else if is word "put"
    then some put
    else if is word "record"
    then some record_
    else if is word "refusal"
    then some refusal
    else if is word "reject"
    then some reject
    else if is word "return"
    then some return
    else if is word "test"
    then some test
    else if is word "true"
    then some true_
    else if is word "update"
    then some update
    else none

pub data Sym : Type 0 where
  left_paren right_paren left_brace right_brace left_bracket right_bracket comma colon : Sym
  question arrow to assign eq ne lt le : Sym
  gt ge plus minus star slash percent and_and : Sym
  or_or bang dot : Sym

-- `Sym::text`
unfoldable pub sym_text : Sym → Text
sym_text left_paren = codes "("
sym_text right_paren = codes ")"
sym_text left_brace = codes "{"
sym_text right_brace = codes "}"
sym_text left_bracket = codes "["
sym_text right_bracket = codes "]"
sym_text comma = codes ","
sym_text colon = codes ":"
sym_text question = codes "?"
sym_text arrow = codes "=>"
sym_text to = codes "->"
sym_text assign = codes "="
sym_text eq = codes "=="
sym_text ne = codes "!="
sym_text lt = codes "<"
sym_text le = codes "<="
sym_text gt = codes ">"
sym_text ge = codes ">="
sym_text plus = codes "+"
sym_text minus = codes "-"
sym_text star = codes "*"
sym_text slash = codes "/"
sym_text percent = codes "%"
sym_text and_and = codes "&&"
sym_text or_or = codes "||"
sym_text bang = codes "!"
sym_text dot = codes "."

-- The `match (first, second)` of `symbol`.
unfoldable pub paired : ℕ → ℕ → Option Sym
paired first second =
    if first == b'=' && second == b'>'
    then some arrow
    else if first == b'-' && second == b'>'
    then some to
    else if first == b'=' && second == b'='
    then some eq
    else if first == b'!' && second == b'='
    then some ne
    else if first == b'<' && second == b'='
    then some le
    else if first == b'>' && second == b'='
    then some ge
    else if first == b'&' && second == b'&'
    then some and_and
    else if first == b'|' && second == b'|'
    then some or_or
    else none

-- The `match first` of `symbol`.
unfoldable pub single : ℕ → Option Sym
single first =
    if first == b'('
    then some left_paren
    else if first == b')'
    then some right_paren
    else if first == b'{'
    then some left_brace
    else if first == b'}'
    then some right_brace
    else if first == b'['
    then some left_bracket
    else if first == b']'
    then some right_bracket
    else if first == b','
    then some comma
    else if first == b':'
    then some colon
    else if first == b'?'
    then some question
    else if first == b'='
    then some assign
    else if first == b'<'
    then some lt
    else if first == b'>'
    then some gt
    else if first == b'+'
    then some plus
    else if first == b'-'
    then some minus
    else if first == b'*'
    then some star
    else if first == b'/'
    then some slash
    else if first == b'%'
    then some percent
    else if first == b'!'
    then some bang
    else if first == b'.'
    then some dot
    else none

-- What `symbol` does behind its first character: a token with the text that is left and the braces
-- open in each interpolation, the innermost first; or on to the text behind a hole; or an error.
pub data Scanned : Type 0 where
  token : Sym → Text → List ℕ → Scanned
  resume_text : Text → Scanned
  unexpected_character : ℕ → Scanned

-- The braces of the innermost hole behind its next character. The depth of a hole is at least 1.
unfoldable pub counted : ℕ → List ℕ → List ℕ
counted first [] = []
counted first (depth ∷ outer) =
    if first == b'{'
    then (depth + 1) ∷ outer
    else if first == b'}'
    then (depth - 1) ∷ outer
    else depth ∷ outer

-- The hole ends here.
unfoldable pub closes : ℕ → List ℕ → Bool
closes first [] = false
closes first (depth ∷ outer) = first == b'}' && depth == 1

-- The end of `symbol`, where no pair begins.
unfoldable pub one_character : ℕ → Text → List ℕ → Scanned
one_character first rest interp = elim (single first) [
  | some s ↦ token s rest interp
  | none ↦ unexpected_character first
]

unfoldable pub pair_or_single : ℕ → Text → List ℕ → Scanned
pair_or_single first [] interp = one_character first [] interp
pair_or_single first (second ∷ rest) interp = elim (paired first second) [
  | some s ↦ token s rest interp
  | none ↦ one_character first (second ∷ rest) interp
]

-- `symbol`, with its first character apart.
unfoldable pub symbol : ℕ → Text → List ℕ → Scanned
symbol first rest interp =
    if closes first interp
    then resume_text rest
    else pair_or_single first rest (counted first interp)

-- ===== src/Value/Render.antt =====
-- src/value.rs: a value as JSON, and its texts. src/scaled.rs: the text of an amount.
use heklang.Base.{
  ℕ, ◌-◌, ◌/◌, ◌%◌, ◌^◌, Bool, true, false, Option, none, some, [], ◌∷◌, ◌++◌, ltb, if◌then◌else◌,
  length, replicate, ◌==◌,
}
use heklang.Base.Int.{ℤ, abs}
use heklang.Base.Decimal.{nat_text, sign_text, int_text}
use heklang.Base.Text.{Text, codes}
use heklang.Scaled.{Rounding, half_up, half_even, down}
use heklang.Value.{
  Value, Values, no_values, element, Fields, no_fields, field, Entries, no_entries, entry, Key,
  Json, Items, no_items, item, Members, no_members, member, Invoked, succeeded, invalid, reject,
}
use heklang.Value.Maps.{insert_member, find_member}
use heklang.Digest.Sexp.{hex_digit}

-- `scaled::text`. `{:0width$}` pads with zeros on the left.
unfoldable pub scaled_text : ℤ → ℕ → Text
scaled_text units scale =
    let fraction = nat_text (abs units % 10 ^ scale) in
    if scale == 0
    then sign_text units ++ nat_text (abs units)
    else sign_text units
      ++ (nat_text (abs units / 10 ^ scale)
          ++ b'.' ∷ (replicate (scale - length fraction) b'0' ++ fraction))

-- `Display` of `Rounding`
unfoldable pub rounding_text : Rounding → Text
rounding_text half_up = codes "HalfUp"
rounding_text half_even = codes "HalfEven"
rounding_text down = codes "Down"

-- `Invoked::ok`, `Invoked::code` and `Invoked::message`
unfoldable pub invoked_ok : Invoked → Bool
invoked_ok succeeded = true
invoked_ok i = false

unfoldable pub invoked_code : Invoked → Option Text
invoked_code (reject code message) = some code
invoked_code i = none

unfoldable pub invoked_message : Invoked → Option Text
invoked_message succeeded = none
invoked_message (invalid message) = some message
invoked_message (reject code message) = some message

-- `map_or(Json::Null, Json::str)`
abbrev pub json_or_null : Option Text → Json
json_or_null none = Json.null
json_or_null (some t) = Json.str t

-- `Json::int`
abbrev pub json_int : ℤ → Json
json_int n = Json.num (int_text n)

-- `key_text`: the text of the value that a key is.
unfoldable pub key_text : Key → Text
key_text (Key.int n) = int_text n
key_text (Key.str s) = s
key_text (Key.uuid s) = s
key_text (Key.timestamp micros) = int_text micros
key_text (Key.enum t variant) = variant

-- `Json::from_value`. The keys of a map become texts, and of two that become one text the later
-- stays.
unfoldable mutual
  pub to_json : Value → Json
  to_json (Value.sealed f subject id content) = Json.str content
  to_json (Value.secret plain redacted) = Json.secret plain redacted
  to_json (Value.bool b) = Json.bool b
  to_json (Value.int n) = json_int n
  to_json (Value.decimal units scale) = Json.str (scaled_text units scale)
  to_json (Value.money units scale) = Json.str (scaled_text units scale)
  to_json (Value.str s) = Json.str s
  to_json (Value.uuid s) = Json.str s
  to_json (Value.timestamp micros) = json_int micros
  to_json (Value.enum t variant) = Json.str variant
  to_json (Value.struct t fs) = Json.obj (fields_to_json fs no_members)
  to_json (Value.event path fs) = Json.obj (fields_to_json fs no_members)
  to_json (Value.rounding mode) = Json.str (rounding_text mode)
  to_json (Value.json j) = j
  to_json (Value.response status body) =
      Json.obj (member (codes "body") body (member (codes "status") (json_int status) no_members))
  to_json (Value.invoked i) = Json.obj (
      member (codes "code") (json_or_null (invoked_code i)) (
        member (codes "message") (json_or_null (invoked_message i))
          (member (codes "ok") (Json.bool (invoked_ok i)) no_members)))
  to_json (Value.list inner vs) = Json.arr (values_to_json vs)
  to_json (Value.map k v es) = Json.obj (entries_to_json es no_members)
  to_json (Value.absent inner) = Json.null
  to_json (Value.present inner v) = to_json v

  pub values_to_json : Values → Items
  values_to_json no_values = no_items
  values_to_json (element v vs) = item (to_json v) (values_to_json vs)

  pub fields_to_json : Fields → Members → Members
  fields_to_json no_fields ms = ms
  fields_to_json (field name v fs) ms = fields_to_json fs (insert_member name (to_json v) ms)

  pub entries_to_json : Entries → Members → Members
  entries_to_json no_entries ms = ms
  entries_to_json (entry k v es) ms = entries_to_json es (insert_member (key_text k) (to_json v) ms)

abbrev json_char : ℕ → Text
json_char c =
    if c == b'"'
    then b'\\' ∷ b'"' ∷ []
    else if c == b'\\'
    then b'\\' ∷ b'\\' ∷ []
    else if c == b'\n'
    then b'\\' ∷ b'n' ∷ []
    else if c == b'\r'
    then b'\\' ∷ b'r' ∷ []
    else if c == b'\t'
    then b'\\' ∷ b't' ∷ []
    else if ltb c 32
    then b'\\' ∷ b'u' ∷ b'0' ∷ b'0' ∷ hex_digit (c / 16) ∷ hex_digit (c % 16) ∷ []
    else c ∷ []

unfoldable pub json_chars : Text → Text
json_chars [] = []
json_chars (c ∷ s) = json_char c ++ json_chars s

-- `write_json_str`
unfoldable pub write_json_str : Text → Text
write_json_str s = b'"' ∷ (json_chars s ++ b'"' ∷ [])

-- `Display` of `Json`: the redaction of a secret.
unfoldable mutual
  pub json_text : Json → Text
  json_text Json.null = codes "null"
  json_text (Json.bool true) = codes "true"
  json_text (Json.bool false) = codes "false"
  json_text (Json.num n) = n
  json_text (Json.str s) = write_json_str s
  json_text (Json.secret plain redacted) = write_json_str redacted
  json_text (Json.arr no_items) = codes "[]"
  json_text (Json.arr (item j js)) = b'[' ∷ (json_text j ++ items_text js)
  json_text (Json.obj no_members) = codes "{}"
  json_text (Json.obj (member name j ms)) =
      b'{' ∷ (write_json_str name ++ b':' ∷ (json_text j ++ members_text ms))

  -- What stands behind an item or a member, with the bracket that closes.
  pub items_text : Items → Text
  items_text no_items = b']' ∷ []
  items_text (item j js) = b',' ∷ (json_text j ++ items_text js)

  pub members_text : Members → Text
  members_text no_members = b'}' ∷ []
  members_text (member name j ms) =
      b',' ∷ (write_json_str name ++ b':' ∷ (json_text j ++ members_text ms))

-- `text`, `redacted_text` and `sealed_text`
abbrev pub plain_text : Json → Text
plain_text (Json.str s) = s
plain_text (Json.secret plain redacted) = plain
plain_text j = json_text j

abbrev pub shown_text : Json → Text
shown_text (Json.str s) = s
shown_text (Json.secret plain redacted) = redacted
shown_text j = json_text j

unfoldable pub text : Value → Text
text v = plain_text (to_json v)

unfoldable pub redacted_text : Value → Text
redacted_text v = shown_text (to_json v)

unfoldable pub sealed_text : Value → Text
sealed_text (Value.json j) = json_text j
sealed_text v = text v

-- `Json::rendered`, behind `wire` and `shown`.
unfoldable mutual
  pub rendered : (plain : Bool) → Json → Json
  rendered true (Json.secret sent redacted) = Json.str sent
  rendered false (Json.secret sent redacted) = Json.str redacted
  rendered plain (Json.arr js) = Json.arr (rendered_items plain js)
  rendered plain (Json.obj ms) = Json.obj (rendered_members plain ms)
  rendered plain Json.null = Json.null
  rendered plain (Json.bool b) = Json.bool b
  rendered plain (Json.num n) = Json.num n
  rendered plain (Json.str s) = Json.str s

  pub rendered_items : (plain : Bool) → Items → Items
  rendered_items plain no_items = no_items
  rendered_items plain (item j js) = item (rendered plain j) (rendered_items plain js)

  pub rendered_members : (plain : Bool) → Members → Members
  rendered_members plain no_members = no_members
  rendered_members plain (member name j ms) =
      member name (rendered plain j) (rendered_members plain ms)

-- `Json::get`
unfoldable pub get : Json → Text → Option Json
get (Json.obj ms) key = find_member key ms
get j key = none

-- ===== src/Value/Shown.antt =====
-- src/value.rs: a document with its secrets named.
use heklang.Base.{◌≡◌, refl, true, false}
use heklang.Value.{Json, Items, no_items, item, Members, no_members, member}
use heklang.Value.Render.{
  json_text, items_text, members_text, rendered, rendered_items, rendered_members,
}

mutual
  unfolding json_text items_text members_text rendered rendered_items rendered_members

  shown_json : (j : Json) → json_text (rendered false j) ≡ json_text j
  shown_json Json.null = refl
  shown_json (Json.bool true) = refl
  shown_json (Json.bool false) = refl
  shown_json (Json.num n) = refl
  shown_json (Json.str s) = refl
  shown_json (Json.secret plain redacted) = refl
  shown_json (Json.arr no_items) = refl
  shown_json (Json.arr (item j js)) = simp (shown_json j, shown_items js) refl
  shown_json (Json.obj no_members) = refl
  shown_json (Json.obj (member name j ms)) = simp (shown_json j, shown_members ms) refl

  shown_items : (js : Items) → items_text (rendered_items false js) ≡ items_text js
  shown_items no_items = refl
  shown_items (item j js) = simp (shown_json j, shown_items js) refl

  shown_members : (ms : Members) → members_text (rendered_members false ms) ≡ members_text ms
  shown_members no_members = refl
  shown_members (member name j ms) = simp (shown_json j, shown_members ms) refl

-- A document is displayed the same before and after each of its secrets, at any depth, is replaced
-- by its redaction.
pub json_text-rendered : (j : Json) → json_text (rendered false j) ≡ json_text j
json_text-rendered j = shown_json j

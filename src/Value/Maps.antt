-- ===== src/Value/Maps.antt =====
-- src/value.rs: the entries of a `BTreeMap`, in the order of their keys, inside of a value.
use Prim.Native.Nat.{Ordering}
use heklang.Base.{Option, none, some, List, [], ◌∷◌}
use heklang.Base.Text.{Text}
use heklang.Ir.{Ident}
use heklang.Value.{
  Value, Values, no_values, element, Fields, no_fields, field, Entries, no_entries, entry, Key,
  Json, Members, no_members, member,
}
use heklang.Interp.Ops.{cmp_ℤ, cmp_text}

abbrev pub then_cmp : Ordering → Ordering → Ordering
then_cmp Ordering.eq o = o
then_cmp o _ = o

-- The derived `Ord` of `Key`: the order of the variants, then of what they hold.
unfoldable pub cmp_key : Key → Key → Ordering
unfolding cmp_ℤ cmp_text
cmp_key (Key.int a) (Key.int b) = cmp_ℤ a b
cmp_key (Key.int a) k = Ordering.lt
cmp_key (Key.str a) (Key.int b) = Ordering.gt
cmp_key (Key.str a) (Key.str b) = cmp_text a b
cmp_key (Key.str a) k = Ordering.lt
cmp_key (Key.uuid a) (Key.int b) = Ordering.gt
cmp_key (Key.uuid a) (Key.str b) = Ordering.gt
cmp_key (Key.uuid a) (Key.uuid b) = cmp_text a b
cmp_key (Key.uuid a) k = Ordering.lt
cmp_key (Key.timestamp a) (Key.timestamp b) = cmp_ℤ a b
cmp_key (Key.timestamp a) (Key.enum t v) = Ordering.lt
cmp_key (Key.timestamp a) k = Ordering.gt
cmp_key (Key.enum t v) (Key.enum u w) = then_cmp (cmp_text t u) (cmp_text v w)
cmp_key (Key.enum t v) k = Ordering.gt

-- `BTreeMap::insert` and `get`, by the kind of map.
unfoldable pub insert_field : Ident → Value → Fields → Fields
insert_field name v no_fields = field name v no_fields
insert_field name v (field n w fs) = elim (cmp_text name n) [
  | Ordering.lt ↦ field name v (field n w fs)
  | Ordering.eq ↦ field name v fs
  | Ordering.gt ↦ field n w (insert_field name v fs)
]

unfoldable pub find_field : Ident → Fields → Option Value
find_field name no_fields = none
find_field name (field n w fs) = elim (cmp_text name n) [
  | Ordering.eq ↦ some w
  | Ordering.lt ↦ find_field name fs
  | Ordering.gt ↦ find_field name fs
]

-- `BTreeMap::remove`, of the entry alone, and a map collected from pairs.
unfoldable pub remove_field : Ident → Fields → Fields
remove_field name no_fields = no_fields
remove_field name (field n w fs) = elim (cmp_text name n) [
  | Ordering.eq ↦ fs
  | Ordering.lt ↦ field n w (remove_field name fs)
  | Ordering.gt ↦ field n w (remove_field name fs)
]

unfoldable pub collect_fields : Fields → List (Ident × Value) → Fields
collect_fields fs [] = fs
collect_fields fs ((name, v) ∷ rest) = collect_fields (insert_field name v fs) rest

unfoldable pub insert_member : Text → Json → Members → Members
insert_member name j no_members = member name j no_members
insert_member name j (member n w ms) = elim (cmp_text name n) [
  | Ordering.lt ↦ member name j (member n w ms)
  | Ordering.eq ↦ member name j ms
  | Ordering.gt ↦ member n w (insert_member name j ms)
]

unfoldable pub find_member : Text → Members → Option Json
find_member name no_members = none
find_member name (member n w ms) = elim (cmp_text name n) [
  | Ordering.eq ↦ some w
  | Ordering.lt ↦ find_member name ms
  | Ordering.gt ↦ find_member name ms
]

unfoldable pub insert_entry : Key → Value → Entries → Entries
insert_entry k v no_entries = entry k v no_entries
insert_entry k v (entry n w es) = elim (cmp_key k n) [
  | Ordering.lt ↦ entry k v (entry n w es)
  | Ordering.eq ↦ entry k v es
  | Ordering.gt ↦ entry n w (insert_entry k v es)
]

unfoldable pub find_entry : Key → Entries → Option Value
find_entry k no_entries = none
find_entry k (entry n w es) = elim (cmp_key k n) [
  | Ordering.eq ↦ some w
  | Ordering.lt ↦ find_entry k es
  | Ordering.gt ↦ find_entry k es
]

unfoldable pub remove_entry : Key → Entries → Entries
remove_entry k no_entries = no_entries
remove_entry k (entry n w es) = elim (cmp_key k n) [
  | Ordering.eq ↦ es
  | Ordering.lt ↦ entry n w (remove_entry k es)
  | Ordering.gt ↦ entry n w (remove_entry k es)
]

-- The items of a list value, as a list and back.
unfoldable pub items_of : Values → List Value
items_of no_values = []
items_of (element v vs) = v ∷ items_of vs

unfoldable pub values_of : List Value → Values
values_of [] = no_values
values_of (v ∷ vs) = element v (values_of vs)

unfoldable pub entries_of : Entries → List (Key × Value)
entries_of no_entries = []
entries_of (entry k v es) = (k, v) ∷ entries_of es

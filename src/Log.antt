-- ===== src/Log.antt =====
-- src/host.rs and src/harness.rs: slices of the event log, what an append conflicts with, and the
-- log and the key store of the harness. A position is a natural number, and a map an association
-- list whose earlier entry wins.
pub mod Slices
pub mod Appends
pub mod Reads
pub mod Keys
use heklang.Base.{
  ℕ, zero, suc, ◌+◌, ◌-◌, ◌*◌, ◌/◌, ◌%◌, ◌^◌, Bool, true, false, not, ◌&&◌, ◌||◌, Option, none,
  some, List, [], ◌∷◌, ◌++◌, any, all, length, get_elem?, replicate, same, ltb, leb, if◌then◌else◌,
}
use heklang.Base.Int.{ℤ, pos}
use heklang.Base.Decimal.{nat_text}
use heklang.Base.Text.{Text, codes, text_eq}
use heklang.Ir.{Ident, EventPath, EventPath-discrete}
use heklang.Value.{Value, value_eq}
use heklang.Interp.Errors.{Result, ok, err, ◌>>=◌, conflict}

-- `str::cmp` answers `Less` or `Equal`; UTF-8 orders as the code points do.
unfoldable pub text_leb : Text → Text → Bool
text_leb [] t = true
text_leb (a ∷ s) [] = false
text_leb (a ∷ s) (b ∷ t) = if ltb a b then true else if ltb b a then false else text_leb s t

-- A look-up by name, as in `BTreeMap::get`.
unfoldable pub lookup {ℓ} : {A : Type ℓ} → List (Text × A) → Text → Option A
lookup [] name = none
lookup ((n, a) ∷ rest) name = if text_eq n name then some a else lookup rest name

pub record Event : Type 0 where
  pub path : EventPath
  pub fields : List (Ident × Value)

unfoldable pub field : Event → Ident → Option Value
field e name = lookup (Event.fields e) name

pub record Record : Type 0 where
  pub id : Text
  pub position : ℕ
  pub at : ℤ
  pub event : Event

unfoldable pub path_eq : EventPath → EventPath → Bool
path_eq a b = same EventPath-discrete a b

pub record Predicate : Type 0 where
  pub event : EventPath
  pub filters : List (Ident × Value)

-- `sort_by` is stable: a filter goes before those whose names are not below its own.
unfoldable pub insert_filter : Ident × Value → List (Ident × Value) → List (Ident × Value)
insert_filter f [] = f ∷ []
insert_filter f (g ∷ gs) =
    let rest = insert_filter f gs in if text_leb f.0 g.0 then f ∷ g ∷ gs else g ∷ rest

unfoldable pub sort_filters : List (Ident × Value) → List (Ident × Value)
sort_filters [] = []
sort_filters (f ∷ fs) = insert_filter f (sort_filters fs)

-- `Predicate::new`
unfoldable pub predicate : EventPath → List (Ident × Value) → Predicate
predicate event filters = record { event = event; filters = sort_filters filters }

-- `event.field(name) == Some(want)`
unfoldable pub wanted : Event → Ident × Value → Bool
wanted e (name, want) = elim (field e name) [ some v ↦ value_eq v want | none ↦ false ]

unfoldable pub holds : Predicate → Event → Bool
holds p e = path_eq (Predicate.event p) (Event.path e) && all (wanted e) (Predicate.filters p)

pub record Query : Type 0 where
  pub slices : List Predicate
  pub from : ℕ
  pub upto : Option ℕ

pub record AppendCondition : Type 0 where
  pub after : ℕ
  pub slices : List Predicate

unfoldable pub beats : AppendCondition → Record → Bool
beats c r =
    leb (AppendCondition.after c) (Record.position r)
    && any (λ p. holds p (Record.event r)) (AppendCondition.slices c)

unfoldable pub conflicts : AppendCondition → List Record → Bool
conflicts c records = any (beats c) records

-- `Keyring`, its two nested maps keyed by the subject with the id.
pub record Keyring : Type 0 where
  pub erased : List (Text × Text)
  pub under : List ((Text × Text) × List (Text × Text))

-- The part of `Harness` that the log and the keys are.
pub record Harness : Type 0 where
  pub records : List Record
  pub keys : Keyring

-- `{position:012}`; a `u64` has twenty digits at most.
unfoldable pub padded : ℕ → Text
padded n = let d = nat_text n in replicate (12 - length d) b'0' ++ d

abbrev pub epoch_micros : ℕ
epoch_micros = 1577836800000000

abbrev pub minute_micros : ℕ
minute_micros = 60000000

-- The record that `push` makes of an event at a position.
unfoldable pub stamped : ℕ → Event → Record
stamped position event = record {
  id = codes "0190d1a1-0000-7000-9000-" ++ padded position;
  position = position;
  at = pos (epoch_micros + position * minute_micros);
  event = event;
}

unfoldable pub push : Harness → Event → Harness
push h event =
    let position = length (Harness.records h) in
    record { records = Harness.records h ++ stamped position event ∷ []; keys = Harness.keys h }

-- the loop of `append` and of `with_log`
unfoldable pub push_all : Harness → List Event → Harness
push_all h [] = h
push_all h (e ∷ es) = push_all (push h e) es

abbrev pub empty : Harness
empty = record { records = []; keys = record { erased = []; under = [] } }

unfoldable pub with_log : List Event → Harness
with_log log = push_all empty log

unfoldable pub head : Harness → ℕ
head h = length (Harness.records h)

-- `Log::record`
unfoldable pub record_at : Harness → ℕ → Option Record
record_at h position = get_elem? (Harness.records h) position

unfoldable pub append : Harness → List Event → AppendCondition → Result {0} Unit × Harness
append h events condition =
    if conflicts condition (Harness.records h)
    then (err (conflict (AppendCondition.after condition)), h)
    else (ok tt, push_all h events)

-- `Clock::now`
unfoldable pub now : Harness → ℕ
now h = epoch_micros + head h * minute_micros

-- A record whose event one of the slices names; the filters are left to the fold.
unfoldable pub names : List Predicate → Record → Bool
names slices r = any (λ p. path_eq (Predicate.event p) (Event.path (Record.event r))) slices

-- `record.position > last`, where `last` is the largest `u64` when the query names none.
unfoldable pub past : Option ℕ → ℕ → Bool
past none position = ltb (2 ^ 64 - 1) position
past (some last) position = ltb last position

-- The loop of `read`, with the visitor's state passed along.
unfoldable pub scan {ℓ} :
    {S : Type ℓ} → Query → (S → Record → Result S) → List Record → S → Result S
scan q visit [] s = ok s
scan q visit (r ∷ rs) s =
    let on = scan q visit rs s in
    let visited = visit s r >>= scan q visit rs in
    if past (Query.upto q) (Record.position r)
    then ok s
    else if ltb (Record.position r) (Query.from q)
    then on
    else if names (Query.slices q) r
    then visited
    else on

unfoldable pub read {ℓ} : {S : Type ℓ} → Harness → Query → (S → Record → Result S) → S → Result S
read h q visit s = scan q visit (Harness.records h) s

-- The test of a subject and an id.
unfoldable pub key_eq : Text × Text → Text × Text → Bool
key_eq (a, i) (b, j) = text_eq a b && text_eq i j

unfoldable pub erase_subject : Keyring → Text → Text → Keyring
erase_subject k subject id =
    if any (key_eq (subject, id)) (Keyring.erased k)
    then k
    else record { erased = (subject, id) ∷ Keyring.erased k; under = Keyring.under k }

unfoldable pub wrapping :
    List ((Text × Text) × List (Text × Text)) → Text × Text → Option (List (Text × Text))
wrapping [] key = none
wrapping ((k, under) ∷ rest) key = if key_eq key k then some under else wrapping rest key

-- `or_insert_with`: a key that stands keeps its entry.
unfoldable pub wrapped_in : Keyring → Text → Text → List (Text × Text) → Keyring
wrapped_in k subject id under = elim (wrapping (Keyring.under k) (subject, id)) [
  | some _ ↦ k
  | none ↦ record { erased = Keyring.erased k; under = ((subject, id), under) ∷ Keyring.under k }
]

abbrev pub max_wrap_depth : ℕ
max_wrap_depth = 64

-- `gone`, on the depth that is left instead of the depth reached.
unfoldable pub gone : Keyring → ℕ → Text × Text → Bool
gone k zero key = any (key_eq key) (Keyring.erased k)
gone k (suc left) key =
    any (key_eq key) (Keyring.erased k)
    || elim (wrapping (Keyring.under k) key) [ some under ↦ any (gone k left) under | none ↦ false ]

unfoldable pub is_erased : Keyring → Text → Text → Bool
is_erased k subject id = gone k max_wrap_depth (subject, id)

-- `Keys::decrypt`; the field is not looked at.
unfoldable pub decrypt : Keyring → (subject id field content : Text) → Result (Option Text)
decrypt k subject id field content = if is_erased k subject id then ok none else ok (some content)

unfoldable pub is_live : Keyring → (subject id field content : Text) → Result Bool
is_live k subject id field content = ok (not (is_erased k subject id))

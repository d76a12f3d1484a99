-- ===== src/Interp/Methods/Lookup.antt =====
-- src/interp.rs: `set` and `get` of a map.
use Prim.Native.Nat.{Ordering}
use heklang.Base.{◌≡◌, refl, sym, ◌∙◌, ◌≢◌, ◌⊎◌, inl, inr, some, [], ◌∷◌, ap}
use heklang.Base.Text.{Text, codes, is, text_eq}
use heklang.Ir.{Ty}
use heklang.Value.{Value, Entries, no_entries, entry, Key, from_key, from_value}
use heklang.Value.Maps.{insert_entry, find_entry, cmp_key, then_cmp}
use heklang.Interp.Errors.{ok, ◌>>=◌}
use heklang.Interp.Coerce.{fitted, some_value, map_key}
use heklang.Interp.Ops.{cmp_ℤ, cmp_text}
use heklang.Interp.Ops.Order.{swap, cmp_ℤ-swap, cmp_ℤ-eq, cmp_text-swap, cmp_text-eq}
use heklang.Interp.Methods.{call_method}
use heklang.Interp.Methods.Strings.{Library}
use heklang.Interp.Methods.Collections.{map_method}

own_swap : (o : Ordering) → o ≡ swap o → o ≡ Ordering.eq
own_swap Ordering.lt h = absurd cc
own_swap Ordering.eq h = refl
own_swap Ordering.gt h = absurd cc

cmp_text_refl : (s : Text) → cmp_text s s ≡ Ordering.eq
cmp_text_refl s = own_swap (cmp_text s s) (cmp_text-swap s s)

cmp_key_refl : (k : Key) → cmp_key k k ≡ Ordering.eq
unfolding cmp_key
cmp_key_refl (Key.int a) = own_swap (cmp_ℤ a a) (cmp_ℤ-swap a a)
cmp_key_refl (Key.str s) = cmp_text_refl s
cmp_key_refl (Key.uuid s) = cmp_text_refl s
cmp_key_refl (Key.timestamp a) = own_swap (cmp_ℤ a a) (cmp_ℤ-swap a a)
cmp_key_refl (Key.enum t v) = rw (cmp_text_refl t, cmp_text_refl v) refl

three : (o : Ordering) → (o ≡ Ordering.lt) ⊎ ((o ≡ Ordering.eq) ⊎ (o ≡ Ordering.gt))
three Ordering.lt = inl refl
three Ordering.eq = inr (inl refl)
three Ordering.gt = inr (inr refl)

then_eq : (o p : Ordering) → then_cmp o p ≡ Ordering.eq → (o ≡ Ordering.eq) × (p ≡ Ordering.eq)
then_eq Ordering.lt p h = absurd cc
then_eq Ordering.eq p h = (refl, h)
then_eq Ordering.gt p h = absurd cc

cmp_key-eq : (k n : Key) → cmp_key k n ≡ Ordering.eq → k ≡ n
unfolding cmp_key
cmp_key-eq (Key.int a) (Key.int b) h = ap Key.int (cmp_ℤ-eq a b h)
cmp_key-eq (Key.int a) (Key.str b) h = absurd cc
cmp_key-eq (Key.int a) (Key.uuid b) h = absurd cc
cmp_key-eq (Key.int a) (Key.timestamp b) h = absurd cc
cmp_key-eq (Key.int a) (Key.enum t v) h = absurd cc
cmp_key-eq (Key.str a) (Key.int b) h = absurd cc
cmp_key-eq (Key.str a) (Key.str b) h = ap Key.str (cmp_text-eq a b h)
cmp_key-eq (Key.str a) (Key.uuid b) h = absurd cc
cmp_key-eq (Key.str a) (Key.timestamp b) h = absurd cc
cmp_key-eq (Key.str a) (Key.enum t v) h = absurd cc
cmp_key-eq (Key.uuid a) (Key.int b) h = absurd cc
cmp_key-eq (Key.uuid a) (Key.str b) h = absurd cc
cmp_key-eq (Key.uuid a) (Key.uuid b) h = ap Key.uuid (cmp_text-eq a b h)
cmp_key-eq (Key.uuid a) (Key.timestamp b) h = absurd cc
cmp_key-eq (Key.uuid a) (Key.enum t v) h = absurd cc
cmp_key-eq (Key.timestamp a) (Key.int b) h = absurd cc
cmp_key-eq (Key.timestamp a) (Key.str b) h = absurd cc
cmp_key-eq (Key.timestamp a) (Key.uuid b) h = absurd cc
cmp_key-eq (Key.timestamp a) (Key.timestamp b) h = ap Key.timestamp (cmp_ℤ-eq a b h)
cmp_key-eq (Key.timestamp a) (Key.enum t v) h = absurd cc
cmp_key-eq (Key.enum t v) (Key.int b) h = absurd cc
cmp_key-eq (Key.enum t v) (Key.str b) h = absurd cc
cmp_key-eq (Key.enum t v) (Key.uuid b) h = absurd cc
cmp_key-eq (Key.enum t v) (Key.timestamp b) h = absurd cc
cmp_key-eq (Key.enum t v) (Key.enum u w) h =
    let (p, q) = then_eq (cmp_text t u) (cmp_text v w) h in
    let e : t ≡ u = cmp_text-eq t u p in let d : v ≡ w = cmp_text-eq v w q in cc

module _ (k : Key) where
  find_here : (v : Value) (es : Entries) → find_entry k (entry k v es) ≡ some v
  unfolding find_entry
  find_here v es = rw (find_entry, cmp_key_refl k) refl

  find_past :
      (n : Key) (w : Value) (es : Entries)
      → cmp_key k n ≢ Ordering.eq
      → find_entry k (entry n w es) ≡ find_entry k es
  unfolding find_entry
  find_past n w es h = elim (three (cmp_key k n)) [
    | inl e ↦ rw (find_entry, e) refl
    | inr (inl e) ↦ absurd (h e)
    | inr (inr e) ↦ rw (find_entry, e) refl
  ]

find_entry-insert :
    (k : Key) (v : Value) (es : Entries) → find_entry k (insert_entry k v es) ≡ some v
unfolding insert_entry
find_entry-insert k v no_entries = find_here k v no_entries
find_entry-insert k v (entry n w es) = elim (three (cmp_key k n)) [
  | inl e ↦ rw (e, insert_entry) (find_here k v (entry n w es))
  | inr (inl e) ↦ rw (e, insert_entry) (find_here k v es)
  | inr (inr e) ↦
      rw (e, insert_entry)
        (find_past k n w (insert_entry k v es) (λ d. cc) ∙ find_entry-insert k v es)
]

find_entry-insert_other :
    (k other : Key) (v : Value) (es : Entries)
    → other ≢ k
    → find_entry other (insert_entry k v es) ≡ find_entry other es
unfolding insert_entry find_entry
find_entry-insert_other k other v no_entries h =
    find_past other k v no_entries (λ e. h (cmp_key-eq other k e))
find_entry-insert_other k other v (entry n w es) h = elim (three (cmp_key k n)) [
  | inl e ↦
      rw (e, insert_entry) (find_past other k v (entry n w es) (λ d. h (cmp_key-eq other k d)))
  | inr (inl e) ↦
      rw (e, insert_entry)
        (find_past other k v es (λ d. h (cmp_key-eq other k d))
          ∙ sym (find_past other n w es (λ d. h (cmp_key-eq other n d ∙ sym (cmp_key-eq k n e)))))
  | inr (inr e) ↦
      rw (e, insert_entry)
        (past_both (find_entry-insert_other k other v es h) (three (cmp_key other n)))
]
  where
    past_both :
        find_entry other (insert_entry k v es) ≡ find_entry other es
        → (cmp_key other n ≡ Ordering.lt)
          ⊎ ((cmp_key other n ≡ Ordering.eq) ⊎ (cmp_key other n ≡ Ordering.gt))
        → find_entry other (entry n w (insert_entry k v es)) ≡ find_entry other (entry n w es)
    past_both rest (inl e) = rw (find_entry, e) rest
    past_both rest (inr (inl e)) = rw (find_entry, e) refl
    past_both rest (inr (inr e)) = rw (find_entry, e) rest

map_key_of : (k : Key) → map_key (from_key k) ≡ ok k
unfolding map_key from_key from_value
map_key_of (Key.int n) = refl
map_key_of (Key.str s) = refl
map_key_of (Key.uuid s) = refl
map_key_of (Key.timestamp micros) = refl
map_key_of (Key.enum t v) = refl

module _ (lib : Library) (kt vt : Ty) (es : Entries) (k : Key) (v w : Value)
    (h : fitted v vt ≡ ok w) where
  -- `set` of a key, with a value that fits the type of the map's values, and then `get` of that key
  -- answers the value as it was fitted, present.
  pub get-set :
      (call_method lib (Value.map kt vt es) (codes "set") (from_key k ∷ v ∷ []) >>= λ m.
      call_method lib m (codes "get") (from_key k ∷ []))
      ≡ ok (some_value w)
  unfolding call_method map_method is text_eq
  get-set = rw (map_key_of k, h, map_key_of k, find_entry-insert k w es) refl

  -- `set` of a key leaves what `get` answers for every other key.
  pub get-set_other :
      (other : Key)
      → other ≢ k
      → (call_method lib (Value.map kt vt es) (codes "set") (from_key k ∷ v ∷ []) >>= λ m.
          call_method lib m (codes "get") (from_key other ∷ []))
        ≡ call_method lib (Value.map kt vt es) (codes "get") (from_key other ∷ [])
  unfolding call_method map_method is text_eq
  get-set_other other ne =
      rw (map_key_of k, h, map_key_of other, find_entry-insert_other k other w es ne) refl

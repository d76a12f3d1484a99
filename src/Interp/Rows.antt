-- ===== src/Interp/Rows.antt =====
-- src/interp.rs and src/host.rs: the rows of a read model, behind the seam `Rows` that a store
-- implements. A store is the list of its rows, one for each entity and key.
use native.Mathlib.Decide.{ℕ_discrete}
use heklang.Base.{
  Bool, true, false, ◌&&◌, Option, none, some, List, [], ◌∷◌, ◌++◌, same, if◌then◌else◌,
}
use heklang.Base.Int.{ℤ-discrete}
use heklang.Base.Text.{Text, text_eq}
use heklang.Ir.{Ident}
use heklang.Value.{Value, Key, Fields, no_fields, field}
use heklang.Interp.Errors.{Result, ok, err, ◌>>=◌, shredded_column}
use heklang.Log.{Keyring, is_live}

-- `Row`
abbrev pub Row : Type 0
Row = Fields

-- `Rows`, over the state of a store.
pub record Rows (S : Type 0) : Type 0 where
  pub row : S → Ident → List Key → Result (Option Row)
  pub put : S → Ident → List Key → Row → Result S
  pub delete : S → Ident → List Key → Result S

unfoldable pub Key-discrete : Discrete Key
Key-discrete = hlevel (ℕ_discrete, ℤ-discrete)

unfoldable pub keys_eq : (a b : List Key) → Bool
keys_eq [] [] = true
keys_eq (k ∷ ks) (l ∷ ls) = same Key-discrete k l && keys_eq ks ls
keys_eq _ _ = false

-- `Store`
abbrev pub Store : Type 0
Store = List (Ident × List Key × Row)

unfoldable pub at_key : Ident → List Key → Ident × List Key × Row → Bool
unfolding keys_eq
at_key entity key (e, k, row) = text_eq e entity && keys_eq k key

unfoldable pub store_row : Store → Ident → List Key → Option Row
store_row [] entity key = none
store_row (r ∷ rs) entity key = if at_key entity key r then some r.2 else store_row rs entity key

unfoldable pub store_delete : Store → Ident → List Key → Store
store_delete [] entity key = []
store_delete (r ∷ rs) entity key =
    let rest = store_delete rs entity key in if at_key entity key r then rest else r ∷ rest

unfoldable pub store_put : Store → Ident → List Key → Row → Store
store_put s entity key row = (entity, key, row) ∷ store_delete s entity key

-- `Rows for Store`
abbrev pub store_rows : Rows Store
store_rows = record {
  row = λ s entity key. ok (store_row s entity key);
  put = λ s entity key row. ok (store_put s entity key row);
  delete = λ s entity key. ok (store_delete s entity key);
}

-- `shred`, of a seal that stands in an optional or alone.
unfoldable pub shred : Keyring → (column : Text) → Value → Result Value
shred keys column (Value.sealed name subject id content) =
    is_live keys subject id name content >>= λ live.
    if live
    then ok (Value.sealed name subject id content)
    else err (shredded_column column subject id)
shred keys column (Value.present inner (Value.sealed name subject id content)) =
    is_live keys subject id name content >>= λ live.
    if live
    then ok (Value.present inner (Value.sealed name subject id content))
    else ok (Value.absent inner)
shred keys column v = ok v

-- `shredded`
unfoldable pub shredded : Keyring → (entity : Ident) → Row → Result Row
shredded keys entity no_fields = ok no_fields
shredded keys entity (field name v fs) = shred keys (entity ++ b'.' ∷ name) v >>= λ w.
    shredded keys entity fs >>= λ rest. ok (field name w rest)

-- `Rows for Shredding`
abbrev pub shredding : {S : Type 0} → Keyring → Rows S → Rows S
shredding keys rows = record {
  row = Rows.row rows;
  put = λ s entity key row. shredded keys entity row >>= λ r. Rows.put rows s entity key r;
  delete = Rows.delete rows;
}

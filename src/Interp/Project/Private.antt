-- ===== src/Interp/Project/Private.antt =====
-- src/interp.rs: what `shred` leaves of the sealed content of a row.
use Prim.Native.Nat.{Ordering}
use mathlib.Core.Path.{subst}
use heklang.Interp.Ops.{cmp_text}
use heklang.Base.{ℕ, ◌≡◌, refl, Bool, true, false, not, some, List, [], ◌∷◌, ◌++◌, if◌then◌else◌}
use heklang.Base.Text.{Text}
use heklang.Ir.{Ident}
use heklang.Value.{Value, Key, no_fields, field}
use heklang.Value.Maps.{find_field}
use heklang.Ir.Exprs.{Exprs}
use heklang.Ir.Program.{Program, projector_def}
use heklang.Interp.Errors.{unknown_projector, Result, ok, err, ◌>>=◌}
use heklang.Interp.Rows.{
  Row, Store, store_rows, shredding, shred, shredded, at_key, store_row, store_delete, store_put,
}
use heklang.Interp.Write.Keeps.{Kept}
use heklang.Interp.Frames.{done, or_fails}
use heklang.Interp.Frames.Binds.{>>=-eq-done}
use heklang.Interp.Eval.{Eval}
use heklang.Interp.Exec.{CallVoid}
use heklang.Interp.Project.{project}
use heklang.Interp.Project.Keeps.{project_into-Kept}
use heklang.Log.{Harness, Keyring, is_live, is_erased}
use heklang.Log.Appends.{IsPlaced}

-- No content of a subject whose key is gone.
unfoldable pub IsPrivate : Keyring → Value → Type 0
IsPrivate keys (Value.sealed name subject id content) = is_erased keys subject id ≡ false
IsPrivate keys (Value.present inner (Value.sealed name subject id content)) =
    is_erased keys subject id ≡ false
IsPrivate keys v = Unit

unfoldable pub ArePrivate : Keyring → Row → Type 0
ArePrivate keys no_fields = Unit
ArePrivate keys (field name v fs) = IsPrivate keys v × ArePrivate keys fs

unfoldable pub IsPrivateStore : Keyring → Store → Type 0
IsPrivateStore keys [] = Unit
IsPrivateStore keys ((entity, key, row) ∷ rs) = ArePrivate keys row × IsPrivateStore keys rs

ok-inj : {A : Type 0} {a b : A} → ok a ≡ ok b → a ≡ b
ok-inj h = cc

some-inj : {A : Type 0} {a b : A} → some a ≡ some b → a ≡ b
some-inj h = cc

live_or :
    (P : Value → Type 0) (gone : Bool) (v w : Value) (otherwise : Result Value)
    → (gone ≡ false → P v)
    → (otherwise ≡ ok w → P w)
    → (if not gone then ok v else otherwise) ≡ ok w
    → P w
live_or P true v w otherwise p q h = q h
live_or P false v w otherwise p q h = subst P (ok-inj h) (p refl)

shred-IsPrivate :
    (keys : Keyring) (column : Text) (v w : Value) → shred keys column v ≡ ok w → IsPrivate keys w
unfolding shred IsPrivate is_live
shred-IsPrivate keys column (Value.sealed name subject id content) w h =
    live_or (IsPrivate keys) (is_erased keys subject id) _ w _ (λ e. e) (λ x. absurd cc) h
shred-IsPrivate keys column (Value.present inner (Value.sealed name subject id content)) w h =
    live_or (IsPrivate keys) (is_erased keys subject id) _ w _ (λ e. e)
      (λ x. subst (IsPrivate keys) (ok-inj x) tt) h
shred-IsPrivate keys column v w h = subst (IsPrivate keys) (ok-inj h) tt

-- Two steps that go well, the second one first.
both_ok :
    {A B : Type 0} {y : B} (first : Result A) (then_ : A → Result B)
    → (first >>= then_) ≡ ok y
    → (x : A) × (then_ x ≡ ok y) × (first ≡ ok x)
both_ok (err e) then_ h = absurd cc
both_ok (ok x) then_ h = (x, h, refl)

shredded-ArePrivate :
    (keys : Keyring) (entity : Ident) (row row₁ : Row)
    → shredded keys entity row ≡ ok row₁
    → ArePrivate keys row₁
unfolding shredded ArePrivate
shredded-ArePrivate keys entity no_fields row₁ h = subst (ArePrivate keys) (ok-inj h) tt
shredded-ArePrivate keys entity (field name v fs) row₁ h =
    let (w, h₁, hw) = both_ok (shred keys (entity ++ b'.' ∷ name) v) _ h in
    let (rest, h₂, hr) = both_ok (shredded keys entity fs) _ h₁ in
    subst (ArePrivate keys) (ok-inj h₂)
      (shred-IsPrivate keys _ v w hw, shredded-ArePrivate keys entity fs rest hr)

store_delete-IsPrivateStore :
    (keys : Keyring) (s : Store) (entity : Ident) (ks : List Key)
    → IsPrivateStore keys s
    → IsPrivateStore keys (store_delete s entity ks)
unfolding store_delete IsPrivateStore
store_delete-IsPrivateStore keys [] entity ks p = tt
store_delete-IsPrivateStore keys ((e, k, row) ∷ rs) entity ks (p, ps) =
    elim (at_key entity ks (e, k, row))
      as (λ b.
        IsPrivateStore keys
          (if b then store_delete rs entity ks else (e, k, row) ∷ store_delete rs entity ks)) [
            | true ↦ store_delete-IsPrivateStore keys rs entity ks ps
            | false ↦ (p, store_delete-IsPrivateStore keys rs entity ks ps)
          ]

shredding-Kept : (keys : Keyring) → Kept (shredding keys store_rows) (IsPrivateStore keys)
unfolding store_put IsPrivateStore
shredding-Kept keys = record {
  put = λ s s₁ entity ks row h p.
      let (row₁, h₁, hr) = both_ok (shredded keys entity row) _ h in
      subst (IsPrivateStore keys) (ok-inj h₁) (
        shredded-ArePrivate keys entity row row₁ hr,
        store_delete-IsPrivateStore keys s entity ks p,
      );
  delete = λ s s₁ entity ks h p.
      subst (IsPrivateStore keys) (ok-inj h) (store_delete-IsPrivateStore keys s entity ks p);
}

field-IsPrivate :
    (keys : Keyring) (row : Row) (name : Ident) (v : Value)
    → ArePrivate keys row
    → find_field name row ≡ some v
    → IsPrivate keys v
unfolding ArePrivate find_field
field-IsPrivate keys no_fields name v p h = absurd cc
field-IsPrivate keys (field other w fs) name v (p, ps) h =
    elim (cmp_text name other)
        as (λ (o : Ordering).
          elim o [
            | Ordering.eq ↦ some w
            | Ordering.lt ↦ find_field name fs
            | Ordering.gt ↦ find_field name fs
          ]
            ≡ some v
          → IsPrivate keys v) [
            | Ordering.eq ↦ λ x. subst (IsPrivate keys) (some-inj x) p
            | Ordering.lt ↦ λ x. field-IsPrivate keys fs name v ps x
            | Ordering.gt ↦ λ x. field-IsPrivate keys fs name v ps x
          ]
      h

row-ArePrivate :
    (keys : Keyring) (s : Store) (entity : Ident) (ks : List Key) (row : Row)
    → IsPrivateStore keys s
    → store_row s entity ks ≡ some row
    → ArePrivate keys row
unfolding IsPrivateStore store_row
row-ArePrivate keys [] entity ks row p h = absurd cc
row-ArePrivate keys ((e, k, found) ∷ rs) entity ks row (p, ps) h =
    elim (at_key entity ks (e, k, found))
        as (λ b.
          (if b then some found else store_row rs entity ks) ≡ some row → ArePrivate keys row) [
            | true ↦ λ x. subst (ArePrivate keys) (some-inj x) p
            | false ↦ λ x. row-ArePrivate keys rs entity ks row ps x
          ]
      h

module _ (evals : Exprs → Eval) (depth : ℕ) (program : Program) (call_void : CallVoid) (h : Harness)
    (placed : IsPlaced 0 (Harness.records h)) where
  project-IsPrivateStore :
      (name : Ident) (s : Store)
      → project evals depth program call_void name h ≡ done s
      → IsPrivateStore (Harness.keys h) s
  unfolding project IsPrivateStore
  project-IsPrivateStore name s e =
      let (p, hp, e₁) =
        >>=-eq-done (or_fails (projector_def program name) (unknown_projector name)) _ e in
      project_into-Kept evals depth program call_void p (shredding (Harness.keys h) store_rows)
        (IsPrivateStore (Harness.keys h)) (shredding-Kept (Harness.keys h)) h [] s placed tt e₁

  -- A read model that is projected from a log whose records stand at their own positions, whatever
  -- the handlers write, has no column that holds, alone or in an optional, sealed content of a
  -- subject whose key the host has erased.
  pub project-IsPrivate :
      (name entity column : Ident) (s : Store) (ks : List Key) (row : Row) (v : Value)
      → project evals depth program call_void name h ≡ done s
      → store_row s entity ks ≡ some row
      → find_field column row ≡ some v
      → IsPrivate (Harness.keys h) v
  project-IsPrivate name entity column s ks row v e found read =
      field-IsPrivate (Harness.keys h) row column v
        (row-ArePrivate (Harness.keys h) s entity ks row (project-IsPrivateStore name s e) found)
        read

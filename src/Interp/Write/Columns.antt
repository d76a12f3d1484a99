-- ===== src/Interp/Write/Columns.antt =====
-- src/interp.rs: the columns that a `put` writes, and the key that they hold.
use mathlib.Core.Path.{subst}
use heklang.Base.{
  ℕ, ◌≡◌, refl, sym, ap, ◌∙◌, true, Option, none, some, List, [], ◌∷◌, get_elem?, Bool-cases,
  Option-cases, inl, inr,
}
use heklang.Ir.{Ident, Ty}
use heklang.Ir.Exprs.{ExprId}
use heklang.Ir.Program.{Program, EntityDef, EntityField, entity_field}
use heklang.Value.{Value, ty, has_type, Key, from_key, from_value}
use heklang.Value.Maps.{insert_field, find_field}
use heklang.Interp.Errors.{
  ErrorKind, unknown_entity_field, missing_entity_field, type_mismatch, malformed_ir,
}
use heklang.Interp.Coerce.{coerce, map_key}
use heklang.Interp.Bounds.{check_field, bounded}
use heklang.Interp.Frames.{Frame, done, fails, or_fails, from_result}
use heklang.Interp.Frames.Binds.{>>=-eq-done, done-inj}
use heklang.Interp.Eval.{Eval}
use heklang.Interp.Rows.{Row}
use heklang.Interp.Write.{key_fields, key_columns, row_key, unwritten, eval_column, eval_columns}

pub or_fails-found :
    {A : Type 0} {a : A} (o : Option A) (e : ErrorKind) → or_fails o e ≡ done a → o ≡ some a
or_fails-found none e h = absurd cc
or_fails-found (some a) e h = ap some (done-inj h)

-- Every column that is declared has a value.
abbrev pub IsWhole : List EntityField → Row → Type 0
IsWhole [] row = Unit
IsWhole (f ∷ fs) row =
    ((v : Value) × (find_field (EntityField.name f) row ≡ some v)) × IsWhole fs row

pub unwritten-IsWhole :
    (fs : List EntityField) (row : Row) → unwritten fs row ≡ none → IsWhole fs row
unfolding unwritten
unwritten-IsWhole [] row h = tt
unwritten-IsWhole (f ∷ fs) row h = elim (Option-cases (find_field (EntityField.name f) row)) [
  | inl e ↦ let gap : some (EntityField.name f) ≡ none = rw (e, unwritten) at h in absurd cc
  | inr (v, e) ↦
      let rest : unwritten fs row ≡ none = rw (e, unwritten) at h in
      ((v, e), unwritten-IsWhole fs row rest)
]

-- Each part of a key is the value of the column at its position, in the order of the positions.
abbrev pub IsKeyOf : List EntityField → Row → (positions : List ℕ) → List Key → Type 0
IsKeyOf fs row [] [] = Unit
IsKeyOf fs row (at ∷ ats) (k ∷ ks) =
    ((f : EntityField) × (get_elem? fs at ≡ some f)
      × (find_field (EntityField.name f) row ≡ some (from_key k)))
    × IsKeyOf fs row ats ks
IsKeyOf fs row _ _ = ⊥

map_key-from_key : (v : Value) (k : Key) → from_result (map_key v) ≡ done k → from_key k ≡ v
unfolding map_key from_value from_key
map_key-from_key (Value.int n) k h = ap from_key (sym (done-inj h))
map_key-from_key (Value.str s) k h = ap from_key (sym (done-inj h))
map_key-from_key (Value.uuid s) k h = ap from_key (sym (done-inj h))
map_key-from_key (Value.timestamp m) k h = ap from_key (sym (done-inj h))
map_key-from_key (Value.enum t variant) k h = ap from_key (sym (done-inj h))
map_key-from_key v k h = absurd cc

columns-IsKeyOf :
    (entity : Ident) (fields : List EntityField) (row : Row) (ats : List ℕ) (fs : List EntityField)
    (ks : List Key)
    → key_fields fields ats ≡ done fs
    → key_columns entity fs row ≡ done ks
    → IsKeyOf fields row ats ks
unfolding key_fields key_columns
columns-IsKeyOf entity fields row [] [] [] g h = tt
columns-IsKeyOf entity fields row [] [] (k ∷ ks) g h = absurd cc
columns-IsKeyOf entity fields row [] (f ∷ fs) ks g h = absurd cc
columns-IsKeyOf entity fields row (at ∷ ats) fs ks g h =
    let (f, found, g₁) = >>=-eq-done (or_fails (get_elem? fields at) malformed_ir) _ g in
    let (rest, more, g₂) = >>=-eq-done (key_fields fields ats) _ g₁ in
    let h₀ : key_columns entity (f ∷ rest) row ≡ done ks =
      subst (λ (l : List EntityField). key_columns entity l row ≡ done ks) (sym (done-inj g₂)) h in
    let (v, held, h₁) =
      >>=-eq-done
        (or_fails (find_field (EntityField.name f) row)
          (missing_entity_field entity (EntityField.name f)))
        _ h₀ in
    let (k, part, h₂) = >>=-eq-done (from_result (map_key v)) _ h₁ in
    let (later, parts, h₃) = >>=-eq-done (key_columns entity rest row) _ h₂ in
    let here = or_fails-found (find_field (EntityField.name f) row) _ held in
    subst (IsKeyOf fields row (at ∷ ats)) (done-inj h₃) (
      (
        f,
        or_fails-found (get_elem? fields at) _ found,
        here ∙ ap some (sym (map_key-from_key v k part)),
      ),
      columns-IsKeyOf entity fields row ats rest later more parts,
    )

pub row_key-IsKeyOf :
    (def : EntityDef) (row : Row) (ks : List Key)
    → row_key def row ≡ done ks
    → IsKeyOf (EntityDef.fields def) row (EntityDef.keys def) ks
unfolding row_key
row_key-IsKeyOf def row ks h =
    let (fs, found, h₁) =
      >>=-eq-done (key_fields (EntityDef.fields def) (EntityDef.keys def)) _ h in
    columns-IsKeyOf (EntityDef.name def) (EntityDef.fields def) row (EntityDef.keys def) fs ks found
      h₁

-- What is written of a value to a column of a type: a value of the optional's own type is wrapped, and
-- what is written has the type.
pub record IsWritten (t : Ty) (v w : Value) : Type 0 where
  pub wrapped :
      (inner : Ty) → t ≡ Ty.opt inner → has_type v inner ≡ true → w ≡ Value.present inner v
  pub typed : has_type w t ≡ true

coerce-wrapped :
    (v : Value) (t inner : Ty)
    → t ≡ Ty.opt inner
    → has_type v inner ≡ true
    → coerce v t ≡ Value.present inner v
unfolding coerce
coerce-wrapped v t inner e h = rw (e, coerce, h) refl

module _ (ev : Eval) (program : Program) (def : EntityDef) where
  -- The columns are evaluated in their order, each in the frame that the one before it left, and a
  -- later value of a column stands for an earlier one.
  pub data Written : List (Ident × ExprId) → Row → Frame → Row → Frame → Type 0 where
    all_written : {row : Row} {fr : Frame} → Written [] row fr row fr
    column :
        {name : Ident} {id : ExprId} {fs : List (Ident × ExprId)} {row row₁ : Row}
        {fr fr₁ fr₂ : Frame} {v w : Value} {d : EntityField}
        → entity_field def name ≡ some d
        → ev id fr ≡ done (v, fr₁)
        → IsWritten (EntityField.ty d) v w
        → bounded program name (EntityField.max_len d) w ≡ none
        → Written fs (insert_field name w row) fr₁ row₁ fr₂
        → Written ((name, id) ∷ fs) row fr row₁ fr₂

  checked :
      (t : Ty) (max_len : Option ℕ) (name : Ident) (w : Value) (fault : Option ErrorKind)
      → check_field program t max_len name w ≡ done fault
      → (has_type w t ≡ true) × (bounded program name max_len w ≡ fault)
  unfolding check_field
  checked t max_len name w fault h = elim (Bool-cases (has_type w t)) [
    | inl e ↦
        let b : done (bounded program name max_len w) ≡ done fault = rw (e) at h in (e, done-inj b)
    | inr e ↦ let b : fails (type_mismatch t (ty w)) ≡ done fault = rw (e) at h in absurd cc
  ]

  column-found :
      (entity name : Ident) (id : ExprId) (fr fr₁ : Frame) (w : Value)
      → eval_column ev program def entity name id fr ≡ done (w, fr₁)
      → (d : EntityField) × (v : Value) × (entity_field def name ≡ some d)
        × (ev id fr ≡ done (v, fr₁))
        × IsWritten (EntityField.ty d) v w
        × (bounded program name (EntityField.max_len d) w ≡ none)
  unfolding eval_column
  column-found entity name id fr fr₁ w h =
      let (d, declared, h₁) =
        >>=-eq-done (or_fails (entity_field def name) (unknown_entity_field entity name)) _ h in
      let ((v, fr₂), evaluated, h₂) = >>=-eq-done (ev id fr) _ h₁ in
      let t = EntityField.ty d in
      let (fault, tested, h₃) =
        >>=-eq-done (check_field program t (EntityField.max_len d) name (coerce v t)) _ h₂ in
      let (typed, within) = checked t (EntityField.max_len d) name (coerce v t) fault tested in
      elim (Option-cases fault) [
        | inl free ↦
            let h₄ : done (coerce v t, fr₂) ≡ done (w, fr₁) = rw (free) at h₃ in
            let e : (coerce v t, fr₂) ≡ (w, fr₁) = done-inj h₄ in
            let same : coerce v t ≡ w = ap (λ q. q.0) e in
            (
              d,
              v,
              or_fails-found (entity_field def name) _ declared,
              evaluated ∙ ap (λ q. done (v, q.1)) e,
              record {
                wrapped = λ inner k fits. sym same ∙ coerce-wrapped v t inner k fits;
                typed = ap (λ x. has_type x t) (sym same) ∙ typed;
              },
              ap (bounded program name (EntityField.max_len d)) (sym same) ∙ within ∙ free,
            )
        | inr (x, found) ↦ let h₄ : fails x ≡ done (w, fr₁) = rw (found) at h₃ in absurd cc
      ]

  pub columns-Written :
      (entity : Ident) (fs : List (Ident × ExprId)) (row row₁ : Row) (fr fr₁ : Frame)
      → eval_columns ev program def entity fs row fr ≡ done (row₁, fr₁)
      → Written fs row fr row₁ fr₁
  unfolding eval_columns
  columns-Written entity [] row row₁ fr fr₁ h =
      let e : (row, fr) ≡ (row₁, fr₁) = done-inj h in
      subst (λ (q : Row × Frame). Written [] row fr q.0 q.1) e all_written
  columns-Written entity ((name, id) ∷ fs) row row₁ fr fr₁ h =
      let ((w, fr₂), one, h₁) = >>=-eq-done (eval_column ev program def entity name id fr) _ h in
      let (d, v, declared, evaluated, written, within) = column-found entity name id fr fr₂ w one in
      column declared evaluated written within
        (columns-Written entity fs (insert_field name w row) row₁ fr₂ fr₁ h₁)

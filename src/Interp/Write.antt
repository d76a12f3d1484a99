-- ===== src/Interp/Write.antt =====
-- src/interp.rs: `exec_block` and `exec_stmt` for the sink of a projector, which writes rows; what
-- the statements of a command have in common with these is said in Interp.Exec.
pub mod Keeps
pub mod Puts
pub mod Columns
use heklang.Base.{
  ℕ, suc, true, false, Option, none, some, List, [], ◌∷◌, get_elem?, ◌==◌, if◌then◌else◌,
}
use heklang.Ir.{Ident}
use heklang.Ir.Exprs.{ExprId, Iter, Bind, Absent, materialize, skip, Stmt, Block}
use heklang.Ir.Program.{Program, EntityDef, EntityField, Projector, entity_def, entity_field}
use heklang.Value.{Value, no_fields, Key, from_key}
use heklang.Value.Maps.{insert_field, find_field}
use heklang.Value.Zero.{Defs, initial}
use heklang.Interp.Errors.{malformed_ir, unknown_entity, unknown_entity_field, missing_entity_field}
use heklang.Interp.Coerce.{coerce, map_key}
use heklang.Interp.Bounds.{check_field}
use heklang.Interp.Frames.{Frame, Run, done, fails, ◌>>=◌, from_result, or_fails, set}
use heklang.Interp.Eval.{Eval, Answer, Pair, bind_iter, elements, eval_bool, eval_string, eval_all}
use heklang.Interp.Exec.{Flow, next, returned, CallVoid, erase_refused, eval_return}
use heklang.Interp.Rows.{Row, Rows}

-- What a statement leaves: how it went on, the frame, and the store.
abbrev pub Wrote : Type 0 → Type 0
Wrote S = Run (Flow × Frame × S)

-- The rest of a block, unless a statement returned.
unfoldable pub go_on : {S : Type 0} → Flow → Frame → S → (Frame → S → Wrote S) → Wrote S
go_on next fr s k = k fr s
go_on (returned r) fr s k = done (returned r, fr, s)

-- The rounds of a `for`.
unfoldable pub write_rounds :
    {S : Type 0} → (Frame → S → Wrote S) → Iter → List Pair → Frame → S → Wrote S
write_rounds body it [] fr s = done (next, fr, s)
write_rounds body it ((index, item) ∷ ps) fr s = bind_iter it index item fr >>= λ fr₁.
    body fr₁ s >>= λ (flow, fr₂, s₁). go_on flow fr₂ s₁ (write_rounds body it ps)

-- `key_fields`; an index that is out of range panics in the source.
unfoldable pub key_fields : List EntityField → List ℕ → Run (List EntityField)
key_fields fs [] = done []
key_fields fs (at ∷ ats) =
    or_fails (get_elem? fs at) malformed_ir >>= λ f. key_fields fs ats >>= λ rest. done (f ∷ rest)

-- The columns of a key, out of a row.
unfoldable pub key_columns : Ident → List EntityField → Row → Run (List Key)
key_columns entity [] row = done []
key_columns entity (f ∷ fs) row =
    or_fails (find_field (EntityField.name f) row)
      (missing_entity_field entity (EntityField.name f))
    >>= λ v. from_result (map_key v) >>= λ k. key_columns entity fs row >>= λ ks. done (k ∷ ks)

unfoldable pub row_key : EntityDef → Row → Run (List Key)
row_key def row = key_fields (EntityDef.fields def) (EntityDef.keys def) >>= λ fs.
    key_columns (EntityDef.name def) fs row

-- A column that is declared and not written.
unfoldable pub unwritten : List EntityField → Row → Option Ident
unwritten [] row = none
unwritten (f ∷ fs) row = elim (find_field (EntityField.name f) row) [
  | some v ↦ unwritten fs row
  | none ↦ some (EntityField.name f)
]

abbrev rest_of : List Key → List Key
rest_of [] = []
rest_of (k ∷ ks) = ks

-- The part of the key that is the column at a position, if one is: an index past the end of the key
-- panics in the source.
unfoldable pub key_part : List ℕ → List Key → (position : ℕ) → Option (Option Key)
key_part [] ks position = none
key_part (at ∷ ats) ks position =
    let later = key_part ats (rest_of ks) position in
    if at == position then some (get_elem? ks 0) else later

module _ (depth : ℕ) (program : Program) (projector : Projector) where
  abbrev pub column_defs : Defs
  column_defs = record {
    local = Projector.enums projector;
    enums = Program.enums program;
    records = Program.records program;
  }

  -- A column of a row that a `patch` makes.
  unfoldable pub column_start : EntityDef → EntityField → Option (Option Key) → Run Value
  column_start def f (some part) = or_fails part malformed_ir >>= λ k. done (from_key k)
  column_start def f none = initial depth f column_defs >>= λ v.
      or_fails v (missing_entity_field (EntityDef.name def) (EntityField.name f))

  unfoldable pub materialize_from :
      EntityDef → List Key → (position : ℕ) → List EntityField → Row → Run Row
  materialize_from def ks position [] row = done row
  materialize_from def ks position (f ∷ fs) row =
      column_start def f (key_part (EntityDef.keys def) ks position) >>= λ v.
      materialize_from def ks (suc position) fs (insert_field (EntityField.name f) v row)

  -- The row that a `patch` writes to, unless it is to be skipped.
  unfoldable pub prior : EntityDef → List Key → Absent → Option Row → Run (Option Row)
  prior def ks absent (some row) = done (some row)
  prior def ks materialize none =
      materialize_from def ks 0 (EntityDef.fields def) no_fields >>= λ row. done (some row)
  prior def ks skip none = done none

-- The stored values that a `patch` reads.
unfoldable pub load_columns : Ident → List Bind → Row → Frame → Run Frame
load_columns entity [] row fr = done fr
load_columns entity (b ∷ bs) row fr =
    or_fails (find_field (Bind.field b) row) (unknown_entity_field entity (Bind.field b)) >>= λ v.
    set fr (Bind.slot b) v >>= λ fr₁. load_columns entity bs row fr₁

module _ (ev : Eval) where
  -- `subscript`
  unfoldable pub subscript_keys : List ExprId → Frame → Answer (List Key)
  subscript_keys [] fr = done ([], fr)
  subscript_keys (id ∷ ids) fr = ev id fr >>= λ (v, fr₁).
      from_result (map_key v) >>= λ k. subscript_keys ids fr₁ >>= λ (ks, fr₂). done (k ∷ ks, fr₂)

  module _ (program : Program) where
    -- `eval_field`
    unfoldable pub eval_column : EntityDef → (entity name : Ident) → ExprId → Frame → Answer Value
    eval_column def entity name id fr =
        or_fails (entity_field def name) (unknown_entity_field entity name) >>= λ d.
        ev id fr >>= λ (v, fr₁).
        check_field program (EntityField.ty d) (EntityField.max_len d) name
          (coerce v (EntityField.ty d))
        >>= λ fault. elim fault [
          | some e ↦ fails e
          | none ↦ done (coerce v (EntityField.ty d), fr₁)
        ]

    unfoldable pub eval_columns :
        EntityDef → (entity : Ident) → List (Ident × ExprId) → Row → Frame → Answer Row
    eval_columns def entity [] row fr = done (row, fr)
    eval_columns def entity ((name, id) ∷ fs) row fr =
        eval_column def entity name id fr >>= λ (v, fr₁).
        eval_columns def entity fs (insert_field name v row) fr₁

    module _ (depth : ℕ) (projector : Projector) {S : Type 0} (rows : Rows S) where
      -- The write of a `put`, unless a column is not written.
      unfoldable pub put_row :
          (missing : Option Ident) → EntityDef → (entity : Ident) → Row → Frame → S → Wrote S
      put_row (some name) def entity row fr s = fails (missing_entity_field entity name)
      put_row none def entity row fr s = row_key def row >>= λ ks.
          from_result (Rows.put rows s entity ks row) >>= λ s₁. done (next, fr, s₁)

      unfoldable pub exec_put : (entity : Ident) → List (Ident × ExprId) → Frame → S → Wrote S
      exec_put entity fs fr s =
          or_fails (entity_def projector entity) (unknown_entity entity) >>= λ def.
          eval_columns def entity fs no_fields fr >>= λ (row, fr₁).
          put_row (unwritten (EntityDef.fields def) row) def entity row fr₁ s

      unfoldable pub patch_row :
          EntityDef
          → (entity : Ident) → List Key
          → List Bind
          → List (Ident × ExprId)
          → Option Row
          → Frame
          → S
          → Wrote S
      patch_row def entity ks loads fs none fr s = done (next, fr, s)
      patch_row def entity ks loads fs (some row) fr s = load_columns entity loads row fr >>= λ fr₁.
          eval_columns def entity fs row fr₁ >>= λ (row₁, fr₂).
          from_result (Rows.put rows s entity ks row₁) >>= λ s₁. done (next, fr₂, s₁)

      unfoldable pub exec_patch :
          (entity : Ident)
          → List ExprId
          → Absent
          → List Bind
          → List (Ident × ExprId)
          → Frame
          → S
          → Wrote S
      exec_patch entity keys absent loads fs fr s = subscript_keys keys fr >>= λ (ks, fr₁).
          or_fails (entity_def projector entity) (unknown_entity entity) >>= λ def.
          from_result (Rows.row rows s entity ks) >>= λ stored.
          prior depth program projector def ks absent stored >>= λ row.
          patch_row def entity ks loads fs row fr₁ s

      unfoldable pub exec_delete : (entity : Ident) → List ExprId → Frame → S → Wrote S
      exec_delete entity [] fr s = fails malformed_ir
      exec_delete entity (id ∷ ids) fr s = subscript_keys (id ∷ ids) fr >>= λ (ks, fr₁).
          or_fails (entity_def projector entity) (unknown_entity entity) >>= λ def.
          from_result (Rows.delete rows s entity ks) >>= λ s₁. done (next, fr₁, s₁)

      module _ (call_void : CallVoid) where
        unfoldable mutual
          pub write_stmt : Stmt → Frame → S → Wrote S
          write_stmt (Stmt.assign slot v) fr s =
              ev v fr >>= λ (w, fr₁). set fr₁ slot w >>= λ fr₂. done (next, fr₂, s)
          write_stmt (Stmt.if_else cond then_ otherwise) fr s =
              eval_bool ev cond fr >>= λ (taken, fr₁). elim taken [
                | true ↦ write_block then_ fr₁ s
                | false ↦ write_block otherwise fr₁ s
              ]
          write_stmt (Stmt.for_each it body) fr s = elements ev it fr >>= λ (ps, fr₁).
              write_rounds (λ fr₂ s₁. write_block body fr₂ s₁) it ps fr₁ s
          write_stmt (Stmt.emit path fs) fr s = fails malformed_ir
          write_stmt (Stmt.put entity fs) fr s = exec_put entity fs fr s
          write_stmt (Stmt.patch entity keys absent loads fs) fr s =
              exec_patch entity keys absent loads fs fr s
          write_stmt (Stmt.delete entity keys) fr s = exec_delete entity keys fr s
          write_stmt (Stmt.fail message) fr s = fails malformed_ir
          write_stmt (Stmt.log message) fr s = eval_string ev message fr >>= λ _. fails malformed_ir
          write_stmt (Stmt.erase subject v) fr s =
              ev v fr >>= λ (w, fr₁). erase_refused w >>= λ _. fails malformed_ir
          write_stmt (Stmt.discard v) fr s = ev v fr >>= λ (w, fr₁). done (next, fr₁, s)
          write_stmt (Stmt.call function scope args) fr s = eval_all ev args fr >>= λ (vs, fr₁).
              call_void function scope vs >>= λ _. done (next, fr₁, s)
          write_stmt (Stmt.return r) fr s =
              eval_return ev r fr >>= λ (w, fr₁). done (returned w, fr₁, s)

          pub write_block : Block → Frame → S → Wrote S
          write_block Block.end fr s = done (next, fr, s)
          write_block (Block.next st b) fr s = write_stmt st fr s >>= λ (flow, fr₁, s₁).
              go_on flow fr₁ s₁ (λ fr₂ s₂. write_block b fr₂ s₂)

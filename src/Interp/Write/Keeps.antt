-- ===== src/Interp/Write/Keeps.antt =====
-- src/interp.rs: what every row that a projector writes keeps, the statements keep.
use heklang.Base.{ℕ, ◌≡◌, Option, none, some, List, [], ◌∷◌}
use heklang.Ir.{Ident}
use heklang.Ir.Exprs.{ExprId, Iter, Bind, Absent, Stmt, Block}
use heklang.Ir.Program.{Program, EntityDef, Projector, entity_def}
use heklang.Value.{Key, no_fields}
use heklang.Interp.Errors.{ok}
use heklang.Interp.Frames.{Frame, Run, or_fails, from_result, set}
use heklang.Interp.Frames.Leaves.{Leaves, Leaves-then, Leaves-bind, Leaves-either, Leaves-result}
use heklang.Interp.Eval.{Eval, Pair, bind_iter, elements, eval_bool, eval_string, eval_all}
use heklang.Interp.Exec.{Flow, next, returned, CallVoid, erase_refused, eval_return}
use heklang.Interp.Rows.{Row, Rows}
use heklang.Interp.Write.{
  subscript_keys, eval_columns, load_columns, prior, row_key, go_on, write_rounds, unwritten,
  patch_row, put_row, exec_put, exec_patch, exec_delete, write_stmt, write_block,
}

-- A property of a store that no write of a row breaks.
pub record Kept {S : Type 0} (rows : Rows S) (P : S → Type 0) : Type 0 where
  pub put :
      (s s₁ : S) (entity : Ident) (ks : List Key) (row : Row)
      → Rows.put rows s entity ks row ≡ ok s₁
      → P s
      → P s₁
  pub delete :
      (s s₁ : S) (entity : Ident) (ks : List Key)
      → Rows.delete rows s entity ks ≡ ok s₁
      → P s
      → P s₁

module _ {S : Type 0} (rows : Rows S) (P : S → Type 0) (kept : Kept rows P) where
  abbrev After : Flow × Frame × S → Type 0
  After w = P w.2

  go_on-After :
      (flow : Flow) (fr : Frame) (s : S) (k : Frame → S → Run (Flow × Frame × S))
      → P s
      → ((fr₁ : Frame) (s₁ : S) → P s₁ → Leaves After (k fr₁ s₁))
      → Leaves After (go_on flow fr s k)
  unfolding go_on Leaves
  go_on-After next fr s k p h = h fr s p
  go_on-After (returned r) fr s k p h = p

  rounds-After :
      (body : Frame → S → Run (Flow × Frame × S)) (it : Iter) (ps : List Pair) (fr : Frame) (s : S)
      → ((fr₁ : Frame) (s₁ : S) → P s₁ → Leaves After (body fr₁ s₁))
      → P s
      → Leaves After (write_rounds body it ps fr s)
  unfolding write_rounds Leaves
  rounds-After body it [] fr s h p = p
  rounds-After body it ((index, item) ∷ ps) fr s h p =
      Leaves-bind After (bind_iter it index item fr) _ λ fr₁.
        Leaves-then After (body fr₁ s) _ (h fr₁ s p) λ (flow, fr₂, s₁) p₁.
          go_on-After flow fr₂ s₁ _ p₁ λ fr₃ s₂ p₂. rounds-After body it ps fr₃ s₂ h p₂

  module _ (ev : Eval) (program : Program) (depth : ℕ) (projector : Projector) where
    put_row-After :
        (missing : Option Ident) (def : EntityDef) (entity : Ident) (row : Row) (fr : Frame) (s : S)
        → P s
        → Leaves After (put_row ev program depth projector rows missing def entity row fr s)
    unfolding put_row Leaves
    put_row-After (some name) def entity row fr s p = tt
    put_row-After none def entity row fr s p = Leaves-bind After (row_key def row) _ λ ks.
        Leaves-then After (from_result (Rows.put rows s entity ks row)) _
          (Leaves-result P (Rows.put rows s entity ks row)
            λ s₁ h. Kept.put kept s s₁ entity ks row h p)
          λ s₁ p₁. p₁

    exec_put-After :
        (entity : Ident) (fs : List (Ident × ExprId)) (fr : Frame) (s : S)
        → P s
        → Leaves After (exec_put ev program depth projector rows entity fs fr s)
    unfolding exec_put
    exec_put-After entity fs fr s p =
        Leaves-bind After (or_fails (entity_def projector entity) _) _ λ def.
          Leaves-bind After (eval_columns ev program def entity fs no_fields fr) _ λ (row, fr₁).
            put_row-After (unwritten (EntityDef.fields def) row) def entity row fr₁ s p

    patch_row-After :
        (def : EntityDef) (entity : Ident) (ks : List Key) (loads : List Bind)
        (fs : List (Ident × ExprId)) (found : Option Row) (fr : Frame) (s : S)
        → P s
        → Leaves After (patch_row ev program depth projector rows def entity ks loads fs found fr s)
    unfolding patch_row Leaves
    patch_row-After def entity ks loads fs none fr s p = p
    patch_row-After def entity ks loads fs (some row) fr s p =
        Leaves-bind After (load_columns entity loads row fr) _ λ fr₁.
          Leaves-bind After (eval_columns ev program def entity fs row fr₁) _ λ (row₁, fr₂).
            Leaves-then After (from_result (Rows.put rows s entity ks row₁)) _
              (Leaves-result P (Rows.put rows s entity ks row₁)
                λ s₁ h. Kept.put kept s s₁ entity ks row₁ h p)
              λ s₁ p₁. p₁

    exec_patch-After :
        (entity : Ident) (keys : List ExprId) (absent : Absent) (loads : List Bind)
        (fs : List (Ident × ExprId)) (fr : Frame) (s : S)
        → P s
        → Leaves After (exec_patch ev program depth projector rows entity keys absent loads fs fr s)
    unfolding exec_patch
    exec_patch-After entity keys absent loads fs fr s p =
        Leaves-bind After (subscript_keys ev keys fr) _ λ (ks, fr₁).
          Leaves-bind After (or_fails (entity_def projector entity) _) _ λ def.
            Leaves-bind After (from_result (Rows.row rows s entity ks)) _ λ stored.
              Leaves-bind After (prior depth program projector def ks absent stored) _
                λ row. patch_row-After def entity ks loads fs row fr₁ s p

    exec_delete-After :
        (entity : Ident) (keys : List ExprId) (fr : Frame) (s : S)
        → P s
        → Leaves After (exec_delete ev program depth projector rows entity keys fr s)
    unfolding exec_delete Leaves
    exec_delete-After entity [] fr s p = tt
    exec_delete-After entity (id ∷ ids) fr s p =
        Leaves-bind After (subscript_keys ev (id ∷ ids) fr) _ λ (ks, fr₁).
          Leaves-bind After (or_fails (entity_def projector entity) _) _ λ def.
            Leaves-then After (from_result (Rows.delete rows s entity ks)) _
              (Leaves-result P (Rows.delete rows s entity ks)
                λ s₁ h. Kept.delete kept s s₁ entity ks h p)
              λ s₁ p₁. p₁

    module _ (call_void : CallVoid) where
      mutual
        unfolding write_stmt write_block Leaves

        stmt-After :
            (st : Stmt) (fr : Frame) (s : S)
            → P s
            → Leaves After (write_stmt ev program depth projector rows call_void st fr s)
        stmt-After (Stmt.assign slot v) fr s p =
            Leaves-bind After (ev v fr) _ λ (w, fr₁). Leaves-bind After (set fr₁ slot w) _ λ fr₂. p
        stmt-After (Stmt.if_else cond then_ otherwise) fr s p =
            Leaves-bind After (eval_bool ev cond fr) _ λ (taken, fr₁).
              Leaves-either After _ _ taken (block-After then_ fr₁ s p)
                (block-After otherwise fr₁ s p)
        stmt-After (Stmt.for_each it body) fr s p =
            Leaves-bind After (elements ev it fr) _
              λ (ps, fr₁). rounds-After _ it ps fr₁ s (λ fr₂ s₁ p₁. block-After body fr₂ s₁ p₁) p
        stmt-After (Stmt.emit path fs) fr s p = tt
        stmt-After (Stmt.put entity fs) fr s p = exec_put-After entity fs fr s p
        stmt-After (Stmt.patch entity keys absent loads fs) fr s p =
            exec_patch-After entity keys absent loads fs fr s p
        stmt-After (Stmt.delete entity keys) fr s p = exec_delete-After entity keys fr s p
        stmt-After (Stmt.fail message) fr s p = tt
        stmt-After (Stmt.log message) fr s p =
            Leaves-bind After (eval_string ev message fr) _ λ _. tt
        stmt-After (Stmt.erase subject v) fr s p =
            Leaves-bind After (ev v fr) _ λ (w, fr₁). Leaves-bind After (erase_refused w) _ λ _. tt
        stmt-After (Stmt.discard v) fr s p = Leaves-bind After (ev v fr) _ λ (w, fr₁). p
        stmt-After (Stmt.call function scope args) fr s p =
            Leaves-bind After (eval_all ev args fr) _
              λ (vs, fr₁). Leaves-bind After (call_void function scope vs) _ λ _. p
        stmt-After (Stmt.return r) fr s p = Leaves-bind After (eval_return ev r fr) _ λ (w, fr₁). p

        block-After :
            (b : Block) (fr : Frame) (s : S)
            → P s
            → Leaves After (write_block ev program depth projector rows call_void b fr s)
        block-After Block.end fr s p = p
        block-After (Block.next st b) fr s p =
            Leaves-then After (write_stmt ev program depth projector rows call_void st fr s) _
              (stmt-After st fr s p)
              λ (flow, fr₁, s₁) p₁.
                go_on-After flow fr₁ s₁ _ p₁ λ fr₂ s₂ p₂. block-After b fr₂ s₂ p₂

      -- A body that a projector runs keeps what no write of a row breaks.
      pub write_block-Kept :
          (b : Block) (fr : Frame) (s : S)
          → P s
          → Leaves (λ w. P w.2) (write_block ev program depth projector rows call_void b fr s)
      write_block-Kept b fr s p = block-After b fr s p

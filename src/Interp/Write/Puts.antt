-- ===== src/Interp/Write/Puts.antt =====
-- src/interp.rs: what a `put` leaves in the rows in memory.
use heklang.Base.{ℕ, ◌≡◌, some, List}
use heklang.Ir.{Ident}
use heklang.Ir.Exprs.{ExprId}
use heklang.Ir.Program.{Program, EntityDef, Projector, entity_def}
use heklang.Value.{Key, no_fields}
use heklang.Interp.Frames.{Frame}
use heklang.Interp.Eval.{Eval}
use heklang.Interp.Rows.{Row, Store, store_row}
use heklang.Interp.Write.Columns.{Written, IsWhole, IsKeyOf}

module _ (ev : Eval) (program : Program) (depth : ℕ) (projector : Projector) where
  -- The columns of a whole row were written, and it stands at the key that was read off it, with each
  -- other row as it was.
  pub record Put (entity : Ident) (fs : List (Ident × ExprId)) (fr fr₁ : Frame) (s s₁ : Store)
      : Type 0 where
    pub def : EntityDef
    pub row : Row
    pub ks : List Key
    pub declared : entity_def projector entity ≡ some def
    pub written : Written ev program def fs no_fields fr row fr₁
    pub whole : IsWhole (EntityDef.fields def) row
    pub keyed : IsKeyOf (EntityDef.fields def) row (EntityDef.keys def) ks
    pub there : store_row s₁ entity ks ≡ some row
    pub others :
        (other : Ident) (ls : List Key)
        → ¬ ((entity ≡ other) × (ks ≡ ls))
        → store_row s₁ other ls ≡ store_row s other ls

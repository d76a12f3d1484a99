-- ===== src/Interp/Project/Keeps.antt =====
-- src/interp.rs: what every row that a projector writes keeps, a read model keeps.
use heklang.Base.{ℕ, ◌≡◌, sym, ◌∙◌, List, [], ◌∷◌}
use heklang.Ir.Exprs.{Exprs}
use heklang.Ir.Program.{Program, Projector, Handler}
use heklang.Interp.Frames.{done, new_frame}
use heklang.Interp.Frames.Leaves.{Leaves, Leaves-then, Leaves-bind, Leaves-either, Leaves-done}
use heklang.Interp.Eval.{Eval}
use heklang.Interp.Exec.{CallVoid}
use heklang.Interp.Fold.{bind_fields, set_envelope, each_record}
use heklang.Interp.Fold.Reads.{read_log-each}
use heklang.Interp.Rows.{Rows}
use heklang.Interp.Write.{write_block}
use heklang.Interp.Write.Keeps.{Kept, write_block-Kept}
use heklang.Interp.Project.{apply_handler, apply_handlers, apply, projection_query, project_into}
use heklang.Log.{Record, Event, Harness, path_eq}
use heklang.Log.Appends.{IsPlaced}
use heklang.Log.Reads.{selects, filter}

module _ (evals : Exprs → Eval) (depth : ℕ) (program : Program) (call_void : CallVoid)
    (projector : Projector) {S : Type 0} (rows : Rows S) (P : S → Type 0) (kept : Kept rows P) where
  handler-Kept :
      (h : Handler) (r : Record) (s : S)
      → P s
      → Leaves P (apply_handler evals depth program call_void projector rows h r s)
  unfolding apply_handler Leaves
  handler-Kept h r s p =
      Leaves-bind P
        (bind_fields (evals (Handler.exprs h)) program (Handler.binds h) (Record.event r)
          (new_frame (Handler.frame h)))
        _
        λ fr. Leaves-bind P (set_envelope (Handler.envelope h) r fr) _ λ fr₁.
          Leaves-then P
            (write_block (evals (Handler.exprs h)) program depth projector rows call_void
              (Handler.body h) fr₁ s)
            _
            (write_block-Kept rows P kept (evals (Handler.exprs h)) program depth projector
              call_void (Handler.body h) fr₁ s p)
            λ (flow, fr₂, s₁) p₁. p₁

  handlers-Kept :
      (hs : List Handler) (r : Record) (s : S)
      → P s
      → Leaves P (apply_handlers evals depth program call_void projector rows hs r s)
  unfolding apply_handlers Leaves
  handlers-Kept [] r s p = p
  handlers-Kept (h ∷ hs) r s p =
      Leaves-either P _ _ (path_eq (Handler.event h) (Event.path (Record.event r)))
        (Leaves-then P (apply_handler evals depth program call_void projector rows h r s) _
          (handler-Kept h r s p) λ s₁ p₁. handlers-Kept hs r s₁ p₁)
        (handlers-Kept hs r s p)

  records-Kept :
      (rs : List Record) (s : S)
      → P s
      → Leaves P (each_record (apply evals depth program call_void projector rows) s rs)
  unfolding each_record apply Leaves
  records-Kept [] s p = p
  records-Kept (r ∷ rs) s p =
      Leaves-then P (apply evals depth program call_void projector rows s r) _
        (handlers-Kept (Projector.handlers projector) r s p) λ s₁ p₁. records-Kept rs s₁ p₁

  pub project_into-Kept :
      (h : Harness) (s s₁ : S)
      → IsPlaced 0 (Harness.records h)
      → P s
      → project_into evals depth program call_void projector rows h s ≡ done s₁
      → P s₁
  unfolding project_into
  project_into-Kept h s s₁ placed p e =
      Leaves-done P _
        (records-Kept (filter (selects (projection_query projector)) (Harness.records h)) s p)
        (sym (read_log-each _ h (projection_query projector) s placed) ∙ e)

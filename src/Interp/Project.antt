-- ===== src/Interp/Project.antt =====
-- src/interp.rs: `Projection::query` and `Projection::apply`, over the records of a log, and the read
-- model that `project` makes with them.
pub mod Followed
pub mod Keeps
pub mod Private
use heklang.Base.{ℕ, true, false, none, List, [], ◌∷◌, ◌++◌, any, if◌then◌else◌}
use heklang.Ir.{Ident, EventPath}
use heklang.Ir.Exprs.{Exprs}
use heklang.Ir.Program.{Program, Projector, Handler, projector_def}
use heklang.Interp.Errors.{unknown_projector}
use heklang.Interp.Frames.{Run, done, ◌>>=◌, or_fails, new_frame}
use heklang.Interp.Eval.{Eval}
use heklang.Interp.Exec.{CallVoid}
use heklang.Interp.Fold.{bind_fields, set_envelope, read_log}
use heklang.Interp.Rows.{Rows, Store, store_rows, shredding}
use heklang.Interp.Write.{write_block}
use heklang.Log.{Record, Event, Predicate, Query, Harness, predicate, path_eq}

-- `!slices.contains(&slice)`, of slices without filters.
unfoldable pub add_slice : EventPath → List Predicate → List Predicate
add_slice path ps =
    if any (λ p. path_eq (Predicate.event p) path) ps then ps else ps ++ predicate path [] ∷ []

unfoldable pub handled : List Handler → List Predicate → List Predicate
handled [] ps = ps
handled (h ∷ hs) ps = handled hs (add_slice (Handler.event h) ps)

-- `Projection::query`
unfoldable pub projection_query : Projector → Query
projection_query p = record { slices = handled (Projector.handlers p) []; from = 0; upto = none }

module _ (evals : Exprs → Eval) (depth : ℕ) (program : Program) (call_void : CallVoid)
    (projector : Projector) {S : Type 0} (rows : Rows S) where
  -- One handler of a record.
  unfoldable pub apply_handler : Handler → Record → S → Run S
  apply_handler h r s =
      bind_fields (evals (Handler.exprs h)) program (Handler.binds h) (Record.event r)
        (new_frame (Handler.frame h))
      >>= λ fr. set_envelope (Handler.envelope h) r fr >>= λ fr₁.
          write_block (evals (Handler.exprs h)) program depth projector rows call_void
            (Handler.body h) fr₁ s
          >>= λ (flow, fr₂, s₁). done s₁

  -- `Projection::apply`
  unfoldable pub apply_handlers : List Handler → Record → S → Run S
  apply_handlers [] r s = done s
  apply_handlers (h ∷ hs) r s = elim (path_eq (Handler.event h) (Event.path (Record.event r))) [
    | true ↦ apply_handler h r s >>= λ s₁. apply_handlers hs r s₁
    | false ↦ apply_handlers hs r s
  ]

  unfoldable pub apply : S → Record → Run S
  apply s r = apply_handlers (Projector.handlers projector) r s

  -- `project_into`
  unfoldable pub project_into : Harness → S → Run S
  project_into h s = read_log h (projection_query projector) apply s

-- `project`: a read model from nothing, that the keys of the host shred.
unfoldable pub project :
    (evals : Exprs → Eval) (depth : ℕ) (program : Program)
    → CallVoid
    → (name : Ident) → Harness
    → Run Store
project evals depth program call_void name h =
    or_fails (projector_def program name) (unknown_projector name) >>= λ p.
    project_into evals depth program call_void p (shredding (Harness.keys h) store_rows) h []

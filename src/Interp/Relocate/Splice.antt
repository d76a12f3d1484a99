-- ===== src/Interp/Relocate/Splice.antt =====
-- src/inline.rs: a body that is spliced into the body of a caller.
use heklang.Base.{ℕ, ◌≤◌, length}
use heklang.Ir.Exprs.{Exprs, Block}
use heklang.Ir.Shift.{shift_block}
use heklang.Ir.Program.{Program}
use heklang.Interp.Methods.Strings.{Library}
use heklang.Interp.Frames.{Frame}
use heklang.Interp.Exec.{Sink}
use heklang.Interp.Run.{eval, enter_function, exec, call_void}
use heklang.Interp.Relocate.{Follows}
use heklang.Interp.Relocate.Frames.{between}
use heklang.Interp.Relocate.Stmts.{moved_step, exec_block-moved}
use heklang.Interp.Relocate.Fuel.{placed, eval-placed, enter-Follows, call_void-Follows}

module _ (lib : Library) (program : Program) where
  -- The statements of a body whose nodes stand between the nodes of a caller, moved by the number of
  -- nodes and of slots that stand before, leave with no less fuel the same flow, the same events and
  -- the same slots as the body does by itself, and leave the caller's slots as they are. Where the
  -- body fails by itself the moved one fails with the same error, except with malformed IR or with a
  -- slot that is not set, and nothing is said where the body by itself runs out of fuel.
  pub exec-placed :
      (f g : ℕ)
      → f ≤ g
      → (front back es : Exprs) (before after : Frame) (b : Block) (fr : Frame) (sk : Sink)
      → Follows
          (moved_step before after)
          (exec lib program g
            (placed front back (length before) es)
            (shift_block (length front) (length before) b)
            (between before after fr)
            sk)
          (exec lib program f es b fr sk)
  unfolding exec
  exec-placed f g le front back es before after b fr sk =
      exec_block-moved before after (length front)
        (eval lib program g (placed front back (length before) es)) (eval lib program f es)
        (eval-placed lib program f g le front back es before after) program
        (call_void program (enter_function lib program g))
        (call_void program (enter_function lib program f))
        (call_void-Follows program (enter_function lib program g) (enter_function lib program f)
          (enter-Follows lib program f g le))
        b fr sk

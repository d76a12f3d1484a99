-- ===== src/Examples/Commands.antt =====
-- src/interp.rs: a command that sums what was counted and counts the sum, and a fold of the same sum.
use heklang.Base.{
  ℕ, zero, suc, ◌≡◌, refl, true, false, Option, none, some, List, [], ◌∷◌, All, map, arith,
}
use heklang.Base.Int.{pos, ◌+ℤ◌}
use heklang.Base.Text.{codes, text_eq}
use heklang.Scaled
use heklang.Scaled.{checked_i64}
use heklang.Ir.{Ty, EventPath, EventPath-discrete, add, same_unsealed}
use heklang.Ir.Literals.{Literal}
use heklang.Ir.Exprs.{Expr, Exprs, Stmt, Block}
use heklang.Ir.Stages.{Slice, Stage, FoldVar, some_in, reads}
use heklang.Ir.Program.{Program, Command, Fold, EventDef, event_def, event_field, find_event, named}
use heklang.Value.{Value, has_type, ty}
use heklang.Value.Numbers.{of_literal}
use heklang.Value.Maps.{insert_field, find_field, collect_fields}
use heklang.Interp.Errors.{ok, map_err, from_scaled}
use heklang.Interp.Coerce.{coerce, fitted}
use heklang.Interp.Bounds.{check_field, bounded}
use heklang.Interp.Ops.{binary, arith_values, arith as arith_op, cmp_text}
use heklang.Interp.Frames.{Frame, Run, done, ◌>>=◌, set, read_slot, read_cell, new_frame}
use heklang.Interp.Eval.{Eval, eval_node, eval_binary, strategy}
use heklang.Interp.Exec.{
  exec_block, exec_stmt, proceed, exec_emit, eval_payload, emitted, finish_emit, first_missing,
  field_list,
}
use heklang.Interp.Run.{exec, eval}
use heklang.Interp.Resolve.{
  Resolved, resolve, resolved_one, resolve_filters, narrowing, matches, match_filters, need_field,
  seal, seal_declared, seal_field,
}
use heklang.Interp.Fold.{
  replay, Asof, prepare, folding, fold_to, as_result, visiting, read_log, seed, fold_with, fold,
  read_records, visit_record, visit_slices, visit_slice, apply_slice, bind_fields, lookups,
  own_keys, set_updates, set_envelope, report,
}
use heklang.Interp.Command.{
  Execution, Outcome, Carry, Statements, decide, commit, run_stages, run_half, run_folds,
  run_started, run_reads, fold_below, carry_on, start_folds, after_half, after_reads, events_of,
  onward, resume, attempts, settled, through, pinned, condition_of, outcome, ret_of, kept,
  held_folds,
}
use heklang.Interp.Command.Decide.{Readable}
use heklang.Interp.Command.Retry.{commit-unrivalled}
use heklang.Interp.Command.Attempts.{Attempted, run-serial}
use heklang.Interp.Params.{bind_params, no_more}
use heklang.Interp.Fold.Ignored.{readable, has_fields}
use heklang.Interp.Fold.Resume.{range}
use heklang.Interp.Fold.Replay.{fold-replay}
use heklang.Interp.Fold.History.{History, recorder}
use heklang.Interp.Fold.Stored.{folding-history}
use heklang.Log.Reads.{selects, filter}
use heklang.Log.{
  Event, Record, Predicate, Harness, with_log, push_all, push, stamped, head, append, conflicts,
  beats, holds, predicate, sort_filters, read, scan, names, past, path_eq, lookup,
  field as field_of_event,
}
use heklang.Log.Appends.{IsPlaced}
use heklang.Examples.Runs.{lib}

abbrev counted : EventPath
counted = record { segments = codes "counted" ∷ [] }

abbrev count : ℕ → Event
count n = record { path = counted; fields = (codes "n", Value.int (pos n)) ∷ [] }

abbrev other : Event
other = record { path = record { segments = codes "other" ∷ [] }; fields = [] }

abbrev counted_def : EventDef
counted_def = record {
  path = counted;
  fields =
      record { name = codes "n"; ty = Ty.int; subject = none; max_len = none; absent = none } ∷ [];
}

-- `sum = sum + n`, with `sum` in slot 0 and `n` in slot 1.
abbrev nodes : Exprs
nodes = Expr.lit (Literal.int (pos 0)) ∷ Expr.load 0 ∷ Expr.load 1 ∷ Expr.binary add 1 2 ∷ []

abbrev slice : Slice
slice = record {
  event = counted;
  filters = [];
  binds = record { field = codes "n"; slot = 1 } ∷ [];
  lookups = [];
  keys = [];
  updates = record { slot = 0; value = 3; ty = Ty.int } ∷ [];
}

abbrev sum : FoldVar
sum = record { name = codes "sum"; ty = Ty.int; slot = 0; init = 0 }

abbrev summing : Stage
summing = record {
  pre = Block.end;
  slices = slice ∷ [];
  folds = sum ∷ [];
  post = Block.next (Stmt.emit counted ((codes "n", 1) ∷ [])) Block.end;
}

abbrev recount : Command
recount = record {
  name = codes "Recount";
  params = [];
  frame = 2;
  exprs = nodes;
  now = none;
  stages = summing ∷ [];
}

abbrev program : Program
program = record {
  events = counted_def ∷ [];
  records = [];
  functions = [];
  effects = [];
  commands = recount ∷ [];
  folds = [];
  enums = [];
  projectors = [];
}

abbrev evals : Exprs → Eval
evals = eval lib program 3

abbrev statements : Statements
statements = exec lib program 3

abbrev log : Harness
log = with_log (count 2 ∷ other ∷ count 3 ∷ [])

abbrev no_lookups : Asof
no_lookups = replay evals program log 0

abbrev blank : Frame
blank = none ∷ none ∷ []

-- Every `counted`.
abbrev all_counted : Predicate
all_counted = record { event = counted; filters = [] }

abbrev recounted : Execution
recounted = record {
  outcome = Outcome.ok (count 5 ∷ []);
  condition = record { after = 3; slices = all_counted ∷ [] };
}

abbrev carry : Option Carry
carry = some (record {
  through = 3;
  slices = record { predicate = all_counted; live = true } ∷ [];
  folds = Value.int (pos 5) ∷ [];
})

-- Behind 2 and 3 the sum is 5.
decided :
    decide evals statements program no_lookups recount log none blank ≡ done (recounted, carry)
unfolding decide run_stages run_half run_folds run_started run_reads fold_below carry_on start_folds
    after_half after_reads events_of onward resume through pinned condition_of outcome ret_of kept
    held_folds resolve resolved_one resolve_filters narrowing matches match_filters need_field seal
    seal_declared seal_field seed fold_with read_records read_log visiting as_result visit_record
    visit_slices visit_slice apply_slice bind_fields lookups own_keys set_updates set_envelope
    report some_in reads predicate sort_filters read scan names past path_eq push_all push with_log
    stamped head event_def find_event event_field named exec exec_block exec_stmt eval eval_node
    eval_binary strategy of_literal read_slot read_cell set proceed exec_emit eval_payload emitted
    finish_emit first_missing field_list check_field bounded insert_field find_field coerce fitted
    has_type ty same_unsealed binary arith_values arith_op map_err from_scaled Scaled.add
    checked_i64 ◌+ℤ◌ text_eq cmp_text EventPath-discrete field_of_event lookup
decided = refl

abbrev meanwhile : List Event
meanwhile = other ∷ []

abbrev recounted_log : Harness
recounted_log = push_all (push_all log meanwhile) (count 5 ∷ [])

log-IsPlaced : IsPlaced 0 (Harness.records log)
unfolding IsPlaced with_log push_all push stamped
log-IsPlaced = (refl, (refl, (refl, tt)))

meanwhile-Readable : Readable (all_counted ∷ []) meanwhile
unfolding readable has_fields path_eq EventPath-discrete
meanwhile-Readable = ((refl, tt), tt)

committed : commit recounted (push_all log meanwhile) ≡ (ok tt, recounted_log)
unfolding commit append conflicts beats holds path_eq EventPath-discrete push_all push stamped
    with_log
committed = refl

commit-unrivalled_example : (h₁ : Harness) × (commit recounted log ≡ (ok tt, h₁))
commit-unrivalled_example =
    commit-unrivalled evals statements program no_lookups log log-IsPlaced recount none blank
      recounted carry decided

abbrev rivals : ℕ → List Event
rivals n = meanwhile

ran :
    attempts evals statements program 0 recount (λ _. false) rivals blank 1 0 none log
    ≡ (done recounted, recounted_log)
unfolding attempts settled
ran = rw (decided, attempts, committed, settled) refl

run-serial_example :
    (recounted_log ≡ push_all (push_all log meanwhile) (count 5 ∷ []))
    × ((y : Execution) × (later : Option Carry) × (Attempted evals statements program 0 recount
            rivals blank none
            (push_all log meanwhile)
          ≡ done (y, later))
        × (Execution.outcome y ≡ Outcome.ok (count 5 ∷ [])))
run-serial_example =
    run-serial evals statements program 0 recount rivals blank 0 log recounted recounted_log
      (count 5 ∷ []) log-IsPlaced meanwhile-Readable ran refl

-- What is counted between the reads and the append of the first attempt alone.
abbrev one_rival : ℕ → List Event
one_rival n = elim n [ zero ↦ count 4 ∷ [] | suc m ↦ [] ]

abbrev resolved : List Resolved
resolved = record { predicate = all_counted; live = true } ∷ []

-- The sum over a part of a log.
abbrev summed_in : Harness → (from last : ℕ) → Frame × Unit {0} → Run (Frame × Unit {0})
summed_in h from last at =
    fold evals program 1 nodes (slice ∷ []) resolved [] none h from (some last) at

fold-replay_example :
    (summed_in log 0 1 (some (Value.int (pos 0)) ∷ none ∷ [], tt) >>= λ at.
    summed_in (push_all log (count 4 ∷ [])) 2 3 at)
    ≡ summed_in (push_all log (count 4 ∷ [])) 0 3 (some (Value.int (pos 0)) ∷ none ∷ [], tt)
unfolding head with_log push_all push
fold-replay_example =
    fold-replay evals program log (count 4 ∷ []) log-IsPlaced 1 nodes (slice ∷ []) resolved [] none
      0 1 3 (some (Value.int (pos 0)) ∷ none ∷ [], tt) (omega arith) (omega arith) (omega arith)

abbrev sum_fold : Fold
sum_fold = record {
  name = codes "Sum";
  params = [];
  ret = Ty.int;
  slot = 0;
  frame = 2;
  exprs = nodes;
  stage = record summing { post = Block.end };
  envelope = [];
}

abbrev started : Frame
started = some (Value.int (pos 0)) ∷ none ∷ []

prepared : prepare evals program log sum_fold [] ≡ done (resolved, started)
unfolding prepare bind_params no_more new_frame collect_fields resolve resolved_one resolve_filters
    predicate sort_filters seed eval eval_node of_literal fitted coerce has_type ty same_unsealed
    set
prepared = refl

abbrev sums : History
sums = (0, Value.int (pos 2)) ∷ (2, Value.int (pos 5)) ∷ []

summed :
    folding evals program log no_lookups sum_fold [] (some 3) (some (recorder 0)) []
    ≡ done (Value.int (pos 5), sums)
unfolding folding fold_to prepare bind_params no_more new_frame collect_fields matches match_filters
    need_field seal seal_declared seal_field seed fold_with read_records read_log visiting as_result
    visit_record visit_slices visit_slice apply_slice bind_fields lookups own_keys set_updates
    set_envelope report some_in narrowing resolve resolved_one resolve_filters predicate
    sort_filters read scan names past path_eq push_all push with_log stamped event_def find_event
    event_field named eval eval_node eval_binary strategy of_literal read_slot read_cell set coerce
    fitted has_type ty same_unsealed binary arith_values arith_op map_err from_scaled Scaled.add
    checked_i64 ◌+ℤ◌ text_eq EventPath-discrete field_of_event lookup
summed = refl

folding-history_example :
    (map (λ step. step.0) sums
      ≡ map Record.position
          (filter (selects (range (narrowing resolved) 0 2)) (Harness.records log)))
    × All
        (λ step.
          folding evals program log {S = Unit {0}} no_lookups sum_fold []
            (some (suc step.0))
            none
            tt
          ≡ done (step.1, tt))
        sums
folding-history_example =
    folding-history evals program log no_lookups log-IsPlaced sum_fold [] resolved started prepared
      2 (Value.int (pos 5)) sums summed

-- ===== src/Interp/Command.antt =====
-- src/interp.rs: commands. `execute` runs the stages of a command over the log below a head that is
-- taken once, and appends under a condition on what it read; after a conflict it decides again, and
-- folds only what came since. What other writers append between the reads of attempt `n` and its
-- append is `rivals n`, and `tries` bounds the attempts, which the source leaves to `again`.
pub mod Serial
pub mod Stages
pub mod Decide
pub mod Retry
pub mod Attempts
pub mod Replay
use heklang.Base.{
  ℕ, zero, suc, ◌-◌, Bool, true, false, ◌&&◌, ◌||◌, Option, none, some, List, [], ◌∷◌, ◌++◌, ltb,
  if◌then◌else◌,
}
use heklang.Base.Int.{pos}
use heklang.Base.Text.{Text}
use heklang.Ir.{Ident}
use heklang.Ir.Exprs.{Exprs, Block, Slot}
use heklang.Ir.Stages.{FoldVar, Stage, reads, some_in}
use heklang.Ir.Program.{Program, Command, command_def}
use heklang.Value.{Value, no_fields}
use heklang.Value.Maps.{collect_fields}
use heklang.Interp.Errors
use heklang.Interp.Errors.{ErrorKind, Result, conflict, malformed_ir, unknown_command}
use heklang.Interp.Frames.{Frame, Run, done, fails, spent, ◌>>=◌, set, read_slot, new_frame}
use heklang.Interp.Eval.{Eval}
use heklang.Interp.Exec.{Ret, Flow, next, returned, Sink, pure, emit, Step}
use heklang.Interp.Params.{bind_params}
use heklang.Interp.Resolve.{Resolved, slices_eq, narrowing, resolve}
use heklang.Interp.Fold.{Asof, replay, fold_with, seed}
use heklang.Log.{Event, Predicate, AppendCondition, Harness, head, now, append, push_all}

pub data Outcome : Type 0 where
  ok : List Event → Outcome
  invalid : Text → Outcome
  reject : (code message : Text) → Outcome

pub record Execution : Type 0 where
  pub outcome : Outcome
  pub condition : AppendCondition

pub record Carry : Type 0 where
  pub through : ℕ
  pub slices : List Resolved
  pub folds : List Value

-- The variables of one attempt.
pub record Attempt : Type 0 where
  pub frame : Frame
  pub after : Option ℕ
  pub read : List Predicate
  pub emitted : List Event
  pub leading : Bool
  pub folded : Option Carry

unfoldable pub events_of : Sink → List Event
events_of pure = []
events_of (emit es) = es

unfoldable pub after_half : Attempt → Flow × Frame × Sink → Flow × Attempt
unfolding events_of
after_half a (flow, fr, sk) = (flow, record a { frame = fr; emitted = events_of sk })

unfoldable pub after_reads : Attempt → ℕ → List Resolved → Frame → Option Carry → Attempt
after_reads a at rs fr carry = record {
  frame = fr;
  after = some at;
  read = Attempt.read a ++ narrowing rs;
  emitted = Attempt.emitted a;
  leading = false;
  folded = carry;
}

-- The rest of an attempt, unless a statement returned.
unfoldable pub onward : Flow → Attempt → (Attempt → Run (Flow × Attempt)) → Run (Flow × Attempt)
onward next a k = k a
onward (returned r) a k = done (returned r, a)

-- The carry that a stage resumes from.
unfoldable pub resume : (leading : Bool) → Option Carry → List Resolved → Option Carry
resume true (some c) rs = if slices_eq (Carry.slices c) rs then some c else none
resume leading carried rs = none

unfoldable pub through : Option Carry → ℕ
through none = 0
through (some c) = Carry.through c

-- `zip`
unfoldable pub restore : List FoldVar → List Value → Frame → Run Frame
restore [] vs fr = done fr
restore (x ∷ xs) [] fr = done fr
restore (x ∷ xs) (v ∷ vs) fr = set fr (FoldVar.slot x) v >>= λ fr₁. restore xs vs fr₁

unfoldable pub held_folds : List FoldVar → Frame → Run (List Value)
held_folds [] fr = done []
held_folds (x ∷ xs) fr =
    read_slot fr (FoldVar.slot x) >>= λ v. held_folds xs fr >>= λ vs. done (v ∷ vs)

unfoldable pub pinned : Option ℕ → ℕ → ℕ
pinned (some at) top = at
pinned none top = top

unfoldable pub ret_of : Flow → Ret
ret_of next = Ret.ok
ret_of (returned r) = r

unfoldable pub outcome : Ret → List Event → Run Outcome
outcome Ret.ok es = done (ok es)
outcome (Ret.invalid message) es = done (invalid message)
outcome (Ret.reject code message) es = done (reject code message)
outcome (Ret.fail message) es = fails malformed_ir
outcome (Ret.value v) es = fails malformed_ir

unfoldable pub condition_of : Attempt → AppendCondition
condition_of a = record { after = pinned (Attempt.after a) 0; slices = Attempt.read a }

unfoldable pub kept : Option Carry → Option Carry → Option Carry
kept none carried = carried
kept (some c) carried = some c

abbrev pub fresh : Frame → Attempt
fresh fr = record {
  frame = fr;
  after = none;
  read = [];
  emitted = [];
  leading = true;
  folded = none;
}

unfoldable pub pin_now : Option Slot → Harness → Frame → Run Frame
pin_now none h fr = done fr
pin_now (some slot) h fr = set fr slot (Value.timestamp (pos (now h)))

unfoldable pub prepare : Command → List (Ident × Value) → Harness → Run Frame
prepare c args h = pin_now (Command.now c) h (new_frame (Command.frame c)) >>= λ fr.
    bind_params (Command.params c) (collect_fields no_fields args) fr

abbrev pub is_conflict : ErrorKind → Bool
is_conflict (conflict after) = true
is_conflict e = false

-- The append of a decision: nothing is appended but for an outcome with events.
unfoldable pub commit : Execution → Harness → Result {0} Unit × Harness
commit x h = elim (Execution.outcome x) [
  | ok es ↦ append h es (Execution.condition x)
  | invalid message ↦ (Errors.ok tt, h)
  | reject code message ↦ (Errors.ok tt, h)
]

-- Behind an append: a conflict is decided again where `again` has it.
unfoldable pub settled :
    Execution
    → (again : Bool) → Result {0} Unit × Harness
    → (Harness → Run Execution × Harness)
    → Run Execution × Harness
settled x again (Errors.ok _, h) retry = (done x, h)
settled x again (Errors.err e, h) retry = if is_conflict e && again then retry h else (fails e, h)

abbrev pub Statements : Type 0
Statements = Exprs → Block → Frame → Sink → Step

module _ (evals : Exprs → Eval) (exec : Statements) (program : Program) (asof : Asof) where
  -- One half of a stage.
  unfoldable pub run_half : Exprs → Block → Attempt → Run (Flow × Attempt)
  run_half exprs b a =
      exec exprs b (Attempt.frame a) (emit (Attempt.emitted a)) >>= λ end. done (after_half a end)

  -- Where a stage folds from: the state of the last attempt, or its seeds.
  unfoldable pub start_folds : Exprs → List FoldVar → Option Carry → Frame → Run Frame
  start_folds exprs xs (some c) fr = restore xs (Carry.folds c) fr
  start_folds exprs xs none fr = seed (evals exprs) program xs fr

  -- The records from `from` on and below the pinned head.
  unfoldable pub fold_below :
      Exprs → Stage → List Resolved → Harness → (from at : ℕ) → Frame → Run Frame
  fold_below exprs stage rs h from at fr = elim (ltb from at) [
    | true ↦
        fold_with (evals exprs) program asof (Stage.slices stage) rs [] none h from (some (at - 1))
          (fr, tt)
        >>= λ (fr₁, _). done fr₁
    | false ↦ done fr
  ]

  unfoldable pub carry_on :
      (leading : Bool)
      → (at : ℕ) → List Resolved
      → List FoldVar
      → Frame
      → Option Carry
      → Run (Option Carry)
  carry_on true at rs xs fr old =
      held_folds xs fr >>= λ vs. done (some (record { through = at; slices = rs; folds = vs }))
  carry_on false at rs xs fr old = done old

  -- The reads of a stage, behind its seeds.
  unfoldable pub run_reads :
      Exprs → Stage → List Resolved → Harness → (from : ℕ) → Attempt → Run Attempt
  run_reads exprs stage rs h from a =
      let at = pinned (Attempt.after a) (head h) in
      fold_below exprs stage rs h from at (Attempt.frame a) >>= λ fr.
      carry_on (Attempt.leading a) at rs (Stage.folds stage) fr (Attempt.folded a) >>= λ carry.
      done (after_reads a at rs fr carry)

  unfoldable pub run_started :
      Exprs → Stage → List Resolved → Harness → (from : ℕ) → Attempt → Run Attempt
  run_started exprs stage rs h from a = elim (reads stage) [
    | true ↦ run_reads exprs stage rs h from a
    | false ↦ done a
  ]

  unfoldable pub run_folds : Exprs → Stage → Harness → Option Carry → Attempt → Run Attempt
  run_folds exprs stage h carried a = elim (some_in (Stage.folds stage) || reads stage) [
    | false ↦ done a
    | true ↦ resolve (evals exprs) program (Stage.slices stage) (Attempt.frame a) >>= λ (rs, fr).
        let from = resume (Attempt.leading a) carried rs in
        start_folds exprs (Stage.folds stage) from fr >>= λ fr₁.
        run_started exprs stage rs h (through from) (record a { frame = fr₁ })
  ]

  unfoldable pub run_stages :
      Exprs → List Stage → Harness → Option Carry → Attempt → Run (Flow × Attempt)
  run_stages exprs [] h carried a = done (next, a)
  run_stages exprs (s ∷ ss) h carried a = run_half exprs (Stage.pre s) a >>= λ (flow, a₁).
      onward flow a₁ λ a₂. run_folds exprs s h carried a₂ >>= λ a₃.
      run_half exprs (Stage.post s) a₃ >>= λ (flow₁, a₄).
      onward flow₁ a₄ λ a₅. run_stages exprs ss h carried a₅

  -- What one attempt decides, and what it hands the next.
  unfoldable pub decide : Command → Harness → Option Carry → Frame → Run (Execution × Option Carry)
  decide c h carried fr =
      run_stages (Command.exprs c) (Command.stages c) h carried (fresh fr) >>= λ (flow, a).
      outcome (ret_of flow) (Attempt.emitted a) >>= λ out.
      done (record { outcome = out; condition = condition_of a }, kept (Attempt.folded a) carried)

-- Attempts, each of which looks folds up in the log that it reads.
module _ (evals : Exprs → Eval) (exec : Statements) (program : Program) (depth : ℕ) where
  module _ (c : Command) (again : ℕ → Bool) (rivals : ℕ → List Event) (prepared : Frame) where
    unfoldable pub attempts :
        (tries : ℕ) → (attempt : ℕ) → Option Carry → Harness → Run Execution × Harness
    attempts zero attempt carried h = (spent, h)
    attempts (suc t) attempt carried h =
        elim (decide evals exec program (replay evals program h depth) c h carried prepared) [
          | spent ↦ (spent, h)
          | fails e ↦ (fails e, h)
          | done (x, carry) ↦
              settled x (again attempt) (commit x (push_all h (rivals attempt)))
                (λ h₁. attempts t (suc attempt) carry h₁)
        ]

  -- `execute`
  unfoldable pub execute :
      (tries : ℕ)
      → Command
      → (again : ℕ → Bool) → (rivals : ℕ → List Event) → List (Ident × Value)
      → Harness
      → Run Execution × Harness
  execute tries c again rivals args h = elim (prepare c args h) [
    | done fr ↦ attempts c again rivals fr tries 0 none h
    | fails e ↦ (fails e, h)
    | spent ↦ (spent, h)
  ]

  -- `run_retrying` and `run`
  unfoldable pub run_retrying :
      (tries : ℕ)
      → (name : Ident) → (again : ℕ → Bool) → (rivals : ℕ → List Event) → List (Ident × Value)
      → Harness
      → Run Execution × Harness
  run_retrying tries name again rivals args h = elim (command_def program name) [
    | some c ↦ execute tries c again rivals args h
    | none ↦ (fails (unknown_command name), h)
  ]

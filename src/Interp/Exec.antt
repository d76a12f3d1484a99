-- ===== src/Interp/Exec.antt =====
-- src/interp.rs: `exec_block` and `exec_stmt`, for the sinks of a `fn` and of a command. The writes
-- of a projector and the steps of an effect have other sinks, and fail in these two.
use heklang.Base.{true, false, Option, none, some, List, [], ◌∷◌, ◌++◌}
use heklang.Base.Decimal.{int_text, nat_text}
use heklang.Base.Text.{Text, codes}
use heklang.Ir.{Ident, EventPath, Ty}
use heklang.Ir.Exprs.{ExprId, Iter, Return, Stmt, Block}
use heklang.Ir.Program.{Program, EventDef, FieldDef, event_def, event_field}
use heklang.Value.{Value, ty, Fields, no_fields, field, Invoked, succeeded}
use heklang.Value.Maps.{insert_field, find_field}
use heklang.Log.{Event}
use heklang.Interp.Errors.{
  ErrorKind, malformed_ir, unknown_event, unknown_field, missing_field, type_mismatch, bad_subject,
  too_long,
}
use heklang.Interp.Coerce.{coerce, map_key}
use heklang.Interp.Bounds.{check_field}
use heklang.Interp.Frames.{Frame, Run, done, fails, ◌>>=◌, from_result, or_fails, set}
use heklang.Interp.Eval.{
  Eval, Answer, Pair, bind_iter, elements, eval_bool, eval_string, eval_all, with_frame,
}

-- `Ret`
pub data Ret : Type 0 where
  ok : Ret
  value : Value → Ret
  invalid : Text → Ret
  reject : (code message : Text) → Ret
  fail : Text → Ret

pub data Flow : Type 0 where
  next : Flow
  returned : Ret → Flow

-- `Sink::Pure` and `Sink::Emit`, with the events that are emitted so far.
pub data Sink : Type 0 where
  pure : Sink
  emit : List Event → Sink

-- What a statement leaves.
abbrev pub Step : Type 0
Step = Run (Flow × Frame × Sink)

abbrev pub CallVoid : Type 0
CallVoid = (function : Ident) (scope : Option Ident) → List Value → Run (Unit {0})

-- The rest of a block, unless a statement returned.
unfoldable pub proceed : Flow → Frame → Sink → (Frame → Sink → Step) → Step
proceed next fr sk k = k fr sk
proceed (returned r) fr sk k = done (returned r, fr, sk)

unfoldable pub field_list : Fields → List (Ident × Value)
field_list no_fields = []
field_list (field name v fs) = (name, v) ∷ field_list fs

-- `Display` of `ErrorKind::TooLong`, which is the only fault that `check_field` answers.
unfoldable pub fault_text : ErrorKind → Text
fault_text (too_long at len max) =
    at ++ codes " is " ++ nat_text len ++ codes " characters, the most allowed is " ++ nat_text max
fault_text e = []

-- The fields of an event, or the message of one that is too long.
pub data Payload : Type 0 where
  complete : Fields → Payload
  too_large : Text → Payload

-- The first field that is declared and not given.
unfoldable pub first_missing : List FieldDef → Fields → Option Ident
first_missing [] fs = none
first_missing (d ∷ ds) fs = elim (find_field (FieldDef.name d) fs) [
  | some v ↦ first_missing ds fs
  | none ↦ some (FieldDef.name d)
]

-- `subject_id`
unfoldable pub subject_id : Value → Run (Option Text)
subject_id (Value.int id) = done (some (int_text id))
subject_id (Value.str id) = done (some id)
subject_id (Value.uuid id) = done (some id)
subject_id (Value.present inner v) = subject_id v
subject_id (Value.absent inner) = done none
subject_id other = fails (bad_subject (ty other))

-- `Return::Outcome`
unfoldable pub outcome_of : Value → Run Ret
outcome_of (Value.invoked succeeded) = done ok
outcome_of (Value.invoked (Invoked.invalid message)) = done (invalid message)
outcome_of (Value.invoked (Invoked.reject code message)) = done (reject code message)
outcome_of other = fails (type_mismatch Ty.outcome (ty other))

-- Without an effect an `erase` is refused behind its argument, whatever that is.
unfoldable pub erase_refused : Value → Run (Unit {0})
erase_refused v = subject_id v >>= λ id. elim id [
  | some t ↦ fails malformed_ir
  | none ↦ fails (bad_subject (ty v))
]

-- The event at the end of a sink.
unfoldable pub emitted : EventPath → EventDef → Fields → Frame → List Event → Step
emitted path def fs fr events = elim (first_missing (EventDef.fields def) fs) [
  | some name ↦ fails (missing_field path name)
  | none ↦ done (next, fr, emit (events ++ record { path = path; fields = field_list fs } ∷ []))
]

unfoldable pub finish_emit : EventPath → EventDef → Payload → Frame → List Event → Step
unfolding emitted
finish_emit path def (complete fs) fr events = emitted path def fs fr events
finish_emit path def (too_large message) fr events =
    done (returned (invalid message), fr, emit events)

abbrev pub Body : Type 0
Body = Frame → Sink → Step

-- The rounds of a `for`. A `return` inside leaves the loop.
unfoldable pub rounds : Body → Iter → List Pair → Frame → Sink → Step
rounds body it [] fr sk = done (next, fr, sk)
rounds body it ((index, item) ∷ ps) fr sk = bind_iter it index item fr >>= λ fr₁.
    body fr₁ sk >>= λ (flow, fr₂, sk₁). proceed flow fr₂ sk₁ (rounds body it ps)

module _ (ev : Eval) where
  unfoldable pub eval_return : Return → Frame → Answer Ret
  eval_return Return.ok fr = done (ok, fr)
  eval_return (Return.invalid message) fr =
      eval_string ev message fr >>= λ (m, fr₁). done (invalid m, fr₁)
  eval_return (Return.reject code message) fr = eval_string ev code fr >>= λ (c, fr₁).
      eval_string ev message fr₁ >>= λ (m, fr₂). done (reject c m, fr₂)
  eval_return (Return.value v) fr = ev v fr >>= λ (w, fr₁). done (value w, fr₁)
  eval_return (Return.outcome v) fr = ev v fr >>= λ (w, fr₁). with_frame fr₁ (outcome_of w)

  -- `subscript`
  unfoldable pub subscript : List ExprId → Frame → Answer (Unit {0})
  subscript [] fr = done (tt, fr)
  subscript (id ∷ ids) fr =
      ev id fr >>= λ (v, fr₁). from_result (map_key v) >>= λ k. subscript ids fr₁

  module _ (program : Program) where
    -- The fields of an `emit`, coerced and checked in the order they are written.
    unfoldable pub eval_payload :
        EventPath → EventDef → List (Ident × ExprId) → Fields → Frame → Answer Payload
    eval_payload path def [] vs fr = done (complete vs, fr)
    eval_payload path def ((name, id) ∷ fs) vs fr =
        or_fails (event_field def name) (unknown_field path name) >>= λ d. ev id fr >>= λ (v, fr₁).
        check_field program (FieldDef.ty d) (FieldDef.max_len d) name (coerce v (FieldDef.ty d))
        >>= λ fault. elim fault [
          | some e ↦ done (too_large (fault_text e), fr₁)
          | none ↦ eval_payload path def fs (insert_field name (coerce v (FieldDef.ty d)) vs) fr₁
        ]

    unfoldable pub exec_emit : EventPath → List (Ident × ExprId) → Frame → Sink → Step
    exec_emit path fs fr pure = fails malformed_ir
    exec_emit path fs fr (emit events) =
        or_fails (event_def program path) (unknown_event path) >>= λ def.
        eval_payload path def fs no_fields fr >>= λ (p, fr₁). finish_emit path def p fr₁ events

    module _ (call_void : CallVoid) where
      unfoldable mutual
        pub exec_stmt : Stmt → Frame → Sink → Step
        exec_stmt (Stmt.assign slot v) fr sk =
            ev v fr >>= λ (w, fr₁). set fr₁ slot w >>= λ fr₂. done (next, fr₂, sk)
        exec_stmt (Stmt.if_else cond then_ otherwise) fr sk =
            eval_bool ev cond fr >>= λ (taken, fr₁). elim taken [
              | true ↦ exec_block then_ fr₁ sk
              | false ↦ exec_block otherwise fr₁ sk
            ]
        exec_stmt (Stmt.for_each it body) fr sk = elements ev it fr >>= λ (ps, fr₁).
            rounds (λ fr₂ sk₁. exec_block body fr₂ sk₁) it ps fr₁ sk
        exec_stmt (Stmt.emit path fs) fr sk = exec_emit path fs fr sk
        exec_stmt (Stmt.put entity fs) fr sk = fails malformed_ir
        exec_stmt (Stmt.patch entity keys absent loads fs) fr sk =
            subscript keys fr >>= λ _. fails malformed_ir
        exec_stmt (Stmt.delete entity []) fr sk = fails malformed_ir
        exec_stmt (Stmt.delete entity (id ∷ ids)) fr sk =
            subscript (id ∷ ids) fr >>= λ _. fails malformed_ir
        exec_stmt (Stmt.fail message) fr sk = fails malformed_ir
        exec_stmt (Stmt.log message) fr sk = eval_string ev message fr >>= λ _. fails malformed_ir
        exec_stmt (Stmt.erase subject v) fr sk =
            ev v fr >>= λ (w, fr₁). erase_refused w >>= λ _. fails malformed_ir
        exec_stmt (Stmt.discard v) fr sk = ev v fr >>= λ (w, fr₁). done (next, fr₁, sk)
        exec_stmt (Stmt.call function scope args) fr sk = eval_all ev args fr >>= λ (vs, fr₁).
            call_void function scope vs >>= λ _. done (next, fr₁, sk)
        exec_stmt (Stmt.return r) fr sk =
            eval_return r fr >>= λ (w, fr₁). done (returned w, fr₁, sk)

        pub exec_block : Block → Frame → Sink → Step
        exec_block Block.end fr sk = done (next, fr, sk)
        exec_block (Block.next s b) fr sk = exec_stmt s fr sk >>= λ (flow, fr₁, sk₁).
            proceed flow fr₁ sk₁ (λ fr₂ sk₂. exec_block b fr₂ sk₂)

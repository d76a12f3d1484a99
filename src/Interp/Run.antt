-- ===== src/Interp/Run.antt =====
-- src/interp.rs: evaluation closed over the functions of a program. A unit of fuel is spent on each
-- node and on each function that is entered.
use heklang.Base.{ℕ, zero, suc, Option, List, [], ◌∷◌, get_elem?}
use heklang.Ir.{Ident, Ty}
use heklang.Ir.Exprs.{Exprs, Block}
use heklang.Ir.Program.{Program, Param, Function, function_in}
use heklang.Value.{Value}
use heklang.Interp.Errors.{malformed_ir, unknown_function, failed}
use heklang.Interp.Coerce.{fitted}
use heklang.Interp.Methods.Strings.{Library}
use heklang.Interp.Frames.{
  Frame, Run, done, fails, spent, ◌>>=◌, from_result, or_fails, set, new_frame,
}
use heklang.Interp.Eval.{Answer, Call, eval_node}
use heklang.Interp.Exec.{Ret, Flow, next, returned, Sink, pure, Step, exec_block}

-- The parameters of a frame, each fitted to its type, one for one argument.
unfoldable pub bind_args : List Param → List Value → Frame → Run Frame
bind_args [] [] fr = done fr
bind_args (p ∷ ps) (v ∷ vs) fr = from_result (fitted v (Param.ty p)) >>= λ w.
    set fr (Param.slot p) w >>= λ fr₁. bind_args ps vs fr₁
bind_args _ _ fr = fails malformed_ir

-- As many arguments as parameters, asked before any is fitted.
unfoldable pub same_count : List Param → List Value → Run (Unit {0})
same_count [] [] = done tt
same_count (p ∷ ps) (v ∷ vs) = same_count ps vs
same_count _ _ = fails malformed_ir

-- What `enter_function` makes of the end of a body.
unfoldable pub left_body : Flow × Frame × Sink → Run Flow
left_body (returned (Ret.fail message), fr, sk) = fails (failed message)
left_body (flow, fr, sk) = done flow

-- `call_function` and `call_void`, behind the body.
unfoldable pub value_of : (ret : Ty) → Flow → Run Value
value_of ret (returned (Ret.value v)) = from_result (fitted v ret)
value_of ret flow = fails malformed_ir

unfoldable pub void_of : Flow → Run (Unit {0})
void_of next = done tt
void_of (returned Ret.ok) = done tt
void_of flow = fails malformed_ir

abbrev pub Enter : Type 0
Enter = Function → List Value → Run Flow

unfoldable pub call_def : Enter → List Value → Function → Run Value
call_def enter vs def =
    or_fails (Function.ret def) malformed_ir >>= λ ret. enter def vs >>= λ flow. value_of ret flow

unfoldable pub call_function : Program → Enter → Call
unfolding call_def
call_function program enter function scope vs =
    or_fails (function_in program scope function) (unknown_function function) >>= λ def.
    call_def enter vs def

unfoldable pub call_void :
    Program → Enter → (function : Ident) (scope : Option Ident) → List Value → Run (Unit {0})
call_void program enter function scope vs =
    or_fails (function_in program scope function) (unknown_function function) >>= λ def.
    enter def vs >>= λ flow. void_of flow

module _ (lib : Library) (program : Program) where
  unfoldable mutual
    pub eval : (fuel : ℕ) → Exprs → ℕ → Frame → Answer Value
    eval zero exprs id fr = spent
    eval (suc f) exprs id fr = or_fails (get_elem? exprs id) malformed_ir >>= λ e.
        eval_node (eval f exprs) lib program (call_function program (enter_function f)) e fr

    pub enter_function : (fuel : ℕ) → Function → List Value → Run Flow
    enter_function zero def vs = spent
    enter_function (suc f) def vs = same_count (Function.params def) vs >>= λ _.
        bind_args (Function.params def) vs (new_frame (Function.frame def)) >>= λ fr.
        exec_block (eval f (Function.exprs def)) program (call_void program (enter_function f))
          (Function.body def) fr pure
        >>= λ end. left_body end

  -- A block of a command, from a sink.
  unfoldable pub exec : (fuel : ℕ) → Exprs → Block → Frame → Sink → Step
  exec f exprs b fr sk =
      exec_block (eval f exprs) program (call_void program (enter_function f)) b fr sk

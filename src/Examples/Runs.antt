-- ===== src/Examples/Runs.antt =====
-- src/interp.rs and src/inline.rs: runs of small bodies, and documents.
use heklang.Base.{ℕ, ◌≡◌, refl, false, none, some, [], ◌∷◌, arith}
use heklang.Base.Int.{pos, ◌+ℤ◌}
use heklang.Base.Text.{codes}
use heklang.Scaled
use heklang.Scaled.{checked_i64}
use heklang.Ir.{Ty, add, same_unsealed}
use heklang.Ir.Literals.{Literal}
use heklang.Ir.Exprs.{Expr, Exprs, Stmt, Block, Return}
use heklang.Ir.Program.{Program, Function}
use heklang.Ir.Shift.{shift_block}
use heklang.Value.{Value, Key, from_key, no_entries, Json, no_items, item, has_type, ty}
use heklang.Value.Numbers.{of_literal}
use heklang.Value.Render.{json_text, rendered}
use heklang.Value.Shown.{json_text-rendered}
use heklang.Interp.Errors.{ok, ◌>>=◌, map_err, from_scaled}
use heklang.Interp.Coerce.{some_value, coerce, fitted}
use heklang.Interp.Ops.{binary, arith_values, arith as arith_op}
use heklang.Interp.Methods.{call_method}
use heklang.Interp.Methods.Strings.{Library}
use heklang.Interp.Methods.Lookup.{get-set, get-set_other}
use heklang.Interp.Frames.{Frame, done, set, read_slot, read_cell}
use heklang.Interp.Eval.{eval_node, eval_binary, strategy}
use heklang.Interp.Exec.{next, pure, exec_block, exec_stmt, proceed}
use heklang.Interp.Run.{exec, eval}
use heklang.Interp.Relocate.{Follows}
use heklang.Interp.Relocate.Frames.{between}
use heklang.Interp.Relocate.Stmts.{moved_step}
use heklang.Interp.Relocate.Fuel.{placed}
use heklang.Interp.Relocate.Splice.{exec-placed}
use heklang.Interp.Returns.{Returns, StmtBelow, BlockBelow}
use heklang.Interp.Returns.Enough.{AllLayered, exec-Returns}

-- Tables for what is plain ASCII in no case.
abbrev pub lib : Library
lib = record {
  lower = λ s. s;
  upper = λ s. s;
  is_white = λ c. false;
  is_uuid = λ s. false;
  uuid_v5 = λ namespace name. namespace;
}

abbrev program : Program
program = record {
  events = [];
  records = [];
  functions = [];
  effects = [];
  commands = [];
  folds = [];
  enums = [];
  projectors = [];
}

-- `x = x + 5`, and a node of a caller that stands before it.
abbrev callee : Exprs
callee = Expr.load 0 ∷ Expr.lit (Literal.int (pos 5)) ∷ Expr.binary add 0 1 ∷ []

abbrev body : Block
body = Block.next (Stmt.assign 0 2) Block.end

abbrev caller : Exprs
caller = Expr.lit (Literal.str (codes "x")) ∷ []

abbrev cell : ℕ → Frame
cell n = some (Value.int (pos n)) ∷ []

body_test : exec lib program 3 callee body (cell 37) pure ≡ done (next, cell 42, pure)
unfolding exec exec_block exec_stmt eval eval_node eval_binary strategy of_literal read_slot
    read_cell set proceed binary arith_values arith_op map_err from_scaled Scaled.add checked_i64
    ◌+ℤ◌
body_test = refl

exec-placed_example :
    Follows
      (moved_step (cell 7) [])
      (exec lib program 4
        (placed caller caller 1 callee)
        (shift_block 1 1 body)
        (between (cell 7) [] (cell 37))
        pure)
      (exec lib program 3 callee body (cell 37) pure)
exec-placed_example =
    exec-placed lib program 3 4 (omega arith) caller caller callee (cell 7) [] body (cell 37) pure

abbrev five : Value
five = Value.int (pos 5)

fitted_test : fitted five Ty.int ≡ ok five
unfolding fitted coerce has_type ty same_unsealed
fitted_test = refl

get-set_example :
    (call_method lib
        (Value.map Ty.string Ty.int no_entries)
        (codes "set")
        (from_key (Key.str (codes "a")) ∷ five ∷ [])
      >>= λ m. call_method lib m (codes "get") (from_key (Key.str (codes "a")) ∷ []))
    ≡ ok (some_value five)
get-set_example =
    get-set lib Ty.string Ty.int no_entries (Key.str (codes "a")) five five fitted_test

get-set_other_example :
    (call_method lib
        (Value.map Ty.string Ty.int no_entries)
        (codes "set")
        (from_key (Key.str (codes "a")) ∷ five ∷ [])
      >>= λ m. call_method lib m (codes "get") (from_key (Key.int (pos 1)) ∷ []))
    ≡ call_method lib
        (Value.map Ty.string Ty.int no_entries)
        (codes "get")
        (from_key (Key.int (pos 1)) ∷ [])
get-set_other_example =
    get-set_other lib Ty.string Ty.int no_entries (Key.str (codes "a")) five five fitted_test
      (Key.int (pos 1)) (λ p. cc)

abbrev document : Json
document = Json.arr (item (Json.secret (codes "k3y") (codes "{SECRET:KEY}")) no_items)

json_text-rendered_example : json_text (rendered false document) ≡ json_text document
json_text-rendered_example = json_text-rendered document

-- `twice(x) = x + x`, and a body that sets its slot to `twice` of 5.
abbrev twice : Function
twice = record {
  name = codes "twice";
  params = record { name = codes "x"; slot = 0; ty = Ty.int } ∷ [];
  ret = some Ty.int;
  frame = 1;
  exprs = Expr.load 0 ∷ Expr.binary add 0 0 ∷ [];
  body = Block.next (Stmt.return (Return.value 1)) Block.end;
}

abbrev with_twice : Program
with_twice = record {
  events = [];
  records = [];
  functions = twice ∷ [];
  effects = [];
  commands = [];
  folds = [];
  enums = [];
  projectors = [];
}

abbrev user : Exprs
user = Expr.lit (Literal.int (pos 5)) ∷ Expr.call_fn (codes "twice") none (0 ∷ []) ∷ []

abbrev assigns : Block
assigns = Block.next (Stmt.assign 0 1) Block.end

abbrev flat : Function → ℕ
flat f = 0

layered : AllLayered with_twice flat 2
unfolding StmtBelow BlockBelow
layered = ((((tt, ((omega arith, omega arith), tt)), (omega arith, tt), omega arith), tt), tt)

below : BlockBelow with_twice flat 2 1 assigns
unfolding StmtBelow BlockBelow
below = (omega arith, tt)

exec-Returns_example : Returns (exec lib with_twice 6 user assigns (cell 0) pure)
exec-Returns_example =
    exec-Returns lib with_twice flat 2 layered 6 1 user assigns
      (tt, (((omega arith, tt), λ def p. omega arith), tt)) below (omega arith) (cell 0) pure

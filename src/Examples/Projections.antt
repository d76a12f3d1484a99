-- ===== src/Examples/Projections.antt =====
-- src/interp.rs: a projector that keeps the members who joined, one of whom is erased.
use heklang.Interp.Coerce.{map_key, coerce}
use heklang.Interp.Bounds.{over_long, bounded, check_field}
use heklang.Interp.Resolve.{
  subject_of, stored_text, seal_under, seal_field, seal_declared, seal, need_field,
}
use heklang.Interp.Ops.{cmp_text}
use heklang.Value.Maps.{insert_field, find_field}
use native.Mathlib.Decide.{ℕ_discrete}
use heklang.Interp.Write.{
  go_on, key_columns, key_fields, row_key, put_row, unwritten, eval_column, eval_columns, exec_put,
  write_block,
}
use heklang.Base.{◌≡◌, refl, none, some, [], ◌∷◌, arith}
use heklang.Base.Text.{text_eq, codes}
use heklang.Ir.{same_unsealed, EventPath-discrete, Ident, Ty, EventPath}
use heklang.Ir.Exprs.{Expr, Exprs, Stmt, Block}
use heklang.Ir.Program.{
  entity_field, entity_def, event_field, find_event, event_def, named, projector_def, Program,
  EventDef, EntityDef, Handler, Projector,
}
use heklang.Value.{from_value, ty, has_type, Value, Key, no_fields, field}
use heklang.Interp.Frames.{Frame, Frame, read_cell, read_slot, set, new_frame, done, ◌>>=◌}
use heklang.Interp.Eval.{eval_node, Eval}
use heklang.Interp.Run.{eval}
use heklang.Interp.Exec.{next, subject_id, CallVoid}
use heklang.Interp.Fold.{set_envelope, bind_fields, as_result, visiting, read_log, each_record}
use heklang.Interp.Rows.{
  store_delete, store_put, shred, shredded, Key-discrete, keys_eq, at_key, store_row, Row, Store,
  store_rows,
}
use heklang.Interp.Project.{
  add_slice, handled, projection_query, apply_handler, apply_handlers, apply, project, project_into,
}
use heklang.Interp.Project.Private.{IsPrivate, project-IsPrivate}
use heklang.Interp.Project.Followed.{project_into-push_all}
use heklang.Log.{
  key_eq, wrapped_in, wrapping, gone, is_live, lookup, path_eq, past, names, scan, read,
  sort_filters, predicate, stamped, push, head, field as field_of_event, Event, Harness, with_log,
  push_all, erase_subject, is_erased,
}
use heklang.Log.Appends.{stamped_from, IsPlaced}
use heklang.Examples.Runs.{lib}

abbrev joined : EventPath
joined = record { segments = codes "joined" ∷ [] }

abbrev id : Ident
id = codes "id"

abbrev name : Ident
name = codes "name"

abbrev person : Ident
person = codes "person"

abbrev member : Ident
member = codes "Member"

abbrev join : Ident → Ident → Event
join who called = record {
  path = joined;
  fields = (id, Value.str who) ∷ (name, Value.present Ty.string (Value.str called)) ∷ [];
}

abbrev joined_def : EventDef
joined_def = record {
  path = joined;
  fields =
      record {
        name = id;
        ty = Ty.subject person Ty.string;
        subject = none;
        max_len = none;
        absent = none;
      }
      ∷ record {
        name = name;
        ty = Ty.opt Ty.string;
        subject = some id;
        max_len = none;
        absent = none;
      }
      ∷ [];
}

abbrev nodes : Exprs
nodes = Expr.load 0 ∷ Expr.load 1 ∷ []

abbrev member_def : EntityDef
member_def = record {
  name = member;
  fields =
      record { name = id; ty = Ty.string; max_len = none; default = none }
      ∷ record {
        name = name;
        ty = Ty.opt (Ty.sealed Ty.string person);
        max_len = none;
        default = none;
      }
      ∷ [];
  keys = 0 ∷ [];
}

abbrev on_joined : Handler
on_joined = record {
  event = joined;
  binds = record { field = id; slot = 0 } ∷ record { field = name; slot = 1 } ∷ [];
  envelope = [];
  frame = 2;
  exprs = nodes;
  body = Block.next (Stmt.put member ((id, 0) ∷ (name, 1) ∷ [])) Block.end;
}

abbrev members : Projector
members = record {
  name = codes "Members";
  enums = [];
  entities = member_def ∷ [];
  handlers = on_joined ∷ [];
}

abbrev program : Program
program = record {
  events = joined_def ∷ [];
  records = [];
  functions = [];
  effects = [];
  commands = [];
  folds = [];
  enums = [];
  projectors = members ∷ [];
}

abbrev evals : Exprs → Eval
evals = eval lib program 3

abbrev no_calls : CallVoid
no_calls = λ function scope args. done tt

abbrev log : Harness
log = with_log (join (codes "ann") (codes "Ann") ∷ join (codes "bob") (codes "Bob") ∷ [])

abbrev host : Harness
host = record {
  records = Harness.records log;
  keys = erase_subject (Harness.keys log) person (codes "ann");
}

abbrev bob_row : Row
bob_row = field id (Value.str (codes "bob")) (
    field name
      (Value.present (Ty.sealed Ty.string person)
        (Value.sealed name person (codes "bob") (codes "Bob")))
      no_fields)

abbrev ann_row : Row
ann_row =
    field id (Value.str (codes "ann"))
      (field name (Value.absent (Ty.sealed Ty.string person)) no_fields)

abbrev rows_left : Store
rows_left =
    (member, Key.str (codes "bob") ∷ [], bob_row)
    ∷ (member, Key.str (codes "ann") ∷ [], ann_row)
    ∷ []

projected : project evals 3 program no_calls (codes "Members") host ≡ done rows_left
unfolding project project_into apply apply_handlers apply_handler projector_def named
    projection_query handled add_slice predicate sort_filters read_log visiting as_result read scan
    names past path_eq EventPath-discrete push_all push with_log stamped new_frame bind_fields
    need_field field_of_event lookup seal seal_declared seal_field seal_under stored_text subject_of
    subject_id event_def find_event event_field set set_envelope write_block exec_put entity_def
    entity_field eval_columns eval_column eval eval_node read_slot read_cell check_field bounded
    coerce has_type same_unsealed ty insert_field find_field unwritten put_row row_key key_fields
    key_columns map_key from_value shredded shred is_live is_erased erase_subject store_put
    store_delete at_key keys_eq Key-discrete ℕ_discrete go_on text_eq cmp_text gone wrapping
    wrapped_in key_eq over_long
projected = refl

bob_found : store_row rows_left member (Key.str (codes "bob") ∷ []) ≡ some bob_row
unfolding store_row at_key keys_eq text_eq Key-discrete ℕ_discrete
bob_found = refl

bob_named :
    find_field name bob_row
    ≡ some (
        Value.present
          (Ty.sealed Ty.string person)
          (Value.sealed name person (codes "bob") (codes "Bob")))
unfolding find_field cmp_text
bob_named = refl

host-IsPlaced : IsPlaced 0 (Harness.records host)
unfolding IsPlaced with_log push_all push stamped
host-IsPlaced = (refl, (refl, tt))

log-IsPlaced : IsPlaced 0 (Harness.records log)
unfolding IsPlaced with_log push_all push stamped
log-IsPlaced = (refl, (refl, tt))

project-IsPrivate_example : IsPrivate (Harness.keys host) (
    Value.present
      (Ty.sealed Ty.string person)
      (Value.sealed name person (codes "bob") (codes "Bob")))
project-IsPrivate_example =
    project-IsPrivate evals 3 program no_calls host host-IsPlaced (codes "Members") member name
      rows_left (Key.str (codes "bob") ∷ []) bob_row
      (Value.present (Ty.sealed Ty.string person)
        (Value.sealed name person (codes "bob") (codes "Bob")))
      projected bob_found bob_named

project_into-push_all_example :
    project_into evals 3 program no_calls members store_rows
      (push_all log (join (codes "cyd") (codes "Cyd") ∷ []))
      []
    ≡ (project_into evals 3 program no_calls members store_rows log [] >>= λ s.
        each_record
          (apply evals 3 program no_calls members store_rows)
          s
          (stamped_from (head log) (join (codes "cyd") (codes "Cyd") ∷ [])))
unfolding head with_log push_all push
project_into-push_all_example =
    project_into-push_all evals 3 program no_calls members store_rows log
      (join (codes "cyd") (codes "Cyd") ∷ []) [] log-IsPlaced (omega arith)

-- The frame of the handler on the record of `bob`, and what the `put` leaves in no rows.
abbrev bob_frame : Frame
bob_frame =
    some (Value.str (codes "bob"))
    ∷ some (
        Value.present (Ty.sealed Ty.string person)
          (Value.sealed name person (codes "bob") (codes "Bob")))
    ∷ []

abbrev bob_kept : Store
bob_kept = (member, Key.str (codes "bob") ∷ [], bob_row) ∷ []

-- ===== src/Interp/Resolve.antt =====
-- src/interp.rs: the slices of a stage with their filters evaluated, and the fields of an event as
-- they enter a frame.
use heklang.Base.{
  ℕ, ◌-◌, ◌^◌, Bool, true, false, not, ◌&&◌, Option, none, some, List, [], ◌∷◌, ltb, if◌then◌else◌,
}
use heklang.Base.Int.{ℤ, pos, negsuc}
use heklang.Base.Text.{Text, text_eq}
use heklang.Ir.{Ident, Ty}
use heklang.Ir.Exprs.{Slot}
use heklang.Ir.Stages.{Filter, Slice, EnvField}
use heklang.Ir.Program.{Program, EventDef, FieldDef, event_def, event_field}
use heklang.Value.{Value, value_eq}
use heklang.Value.Render.{sealed_text}
use heklang.Interp.Errors.{malformed_ir, missing_field}
use heklang.Interp.Coerce.{fitted}
use heklang.Interp.Frames.{Frame, Run, done, fails, ◌>>=◌, from_result, or_fails, read_slot}
use heklang.Interp.Eval.{Eval, Answer}
use heklang.Interp.Exec.{subject_id}
use heklang.Log.{Event, Record, Predicate, predicate, field, path_eq}

pub record Resolved : Type 0 where
  pub predicate : Predicate
  pub live : Bool

-- The derived `==` of filters, predicates and `Resolved`.
unfoldable pub filters_eq : (a b : List (Ident × Value)) → Bool
filters_eq [] [] = true
filters_eq ((n, v) ∷ a) ((m, w) ∷ b) = text_eq n m && value_eq v w && filters_eq a b
filters_eq _ _ = false

unfoldable pub resolved_eq : (a b : Resolved) → Bool
resolved_eq a b =
    let p = Resolved.predicate a in
    let q = Resolved.predicate b in
    path_eq (Predicate.event p) (Predicate.event q)
    && filters_eq (Predicate.filters p) (Predicate.filters q)
    && (if Resolved.live a then Resolved.live b else not (Resolved.live b))

unfoldable pub slices_eq : (a b : List Resolved) → Bool
slices_eq [] [] = true
slices_eq (a ∷ rs) (b ∷ ss) = resolved_eq a b && slices_eq rs ss
slices_eq _ _ = false

-- `narrowing`: the predicates of the live slices.
unfoldable pub narrowing : List Resolved → List Predicate
narrowing [] = []
narrowing (r ∷ rs) =
    let rest = narrowing rs in if Resolved.live r then Resolved.predicate r ∷ rest else rest

-- `field`, with its error.
unfoldable pub need_field : Event → Ident → Run Value
need_field e name = or_fails (field e name) (missing_field (Event.path e) name)

-- `matches`
unfoldable pub match_filters : Event → List (Ident × Value) → Run Bool
match_filters e [] = done true
match_filters e ((name, want) ∷ fs) = need_field e name >>= λ held. elim (value_eq held want) [
  | true ↦ match_filters e fs
  | false ↦ done false
]

unfoldable pub matches : Predicate → Event → Run Bool
matches p e = elim (path_eq (Predicate.event p) (Event.path e)) [
  | true ↦ match_filters e (Predicate.filters p)
  | false ↦ done false
]

-- A filter's value, fitted to the field where the event declares it.
unfoldable pub fit_filter : Option EventDef → Ident → Value → Run Value
fit_filter none name v = done v
fit_filter (some def) name v = elim (event_field def name) [
  | some d ↦ from_result (fitted v (FieldDef.ty d))
  | none ↦ done v
]

-- `live && frame.get(slot)? == &value`
unfoldable pub still_live : Bool → Frame → Slot → Value → Run Bool
still_live false fr slot v = done false
still_live true fr slot v = read_slot fr slot >>= λ held. done (value_eq held v)

module _ (ev : Eval) (program : Program) where
  -- The filters of one slice: the pairs of a predicate, and whether the slice takes part.
  unfoldable pub resolve_filters :
      Option EventDef → List Filter → (live : Bool) → Frame → Answer (List (Ident × Value) × Bool)
  resolve_filters def [] live fr = done (([], live), fr)
  resolve_filters def (Filter.on_field name id ∷ fs) live fr = ev id fr >>= λ (v, fr₁).
      fit_filter def name v >>= λ w.
      resolve_filters def fs live fr₁ >>= λ ((ps, on), fr₂). done (((name, w) ∷ ps, on), fr₂)
  resolve_filters def (Filter.on_key param slot t id ∷ fs) live fr = ev id fr >>= λ (v, fr₁).
      from_result (fitted v t) >>= λ w.
      still_live live fr₁ slot w >>= λ live₁. resolve_filters def fs live₁ fr₁

  unfoldable pub resolved_one : Slice → Frame → Answer Resolved
  resolved_one s fr =
      resolve_filters (event_def program (Slice.event s)) (Slice.filters s) true fr
      >>= λ ((ps, on), fr₁).
          done (record { predicate = predicate (Slice.event s) ps; live = on }, fr₁)

  unfoldable pub resolve : List Slice → Frame → Answer (List Resolved)
  resolve [] fr = done ([], fr)
  resolve (s ∷ ss) fr =
      resolved_one s fr >>= λ (r, fr₁). resolve ss fr₁ >>= λ (rs, fr₂). done (r ∷ rs, fr₂)

-- `stored_text`
unfoldable pub stored_text : Value → Text
stored_text (Value.str s) = s
stored_text v = sealed_text v

-- What `seal` makes of a value, under a subject and an id.
unfoldable pub seal_under : (name subject : Ident) (id : Text) → Value → Run Value
seal_under name subject id (Value.absent inner) = done (Value.absent (Ty.sealed inner subject))
seal_under name subject id (Value.present inner v) =
    done (Value.present (Ty.sealed inner subject) (Value.sealed name subject id (stored_text v)))
seal_under name subject id (Value.secret plain redacted) = fails malformed_ir
seal_under name subject id v = done (Value.sealed name subject id (stored_text v))

-- The subject that the type of an id field names.
unfoldable pub subject_of : Option FieldDef → Option Ident
subject_of none = none
subject_of (some d) = elim (FieldDef.ty d) [ Ty.subject name id ↦ some name | _ ↦ none ]

unfoldable pub seal_field : EventDef → Event → Ident → Value → Option Ident → Run Value
seal_field def e name v none = done v
seal_field def e name v (some id_field) =
    or_fails (subject_of (event_field def id_field)) malformed_ir >>= λ subject.
    need_field e id_field >>= λ held.
    subject_id held >>= λ id. or_fails id malformed_ir >>= λ id. seal_under name subject id v

unfoldable pub seal_declared : Option EventDef → Event → Ident → Value → Run Value
seal_declared none e name v = done v
seal_declared (some def) e name v = elim (event_field def name) [
  | some d ↦ seal_field def e name v (FieldDef.subject d)
  | none ↦ done v
]

unfoldable pub seal : Program → Event → Ident → Value → Run Value
seal program e name v = seal_declared (event_def program (Event.path e)) e name v

-- `as i64` of a `u64`
unfoldable pub as_i64 : ℕ → ℤ
as_i64 n = if ltb n (2 ^ 63) then pos n else negsuc (2 ^ 64 - 1 - n)

unfoldable pub envelope_value : Record → EnvField → Value
unfolding as_i64
envelope_value r EnvField.at = Value.timestamp (Record.at r)
envelope_value r EnvField.id = Value.uuid (Record.id r)
envelope_value r EnvField.position = Value.int (as_i64 (Record.position r))

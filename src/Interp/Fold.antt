-- ===== src/Interp/Fold.antt =====
-- src/interp.rs: the records of a log folded through the slices of a stage, and named folds. A
-- visitor is passed its state along, and what a history read reports is the state `S` of its visitor.
pub mod Reads
pub mod Resume
pub mod Ignored
pub mod History
pub mod Stored
pub mod Replay
use heklang.Base.{
  ℕ, zero, suc, ◌-◌, Bool, true, false, Option, none, some, List, [], ◌∷◌, ◌++◌, any, if◌then◌else◌,
}
use heklang.Base.Text.{text_eq}
use heklang.Ir.{Ident, Ty}
use heklang.Ir.Exprs.{ExprId, Slot, Bind, Exprs}
use heklang.Ir.Stages.{Lookup, ComputedKey, Update, Slice, FoldVar, Stage, EnvBind, some_in}
use heklang.Ir.Program.{Param, Fold, Program, fold_def, named}
use heklang.Value.{Value, no_fields, value_eq}
use heklang.Value.Maps.{collect_fields}
use heklang.Interp.Errors
use heklang.Interp.Errors.{Result, malformed_ir, unknown_fold}
use heklang.Interp.Coerce.{fitted}
use heklang.Interp.Frames.{
  Frame, Run, done, fails, spent, ◌>>=◌, from_result, or_fails, set, read_slot, new_frame,
}
use heklang.Interp.Eval.{Eval, Answer}
use heklang.Interp.Params.{bind_params}
use heklang.Interp.Resolve.{Resolved, narrowing, need_field, matches, resolve, seal, envelope_value}
use heklang.Log.{Event, Record, Query, Harness, read}

-- A visitor that runs: once the fuel is out, the records that are left pass by.
abbrev pub Visitor : Type 0 → Type 0
Visitor S = S → Record → Run S

unfoldable pub as_result : {S : Type 0} → Run S → Result (Run S)
as_result (done s) = Errors.ok (done s)
as_result (fails e) = Errors.err e
as_result spent = Errors.ok spent

unfoldable pub visiting : {S : Type 0} → Visitor S → Run S → Record → Result (Run S)
unfolding as_result
visiting visit (done s) r = as_result (visit s r)
visiting visit m r = Errors.ok m

abbrev pub visited : {S : Type 0} → Result (Run S) → Run S
visited (Errors.ok m) = m
visited (Errors.err e) = fails e

-- `Log::read`
unfoldable pub read_log : {S : Type 0} → Harness → Query → Visitor S → S → Run S
read_log h q visit s = visited (read h q (visiting visit) (done s))

-- `try_for_each`
unfoldable pub each_record : {S : Type 0} → Visitor S → S → List Record → Run S
each_record visit s [] = done s
each_record visit s (r ∷ rs) = visit s r >>= λ s₁. each_record visit s₁ rs

-- What a history read adds: the slot that is reported, and who it is reported to.
pub record Steps (S : Type 0) : Type 0 where
  pub slot : Slot
  pub visit : S → Record → Value → Run S

-- Where a lookup's value comes from, before a position.
abbrev pub Asof : Type 0
Asof = (upto : ℕ) → Ident → List (Ident × Value) → Run Value

-- A part of a key that an arm computes: nothing where it skips and the value is absent.
unfoldable pub part_of : (skip : Bool) → Value → Option Value
part_of true (Value.absent inner) = none
part_of true (Value.present inner v) = some v
part_of skip v = some v

-- An argument of a lookup, without the optional that its parameter does not take.
unfoldable pub argument : (optional : Bool) → Value → Option Value
argument false (Value.absent inner) = none
argument false (Value.present inner v) = some v
argument optional v = some v

abbrev is_opt : Ty → Bool
is_opt (Ty.opt inner) = true
is_opt t = false

-- A name that no parameter has counts as optional.
unfoldable pub takes_opt : List Param → Ident → Bool
takes_opt ps name = elim (named Param.name name ps) [ none ↦ true | some p ↦ is_opt (Param.ty p) ]

unfoldable pub absent_of : Ty → Run Value
absent_of (Ty.opt inner) = done (Value.absent inner)
absent_of t = fails malformed_ir

unfoldable pub set_envelope : List EnvBind → Record → Frame → Run Frame
set_envelope [] r fr = done fr
set_envelope (b ∷ bs) r fr =
    set fr (EnvBind.slot b) (envelope_value r (EnvBind.field b)) >>= λ fr₁. set_envelope bs r fr₁

unfoldable pub report : {S : Type 0} → Option (Steps S) → Record → Frame → S → Run S
report none r fr s = done s
report (some at) r fr s = read_slot fr (Steps.slot at) >>= λ held. Steps.visit at s r held

module _ (ev : Eval) (program : Program) where
  unfoldable pub bind_fields : List Bind → Event → Frame → Run Frame
  bind_fields [] e fr = done fr
  bind_fields (b ∷ bs) e fr = need_field e (Bind.field b) >>= λ v.
      seal program e (Bind.field b) v >>= λ w.
      set fr (Bind.slot b) w >>= λ fr₁. bind_fields bs e fr₁

  unfoldable pub set_updates : List Update → Frame → Run Frame
  set_updates [] fr = done fr
  set_updates (u ∷ us) fr = ev (Update.value u) fr >>= λ (v, fr₁).
      from_result (fitted v (Update.ty u)) >>= λ w.
      set fr₁ (Update.slot u) w >>= λ fr₂. set_updates us fr₂

  -- Whether the computed parts of a key are those in the slots.
  unfoldable pub own_keys : List ComputedKey → Frame → Answer Bool
  own_keys [] fr = done (true, fr)
  own_keys (k ∷ ks) fr = ev (ComputedKey.value k) fr >>= λ (v, fr₁).
      elim (part_of (ComputedKey.skip k) v) [
        | none ↦ done (false, fr₁)
        | some part ↦ from_result (fitted part (ComputedKey.ty k)) >>= λ w.
            read_slot fr₁ (ComputedKey.slot k) >>= λ held. elim (value_eq held w) [
              | true ↦ own_keys ks fr₁
              | false ↦ done (false, fr₁)
            ]
      ]

  -- The arguments of a lookup, up to one that has no key.
  unfoldable pub look_args :
      List Param
      → List (Ident × ExprId)
      → List (Ident × Value)
      → Frame
      → Answer (Option (List (Ident × Value)))
  look_args ps [] found fr = done (some found, fr)
  look_args ps ((name, id) ∷ rest) found fr = ev id fr >>= λ (v, fr₁).
      elim (argument (takes_opt ps name) v) [
        | none ↦ done (none, fr₁)
        | some w ↦ look_args ps rest (found ++ (name, w) ∷ []) fr₁
      ]

  module _ (asof : Asof) where
    unfoldable pub looked_up : (upto : ℕ) → Lookup → Option (List (Ident × Value)) → Run Value
    looked_up upto l none = absent_of (Lookup.ty l)
    looked_up upto l (some args) =
        asof upto (Lookup.fold l) args >>= λ v. from_result (fitted v (Lookup.ty l))

    unfoldable pub lookups : (upto : ℕ) → List Lookup → Frame → Run Frame
    lookups upto [] fr = done fr
    lookups upto (l ∷ ls) fr = or_fails (fold_def program (Lookup.fold l)) malformed_ir >>= λ def.
        look_args (Fold.params def) (Lookup.args l) [] fr >>= λ (args, fr₁).
        looked_up upto l args >>= λ v. set fr₁ (Lookup.slot l) v >>= λ fr₂. lookups upto ls fr₂

    -- One slice that the record matches.
    unfoldable pub apply_slice : Slice → Record → Frame → Run Frame
    apply_slice s r fr = bind_fields (Slice.binds s) (Record.event r) fr >>= λ fr₁.
        lookups (Record.position r) (Slice.lookups s) fr₁ >>= λ fr₂.
        own_keys (Slice.keys s) fr₂ >>= λ (mine, fr₃). elim mine [
          | true ↦ set_updates (Slice.updates s) fr₃
          | false ↦ done fr₃
        ]

    unfoldable pub visit_slice : Slice → Resolved → Record → Frame → Run Frame
    visit_slice s res r fr = elim (Resolved.live res) [
      | false ↦ done fr
      | true ↦ matches (Resolved.predicate res) (Record.event r) >>= λ m. elim m [
        | true ↦ apply_slice s r fr
        | false ↦ done fr
      ]
    ]

    -- `zip`
    unfoldable pub visit_slices : List Slice → List Resolved → Record → Frame → Run Frame
    visit_slices [] rs r fr = done fr
    visit_slices (s ∷ ss) [] r fr = done fr
    visit_slices (s ∷ ss) (res ∷ rs) r fr =
        visit_slice s res r fr >>= λ fr₁. visit_slices ss rs r fr₁

    module _ {S : Type 0} (slices : List Slice) (rs : List Resolved) (envelope : List EnvBind)
        (steps : Option (Steps S)) where
      unfoldable pub visit_record : Visitor (Frame × S)
      visit_record (fr, s) r = set_envelope envelope r fr >>= λ fr₁.
          visit_slices slices rs r fr₁ >>= λ fr₂. report steps r fr₂ s >>= λ s₁. done (fr₂, s₁)

      -- The visitor reads the log again where a slice looks another fold up, so the records are
      -- read out first.
      unfoldable pub read_records :
          (buffered : Bool) → Harness → Query → Frame × S → Run (Frame × S)
      read_records false h q at = read_log h q visit_record at
      read_records true h q at =
          read_log h q (λ (found : List Record) r. done (found ++ r ∷ [])) [] >>= λ found.
          each_record visit_record at found

      -- `fold`, over what answers its lookups.
      unfoldable pub fold_with :
          Harness → (from : ℕ) → (upto : Option ℕ) → Frame × S → Run (Frame × S)
      fold_with h from upto at = elim (some_in (narrowing rs)) [
        | false ↦ done at
        | true ↦
            read_records (any (λ s. some_in (Slice.lookups s)) slices) h
              (record { slices = narrowing rs; from = from; upto = upto }) at
      ]

  -- The seeds of a stage's folds.
  unfoldable pub seed : List FoldVar → Frame → Run Frame
  seed [] fr = done fr
  seed (x ∷ xs) fr = ev (FoldVar.init x) fr >>= λ (v, fr₁).
      from_result (fitted v (FoldVar.ty x)) >>= λ w.
      set fr₁ (FoldVar.slot x) w >>= λ fr₂. seed xs fr₂

module _ (evals : Exprs → Eval) (program : Program) (h : Harness) where
  -- The records of a fold below a head.
  unfoldable pub fold_to :
      {S : Type 0}
      → Asof
      → Fold
      → List Resolved
      → (head : Option ℕ) → Option (Steps S)
      → Frame × S
      → Run (Frame × S)
  fold_to asof def rs (some zero) steps at = done at
  fold_to asof def rs (some (suc last)) steps at =
      fold_with (evals (Fold.exprs def)) program asof (Stage.slices (Fold.stage def)) rs
        (Fold.envelope def) steps h 0 (some last) at
  fold_to asof def rs none steps at =
      fold_with (evals (Fold.exprs def)) program asof (Stage.slices (Fold.stage def)) rs
        (Fold.envelope def) steps h 0 none at

  -- The frame that a fold starts from, and its slices.
  unfoldable pub prepare : Fold → List (Ident × Value) → Answer (List Resolved)
  prepare def args =
      bind_params (Fold.params def) (collect_fields no_fields args) (new_frame (Fold.frame def))
      >>= λ fr.
          resolve (evals (Fold.exprs def)) program (Stage.slices (Fold.stage def)) fr
          >>= λ (rs, fr₁).
              seed (evals (Fold.exprs def)) program (Stage.folds (Fold.stage def)) fr₁ >>= λ fr₂.
              done (rs, fr₂)

  -- `folding`, with the state of who follows its steps.
  unfoldable pub folding :
      {S : Type 0}
      → Asof
      → Fold
      → List (Ident × Value)
      → (head : Option ℕ) → Option (Steps S)
      → S
      → Run (Value × S)
  folding asof def args head steps s = prepare def args >>= λ (rs, fr).
      fold_to asof def rs head steps (fr, s) >>= λ (fr₁, s₁).
      read_slot fr₁ (Fold.slot def) >>= λ v. done (v, s₁)

  -- `Asof::Replay`: a fold that is looked up is folded again, to the depth that folds look each
  -- other up.
  unfoldable pub replay : (depth : ℕ) → Asof
  replay zero upto name args = spent
  replay (suc d) upto name args = or_fails (fold_def program name) (unknown_fold name) >>= λ def.
      folding {S = Unit} (replay d) def args (some upto) none tt >>= λ (v, _). done v

-- `fold`, whose lookups replay the log that it folds, before the record that they stand at.
unfoldable pub fold :
    (evals : Exprs → Eval) (program : Program) (depth : ℕ) (exprs : Exprs) {S : Type 0}
    → List Slice
    → List Resolved
    → List EnvBind
    → Option (Steps S)
    → Harness
    → (from : ℕ) → (upto : Option ℕ) → Frame × S
    → Run (Frame × S)
fold evals program depth exprs slices rs envelope steps h from upto at =
    fold_with (evals exprs) program (replay evals program h depth) slices rs envelope steps h from
      upto at

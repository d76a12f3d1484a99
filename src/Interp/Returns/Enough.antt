-- ===== src/Interp/Returns/Enough.antt =====
-- src/interp.rs: the fuel that a body of a checked program needs.
use heklang.Base.{
  ℕ, zero, suc, ◌+◌, ◌≤◌, ◌≡◌, Option, none, some, List, [], ◌∷◌, length, get_elem?, Option-cases,
  inl, inr, arith, sym, All, Bool-cases,
}
use heklang.Base.Text.{text_eq}
use heklang.Ir.{Ident, Ty}
use heklang.Ir.Exprs.{Expr, ExprId, Exprs, Block}
use heklang.Ir.Program.{Program, Function, Param, Effect, named, function_in}
use heklang.Value.{Value}
use heklang.Interp.Errors.{malformed_ir, unknown_function, failed}
use heklang.Interp.Coerce.{fitted}
use heklang.Interp.Methods.Strings.{Library}
use heklang.Interp.Frames.{Frame, new_frame}
use heklang.Interp.Exec.{Ret, Flow, next, returned, Sink, pure}
use heklang.Interp.Run.{
  eval, enter_function, exec, call_function, call_void, call_def, bind_args, same_count, value_of,
  void_of, left_body,
}
use heklang.Interp.Returns.{
  Returns, Returns-done, Returns-fails, Returns-result, Returns-option, Returns->>=, CallBelow,
  NodeBelow, BlockBelow, OrderedFrom, IsOrdered,
}
use heklang.Interp.Returns.Operands.{set-Returns}
use heklang.Interp.Returns.Nodes.{eval_node-Returns}
use heklang.Interp.Returns.Bodies.{exec_block-Returns}

bind_args-Returns : (ps : List Param) (vs : List Value) (fr : Frame) → Returns (bind_args ps vs fr)
unfolding bind_args
bind_args-Returns [] [] fr = Returns-done fr
bind_args-Returns [] (v ∷ vs) fr = Returns-fails malformed_ir
bind_args-Returns (p ∷ ps) [] fr = Returns-fails malformed_ir
bind_args-Returns (p ∷ ps) (v ∷ vs) fr =
    Returns->>= _ (Returns-result (fitted v (Param.ty p)))
      (λ w. Returns->>= _ (set-Returns fr (Param.slot p) w) (λ fr₁. bind_args-Returns ps vs fr₁))

same_count-Returns : (ps : List Param) (vs : List Value) → Returns (same_count ps vs)
unfolding same_count
same_count-Returns [] [] = Returns-done tt
same_count-Returns [] (v ∷ vs) = Returns-fails malformed_ir
same_count-Returns (p ∷ ps) [] = Returns-fails malformed_ir
same_count-Returns (p ∷ ps) (v ∷ vs) = same_count-Returns ps vs

left_body-Returns : (flow : Flow) (fr : Frame) (sk : Sink) → Returns (left_body (flow, fr, sk))
unfolding left_body
left_body-Returns next fr sk = Returns-done next
left_body-Returns (returned (Ret.fail message)) fr sk = Returns-fails (failed message)
left_body-Returns (returned r) fr sk = Returns-done (returned r)

value_of-Returns : (ret : Ty) (flow : Flow) → Returns (value_of ret flow)
unfolding value_of
value_of-Returns ret (returned (Ret.value v)) = Returns-result (fitted v ret)
value_of-Returns ret flow = Returns-fails malformed_ir

void_of-Returns : (flow : Flow) → Returns (void_of flow)
unfolding void_of
void_of-Returns next = Returns-done tt
void_of-Returns (returned Ret.ok) = Returns-done tt
void_of-Returns flow = Returns-fails malformed_ir

-- The fuel for a function of a height, over a bound on the nodes of each function.
abbrev pub needed : (bound height : ℕ) → ℕ
needed bound zero = 0
needed bound (suc h) = needed bound h + bound + 2

needed_mono : (bound h k : ℕ) → h ≤ k → needed bound h ≤ needed bound k
needed_mono bound zero k le = omega arith
needed_mono bound (suc h) zero le = absurd (omega arith)
needed_mono bound (suc h) (suc k) le = omega (arith, needed_mono bound h k (omega arith))

module _ (program : Program) (height : Function → ℕ) (h : ℕ) where
  node_at_place :
      (place : ℕ) (es : Exprs)
      → OrderedFrom program height h place es
      → (i : ℕ) (e : Expr) → get_elem? es i ≡ some e
      → NodeBelow program height (i + place) h e
  node_at_place place [] ordered i e p = absurd cc
  node_at_place place (x ∷ es) (below, ordered) zero e p =
      let q : x ≡ e = cc in let z : 0 + place ≡ place = omega arith in rw (z, sym q) below
  node_at_place place (x ∷ es) (below, ordered) (suc i) e p =
      let z : suc i + place ≡ i + suc place = omega arith in
      rw z (node_at_place (suc place) es ordered i e p)

  pub node_at :
      (es : Exprs)
      → IsOrdered program height h es
      → (i : ℕ) (e : Expr) → get_elem? es i ≡ some e
      → NodeBelow program height i h e
  node_at es ordered i e p =
      let z : i + 0 ≡ i = omega arith in rw (sym z) (node_at_place 0 es ordered i e p)

none_is_none : {A : Type 0} {a : A} → none ≡ some a → ⊥
none_is_none p = cc

module _ {A : Type 0} (P : A → Type 0) (name_of : A → Ident) (name : Ident) where
  named_all : (xs : List A) (x : A) → All P xs → named name_of name xs ≡ some x → P x
  unfolding named
  named_all [] x ps e = absurd cc
  named_all (y ∷ xs) x (p, ps) e = elim (Bool-cases (text_eq (name_of y) name)) [
    | inl h ↦ let q : some y ≡ some x = rw h at e in let r : y ≡ x = cc in rw (sym r) p
    | inr h ↦ named_all xs x ps (rw h at e)
  ]

module _ (program : Program) (height : Function → ℕ) (bound : ℕ) where
  -- A function whose nodes name earlier nodes, and whose calls go to functions of a lesser height.
  abbrev pub IsLayered : Function → Type 0
  IsLayered def =
      IsOrdered program height (height def) (Function.exprs def)
      × BlockBelow program height (length (Function.exprs def)) (height def) (Function.body def)
      × (length (Function.exprs def) ≤ bound)

  abbrev pub AllLayered : Type 0
  AllLayered =
      All IsLayered (Program.functions program)
      × All (λ e. All IsLayered (Effect.functions e)) (Program.effects program)

  found-IsLayered :
      AllLayered
      → (function : Ident) (scope : Option Ident) (def : Function)
      → function_in program scope function ≡ some def
      → IsLayered def
  unfolding function_in
  found-IsLayered (fs, es) function none def p =
      named_all IsLayered Function.name function (Program.functions program) def fs p
  found-IsLayered (fs, es) function (some effect) def p =
      elim (Option-cases (named Effect.name effect (Program.effects program))) [
        | inl h ↦ absurd (none_is_none (rw (h, function_in) at p))
        | inr (e, h) ↦
            named_all IsLayered Function.name function (Effect.functions e) def
              (named_all (λ e. All IsLayered (Effect.functions e)) Effect.name effect
                (Program.effects program) e es h)
              (rw (h, function_in) at p)
      ]

module _ (lib : Library) (program : Program) (height : Function → ℕ) (bound : ℕ)
    (layered : AllLayered program height bound) where
  call-Returns :
      (f h : ℕ)
      → ((def : Function)
          → IsLayered program height bound def
          → needed bound (suc (height def)) ≤ f
          → (vs : List Value) → Returns (enter_function lib program f def vs))
      → needed bound h ≤ f
      → (function : Ident) (scope : Option Ident) → CallBelow program height h function scope
      → (vs : List Value)
      → Returns (call_function program (enter_function lib program f) function scope vs)
  unfolding call_function call_def
  call-Returns f h enters le function scope below vs =
      elim (Option-cases (function_in program scope function)) [
        | inl e ↦ rw e (Returns-fails (unknown_function function))
        | inr (def, p) ↦ rw p (
            Returns->>= _ (Returns-option (Function.ret def) malformed_ir) (λ ret.
              Returns->>= _
                (enters def (found-IsLayered program height bound layered function scope def p)
                  (omega
                    (arith, needed_mono bound (suc (height def)) h (omega (arith, below def p))))
                  vs)
                (λ flow. value_of-Returns ret flow)))
      ]

  void-Returns :
      (f h : ℕ)
      → ((def : Function)
          → IsLayered program height bound def
          → needed bound (suc (height def)) ≤ f
          → (vs : List Value) → Returns (enter_function lib program f def vs))
      → needed bound h ≤ f
      → (function : Ident) (scope : Option Ident) → CallBelow program height h function scope
      → (vs : List Value)
      → Returns (call_void program (enter_function lib program f) function scope vs)
  unfolding call_void
  void-Returns f h enters le function scope below vs =
      elim (Option-cases (function_in program scope function)) [
        | inl e ↦ rw e (Returns-fails (unknown_function function))
        | inr (def, p) ↦ rw p (
            Returns->>= _
              (enters def (found-IsLayered program height bound layered function scope def p)
                (omega (arith, needed_mono bound (suc (height def)) h (omega (arith, below def p))))
                vs)
              (λ flow. void_of-Returns flow))
      ]

  mutual
    unfolding eval enter_function

    eval-Returns :
        (f h : ℕ) (es : Exprs)
        → IsOrdered program height h es
        → (id : ExprId) → id + 1 + needed bound h ≤ f
        → (fr : Frame) → Returns (eval lib program f es id fr)
    eval-Returns zero h es ordered id le fr = absurd (omega arith)
    eval-Returns (suc f) h es ordered id le fr = elim (Option-cases (get_elem? es id)) [
      | inl e ↦ rw e (Returns-fails malformed_ir)
      | inr (e, p) ↦ rw p (
          eval_node-Returns id (eval lib program f es)
            (λ child lt fr₁. eval-Returns f h es ordered child (omega arith) fr₁) lib program height
            h (call_function program (enter_function lib program f))
            (λ function scope below vs.
              call-Returns f h (λ def l le vs. enter-Returns f def l le vs) (omega arith) function
                scope below vs)
            e (node_at program height h es ordered id e p) fr)
    ]

    enter-Returns :
        (f : ℕ) (def : Function)
        → IsLayered program height bound def
        → needed bound (suc (height def)) ≤ f
        → (vs : List Value) → Returns (enter_function lib program f def vs)
    enter-Returns zero def l le vs = absurd (omega arith)
    enter-Returns (suc f) def (ordered, body, small) le vs =
        Returns->>= _ (same_count-Returns (Function.params def) vs) (λ u.
          Returns->>= _
            (bind_args-Returns (Function.params def) vs (new_frame (Function.frame def)))
            (λ fr.
              Returns->>= _
                (exec_block-Returns (length (Function.exprs def))
                  (eval lib program f (Function.exprs def))
                  (λ id lt fr₁.
                    eval-Returns f (height def) (Function.exprs def) ordered id (omega arith) fr₁)
                  program height (height def) (call_void program (enter_function lib program f))
                  (λ function scope below vs.
                    void-Returns f (height def) (λ d l le vs. enter-Returns f d l le vs)
                      (omega arith) function scope below vs)
                  (Function.body def) body fr pure)
                (λ (flow, fr₁, sk). left_body-Returns flow fr₁ sk)))

  -- A body whose nodes name earlier nodes and whose calls go to functions of a height below `h`
  -- answers a flow or an error, and does not run out of fuel, with one unit for each of its nodes
  -- and, for each height below `h`, two more than a bound on the nodes of every function, where
  -- every function of the program names earlier nodes and calls functions of a lesser height.
  pub exec-Returns :
      (f h : ℕ) (es : Exprs) (b : Block)
      → IsOrdered program height h es
      → BlockBelow program height (length es) h b
      → length es + needed bound h ≤ f
      → (fr : Frame) (sk : Sink) → Returns (exec lib program f es b fr sk)
  unfolding exec
  exec-Returns f h es b ordered below le fr sk =
      exec_block-Returns (length es) (eval lib program f es)
        (λ id lt fr₁. eval-Returns f h es ordered id (omega arith) fr₁) program height h
        (call_void program (enter_function lib program f))
        (λ function scope below vs.
          void-Returns f h (λ d l le vs. enter-Returns f d l le vs) (omega arith) function scope
            below vs)
        b below fr sk

-- ===== src/Interp/Relocate/Frames.antt =====
-- src/interp.rs: slots and nodes that stand between others.
use native.Mathlib.Numerals.{unary_clauses}
use heklang.Base.{
  ℕ, zero, suc, ◌+◌, ◌≡◌, refl, inl, inr, List, [], ◌∷◌, ◌++◌, none, some, length, get_elem?,
  Option-cases,
}
use heklang.Value.{Value}
use heklang.Interp.Errors.{malformed_ir, unset_slot}
use heklang.Interp.Frames.{Frame, set, read_slot, read_cell}
use heklang.Interp.Relocate.{
  Follows, Follows->>=, Follows-map, Follows-done, Follows-broken, unmoved,
}

module _ {ℓ} {A : Type ℓ} where
  pub get_elem?-append :
      (before xs : List A) (i : ℕ) → get_elem? (before ++ xs) (i + length before) ≡ get_elem? xs i
  get_elem?-append [] xs i = simp unary_clauses refl
  get_elem?-append (x ∷ before) xs i = simp unary_clauses (get_elem?-append before xs i)

  pub get_elem?-front :
      (xs after : List A) (i : ℕ) (x : A)
      → get_elem? xs i ≡ some x
      → get_elem? (xs ++ after) i ≡ some x
  get_elem?-front [] after i x h = absurd cc
  get_elem?-front (y ∷ xs) after zero x h = h
  get_elem?-front (y ∷ xs) after (suc i) x h = get_elem?-front xs after i x h

module _ (before after : Frame) where
  abbrev pub between : Frame → Frame
  between fr = before ++ (fr ++ after)

  set-front :
      (fr : Frame) (slot : ℕ) (v : Value)
      → Follows (λ f. f ++ after) (set (fr ++ after) slot v) (set fr slot v)
  unfolding set
  set-front [] slot v = Follows-broken (set after slot v) malformed_ir refl
  set-front (c ∷ fr) zero v = Follows-done (some v ∷ fr)
  set-front (c ∷ fr) (suc slot) v =
      Follows->>= _ _ (set-front fr slot v) (λ f. Follows-done (c ∷ f))

  set-behind :
      (pre fr : Frame) (slot : ℕ) (v : Value)
      → Follows
          (λ f. pre ++ (f ++ after))
          (set (pre ++ (fr ++ after)) (slot + length pre) v)
          (set fr slot v)
  unfolding set
  set-behind [] fr slot v = simp unary_clauses (set-front fr slot v)
  set-behind (c ∷ pre) fr slot v = simp unary_clauses (
      Follows-map (λ f. pre ++ (f ++ after)) (λ f. c ∷ f)
        (set (pre ++ (fr ++ after)) (slot + length pre) v) (set fr slot v)
        (set-behind pre fr slot v))

  pub set-between :
      (fr : Frame) (slot : ℕ) (v : Value)
      → Follows between (set (between fr) (slot + length before) v) (set fr slot v)
  set-between fr slot v = set-behind before fr slot v

  pub read_slot-between :
      (fr : Frame) (slot : ℕ)
      → Follows unmoved (read_slot (between fr) (slot + length before)) (read_slot fr slot)
  unfolding read_slot read_cell
  read_slot-between fr slot =
      rw (get_elem?-append before (fr ++ after) slot) (elim (Option-cases (get_elem? fr slot)) [
        | inl h ↦ rw h (
            Follows-broken (read_cell (slot + length before) (get_elem? (fr ++ after) slot))
              malformed_ir refl)
        | inr (none, h) ↦ rw h (
            Follows-broken (read_cell (slot + length before) (get_elem? (fr ++ after) slot))
              (unset_slot slot) refl)
        | inr (some v, h) ↦ rw (get_elem?-front fr after slot (some v) h, h) (Follows-done v)
      ])

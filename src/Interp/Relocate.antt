-- ===== src/Interp/Relocate.antt =====
-- Two runs side by side: a body where it was written, and the same body moved behind other nodes and
-- other slots. The lemmas are about src/interp.rs and src/inline.rs.
pub mod Frames
pub mod Exprs
pub mod Nodes
pub mod Stmts
pub mod Zero
pub mod Fuel
pub mod Splice
use heklang.Base.{Bool, true, false, ◌≡◌, refl, ◌⊎◌, inl, inr, Option, none, some}
use heklang.Interp.Errors.{ErrorKind, malformed_ir, unset_slot}
use heklang.Interp.Frames.{Run, done, fails, spent, ◌>>=◌}

-- What no checked program reaches: a slot or a node that is not there, and a slot that is not set.
abbrev pub broken : ErrorKind → Bool
broken malformed_ir = true
broken (unset_slot slot) = true
broken e = false

abbrev pub Matches {ℓ κ} : {A : Type ℓ} {B : Type κ} → (B → A) → Run A → Run B → Type ℓ
Matches move r (done b) = r ≡ done (move b)
Matches move r (fails e) = (broken e ≡ true) ⊎ (r ≡ fails e)
Matches move r spent = Unit

-- The left run answers what the right one does, moved, unless the right one is out of fuel or is
-- broken by itself.
pub record Follows {ℓ κ} {A : Type ℓ} {B : Type κ} (move : B → A) (r : Run A) (s : Run B)
    : Type ℓ where
  pub agrees : Matches move r s

-- The same answer on both sides.
abbrev pub unmoved {ℓ} : {A : Type ℓ} → A → A
unmoved a = a

module _ {ℓ κ} {A : Type ℓ} {B : Type κ} {move : B → A} where
  pub Follows-done : (b : B) → Follows move (done (move b)) (done b)
  Follows-done b = record { agrees = refl }

  pub Follows-fails : (e : ErrorKind) → Follows move (fails e) (fails e)
  Follows-fails e = record { agrees = inr refl }

  pub Follows-broken : (r : Run A) (e : ErrorKind) → broken e ≡ true → Follows move r (fails e)
  Follows-broken r e h = record { agrees = inl h }

pub Follows-same {ℓ} : {A : Type ℓ} (r : Run A) → Follows unmoved r r
Follows-same (done a) = record { agrees = refl }
Follows-same (fails e) = record { agrees = inr refl }
Follows-same spent = record { agrees = tt }

module _ {ℓ κ μ ν} {A : Type ℓ} {B : Type κ} {C : Type μ} {D : Type ν} where
  Matches->>= :
      (move : B → A) (next : D → C) (k : A → Run C) (k₀ : B → Run D) (r : Run A) (s : Run B)
      → Matches move r s
      → ((b : B) → Follows next (k (move b)) (k₀ b))
      → Matches next (r >>= k) (s >>= k₀)
  Matches->>= move next k k₀ r (done b) h step = rw h (Follows.agrees (step b))
  Matches->>= move next k k₀ r (fails e) (inl m) step = inl m
  Matches->>= move next k k₀ r (fails e) (inr h) step = inr (rw h refl)
  Matches->>= move next k k₀ r spent h step = tt

  pub Follows->>= :
      {move : B → A} {next : D → C} {r : Run A} {s : Run B} (k : A → Run C) (k₀ : B → Run D)
      → Follows move r s
      → ((b : B) → Follows next (k (move b)) (k₀ b))
      → Follows next (r >>= k) (s >>= k₀)
  Follows->>= {move = move} {next = next} {r = r} {s = s} k k₀ h step = record {
    agrees = Matches->>= move next k k₀ r s (Follows.agrees h) step;
  }

-- The same run first on both sides.
pub same->>= {ℓ μ ν} :
    {A : Type ℓ} {C : Type μ} {D : Type ν} {next : D → C} (k : A → Run C) (k₀ : A → Run D)
    (r : Run A)
    → ((a : A) → Follows next (k a) (k₀ a))
    → Follows next (r >>= k) (r >>= k₀)
same->>= k k₀ r step = Follows->>= k k₀ (Follows-same r) step

module _ {ℓ κ μ} {A : Type ℓ} {B : Type κ} {C : Type μ} (move : B → A) (g : A → C) where
  Matches-map :
      (r : Run A) (s : Run B)
      → Matches move r s
      → Matches (λ b. g (move b)) (r >>= λ a. done (g a)) s
  Matches-map r (done b) h = rw h refl
  Matches-map r (fails e) (inl m) = inl m
  Matches-map r (fails e) (inr h) = inr (rw h refl)
  Matches-map r spent h = tt

  pub Follows-map :
      (r : Run A) (s : Run B)
      → Follows move r s
      → Follows (λ b. g (move b)) (r >>= λ a. done (g a)) s
  Follows-map r s h = record { agrees = Matches-map r s (Follows.agrees h) }

module _ {ℓ κ} {A : Type ℓ} {B : Type κ} {move : B → A} where
  pub Follows-bool :
      {t e : Run A} {t₀ e₀ : Run B} (b : Bool)
      → Follows move t t₀
      → Follows move e e₀
      → Follows move (elim b [ true ↦ t | false ↦ e ]) (elim b [ true ↦ t₀ | false ↦ e₀ ])
  Follows-bool true h g = h
  Follows-bool false h g = g

  pub Follows-option {μ} :
      {X : Type μ} {n : Run A} {n₀ : Run B} (f : X → Run A) (f₀ : X → Run B) (o : Option X)
      → Follows move n n₀
      → ((x : X) → Follows move (f x) (f₀ x))
      → Follows move (elim o [ none ↦ n | some x ↦ f x ]) (elim o [ none ↦ n₀ | some x ↦ f₀ x ])
  Follows-option f f₀ none h g = h
  Follows-option f f₀ (some x) h g = g x

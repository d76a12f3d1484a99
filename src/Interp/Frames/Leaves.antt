-- ===== src/Interp/Frames/Leaves.antt =====
-- src/interp.rs: what holds of the result of a run, where it has one.
use mathlib.Core.Path.{subst}
use heklang.Base.{◌≡◌, refl, Bool, true, false}
use heklang.Interp.Errors.{Result, ok, err}
use heklang.Interp.Frames.{Run, done, fails, spent, ◌>>=◌, from_result}

unfoldable pub Leaves {ℓ κ} : {A : Type ℓ} → (A → Type κ) → Run A → Type κ
Leaves Q (done a) = Q a
Leaves Q (fails e) = Unit
Leaves Q spent = Unit

pub Leaves-then {ℓ κ μ ν} :
    {A : Type ℓ} {B : Type κ} {Q : A → Type μ} (R : B → Type ν) (m : Run A) (f : A → Run B)
    → Leaves Q m
    → ((a : A) → Q a → Leaves R (f a))
    → Leaves R (m >>= f)
unfolding Leaves
Leaves-then R (done a) f q k = k a q
Leaves-then R (fails e) f q k = tt
Leaves-then R spent f q k = tt

pub Leaves-bind {ℓ κ ν} :
    {A : Type ℓ} {B : Type κ} (R : B → Type ν) (m : Run A) (f : A → Run B)
    → ((a : A) → Leaves R (f a))
    → Leaves R (m >>= f)
unfolding Leaves
Leaves-bind R (done a) f k = k a
Leaves-bind R (fails e) f k = tt
Leaves-bind R spent f k = tt

pub Leaves-either {ℓ κ} :
    {A : Type ℓ} (Q : A → Type κ) (m n : Run A) (b : Bool)
    → Leaves Q m
    → Leaves Q n
    → Leaves Q (elim b [ true ↦ m | false ↦ n ])
Leaves-either Q m n true l r = l
Leaves-either Q m n false l r = r

pub Leaves-result {ℓ κ} :
    {A : Type ℓ} (Q : A → Type κ) (m : Result A)
    → ((a : A) → m ≡ ok a → Q a)
    → Leaves Q (from_result m)
unfolding Leaves
Leaves-result Q (ok a) k = k a refl
Leaves-result Q (err e) k = tt

pub Leaves-done {ℓ κ} :
    {A : Type ℓ} (Q : A → Type κ) {a : A} (m : Run A) → Leaves Q m → m ≡ done a → Q a
unfolding Leaves
Leaves-done Q m l h = subst (Leaves Q) h l

-- ===== src/Interp/Frames/Binds.antt =====
-- src/interp.rs: one run behind another.
use heklang.Base.{◌≡◌, ◌⊎◌, refl, inl, inr}
use heklang.Interp.Errors.{ErrorKind}
use heklang.Interp.Frames.{Run, done, fails, spent, ◌>>=◌}

-- `m` succeeds wherever what follows it does.
pub >>=-eq-done {ℓ κ} :
    {A : Type ℓ} {B : Type κ} (m : Run A) (f : A → Run B) {b : B}
    → (m >>= f) ≡ done b
    → (a : A) × (m ≡ done a) × (f a ≡ done b)
>>=-eq-done (done a) f h = (a, refl, h)
>>=-eq-done (fails e) f h = absurd cc
>>=-eq-done spent f h = absurd cc

pub bind_ext {ℓ κ} :
    {A : Type ℓ} {B : Type κ} (m : Run A) (f g : A → Run B)
    → ((a : A) → f a ≡ g a)
    → (m >>= f) ≡ (m >>= g)
bind_ext (done a) f g h = h a
bind_ext (fails e) f g h = refl
bind_ext spent f g h = refl

pub bind-done {ℓ} : {A : Type ℓ} (m : Run A) → (m >>= λ a. done a) ≡ m
bind-done (done a) = refl
bind-done (fails e) = refl
bind-done spent = refl

pub Run-cases {ℓ} :
    {A : Type ℓ} (m : Run A)
    → ((a : A) × (m ≡ done a)) ⊎ ((e : ErrorKind) × (m ≡ fails e)) ⊎ (m ≡ spent)
Run-cases (done a) = inl (a, refl)
Run-cases (fails e) = inr (inl (e, refl))
Run-cases spent = inr (inr refl)

pub done-inj {ℓ} : {A : Type ℓ} {a b : A} → done a ≡ done b → a ≡ b
done-inj h = cc

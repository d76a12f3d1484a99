-- ===== src/Value/Keys.antt =====
-- src/value.rs: which values are keys.
use heklang.Base.{◌≡◌, refl, ◌↔◌, Bool, true, false, Option, none, some, arith}
use heklang.Value.{Value, Key, ty, from_value, from_key, key_ty, can_key}

abbrev pub is_some {ℓ} : {A : Type ℓ} → Option A → Bool
is_some none = false
is_some (some a) = true

-- A key survives the trip through a value, with its type.
pub from_value-from_key :
    (k : Key) → (from_value (from_key k) ≡ some k) × (ty (from_key k) ≡ key_ty k)
unfolding from_value from_key ty key_ty
from_value-from_key (Key.int n) = (refl, refl)
from_value-from_key k = (refl, refl)

-- `from_value` gives a key of a value just when the value is the one that `from_key` makes of it.
pub from_value-eq-some_iff : (v : Value) (k : Key) → (from_value v ≡ some k) ↔ (v ≡ from_key k)
unfolding from_value from_key
from_value-eq-some_iff v k = ground arith

-- `can_key` holds of a value's type just when `from_value` gives a key of the value.
pub can_key_iff : (v : Value) → can_key (ty v) ≡ is_some (from_value v)
unfolding can_key ty from_value
can_key_iff (Value.int n) = refl
can_key_iff v = refl

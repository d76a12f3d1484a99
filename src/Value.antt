-- ===== src/Value.antt =====
-- src/value.rs: values, their types, keys and events. A `BTreeMap` is the list of its entries in key
-- order, and an absent and a present optional are two constructors.
pub mod Fits
pub mod Keys
pub mod Maps
pub mod Render
pub mod Calendar
pub mod Numbers
pub mod Zero
pub mod Shown
use native.Mathlib.Decide.{ℕ_discrete}
use heklang.Base.{
  ℕ, ◌≡◌, refl, Bool, true, false, ◌&&◌, Option, none, some, List, [], ◌∷◌, same, if◌then◌else◌,
}
use heklang.Base.Int.{ℤ, ℤ-discrete}
use heklang.Base.Text.{Text, text_eq}
use heklang.Scaled.{Rounding}
use heklang.Ir
use heklang.Ir.{Ident, EventPath, Ty, ty_eq, same_unsealed, as_scalar}

mutual
  pub data Json : Type 0 where
    null : Json
    bool : Bool → Json
    num str : Text → Json
    arr : Items → Json
    obj : Members → Json
    secret : (plain redacted : Text) → Json

  pub data Items : Type 0 where
    no_items : Items
    item : Json → Items → Items

  pub data Members : Type 0 where
    no_members : Members
    member : Text → Json → Members → Members

pub data Invoked : Type 0 where
  succeeded : Invoked
  invalid : Text → Invoked
  reject : (code message : Text) → Invoked

-- `Key`
pub data Key : Type 0 where
  int timestamp : ℤ → Key
  str uuid : Text → Key
  enum : (ty variant : Ident) → Key

-- `Value`. `struct` is the source's `Record`, and the two parts of an `Event` stand in `event`.
mutual
  pub data Value : Type 0 where
    bool : Bool → Value
    int timestamp : ℤ → Value
    decimal money : (units : ℤ) (scale : ℕ) → Value
    str uuid : Text → Value
    enum : (ty variant : Ident) → Value
    struct : (ty : Ident) → Fields → Value
    event : EventPath → Fields → Value
    rounding : Rounding → Value
    json : Json → Value
    response : (status : ℤ) → Json → Value
    invoked : Invoked → Value
    list : (inner : Ty) → Values → Value
    map : (key value : Ty) → Entries → Value
    absent : (inner : Ty) → Value
    present : (inner : Ty) → Value → Value
    sealed : (field subject : Ident) → (id content : Text) → Value
    secret : (plain redacted : Text) → Value

  pub data Values : Type 0 where
    no_values : Values
    element : Value → Values → Values

  pub data Fields : Type 0 where
    no_fields : Fields
    field : Ident → Value → Fields → Fields

  pub data Entries : Type 0 where
    no_entries : Entries
    entry : Key → Value → Entries → Entries

unfoldable pub Value-discrete : Discrete Value
Value-discrete = hlevel (ℕ_discrete, ℤ-discrete)

-- the derived `==` on `Value`
unfoldable pub value_eq : Value → Value → Bool
value_eq a b = same Value-discrete a b

-- `Value::ty`
unfoldable pub ty : Value → Ty
ty (Value.bool b) = Ty.bool
ty (Value.int n) = Ty.int
ty (Value.decimal units scale) = Ty.decimal scale
ty (Value.str s) = Ty.string
ty (Value.uuid s) = Ty.uuid
ty (Value.timestamp micros) = Ty.timestamp
ty (Value.money units scale) = Ty.money scale
ty (Value.enum t variant) = Ty.enum t
ty (Value.struct t _) = Ty.struct t
ty (Value.event path _) = Ty.event path
ty (Value.rounding mode) = Ty.rounding
ty (Value.json j) = Ty.json
ty (Value.response status body) = Ty.response
ty (Value.invoked i) = Ty.outcome
ty (Value.list inner _) = Ty.list inner
ty (Value.map k v _) = Ty.map k v
ty (Value.absent inner) = Ty.opt inner
ty (Value.present inner v) = Ty.opt inner
ty (Value.sealed f subject id content) = Ty.sealed Ty.string subject
ty (Value.secret plain redacted) = Ty.secret

-- `Value::has_type`. The source peels the type before it matches: a clause here, since
-- `same_unsealed` in the last one peels its arguments itself.
unfoldable pub has_type : Value → Ty → Bool
has_type (Value.sealed f s id content) t = true
has_type v (Ty.sealed inner s) = has_type v inner
has_type v (Ty.subject name id) = has_type v id
has_type (Value.absent inner) (Ty.opt want) = same_unsealed inner want
has_type (Value.present inner v) (Ty.opt want) = same_unsealed inner want
has_type (Value.list inner _) (Ty.list want) = same_unsealed inner want
has_type (Value.map k v _) (Ty.map want_key want_value) =
    same_unsealed k want_key && same_unsealed v want_value
has_type (Value.enum name variant) (Ty.enum want) = text_eq name want
has_type (Value.struct name _) (Ty.struct want) = text_eq name want
has_type v t = same_unsealed (ty v) t

-- `Key::from_value`
unfoldable pub from_value : Value → Option Key
from_value (Value.int n) = some (Key.int n)
from_value (Value.str s) = some (Key.str s)
from_value (Value.uuid s) = some (Key.uuid s)
from_value (Value.timestamp micros) = some (Key.timestamp micros)
from_value (Value.enum t variant) = some (Key.enum t variant)
from_value v = none

-- `Key::ty`
unfoldable pub key_ty : Key → Ty
key_ty (Key.int n) = Ty.int
key_ty (Key.str s) = Ty.string
key_ty (Key.uuid s) = Ty.uuid
key_ty (Key.timestamp micros) = Ty.timestamp
key_ty (Key.enum t variant) = Ty.enum t

unfoldable pub from_key : Key → Value
from_key (Key.int n) = Value.int n
from_key (Key.str s) = Value.str s
from_key (Key.uuid s) = Value.uuid s
from_key (Key.timestamp micros) = Value.timestamp micros
from_key (Key.enum t variant) = Value.enum t variant

unfoldable pub keys_scalar : Ty → Bool
keys_scalar Ty.int = true
keys_scalar Ty.string = true
keys_scalar Ty.uuid = true
keys_scalar Ty.timestamp = true
keys_scalar (Ty.enum name) = true
keys_scalar t = false

unfoldable pub can_key : Ty → Bool
unfolding keys_scalar as_scalar
can_key t = keys_scalar (as_scalar t)

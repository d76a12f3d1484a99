-- ===== src/Ir/Literals.antt =====
-- src/ir.rs: literals.
use heklang.Base.{ℕ, Bool}
use heklang.Base.Int.{ℤ}
use heklang.Base.Text.{Text}
use heklang.Scaled.{Rounding}
use heklang.Ir.{Ident, Ty}

-- An absent optional and a present one are `absent` and `present`, and `struct` is the source's
-- `Record`.
mutual
  pub data Literal : Type 0 where
    bool : Bool → Literal
    int timestamp : ℤ → Literal
    decimal money : (units : ℤ) (scale : ℕ) → Literal
    str uuid json_num : Text → Literal
    absent : (inner : Ty) → Literal
    present : (inner : Ty) → Literal → Literal
    enum : (ty variant : Ident) → Literal
    rounding : Rounding → Literal
    list : (inner : Ty) → Literals → Literal
    empty_map : (key value : Ty) → Literal
    empty_json : Literal
    struct : (ty : Ident) → LiteralFields → Literal

  pub data Literals : Type 0 where
    no_literals : Literals
    literal : Literal → Literals → Literals

  pub data LiteralFields : Type 0 where
    no_literal_fields : LiteralFields
    literal_field : Ident → Literal → LiteralFields → LiteralFields

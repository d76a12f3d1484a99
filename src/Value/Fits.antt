-- ===== src/Value/Fits.antt =====
-- src/value.rs: `has_type` against its slow definition.
use heklang.Base.{◌≡◌, refl, sym, ap, ◌∙◌, true, arith}
use heklang.Base.Text.{text_eq, text_eq_iff}
use heklang.Ir.{Ident, Ty, ty_eq, ty_eq_iff, same_unsealed, peeled}
use heklang.Ir.Seals.{SubjectsScalar, IsScalar, erased, same_unsealed-erased, same_unsealed_iff}
use heklang.Value.{Value, ty, has_type}

abbrev pub IsPlain : Value → Type 0
IsPlain (Value.sealed f s id content) = ⊥
IsPlain v = Unit

same_unsealed-sealed : (a t : Ty) (s : Ident) → same_unsealed a (Ty.sealed t s) ≡ same_unsealed a t
unfolding same_unsealed peeled
same_unsealed-sealed (Ty.sealed a n) t s = same_unsealed-sealed a t s
same_unsealed-sealed a t s = refl

IsScalar-SubjectsScalar : (t : Ty) → IsScalar t → SubjectsScalar t × (erased t ≡ t)
unfolding erased
IsScalar-SubjectsScalar (Ty.opt t) h = absurd h
IsScalar-SubjectsScalar (Ty.list t) h = absurd h
IsScalar-SubjectsScalar (Ty.map k v) h = absurd h
IsScalar-SubjectsScalar (Ty.sealed t s) h = absurd h
IsScalar-SubjectsScalar (Ty.subject n t) h = absurd h
IsScalar-SubjectsScalar t h = (tt, refl)

erased-subject : (t : Ty) (n : Ident) → t ≡ erased (Ty.subject n t)
unfolding erased
erased-subject t n = refl

same_unsealed-subject :
    (a t : Ty) (n : Ident)
    → SubjectsScalar a
    → IsScalar t
    → same_unsealed a t ≡ same_unsealed a (Ty.subject n t)
same_unsealed-subject a t n ha ht =
    let (w, e) = IsScalar-SubjectsScalar t ht in
    same_unsealed-erased a t ha w
    ∙ ap (ty_eq (erased a)) (e ∙ erased-subject t n)
    ∙ sym (same_unsealed-erased a (Ty.subject n t) ha ht)

through_seal :
    (v : Value) (t : Ty) (s : Ident) → IsPlain v → has_type v (Ty.sealed t s) ≡ has_type v t
unfolding has_type
through_seal (Value.sealed _ _ _ _) t s h = absurd h
through_seal v t s h = refl

through_subject :
    (v : Value) (t : Ty) (n : Ident) → IsPlain v → has_type v (Ty.subject n t) ≡ has_type v t
unfolding has_type
through_subject (Value.sealed _ _ _ _) t n h = absurd h
through_subject v t n h = refl

abbrev IsBare : Ty → Type 0
IsBare (Ty.sealed t s) = ⊥
IsBare (Ty.subject n t) = ⊥
IsBare t = Unit

named_enum : (a b : Ident) → text_eq a b ≡ ty_eq (Ty.enum a) (Ty.enum b)
named_enum a b = ground (arith, text_eq_iff a b, ty_eq_iff (Ty.enum a) (Ty.enum b))

named_struct : (a b : Ident) → text_eq a b ≡ ty_eq (Ty.struct a) (Ty.struct b)
named_struct a b = ground (arith, text_eq_iff a b, ty_eq_iff (Ty.struct a) (Ty.struct b))

at_bare : (v : Value) (t : Ty) → IsPlain v → IsBare t → has_type v t ≡ same_unsealed (ty v) t
unfolding has_type ty same_unsealed
at_bare (Value.sealed _ _ _ _) t h b = absurd h
at_bare (Value.enum a _) (Ty.enum c) h b = named_enum a c
at_bare (Value.struct a _) (Ty.struct c) h b = named_struct a c
at_bare v (Ty.sealed t s) h b = absurd b
at_bare v (Ty.subject n t) h b = absurd b
at_bare v t h b = refl

-- A value that is no seal fits a type just when `same_unsealed` holds of its own type and that type,
-- provided that subjects' ids are scalars: every branch of `has_type` agrees with the last one.
pub has_type-same_unsealed :
    (v : Value) (t : Ty)
    → IsPlain v
    → SubjectsScalar (ty v)
    → SubjectsScalar t
    → has_type v t ≡ same_unsealed (ty v) t
has_type-same_unsealed v (Ty.sealed t s) h hv ht =
    through_seal v t s h
    ∙ has_type-same_unsealed v t h hv ht
    ∙ sym (same_unsealed-sealed (ty v) t s)
has_type-same_unsealed v (Ty.subject n t) h hv ht =
    through_subject v t n h
    ∙ has_type-same_unsealed v t h hv (IsScalar-SubjectsScalar t ht).0
    ∙ same_unsealed-subject (ty v) t n hv ht
has_type-same_unsealed v t h hv ht = at_bare v t h tt

-- A value whose type's subjects have scalar ids fits its own type.
pub has_type_self : (v : Value) → SubjectsScalar (ty v) → has_type v (ty v) ≡ true
unfolding has_type
has_type_self (Value.sealed _ _ _ _) h = refl
has_type_self v h =
    has_type-same_unsealed v (ty v) tt h h ∙ (same_unsealed_iff (ty v) (ty v) h h).1 refl

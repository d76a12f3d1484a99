-- ===== src/Ir/Seals.antt =====
-- src/ir.rs: `same_unsealed` against the equality of types without seals and subjects.
use mathlib.Core.Path.{subst}
use heklang.Base.{◌≡◌, refl, ap, sym, ◌∙◌, ◌↔◌, Bool, true, false, ◌&&◌, arith}
use heklang.Ir.{
  Ty, subject, list, opt, map, sealed, ty_eq, ty_eq_iff, as_scalar, peeled, same_unsealed,
}

-- The type with every seal removed and every subject replaced by the scalar of its ids, at any
-- depth.
unfoldable pub erased : Ty → Ty
erased (sealed inner s) = erased inner
erased (subject name id) = id
erased (opt inner) = opt (erased inner)
erased (list inner) = list (erased inner)
erased (map key value) = map (erased key) (erased value)
erased other = other

-- A subject's ids are of a scalar type: no container, seal or subject.
abbrev pub IsScalar : Ty → Type 0
IsScalar (opt t) = ⊥
IsScalar (list t) = ⊥
IsScalar (map k v) = ⊥
IsScalar (sealed t s) = ⊥
IsScalar (subject n t) = ⊥
IsScalar t = Unit

abbrev pub SubjectsScalar : Ty → Type 0
SubjectsScalar (opt t) = SubjectsScalar t
SubjectsScalar (list t) = SubjectsScalar t
SubjectsScalar (map k v) = SubjectsScalar k × SubjectsScalar v
SubjectsScalar (sealed t s) = SubjectsScalar t
SubjectsScalar (subject n t) = IsScalar t
SubjectsScalar t = Unit

erased-peeled : (t : Ty) → erased (peeled t) ≡ erased t
unfolding erased peeled
erased-peeled (sealed t s) = erased-peeled t
erased-peeled t = refl

peeled-SubjectsScalar : (t : Ty) → SubjectsScalar t → SubjectsScalar (peeled t)
unfolding peeled
peeled-SubjectsScalar (sealed t s) h = peeled-SubjectsScalar t h
peeled-SubjectsScalar t h = h

-- A type with no seal at its head.
abbrev IsBare : Ty → Type 0
IsBare (sealed t s) = ⊥
IsBare t = Unit

peeled-IsBare : (t : Ty) → IsBare (peeled t)
unfolding peeled
peeled-IsBare (sealed t s) = peeled-IsBare t
peeled-IsBare t = tt

Bool-ext : (b c : Bool) → (b ≡ true → c ≡ true) → (c ≡ true → b ≡ true) → b ≡ c
Bool-ext true c f g = sym (f refl)
Bool-ext false true f g = g refl
Bool-ext false false f g = refl

ty_eq-ext : (a b c d : Ty) → (a ≡ b → c ≡ d) → (c ≡ d → a ≡ b) → ty_eq a b ≡ ty_eq c d
ty_eq-ext a b c d f g =
    Bool-ext (ty_eq a b) (ty_eq c d) (λ e. (ty_eq_iff c d).1 (f ((ty_eq_iff a b).0 e)))
      (λ e. (ty_eq_iff a b).1 (g ((ty_eq_iff c d).0 e)))

both_differ : (a b c d : Ty) → ¬ (a ≡ b) → ¬ (c ≡ d) → ty_eq a b ≡ ty_eq c d
both_differ a b c d f g = ty_eq-ext a b c d (λ e. absurd (f e)) (λ e. absurd (g e))

-- No scalar is equal to a container.
scalar-erased :
    (x p : Ty)
    → IsScalar x
    → IsBare p
    → SubjectsScalar p
    → ty_eq x (as_scalar p) ≡ ty_eq x (erased p)
unfolding as_scalar erased
scalar-erased x (opt t) h b s =
    both_differ _ _ _ _ (λ e. (subst IsScalar e h)) (λ e. (subst IsScalar e h))
scalar-erased x (list t) h b s =
    both_differ _ _ _ _ (λ e. (subst IsScalar e h)) (λ e. (subst IsScalar e h))
scalar-erased x (map k v) h b s =
    both_differ _ _ _ _ (λ e. (subst IsScalar e h)) (λ e. (subst IsScalar e h))
scalar-erased x (sealed t n) h b s = absurd b
scalar-erased x p h b s = refl

-- The heads of two containers.
abbrev IsOpt : Ty → Type 0
IsOpt (opt t) = Unit
IsOpt t = ⊥

IsScalar-not_opt : (x : Ty) → IsScalar x → IsOpt x → ⊥
IsScalar-not_opt (opt t) h o = h
IsScalar-not_opt x h o = o

opt-erased :
    (one p : Ty)
    → IsBare p
    → SubjectsScalar p
    → ((b : Ty) → SubjectsScalar b → same_unsealed one b ≡ ty_eq (erased one) (erased b))
    → (elim p [ opt two ↦ same_unsealed one two | two ↦ ty_eq (opt one) (as_scalar two) ])
      ≡ ty_eq (opt (erased one)) (erased p)
unfolding as_scalar erased
opt-erased one (opt two) b s ih = ih two s ∙ ty_eq-ext _ _ _ _ (ap opt) (λ e. cc)
opt-erased one (subject n t) b s ih =
    both_differ _ _ _ _ (λ e. (IsScalar-not_opt t s (subst IsOpt e tt)))
      (λ e. (IsScalar-not_opt t s (subst IsOpt e tt)))
opt-erased one (sealed t n) b s ih = absurd b
opt-erased one p b s ih = both_differ _ _ _ _ (λ e. cc) (λ e. cc)

abbrev IsList : Ty → Type 0
IsList (list t) = Unit
IsList t = ⊥

IsScalar-not_list : (x : Ty) → IsScalar x → IsList x → ⊥
IsScalar-not_list (list t) h o = h
IsScalar-not_list x h o = o

list-erased :
    (one p : Ty)
    → IsBare p
    → SubjectsScalar p
    → ((b : Ty) → SubjectsScalar b → same_unsealed one b ≡ ty_eq (erased one) (erased b))
    → (elim p [ list two ↦ same_unsealed one two | two ↦ ty_eq (list one) (as_scalar two) ])
      ≡ ty_eq (list (erased one)) (erased p)
unfolding as_scalar erased
list-erased one (list two) b s ih = ih two s ∙ ty_eq-ext _ _ _ _ (ap list) (λ e. cc)
list-erased one (subject n t) b s ih =
    both_differ _ _ _ _ (λ e. (IsScalar-not_list t s (subst IsList e tt)))
      (λ e. (IsScalar-not_list t s (subst IsList e tt)))
list-erased one (sealed t n) b s ih = absurd b
list-erased one p b s ih = both_differ _ _ _ _ (λ e. cc) (λ e. cc)

abbrev IsMap : Ty → Type 0
IsMap (map k v) = Unit
IsMap t = ⊥

IsScalar-not_map : (x : Ty) → IsScalar x → IsMap x → ⊥
IsScalar-not_map (map k v) h o = h
IsScalar-not_map x h o = o

ty_eq-map : (k v k' v' : Ty) → (ty_eq k k' && ty_eq v v') ≡ ty_eq (map k v) (map k' v')
ty_eq-map k v k' v' =
    ground (arith, ty_eq_iff k k', ty_eq_iff v v', ty_eq_iff (map k v) (map k' v'))

map-erased :
    (k v p : Ty)
    → IsBare p
    → SubjectsScalar p
    → ((b : Ty) → SubjectsScalar b → same_unsealed k b ≡ ty_eq (erased k) (erased b))
    → ((b : Ty) → SubjectsScalar b → same_unsealed v b ≡ ty_eq (erased v) (erased b))
    → (elim p [
      | map k' v' ↦ same_unsealed k k' && same_unsealed v v'
      | two ↦ ty_eq (map k v) (as_scalar two)
    ])
      ≡ ty_eq (map (erased k) (erased v)) (erased p)
unfolding as_scalar erased
map-erased k v (map k' v') b s ihk ihv =
    rw (ihk k' s.0, ihv v' s.1) (ty_eq-map (erased k) (erased v) (erased k') (erased v'))
map-erased k v (subject n t) b s ihk ihv =
    both_differ _ _ _ _ (λ e. (IsScalar-not_map t s (subst IsMap e tt)))
      (λ e. (IsScalar-not_map t s (subst IsMap e tt)))
map-erased k v (sealed t n) b s ihk ihv = absurd b
map-erased k v p b s ihk ihv = both_differ _ _ _ _ (λ e. cc) (λ e. cc)

at_peeled : (x b : Ty) → ty_eq x (erased (peeled b)) ≡ ty_eq x (erased b)
at_peeled x b = ap (ty_eq x) (erased-peeled b)

pub same_unsealed-erased :
    (a b : Ty)
    → SubjectsScalar a
    → SubjectsScalar b
    → same_unsealed a b ≡ ty_eq (erased a) (erased b)
unfolding same_unsealed erased
same_unsealed-erased (sealed t n) b ha hb = same_unsealed-erased t b ha hb
same_unsealed-erased (opt t) b ha hb =
    opt-erased t (peeled b) (peeled-IsBare b) (peeled-SubjectsScalar b hb)
      (λ c hc. same_unsealed-erased t c ha hc)
    ∙ at_peeled (opt (erased t)) b
same_unsealed-erased (list t) b ha hb =
    list-erased t (peeled b) (peeled-IsBare b) (peeled-SubjectsScalar b hb)
      (λ c hc. same_unsealed-erased t c ha hc)
    ∙ at_peeled (list (erased t)) b
same_unsealed-erased (map k v) b ha hb =
    map-erased k v (peeled b) (peeled-IsBare b) (peeled-SubjectsScalar b hb)
      (λ c hc. same_unsealed-erased k c ha.0 hc) (λ c hc. same_unsealed-erased v c ha.1 hc)
    ∙ at_peeled (map (erased k) (erased v)) b
same_unsealed-erased (subject n t) b ha hb =
    scalar-erased t (peeled b) ha (peeled-IsBare b) (peeled-SubjectsScalar b hb) ∙ at_peeled t b
same_unsealed-erased a b ha hb =
    scalar-erased a (peeled b) tt (peeled-IsBare b) (peeled-SubjectsScalar b hb) ∙ at_peeled a b

-- `same_unsealed` answers `true` just when the two types are equal once every seal is removed and
-- every subject is read as its scalar, provided that subjects' ids are scalars.
pub same_unsealed_iff :
    (a b : Ty)
    → SubjectsScalar a
    → SubjectsScalar b
    → (same_unsealed a b ≡ true) ↔ (erased a ≡ erased b)
same_unsealed_iff a b ha hb = rw (same_unsealed-erased a b ha hb) (ty_eq_iff (erased a) (erased b))

-- Where subjects' ids are scalars, `same_unsealed` does not depend on the order of its arguments.
pub same_unsealed_comm :
    (a b : Ty) → SubjectsScalar a → SubjectsScalar b → same_unsealed a b ≡ same_unsealed b a
same_unsealed_comm a b ha hb =
    Bool-ext _ _ (λ h. (same_unsealed_iff b a hb ha).1 (sym ((same_unsealed_iff a b ha hb).0 h)))
      (λ h. (same_unsealed_iff a b ha hb).1 (sym ((same_unsealed_iff b a hb ha).0 h)))

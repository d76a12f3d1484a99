-- ===== src/Log/Keys.antt =====
-- src/harness.rs: the life of a key.
use heklang.Base.{
  ℕ, zero, suc, ◌≡◌, ◌≢◌, refl, Bool, true, false, ◌||◌, none, some, List, any, Bool-cases,
  Option-cases, inl, inr,
}
use heklang.Base.Text.{Text, text_eq, text_eq_refl, text_eq-eq}
use heklang.Interp.Errors.{ok}
use heklang.Log.{
  Keyring, erase_subject, wrapped_in, wrapping, key_eq, gone, is_erased, decrypt, max_wrap_depth,
}
use heklang.Log.Appends.{or-true}
use heklang.Log.Reads.{any-weaken, and-parts}

key_eq_refl : (k : Text × Text) → key_eq k k ≡ true
unfolding key_eq
key_eq_refl (a, i) = rw (text_eq_refl a, text_eq_refl i) refl

false-ne-true : false ≢ true
false-ne-true p = cc

or-left : (a b : Bool) → a ≡ true → (a || b) ≡ true
or-left a b h = rw (h) refl

-- What is erased stays erased under an erase.
erase-keeps :
    (k : Keyring) (subject id : Text) (key : Text × Text)
    → any (key_eq key) (Keyring.erased k) ≡ true
    → any (key_eq key) (Keyring.erased (erase_subject k subject id)) ≡ true
unfolding erase_subject
erase-keeps k subject id key h = elim (Bool-cases (any (key_eq (subject, id)) (Keyring.erased k))) [
  | inl m ↦ rw (m) h
  | inr m ↦ rw (m, h) (or-true (key_eq key (subject, id)))
]

erase-under :
    (k : Keyring) (subject id : Text) → Keyring.under (erase_subject k subject id) ≡ Keyring.under k
unfolding erase_subject
erase-under k subject id = elim (Bool-cases (any (key_eq (subject, id)) (Keyring.erased k))) [
  | inl m ↦ rw (m) refl
  | inr m ↦ rw (m) refl
]

erased-at :
    (k : Keyring) (subject id : Text)
    → any (key_eq (subject, id)) (Keyring.erased (erase_subject k subject id)) ≡ true
unfolding erase_subject
erased-at k subject id = elim (Bool-cases (any (key_eq (subject, id)) (Keyring.erased k))) [
  | inl m ↦ rw (m) m
  | inr m ↦ rw (m, key_eq_refl (subject, id)) refl
]

gone-own :
    (k : Keyring) (left : ℕ) (key : Text × Text)
    → any (key_eq key) (Keyring.erased k) ≡ true
    → gone k left key ≡ true
unfolding gone
gone-own k zero key h = h
gone-own k (suc left) key h = or-left _ _ h

gone-erase :
    (k : Keyring) (subject id : Text) (left : ℕ) (key : Text × Text)
    → gone k left key ≡ true
    → gone (erase_subject k subject id) left key ≡ true
unfolding gone
gone-erase k subject id zero key h = erase-keeps k subject id key h
gone-erase k subject id (suc left) key h = elim (Bool-cases (any (key_eq key) (Keyring.erased k))) [
  | inl m ↦ or-left _ _ (erase-keeps k subject id key m)
  | inr m ↦ elim (Option-cases (wrapping (Keyring.under k) key)) [
    | inl n ↦ absurd (false-ne-true (rw (m, n, gone) at h))
    | inr (under, n) ↦
        let inner : any (gone k left) under ≡ true = rw (m, n, gone) at h in
        let still =
          any-weaken (gone k left) (gone (erase_subject k subject id) left) under
            (λ x. gone-erase k subject id left x) inner in
        rw (erase-under k subject id, n, still) (or-true _)
  ]
]

-- After an erase the subject that it names reads as erased, and so does any subject that read as
-- erased before it.
pub erase-is_erased :
    (k : Keyring) (subject id other key : Text)
    → is_erased k other key ≡ true
    → (is_erased (erase_subject k subject id) subject id ≡ true)
      × (is_erased (erase_subject k subject id) other key ≡ true)
unfolding is_erased
erase-is_erased k subject id other key h = (
  gone-own (erase_subject k subject id) max_wrap_depth (subject, id) (erased-at k subject id),
  gone-erase k subject id max_wrap_depth (other, key) h,
)

wrapping-wrapped_in :
    (k : Keyring) (subject id : Text) (under : List (Text × Text))
    → wrapping (Keyring.under k) (subject, id) ≡ none
    → wrapping (Keyring.under (wrapped_in k subject id under)) (subject, id) ≡ some under
unfolding wrapped_in wrapping
wrapping-wrapped_in k subject id under n =
    rw (n, key_eq_refl (subject, id), wrapped_in, wrapping) refl

wrapped_in-minted :
    (k : Keyring) (subject id : Text) (under other : List (Text × Text))
    → wrapping (Keyring.under k) (subject, id) ≡ some under
    → wrapped_in k subject id other ≡ k
unfolding wrapped_in
wrapped_in-minted k subject id under other n = rw (n, wrapped_in) refl

-- The first mint wins: after a `wrapped_in`, a second one of the same key changes nothing, whatever it
-- is to be wrapped inside.
pub wrapped_in-wrapped_in :
    (k : Keyring) (subject id : Text) (under other : List (Text × Text))
    → wrapped_in (wrapped_in k subject id under) subject id other ≡ wrapped_in k subject id under
wrapped_in-wrapped_in k subject id under other =
    let again = wrapped_in-minted (wrapped_in k subject id under) subject id in
    elim (Option-cases (wrapping (Keyring.under k) (subject, id))) [
      | inl n ↦ again under other (wrapping-wrapped_in k subject id under n)
      | inr (u, n) ↦
          rw (wrapped_in-minted k subject id u under n) (wrapped_in-minted k subject id u other n)
    ]

key_eq-eq : (a b : Text × Text) → key_eq a b ≡ true → a ≡ b
unfolding key_eq
key_eq-eq (a, i) (b, j) h =
    let (p, q) = and-parts (text_eq a b) (text_eq i j) h in
    let e : a ≡ b = text_eq-eq a b p in let f : i ≡ j = text_eq-eq i j q in cc

gone-under :
    (k : Keyring) (left : ℕ) (key : Text × Text) (under : List (Text × Text))
    → wrapping (Keyring.under k) key ≡ some under
    → any (gone k left) under ≡ true
    → gone k (suc left) key ≡ true
unfolding gone
gone-under k left key under n h = rw (n, h, gone) (or-true _)

-- When a key that was not minted yet is minted inside others and one of those is erased after that,
-- no content of the key decrypts.
pub decrypt-erase :
    (k : Keyring) (subject id : Text) (under : List (Text × Text))
    (parent name field content : Text)
    → wrapping (Keyring.under k) (subject, id) ≡ none
    → any (key_eq (parent, name)) under ≡ true
    → decrypt (erase_subject (wrapped_in k subject id under) parent name) subject id field content
      ≡ ok none
unfolding decrypt is_erased
decrypt-erase k subject id under parent name field content n m =
    let minted = wrapped_in k subject id under in
    let k' = erase_subject minted parent name in
    let stands =
      rw (← erase-under minted parent name) at (wrapping-wrapped_in k subject id under n) in
    let dead : (x : Text × Text) → key_eq (parent, name) x ≡ true → gone k' 63 x ≡ true = λ x e.
      rw (← key_eq-eq (parent, name) x e)
        (gone-own k' 63 (parent, name) (erased-at minted parent name)) in
    rw (gone-under k' 63 (subject, id) under stands (any-weaken _ (gone k' 63) under dead m)) refl

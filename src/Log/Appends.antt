-- ===== src/Log/Appends.antt =====
-- src/harness.rs and src/host.rs: what an append leaves in the log, and which appends conflict.
use heklang.Base.{
  ℕ, zero, suc, ◌+◌, ◌≤◌, ◌≡◌, ◌≢◌, ◌↔◌, refl, sym, ap, ◌∙◌, Bool, true, false, ◌||◌, some, List,
  [], ◌∷◌, ◌++◌, append_assoc, append-nil, any, length, length-append, get_elem?, leb, arith,
  Bool-cases, inl, inr,
}
use heklang.Interp.Errors.{ErrorKind, ok, err, conflict}
use heklang.Log.{
  Event, Record, stamped, Harness, push, push_all, head, record_at, append, AppendCondition,
  conflicts, beats, holds,
}

-- The events stamped for the positions from `n` on.
unfoldable pub stamped_from : ℕ → List Event → List Record
stamped_from n [] = []
stamped_from n (e ∷ es) = stamped n e ∷ stamped_from (suc n) es

-- Every record stands at its own position, `n` the first.
unfoldable pub IsPlaced : ℕ → List Record → Type 0
IsPlaced n [] = Unit
IsPlaced n (r ∷ rs) = (Record.position r ≡ n) × IsPlaced (suc n) rs

-- What `append` leaves when nothing conflicts: the records that stood, then each event stamped for
-- the position that it stands at.
pub plus_zero : (n : ℕ) → n + 0 ≡ n
plus_zero n = omega arith

pub zero_plus : (n : ℕ) → 0 + n ≡ n
zero_plus n = omega arith

plus_suc : (n m : ℕ) → n + suc m ≡ suc n + m
plus_suc n m = omega arith

suc_plus : (n m : ℕ) → suc (n + m) ≡ suc n + m
suc_plus n m = omega arith

pub push_all-records :
    (h : Harness) (es : List Event)
    → Harness.records (push_all h es)
      ≡ Harness.records h ++ stamped_from (length (Harness.records h)) es
unfolding push_all push stamped_from
push_all-records h [] = sym (append-nil (Harness.records h))
push_all-records h (e ∷ es) =
    let rs = Harness.records h in
    let n : length (rs ++ stamped (length rs) e ∷ []) ≡ suc (length rs) =
      omega (arith, length-append rs (stamped (length rs) e ∷ [])) in
    push_all-records (push h e) es
    ∙ append_assoc rs (stamped (length rs) e ∷ [])
        (stamped_from (length (Harness.records (push h e))) es)
    ∙ ap (λ k. rs ++ stamped (length rs) e ∷ stamped_from k es) n

pub stamped_from-IsPlaced : (n : ℕ) (es : List Event) → IsPlaced n (stamped_from n es)
unfolding stamped_from IsPlaced stamped
stamped_from-IsPlaced n [] = tt
stamped_from-IsPlaced n (e ∷ es) = (refl, stamped_from-IsPlaced (suc n) es)

pub IsPlaced-append :
    (n : ℕ) (rs ss : List Record)
    → IsPlaced n rs
    → IsPlaced (n + length rs) ss
    → IsPlaced n (rs ++ ss)
unfolding IsPlaced
IsPlaced-append n [] ss _ h = rw (plus_zero n) at h
IsPlaced-append n (r ∷ rs) ss (p, ps) h =
    (p, IsPlaced-append (suc n) rs ss ps (rw (plus_suc n (length rs)) at h))

pub push_all-IsPlaced :
    (h : Harness) (es : List Event)
    → IsPlaced 0 (Harness.records h)
    → IsPlaced 0 (Harness.records (push_all h es))
push_all-IsPlaced h es p =
    let rs = Harness.records h in
    rw (push_all-records h es)
      (IsPlaced-append 0 rs _ p (rw (zero_plus (length rs)) (stamped_from-IsPlaced (length rs) es)))

-- Whether an append is refused or not, a log whose records stand at their own positions is left one.
pub append-IsPlaced :
    (h : Harness) (es : List Event) (c : AppendCondition)
    → IsPlaced 0 (Harness.records h)
    → IsPlaced 0 (Harness.records (append h es c).1)
unfolding append
append-IsPlaced h es c p = elim (Bool-cases (conflicts c (Harness.records h))) [
  | inl k ↦ rw (k) p
  | inr k ↦ rw (k) (push_all-IsPlaced h es p)
]

ok-ne-err : {A : Type 0} {a : A} {e : ErrorKind} → ok a ≢ err e
ok-ne-err p = cc

-- An append is refused just when its condition conflicts with the log, and then the log is the one
-- that stood.
pub append-refused :
    (h : Harness) (es : List Event) (c : AppendCondition)
    → (append h es c ≡ (err (conflict (AppendCondition.after c)), h))
      ↔ (conflicts c (Harness.records h) ≡ true)
unfolding append
append-refused h es c = elim (Bool-cases (conflicts c (Harness.records h))) [
  | inl k ↦ (λ _. k, λ _. rw (k) refl)
  | inr k ↦ (
    λ e.
        let f : (ok tt, push_all h es) ≡ (err (conflict (AppendCondition.after c)), h) =
          rw (k) at e in
        absurd (ok-ne-err (ap (λ x. x.0) f)),
    λ m. absurd cc,
  )
]

get-append :
    {A : Type 0} (xs ys : List A) (i : ℕ) → get_elem? (xs ++ ys) (length xs + i) ≡ get_elem? ys i
get-append [] ys i = rw (zero_plus i) refl
get-append (x ∷ xs) ys i = rw (← suc_plus (length xs) i) (get-append xs ys i)

get-stamped :
    (n : ℕ) (es : List Event) (i : ℕ) (e : Event)
    → get_elem? es i ≡ some e
    → get_elem? (stamped_from n es) i ≡ some (stamped (n + i) e)
unfolding stamped_from
get-stamped n [] i e h = absurd cc
get-stamped n (x ∷ es) zero e h = rw (plus_zero n) cc
get-stamped n (x ∷ es) (suc i) e h = rw (plus_suc n i) (get-stamped (suc n) es i e h)

-- An append that does not conflict leaves its event at index `i` stamped for the position that lies
-- `i` past the old head, and readable there.
pub record_at-append :
    (h : Harness) (es : List Event) (c : AppendCondition) (i : ℕ) (e : Event)
    → conflicts c (Harness.records h) ≡ false
    → get_elem? es i ≡ some e
    → record_at (append h es c).1 (head h + i) ≡ some (stamped (head h + i) e)
unfolding append record_at head
record_at-append h es c i e k g =
    let rs = Harness.records h in
    rw (k, push_all-records h es)
      (get-append rs (stamped_from (length rs) es) i ∙ get-stamped (length rs) es i e g)

pub or-true : (b : Bool) → (b || true) ≡ true
or-true true = refl
or-true false = refl

conflicts-false :
    (c : AppendCondition) (rs : List Record) → any (beats c) rs ≡ false → conflicts c rs ≡ false
unfolding conflicts
conflicts-false c rs h = h

conflicts-true :
    (c : AppendCondition) (rs : List Record) → any (beats c) rs ≡ true → conflicts c rs ≡ true
unfolding conflicts
conflicts-true c rs h = h

beats-none :
    (n : ℕ) (c : AppendCondition) (rs : List Record)
    → IsPlaced n rs
    → n + length rs ≤ AppendCondition.after c
    → any (beats c) rs ≡ false
unfolding IsPlaced beats
beats-none n c [] _ h = refl
beats-none n c (r ∷ rs) (p, ps) h =
    let out : leb (AppendCondition.after c) (Record.position r) ≡ false = ground arith in
    rw (out) (beats-none (suc n) c rs ps (omega (arith, h)))

-- In a log whose records stand at their own positions, an append whose condition was read at the
-- head is not refused, whatever its slices are.
pub append-at-head :
    (h : Harness) (es : List Event) (c : AppendCondition)
    → IsPlaced 0 (Harness.records h)
    → head h ≤ AppendCondition.after c
    → append h es c ≡ (ok tt, push_all h es)
unfolding append head
append-at-head h es c p l =
    let rs = Harness.records h in
    let k : conflicts c rs ≡ false =
      conflicts-false c rs (beats-none 0 c rs p (omega (arith, l))) in
    rw (k) refl

any-append-right :
    {A : Type 0} (p : A → Bool) (xs ys : List A) → any p ys ≡ true → any p (xs ++ ys) ≡ true
any-append-right p [] ys h = h
any-append-right p (x ∷ xs) ys h = rw (any-append-right p xs ys h) (or-true (p x))

-- A slice of the condition holds the event.
unfoldable pub in_slices : AppendCondition → Event → Bool
in_slices c e = any (λ p. holds p e) (AppendCondition.slices c)

pub stamped_from-beats :
    (n : ℕ) (c : AppendCondition) (es : List Event)
    → AppendCondition.after c ≤ n
    → any (in_slices c) es ≡ true
    → any (beats c) (stamped_from n es) ≡ true
unfolding stamped_from beats stamped in_slices
stamped_from-beats n c [] l h = h
stamped_from-beats n c (e ∷ es) l h =
    let after : leb (AppendCondition.after c) n ≡ true = ground arith in
    elim (Bool-cases (in_slices c e)) [
      | inl k ↦ rw (after, k) refl
      | inr k ↦
          let m : any (in_slices c) es ≡ true = rw (k) at h in
          rw (after, k) (stamped_from-beats (suc n) c es (omega (arith, l)) m)
    ]

-- Of two writers that read the same log, the later one is refused: once an append has brought an
-- event that a slice of a condition holds, and the condition was read no later than the head which
-- that append met, an append under the condition fails and changes nothing.
pub append-append :
    (h : Harness) (es others : List Event) (c d : AppendCondition)
    → conflicts c (Harness.records h) ≡ false
    → AppendCondition.after d ≤ head h
    → any (in_slices d) es ≡ true
    → append (append h es c).1 others d
      ≡ (err (conflict (AppendCondition.after d)), (append h es c).1)
unfolding append head
append-append h es others c d k l m =
    let rs = Harness.records h in
    let beaten : any (beats d) (rs ++ stamped_from (length rs) es) ≡ true =
      any-append-right (beats d) rs _ (stamped_from-beats (length rs) d es l m) in
    let k' : conflicts d (Harness.records (push_all h es)) ≡ true =
      rw (push_all-records h es) (conflicts-true d _ beaten) in
    rw (k, k') refl

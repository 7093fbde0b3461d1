-- ===== src/Locks/Order.antt =====
-- The order of acquisition is strictly ascending, and holds just the requested keys.
use ts_graphql_reference.Base.{
  ◌<◌, ◌≡◌, ◌⊎◌, inl, inr, refl, Bool, true, false, ◌||◌, List, [], ◌∷◌, arith, Bool-cases, All, ap,
  ap₂, sym, subst, ◌∙◌, ||-false,
}
use ts_graphql_reference.Int.{◌<ℤ◌}
use ts_graphql_reference.Locks.{
  LockKey, same_key, has, unique_from, before, insert, to_sorted, order_locks,
}

-- The lexicographic order of the keys.
abbrev pub Before : LockKey → LockKey → Type 0
Before a b = (a.ns < b.ns) ⊎ ((a.ns ≡ b.ns) × (a.obj <ℤ b.obj))

pub Before-trans : (a b c : LockKey) → Before a b → Before b c → Before a c
Before-trans a b c h k = ground arith

pub Before-irreflexive : (a : LockKey) → ¬ Before a a
Before-irreflexive a h = ground arith

before-Before : (a b : LockKey) → before a b ≡ true → Before a b
before-Before a b h = ground arith

after-Before : (a b : LockKey) → before a b ≡ false → same_key b a ≡ false → Before b a
after-Before a b h k = ground arith

-- Each key strictly precedes all that follow it.
abbrev pub IsAscending : List LockKey → Type 0
IsAscending [] = Unit
IsAscending (k ∷ keys) = All (Before k) keys × IsAscending keys

All-insert :
    (P : LockKey → Type 0) (key : LockKey) (keys : List LockKey)
    → P key
    → All P keys
    → All P (insert key keys)
unfolding insert
All-insert P key [] p h = (p, tt)
All-insert P key (k ∷ keys) p h = elim (Bool-cases (before key k)) [
  | inl e ↦ rw e (p, h)
  | inr e ↦ rw e (h.0, All-insert P key keys p h.1)
]

All-trans :
    (a b : LockKey) (keys : List LockKey) → Before a b → All (Before b) keys → All (Before a) keys
All-trans a b [] h k = tt
All-trans a b (c ∷ keys) h k = (Before-trans a b c h k.0, All-trans a b keys h k.1)

insert-IsAscending :
    (key : LockKey) (keys : List LockKey)
    → has keys key ≡ false
    → IsAscending keys
    → IsAscending (insert key keys)
unfolding insert has
insert-IsAscending key [] n h = (tt, tt)
insert-IsAscending key (k ∷ keys) n h =
    let (e, n') = ||-false (same_key k key) (has keys key) n in
    elim (Bool-cases (before key k)) [
      | inl b ↦
          let first = before-Before key k b in rw b ((first, All-trans key k keys first h.0), h)
      | inr b ↦ rw b (
        All-insert (Before k) key keys (after-Before key k b e) h.0,
        insert-IsAscending key keys n' h.1,
      )
    ]

or_swap : (a b c : Bool) → (a || (b || c)) ≡ (b || (a || c))
or_swap a b c = ground arith

or_assoc : (a b c : Bool) → (a || (b || c)) ≡ (a || b || c)
or_assoc a b c = ground arith

pub or_true : (a : Bool) → (a || true) ≡ true
or_true a = ground arith

or_false : (a : Bool) → (a || false) ≡ a
or_false a = ground arith

same_key_trans : (a b c : LockKey) → same_key a b ≡ true → same_key b c ≡ true → same_key a c ≡ true
same_key_trans a b c h k = ground arith

has-insert :
    (key x : LockKey) (keys : List LockKey)
    → has (insert key keys) x ≡ (same_key key x || has keys x)
unfolding insert has
has-insert key x [] = refl
has-insert key x (k ∷ keys) = elim (Bool-cases (before key k)) [
  | inl b ↦ rw b
  | inr b ↦ rw b (
      ap (λ t. same_key k x || t) (has-insert key x keys)
      ∙ or_swap (same_key k x) (same_key key x) (has keys x))
]

has-same :
    (key x : LockKey) (keys : List LockKey)
    → same_key key x ≡ true
    → has keys key ≡ true
    → has keys x ≡ true
unfolding has
has-same key x [] e h = cc
has-same key x (k ∷ keys) e h = elim (Bool-cases (same_key k key)) [
  | inl t ↦ rw (same_key_trans k key x t e)
  | inr t ↦ rw (has-same key x keys e (rw t at h)) (or_true (same_key k x))
]

absorb :
    (k x : LockKey) (seen : List LockKey) (b : Bool)
    → has seen k ≡ true
    → (has seen x || b) ≡ (has seen x || (same_key k x || b))
absorb k x seen b e = elim (Bool-cases (same_key k x)) [
  | inl t ↦ rw (has-same k x seen t e)
  | inr t ↦ rw t
]

-- None of the keys is in `seen`, nor twice in the list.
abbrev IsFresh : List LockKey → List LockKey → Type 0
IsFresh seen [] = Unit
IsFresh seen (k ∷ keys) = (has seen k ≡ false) × IsFresh (k ∷ seen) keys

unique_from-IsFresh : (seen keys : List LockKey) → IsFresh seen (unique_from seen keys)
unfolding unique_from
unique_from-IsFresh seen [] = tt
unique_from-IsFresh seen (k ∷ keys) = elim (Bool-cases (has seen k)) [
  | inl e ↦ rw e (unique_from-IsFresh seen keys)
  | inr e ↦ rw e (e, unique_from-IsFresh (k ∷ seen) keys)
]

IsFresh-ext :
    (s t keys : List LockKey)
    → ((x : LockKey) → has s x ≡ has t x)
    → IsFresh s keys
    → IsFresh t keys
unfolding has
IsFresh-ext s t [] h f = tt
IsFresh-ext s t (k ∷ keys) h f =
    (sym (h k) ∙ f.0, IsFresh-ext (k ∷ s) (k ∷ t) keys (λ x. ap (λ b. same_key k x || b) (h x)) f.1)

to_sorted-IsAscending :
    (sorted keys : List LockKey)
    → IsFresh sorted keys
    → IsAscending sorted
    → IsAscending (to_sorted sorted keys)
unfolding to_sorted has
to_sorted-IsAscending sorted [] f h = h
to_sorted-IsAscending sorted (k ∷ keys) f h =
    to_sorted-IsAscending (insert k sorted) keys
      (IsFresh-ext (k ∷ sorted) (insert k sorted) keys (λ x. sym (has-insert k x sorted)) f.1)
      (insert-IsAscending k sorted f.0 h)

-- The keys are acquired in strictly ascending order, so none of them twice.
pub order_locks-IsAscending : (keys : List LockKey) → IsAscending (order_locks keys)
unfolding order_locks
order_locks-IsAscending keys =
    to_sorted-IsAscending [] (unique_from [] keys) (unique_from-IsFresh [] keys) tt

has-unique_from :
    (seen keys : List LockKey) (x : LockKey)
    → (has seen x || has (unique_from seen keys) x) ≡ (has seen x || has keys x)
unfolding unique_from has
has-unique_from seen [] x = refl
has-unique_from seen (k ∷ keys) x = elim (Bool-cases (has seen k)) [
  | inl e ↦ rw e (has-unique_from seen keys x ∙ absorb k x seen (has keys x) e)
  | inr e ↦ rw e (
      or_swap (has seen x) (same_key k x) (has (unique_from (k ∷ seen) keys) x)
      ∙ or_assoc (same_key k x) (has seen x) _
      ∙ has-unique_from (k ∷ seen) keys x
      ∙ sym (or_assoc (same_key k x) (has seen x) (has keys x))
      ∙ or_swap (same_key k x) (has seen x) (has keys x))
]

has-to_sorted :
    (sorted keys : List LockKey) (x : LockKey)
    → has (to_sorted sorted keys) x ≡ (has sorted x || has keys x)
unfolding to_sorted has
has-to_sorted sorted [] x = sym (or_false (has sorted x))
has-to_sorted sorted (k ∷ keys) x =
    has-to_sorted (insert k sorted) keys x
    ∙ ap (λ t. t || has keys x) (has-insert k x sorted)
    ∙ sym (or_assoc (same_key k x) (has sorted x) (has keys x))
    ∙ or_swap (same_key k x) (has sorted x) (has keys x)

-- Exactly the requested keys are acquired.
pub has-order_locks : (keys : List LockKey) (x : LockKey) → has (order_locks keys) x ≡ has keys x
unfolding order_locks has
has-order_locks keys x = has-to_sorted [] (unique_from [] keys) x ∙ has-unique_from [] keys x

pub same_key-eq : (a b : LockKey) → same_key a b ≡ true → a ≡ b
same_key-eq a b h = ground arith

pub same_key_refl : (a : LockKey) → same_key a a ≡ true
same_key_refl a = ground arith

-- What holds of every key holds of one that is there.
pub All-has :
    (P : LockKey → Type 0) (keys : List LockKey) (x : LockKey)
    → All P keys
    → has keys x ≡ true
    → P x
unfolding has
All-has P [] x h m = cc
All-has P (k ∷ keys) x h m = elim (Bool-cases (same_key k x)) [
  | inl e ↦ subst P (same_key-eq k x e) h.0
  | inr e ↦ All-has P keys x h.1 (rw e at m)
]

has-head : (k : LockKey) (keys : List LockKey) → has (k ∷ keys) k ≡ true
unfolding has
has-head k keys = rw (same_key_refl k)

has-tail :
    (k x : LockKey) (keys : List LockKey) → same_key k x ≡ false → has (k ∷ keys) x ≡ has keys x
unfolding has
has-tail k x keys e = rw e

-- A key that precedes all of a list is not in it.
not-has :
    (k x : LockKey) (keys : List LockKey)
    → All (Before k) keys
    → same_key k x ≡ true
    → has keys x ≡ false
not-has k x keys h e = elim (Bool-cases (has keys x)) [
  | inl m ↦ absurd (
      Before-irreflexive k
        (subst (Before k) (sym (same_key-eq k x e)) (All-has (Before k) keys x h m)))
  | inr m ↦ m
]

module _ (a b : LockKey) (xs ys : List LockKey) where
  heads_agree :
      IsAscending (a ∷ xs)
      → IsAscending (b ∷ ys)
      → ((x : LockKey) → has (a ∷ xs) x ≡ has (b ∷ ys) x)
      → a ≡ b
  heads_agree ha hb h = elim (Bool-cases (same_key b a)) [
    | inl e ↦ sym (same_key-eq b a e)
    | inr e ↦ elim (Bool-cases (same_key a b)) [
      | inl f ↦ same_key-eq a b f
      | inr f ↦
          let below =
            All-has (Before b) ys a hb.0 (sym (has-tail b a ys e) ∙ sym (h a) ∙ has-head a xs) in
          let above =
            All-has (Before a) xs b ha.0 (sym (has-tail a b xs f) ∙ h b ∙ has-head b ys) in
          absurd (Before-irreflexive a (Before-trans a b a above below))
    ]
  ]

  tails_agree :
      IsAscending (a ∷ xs)
      → IsAscending (b ∷ ys)
      → a ≡ b
      → ((x : LockKey) → has (a ∷ xs) x ≡ has (b ∷ ys) x)
      → (x : LockKey) → has xs x ≡ has ys x
  tails_agree ha hb e h x = elim (Bool-cases (same_key a x)) [
    | inl t ↦
        not-has a x xs ha.0 t ∙ sym (not-has b x ys hb.0 (subst (λ k. same_key k x ≡ true) e t))
    | inr t ↦
        sym (has-tail a x xs t) ∙ h x ∙ has-tail b x ys (subst (λ k. same_key k x ≡ false) e t)
  ]

ascending_unique :
    (xs ys : List LockKey)
    → IsAscending xs
    → IsAscending ys
    → ((x : LockKey) → has xs x ≡ has ys x)
    → xs ≡ ys
unfolding has
ascending_unique [] [] ha hb h = refl
ascending_unique [] (b ∷ ys) ha hb h = let c = h b ∙ has-head b ys in cc c
ascending_unique (a ∷ xs) [] ha hb h = let c = sym (h a) ∙ has-head a xs in cc c
ascending_unique (a ∷ xs) (b ∷ ys) ha hb h =
    let e = heads_agree a b xs ys ha hb h in
    ap₂ ◌∷◌ e (ascending_unique xs ys ha.1 hb.1 (tails_agree a b xs ys ha hb e h))

-- The order depends on which keys are requested, not on how the caller lists them.
pub order_locks-canonical :
    (xs ys : List LockKey) → ((x : LockKey) → has xs x ≡ has ys x) → order_locks xs ≡ order_locks ys
order_locks-canonical xs ys h =
    ascending_unique (order_locks xs) (order_locks ys) (order_locks-IsAscending xs)
      (order_locks-IsAscending ys) (λ x. has-order_locks xs x ∙ h x ∙ sym (has-order_locks ys x))

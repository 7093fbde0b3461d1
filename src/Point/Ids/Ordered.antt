-- ===== src/Point/Ids/Ordered.antt =====
-- Sets of identifiers: whom they have, each once, and in ascending order when they are sorted.
use ts_graphql_reference.Base.{
  ℕ, ◌<◌, ◌≡◌, refl, ap, ◌∙◌, Bool, true, false, ◌||◌, List, [], ◌∷◌, ◌++◌, ◌==◌, ltb, All, All-map,
  Bool-cases, ||-false, inl, inr, arith, ==→eq, subst,
}
use ts_graphql_reference.Point.Ids.{includes_id, add_id, add_ids, insert_id, sort_ids}

or_swap : (a b c : Bool) → (a || (b || c)) ≡ (b || (a || c))
or_swap a b c = ground arith

or_assoc : (a b c : Bool) → (a || (b || c)) ≡ (a || b || c)
or_assoc a b c = ground arith

absorbed : (a b : Bool) → (a ≡ true → b ≡ true) → b ≡ (a || b)
absorbed true b h = h refl
absorbed false b h = refl

includes_id_app :
    (i u : ℕ) (ids : List ℕ) → includes_id (ids ++ (i ∷ [])) u ≡ (i == u || includes_id ids u)
unfolding includes_id
includes_id_app i u [] = refl
includes_id_app i u (x ∷ ids) =
    ap (λ b. x == u || b) (includes_id_app i u ids) ∙ or_swap (x == u) (i == u) (includes_id ids u)

includes_id-add_id :
    (i u : ℕ) (ids : List ℕ) → includes_id (add_id i ids) u ≡ (i == u || includes_id ids u)
unfolding add_id
includes_id-add_id i u ids = elim (Bool-cases (includes_id ids i)) [
  | inl e ↦ rw e (
      absorbed (i == u) (includes_id ids u)
        λ h. subst (λ x. includes_id ids x ≡ true) (==→eq i u h) e)
  | inr e ↦ rw e (includes_id_app i u ids)
]

-- A set has what was added and what it had.
pub includes_id-add_ids :
    (u : ℕ) (more ids : List ℕ)
    → includes_id (add_ids more ids) u ≡ (includes_id more u || includes_id ids u)
unfolding add_ids includes_id
includes_id-add_ids u [] ids = refl
includes_id-add_ids u (i ∷ more) ids =
    includes_id-add_ids u more (add_id i ids)
    ∙ ap (λ b. includes_id more u || b) (includes_id-add_id i u ids)
    ∙ or_swap (includes_id more u) (i == u) (includes_id ids u)
    ∙ or_assoc (i == u) (includes_id more u) (includes_id ids u)

includes_id-insert_id :
    (i u : ℕ) (ids : List ℕ) → includes_id (insert_id i ids) u ≡ (i == u || includes_id ids u)
unfolding insert_id includes_id
includes_id-insert_id i u [] = refl
includes_id-insert_id i u (x ∷ ids) = elim (Bool-cases (ltb x i)) [
  | inl e ↦ rw e (
      ap (λ b. x == u || b) (includes_id-insert_id i u ids)
      ∙ or_swap (x == u) (i == u) (includes_id ids u))
  | inr e ↦ rw e refl
]

pub includes_id-sort_ids : (u : ℕ) (ids : List ℕ) → includes_id (sort_ids ids) u ≡ includes_id ids u
unfolding sort_ids includes_id
includes_id-sort_ids u [] = refl
includes_id-sort_ids u (i ∷ ids) =
    includes_id-insert_id i u (sort_ids ids) ∙ ap (λ b. i == u || b) (includes_id-sort_ids u ids)

-- No identifier is there twice.
abbrev pub IsUnique : List ℕ → Type 0
IsUnique [] = Unit
IsUnique (i ∷ ids) = (includes_id ids i ≡ false) × IsUnique ids

one_more :
    (i : ℕ) (ids : List ℕ) → includes_id ids i ≡ false → IsUnique ids → IsUnique (ids ++ (i ∷ []))
unfolding includes_id
one_more i [] h k = (refl, tt)
one_more i (x ∷ ids) h k =
    let (n, m) = ||-false (x == i) (includes_id ids i) h in
    let o : i == x ≡ false = ground arith in
    (includes_id_app i x ids ∙ rw (o, k.0) refl, one_more i ids m k.1)

pub IsUnique-add_ids : (more ids : List ℕ) → IsUnique ids → IsUnique (add_ids more ids)
unfolding add_ids add_id
IsUnique-add_ids [] ids h = h
IsUnique-add_ids (i ∷ more) ids h =
    IsUnique-add_ids more (add_id i ids)
      (elim (Bool-cases (includes_id ids i)) [ inl e ↦ rw e h | inr e ↦ rw e (one_more i ids e h) ])

-- Each identifier is smaller than all that follow it.
abbrev pub IsAscending : List ℕ → Type 0
IsAscending [] = Unit
IsAscending (i ∷ ids) = All (λ j. i < j) ids × IsAscending ids

All-insert_id : (P : ℕ → Type 0) (i : ℕ) (ids : List ℕ) → P i → All P ids → All P (insert_id i ids)
unfolding insert_id
All-insert_id P i [] p h = (p, tt)
All-insert_id P i (x ∷ ids) p h = elim (Bool-cases (ltb x i)) [
  | inl e ↦ rw e (h.0, All-insert_id P i ids p h.1)
  | inr e ↦ rw e (p, h)
]

insert_id-IsAscending :
    (i : ℕ) (ids : List ℕ)
    → includes_id ids i ≡ false
    → IsAscending ids
    → IsAscending (insert_id i ids)
unfolding insert_id includes_id
insert_id-IsAscending i [] n h = (tt, tt)
insert_id-IsAscending i (x ∷ ids) n h =
    let (other, fresh) = ||-false (x == i) (includes_id ids i) n in
    elim (Bool-cases (ltb x i)) [
      | inl e ↦
          let smaller : x < i = ground arith in
          rw e (All-insert_id (λ j. x < j) i ids smaller h.0, insert_id-IsAscending i ids fresh h.1)
      | inr e ↦
          let smaller : i < x = ground arith in
          rw e ((smaller, All-map (λ j (l : x < j). omega (arith, smaller, l)) ids h.0), h)
    ]

pub sort_ids-IsAscending : (ids : List ℕ) → IsUnique ids → IsAscending (sort_ids ids)
unfolding sort_ids
sort_ids-IsAscending [] h = tt
sort_ids-IsAscending (i ∷ ids) h =
    insert_id-IsAscending i (sort_ids ids) (includes_id-sort_ids i ids ∙ h.0)
      (sort_ids-IsAscending ids h.1)

-- What holds of all members of a set holds of each, and conversely.
pub All-includes_id :
    (P : ℕ → Type 0) (u : ℕ) (ids : List ℕ) → All P ids → includes_id ids u ≡ true → P u
unfolding includes_id
All-includes_id P u [] h k = cc k
All-includes_id P u (x ∷ ids) h k = elim (Bool-cases (x == u)) [
  | inl e ↦ subst P (==→eq x u e) h.0
  | inr e ↦ All-includes_id P u ids h.1 (rw e at k)
]

pub All_every : (P : ℕ → Type 0) → ((u : ℕ) → P u) → (ids : List ℕ) → All P ids
All_every P f [] = tt
All_every P f (i ∷ ids) = (f i, All_every P f ids)

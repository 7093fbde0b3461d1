-- ===== src/Point/Tables/Charges.antt =====
-- A guarded write of one charge, on rows with different identifiers: which row it hits, and what
-- it does to the sums of the usable remainders.
use ts_graphql_reference.Base.{
  ℕ, ◌≡◌, refl, inl, inr, Bool, true, false, some, List, [], ◌∷◌, ◌==◌, ◌<◌, arith, Bool-cases,
  if◌then◌else◌, All, ap, sym, subst, suc, ==→eq, ==→ne, &&-true,
}
use ts_graphql_reference.Int.{ℤ, pos, ◌+ℤ◌, int_laws}
use ts_graphql_reference.Point.Tables.{
  ChargeRow, find_charge, update_where, count_where, all_checked, charge_check, usable_of,
}

abbrev pub paid_in : ℕ → ChargeRow → ℤ
paid_in u r = if usable_of u r then r.unspent_paid else pos 0

abbrev pub free_in : ℕ → ChargeRow → ℤ
free_in u r = if usable_of u r then r.unspent_free else pos 0

-- What the usable charges of a user hold.
unfoldable pub usable_paid : ℕ → List ChargeRow → ℤ
usable_paid u [] = pos 0
usable_paid u (r ∷ rows) = paid_in u r +ℤ usable_paid u rows

unfoldable pub usable_free : ℕ → List ChargeRow → ℤ
usable_free u [] = pos 0
usable_free u (r ∷ rows) = free_in u r +ℤ usable_free u rows

abbrev pub HasNoId : ℕ → List ChargeRow → Type 0
HasNoId i [] = Unit
HasNoId i (r ∷ rows) = (r.id == i ≡ false) × HasNoId i rows

abbrev pub IsDistinct : List ChargeRow → Type 0
IsDistinct [] = Unit
IsDistinct (r ∷ rows) = HasNoId r.id rows × IsDistinct rows

pub found :
    (j : ℕ) (r : ChargeRow) (rows : List ChargeRow)
    → r.id == j ≡ true
    → find_charge j (r ∷ rows) ≡ some r
unfolding find_charge
found j r rows h = rw h

-- `change` writes neither the identifier nor the owner.
pub record KeepsKeys (change : ChargeRow → ChargeRow) : Type 0 where
  pub id : (r : ChargeRow) → (change r).id ≡ r.id
  pub user_id : (r : ChargeRow) → (change r).user_id ≡ r.user_id

module _ (matches : ChargeRow → Bool) (change : ChargeRow → ChargeRow)
    (keeps : KeepsKeys change) where
  HasNoId-update :
      (i : ℕ) (rows : List ChargeRow)
      → HasNoId i rows
      → HasNoId i (update_where matches change rows)
  unfolding update_where
  HasNoId-update i [] h = tt
  HasNoId-update i (r ∷ rows) h = elim (Bool-cases (matches r)) [
    | inl e ↦ rw (e, keeps.id r) (h.0, HasNoId-update i rows h.1)
    | inr e ↦ rw e (h.0, HasNoId-update i rows h.1)
  ]

  pub IsDistinct-update :
      (rows : List ChargeRow) → IsDistinct rows → IsDistinct (update_where matches change rows)
  unfolding update_where
  IsDistinct-update [] h = tt
  IsDistinct-update (r ∷ rows) h = elim (Bool-cases (matches r)) [
    | inl e ↦ rw (e, keeps.id r) (HasNoId-update r.id rows h.0, IsDistinct-update rows h.1)
    | inr e ↦ rw e (HasNoId-update r.id rows h.0, IsDistinct-update rows h.1)
  ]

  pub below-update :
      (n : ℕ) (rows : List ChargeRow)
      → All (λ r. r.id < n) rows
      → All (λ r. r.id < n) (update_where matches change rows)
  unfolding update_where
  below-update n [] h = tt
  below-update n (r ∷ rows) h = elim (Bool-cases (matches r)) [
    | inl e ↦ rw (e, keeps.id r) (h.0, below-update n rows h.1)
    | inr e ↦ rw e (h.0, below-update n rows h.1)
  ]

  pub checked-update :
      (rows : List ChargeRow)
      → All (λ r. charge_check r ≡ true) rows
      → all_checked matches change charge_check rows ≡ true
      → All (λ r. charge_check r ≡ true) (update_where matches change rows)
  unfolding update_where all_checked
  checked-update [] h c = tt
  checked-update (r ∷ rows) h c = elim (Bool-cases (matches r)) [
    | inl e ↦
        let (first, rest) =
          &&-true (charge_check (change r)) (all_checked matches change charge_check rows)
            (rw e at c) in
        rw e (first, checked-update rows h.1 rest)
    | inr e ↦ rw e (h.0, checked-update rows h.1 (rw e at c))
  ]

  -- A row that is found before the write is found after it, written or not.
  pub find_charge-update :
      (j : ℕ) (rows : List ChargeRow) {r : ChargeRow}
      → find_charge j rows ≡ some r
      → find_charge j (update_where matches change rows) ≡ some (if matches r then change r else r)
  unfolding find_charge update_where
  find_charge-update j [] h = cc
  find_charge-update j (x ∷ rows) {r} h = elim (Bool-cases (x.id == j)) [
    | inl f ↦
        let g : some x ≡ some r = rw f at h in
        let q : x ≡ r = cc g in
        subst
          (λ y.
            find_charge j (update_where matches change (x ∷ rows))
            ≡ some (if matches y then change y else y))
          q
          (elim (Bool-cases (matches x)) [
            | inl e ↦ rw e (
                found j (change x) (update_where matches change rows)
                  (subst (λ k. k == j ≡ true) (sym (keeps.id x)) f))
            | inr e ↦ rw e (found j x (update_where matches change rows) f)
          ])
    | inr f ↦
        let rest = find_charge-update j rows (rw f at h) in
        elim (Bool-cases (matches x)) [
          | inl e ↦ rw (e, keeps.id x, f) rest
          | inr e ↦ rw (e, f) rest
        ]
  ]

module _ (i : ℕ) (matches : ChargeRow → Bool)
    (only : (r : ChargeRow) → matches r ≡ true → r.id ≡ i) where
  pub misses : (r : ChargeRow) → r.id == i ≡ false → matches r ≡ false
  misses r h = elim (Bool-cases (matches r)) [
    | inl e ↦ let q = only r e in absurd (==→ne r.id i h q)
    | inr e ↦ e
  ]

  unmatched :
      (change : ChargeRow → ChargeRow) (rows : List ChargeRow)
      → HasNoId i rows
      → (update_where matches change rows ≡ rows) × (count_where matches rows ≡ 0)
  unfolding update_where count_where
  unmatched change [] h = (refl, refl)
  unmatched change (r ∷ rows) h =
      let (same, zero_count) = unmatched change rows h.1 in
      rw (misses r h.0) (ap (λ l. r ∷ l) same, zero_count)

  -- The write that hits one row hits the row of that identifier.
  pub hit :
      (rows : List ChargeRow)
      → IsDistinct rows
      → count_where matches rows ≡ 1
      → (r : ChargeRow) × (find_charge i rows ≡ some r) × (matches r ≡ true)
  unfolding count_where find_charge
  hit [] d c = absurd (omega arith)
  hit (r ∷ rows) d c = elim (Bool-cases (r.id == i)) [
    | inl f ↦ elim (Bool-cases (matches r)) [
      | inl e ↦ (r, rw f, e)
      | inr e ↦
          let n = unmatched (λ x. x) rows (subst (λ k. HasNoId k rows) (==→eq r.id i f) d.0) in
          let o : count_where matches rows ≡ 1 = rw e at c in absurd (omega (arith, n.1))
    ]
    | inr f ↦ let (x, found_x, e) = hit rows d.1 (rw (misses r f) at c) in (x, rw f found_x, e)
  ]

  -- The row of the identifier is hit when it matches.
  pub count_where-found :
      (rows : List ChargeRow) {r : ChargeRow}
      → IsDistinct rows
      → find_charge i rows ≡ some r
      → matches r ≡ true
      → count_where matches rows ≡ 1
  unfolding count_where find_charge
  count_where-found [] d h e = cc
  count_where-found (x ∷ rows) {r} d h e = elim (Bool-cases (x.id == i)) [
    | inl f ↦
        let g : some x ≡ some r = rw f at h in
        let q : r ≡ x = cc g in
        let n = unmatched (λ y. y) rows (subst (λ k. HasNoId k rows) (==→eq x.id i f) d.0) in
        rw (subst (λ y. matches y ≡ true) q e) (ap suc n.1)
    | inr f ↦ rw (misses x f) (count_where-found rows d.1 (rw f at h) e)
  ]

  -- The sums move by what the row held and holds.
  pub sums-update :
      (change : ChargeRow → ChargeRow) (u : ℕ) (rows : List ChargeRow) {r : ChargeRow}
      → IsDistinct rows
      → find_charge i rows ≡ some r
      → matches r ≡ true
      → let rows' = update_where matches change rows in
        (usable_paid u rows' +ℤ paid_in u r ≡ usable_paid u rows +ℤ paid_in u (change r))
        × (usable_free u rows' +ℤ free_in u r ≡ usable_free u rows +ℤ free_in u (change r))
  unfolding update_where find_charge usable_paid usable_free
  sums-update change u [] d h e = cc
  sums-update change u (x ∷ rows) {r} d h e = elim (Bool-cases (x.id == i)) [
    | inl f ↦
        let g : some x ≡ some r = rw f at h in
        let q : x ≡ r = cc g in
        let m = subst (λ y. matches y ≡ true) (sym q) e in
        let n = unmatched change rows (subst (λ k. HasNoId k rows) (==→eq x.id i f) d.0) in
        subst
          (λ y.
            let rows' = update_where matches change (x ∷ rows) in
            (usable_paid u rows' +ℤ paid_in u y ≡ usable_paid u (x ∷ rows) +ℤ paid_in u (change y))
            × (usable_free u rows' +ℤ free_in u y
                ≡ usable_free u (x ∷ rows) +ℤ free_in u (change y)))
          q (rw (m, n.0) (omega int_laws))
    | inr f ↦
        rw (misses x f)
          (let ih = sums-update change u rows d.1 (rw f at h) e in omega (int_laws, ih))
  ]

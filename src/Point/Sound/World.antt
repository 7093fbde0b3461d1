-- ===== src/Point/Sound/World.antt =====
-- The loaded world of a user: the user's own charges, with nothing negative, and their sums.
use ts_graphql_reference.Base.{
  ℕ, ◌≡◌, refl, ◌∙◌, Bool, true, false, ◌&&◌, some, List, [], ◌∷◌, map, ◌==◌, All, All-map, arith,
  Bool-cases, inl, inr, &&-true, ==→eq, ==_refl,
}
use ts_graphql_reference.Int.{pos, ◌+ℤ◌, ◌≤ℤ◌, leb_ℤ, leb_ℤ→le, int_laws}
use ts_graphql_reference.Point.Spend.Allocation.{unspent_paid, unspent_free}
use ts_graphql_reference.Point.Tables.{
  ChargeRow, Tables, charge_check, find_charge, is_usable, usable_of, select_where, charged_before,
  insert_by, order_by,
}
use ts_graphql_reference.Point.Tables.Charges.{usable_paid, usable_free, HasNoId, IsDistinct, found}
use ts_graphql_reference.Point.Repo.{charge_balance}
use ts_graphql_reference.Point.Sound.{IsKept}

module _ (P : ChargeRow → Type 0) where
  All-insert_by :
      (r : ChargeRow) (rows : List ChargeRow) → P r → All P rows → All P (insert_by r rows)
  unfolding insert_by
  All-insert_by r [] p h = (p, tt)
  All-insert_by r (x ∷ rows) p h = elim (Bool-cases (charged_before r x)) [
    | inl e ↦ rw e (p, h)
    | inr e ↦ rw e (h.0, All-insert_by r rows p h.1)
  ]

  All-order_by : (rows : List ChargeRow) → All P rows → All P (order_by rows)
  unfolding order_by
  All-order_by [] h = tt
  All-order_by (r ∷ rows) h = All-insert_by r (order_by rows) h.0 (All-order_by rows h.1)

  All-select_where :
      (matches : ChargeRow → Bool) (rows : List ChargeRow)
      → All P rows
      → All (λ r. P r × (matches r ≡ true)) (select_where matches rows)
  unfolding select_where
  All-select_where matches [] h = tt
  All-select_where matches (r ∷ rows) h = elim (Bool-cases (matches r)) [
    | inl e ↦ rw e ((h.0, e), All-select_where matches rows h.1)
    | inr e ↦ rw e (All-select_where matches rows h.1)
  ]

apart : (a b : ℕ) → a == b ≡ false → b == a ≡ false
apart a b h = ground arith

found_behind :
    (r : ChargeRow) (rows all : List ChargeRow)
    → HasNoId r.id rows
    → All (λ x. find_charge x.id all ≡ some x) rows
    → All (λ x. find_charge x.id (r ∷ all) ≡ some x) rows
unfolding find_charge
found_behind r [] all n h = tt
found_behind r (x ∷ rows) all n h = (rw (apart x.id r.id n.0) h.0, found_behind r rows all n.1 h.1)

-- Every row is the one that its identifier finds.
self_found :
    (rows : List ChargeRow) → IsDistinct rows → All (λ x. find_charge x.id rows ≡ some x) rows
self_found [] d = tt
self_found (r ∷ rows) d =
    (found r.id r rows (==_refl r.id), found_behind r rows rows d.0 (self_found rows d.1))

-- What is known of a row that is loaded for `u`.
pub record IsLoaded (u : ℕ) (rows : List ChargeRow) (r : ChargeRow) : Type 0 where
  pub is_there : find_charge r.id rows ≡ some r
  pub owner : r.user_id ≡ u
  pub usable : is_usable r.state ≡ true
  pub paid : pos 0 ≤ℤ r.unspent_paid
  pub free : pos 0 ≤ℤ r.unspent_free

pub charge_check-unspent :
    (r : ChargeRow) → charge_check r ≡ true → (pos 0 ≤ℤ r.unspent_paid) × (pos 0 ≤ℤ r.unspent_free)
unfolding charge_check
charge_check-unspent r h =
    let (rest, free) =
      &&-true
        (leb_ℤ (pos 0) r.paid_amount
          && leb_ℤ (pos 0) r.free_amount
          && (leb_ℤ (pos 0) r.unspent_paid && leb_ℤ r.unspent_paid r.paid_amount))
        (leb_ℤ (pos 0) r.unspent_free && leb_ℤ r.unspent_free r.free_amount) h in
    let (amounts, paid) =
      &&-true (leb_ℤ (pos 0) r.paid_amount && leb_ℤ (pos 0) r.free_amount)
        (leb_ℤ (pos 0) r.unspent_paid && leb_ℤ r.unspent_paid r.paid_amount) rest in
    (
      leb_ℤ→le (pos 0) r.unspent_paid
          (&&-true (leb_ℤ (pos 0) r.unspent_paid) (leb_ℤ r.unspent_paid r.paid_amount) paid).0,
      leb_ℤ→le (pos 0) r.unspent_free
          (&&-true (leb_ℤ (pos 0) r.unspent_free) (leb_ℤ r.unspent_free r.free_amount) free).0,
    )

abbrev pub loaded : ℕ → Tables → List ChargeRow
loaded u t = order_by (select_where (usable_of u) t.charges)

All-zip {ℓ κ} :
    {A : Type ℓ} (P Q : A → Type κ) (l : List A) → All P l → All Q l → All (λ a. P a × Q a) l
All-zip P Q [] h k = tt
All-zip P Q (a ∷ l) h k = ((h.0, k.0), All-zip P Q l h.1 k.1)

pub loaded-IsLoaded : (u : ℕ) (t : Tables) → IsKept t → All (IsLoaded u t.charges) (loaded u t)
loaded-IsLoaded u t k = All-order_by (IsLoaded u t.charges) (select_where (usable_of u) t.charges) (
    All-map
      (λ r h.
        let (own, live) = &&-true (r.user_id == u) (is_usable r.state) h.1 in
        let c = charge_check-unspent r h.0.1 in
        record {
          is_there = h.0.0;
          owner = ==→eq r.user_id u own;
          usable = live;
          paid = c.0;
          free = c.1;
        })
      (select_where (usable_of u) t.charges)
      (All-select_where (λ r. (find_charge r.id t.charges ≡ some r) × (charge_check r ≡ true))
        (usable_of u) t.charges
        (All-zip (λ r. find_charge r.id t.charges ≡ some r) (λ r. charge_check r ≡ true) t.charges
          (self_found t.charges k.distinct) k.checked)))

sum_insert_by :
    (r : ChargeRow) (rows : List ChargeRow)
    → (unspent_paid (map charge_balance (insert_by r rows))
        ≡ r.unspent_paid +ℤ unspent_paid (map charge_balance rows))
      × (unspent_free (map charge_balance (insert_by r rows))
          ≡ r.unspent_free +ℤ unspent_free (map charge_balance rows))
unfolding insert_by
sum_insert_by r [] = (refl, refl)
sum_insert_by r (x ∷ rows) = elim (Bool-cases (charged_before r x)) [
  | inl e ↦ rw e (refl, refl)
  | inr e ↦ rw e (let ih = sum_insert_by r rows in omega (int_laws, ih))
]

sum_order_by :
    (rows : List ChargeRow)
    → (unspent_paid (map charge_balance (order_by rows)) ≡ unspent_paid (map charge_balance rows))
      × (unspent_free (map charge_balance (order_by rows)) ≡ unspent_free (map charge_balance rows))
unfolding order_by
sum_order_by [] = (refl, refl)
sum_order_by (r ∷ rows) =
    let s = sum_insert_by r (order_by rows) in let ih = sum_order_by rows in omega (int_laws, s, ih)

sum_select :
    (u : ℕ) (rows : List ChargeRow)
    → (unspent_paid (map charge_balance (select_where (usable_of u) rows)) ≡ usable_paid u rows)
      × (unspent_free (map charge_balance (select_where (usable_of u) rows)) ≡ usable_free u rows)
unfolding select_where usable_paid usable_free
sum_select u [] = (refl, refl)
sum_select u (r ∷ rows) =
    let ih = sum_select u rows in
    elim (Bool-cases (usable_of u r)) [
      | inl e ↦ rw e (omega (int_laws, ih))
      | inr e ↦ rw e (omega (int_laws, ih))
    ]

-- The sums of the loaded charges are those of the user's usable rows.
pub loaded_sums :
    (u : ℕ) (t : Tables)
    → (unspent_paid (map charge_balance (loaded u t)) ≡ usable_paid u t.charges)
      × (unspent_free (map charge_balance (loaded u t)) ≡ usable_free u t.charges)
loaded_sums u t =
    let s = sum_order_by (select_where (usable_of u) t.charges) in
    let r = sum_select u t.charges in (s.0 ∙ r.0, s.1 ∙ r.1)

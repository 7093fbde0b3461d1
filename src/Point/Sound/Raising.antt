-- ===== src/Point/Sound/Raising.antt =====
-- What a charge writes: its row, and the balance that it raises.
use ts_graphql_reference.Base.{
  ℕ, suc, ◌<◌, ◌≡◌, ◌≢◌, refl, sym, ap, ◌∙◌, Bool, true, false, ◌&&◌, none, some, List, [], ◌∷◌,
  ◌==◌, if◌then◌else◌, All, All-map, arith, subst, Bool-cases, Option-cases, inl, inr, ==→eq,
  ==_refl,
}
use ts_graphql_reference.Int.{pos, ◌+ℤ◌, int_laws}
use ts_graphql_reference.Failure.{ok}
use ts_graphql_reference.Tx.{snd_or}
use ts_graphql_reference.Point.Data.{PointSnapshot, ChargePlan, usable}
use ts_graphql_reference.Point.Balance.{snapshot-eq}
use ts_graphql_reference.Point.Tables.{
  Tables, ChargeRow, BalanceRow, charge_check, balance_check, find_balance, update_where,
  create_charge, upsert_balance,
}
use ts_graphql_reference.Point.Tables.Balances.{
  IsKeyed, rewrite_row, IsKeyed-update, HasNone-find, find_balance-update_ne,
}
use ts_graphql_reference.Point.Tables.Charges.{usable_paid, usable_free, HasNoId}
use ts_graphql_reference.Point.Repo.{or_zero, zero_snapshot}
use ts_graphql_reference.Point.Sound.{IsKept, share}

-- The balance `s` with `paid` and `free` more.
abbrev pub raise : ChargePlan → PointSnapshot → PointSnapshot
raise p s = record {
  paid_amount = s.paid_amount +ℤ p.paid_amount;
  free_amount = s.free_amount +ℤ p.free_amount;
  total_amount = s.total_amount +ℤ p.total_amount;
}

abbrev pub first_balance : ChargePlan → PointSnapshot
first_balance p = record {
  paid_amount = p.paid_amount;
  free_amount = p.free_amount;
  total_amount = p.total_amount;
}

abbrev pub new_charge : ℕ → ChargePlan → ℕ → ChargeRow
new_charge u p id = record {
  id = id;
  user_id = u;
  state = usable;
  paid_amount = p.paid_amount;
  free_amount = p.free_amount;
  unspent_paid = p.paid_amount;
  unspent_free = p.free_amount;
  charged_at = p.charged_at;
  expired_at = none;
}

fresh_id : (n : ℕ) (rows : List ChargeRow) → All (λ r. r.id < n) rows → HasNoId n rows
fresh_id n [] h = tt
fresh_id n (r ∷ rows) h = (ground arith, fresh_id n rows h.1)

-- A new usable charge of `u`.
pub record IsAdded (u : ℕ) (p : ChargePlan) (t s : Tables) : Type 0 where
  pub kept : IsKept s
  pub paid_added :
      (v : ℕ) → usable_paid v s.charges ≡ share u v p.paid_amount +ℤ usable_paid v t.charges
  pub free_added :
      (v : ℕ) → usable_free v s.charges ≡ share u v p.free_amount +ℤ usable_free v t.charges
  pub same_balances : s.balances ≡ t.balances

if_and_true :
    {A : Type 0} (b : Bool) (x y : A) → (if b && true then x else y) ≡ (if b then x else y)
if_and_true true x y = refl
if_and_true false x y = refl

pub create_charge-IsAdded :
    (u : ℕ) (p : ChargePlan) (t : Tables) {r : ChargeRow} {s : Tables}
    → IsKept t
    → create_charge (new_charge u p) t ≡ ok (r, s)
    → IsAdded u p t s
unfolding create_charge usable_paid usable_free
create_charge-IsAdded u p t {r} {s} k h =
    elim (Bool-cases (charge_check (new_charge u p t.next_charge))) [
      | inl c ↦
          let row = new_charge u p t.next_charge in
          let s' : Tables = record t {
            charges = row ∷ t.charges;
            next_charge = suc t.next_charge;
          } in
          let g : ok (row, s') ≡ ok (r, s) = rw c at h in
          subst (IsAdded u p t) (ap (snd_or t) g) (record {
            kept = record {
              distinct = (fresh_id t.next_charge t.charges k.below, k.distinct);
              below = (omega arith, All-map (λ x b. omega arith) t.charges k.below);
              checked = (c, k.checked);
            };
            paid_added = λ v.
                ap (λ x. x +ℤ usable_paid v t.charges) (if_and_true (u == v) p.paid_amount (pos 0));
            free_added = λ v.
                ap (λ x. x +ℤ usable_free v t.charges) (if_and_true (u == v) p.free_amount (pos 0));
            same_balances = refl;
          })
      | inr c ↦ cc (rw c at h)
    ]

find_balance-update_key :
    (u : ℕ) (change : PointSnapshot → PointSnapshot) (rows : List BalanceRow) {s : PointSnapshot}
    → find_balance u rows ≡ some s
    → find_balance u (update_where (λ r. r.user_id == u) (rewrite_row change) rows)
      ≡ some (change s)
unfolding find_balance update_where
find_balance-update_key u change [] h = cc
find_balance-update_key u change (r ∷ rows) {s} h = elim (Bool-cases (r.user_id == u)) [
  | inl e ↦
      let g : some r.amounts ≡ some s = rw e at h in
      let q : r.amounts ≡ s = cc g in rw e (rw e (ap (λ x. some (change x)) q))
  | inr e ↦ rw e (rw e (find_balance-update_key u change rows (rw e at h)))
]

-- The balance of `u` has been raised.
pub record IsRaised (u : ℕ) (p : ChargePlan) (s t' : Tables) : Type 0 where
  pub higher : or_zero (find_balance u t'.balances) ≡ raise p (or_zero (find_balance u s.balances))
  pub others : (v : ℕ) → v ≢ u → find_balance v t'.balances ≡ find_balance v s.balances
  pub keyed : IsKeyed t'.balances
  pub same_charges : t'.charges ≡ s.charges
  pub same_next : t'.next_charge ≡ s.next_charge

find_balance-ne :
    (u v : ℕ) (a : PointSnapshot) (rows : List BalanceRow)
    → v ≢ u
    → find_balance v (record { user_id = u; amounts = a } ∷ rows) ≡ find_balance v rows
unfolding find_balance
find_balance-ne u v a rows ne = let f : u == v ≡ false = ground arith in rw f refl

find_balance-new :
    (u : ℕ) (a : PointSnapshot) (rows : List BalanceRow)
    → find_balance u (record { user_id = u; amounts = a } ∷ rows) ≡ some a
unfolding find_balance
find_balance-new u a rows = rw (==_refl u) refl

raise_zero : (p : ChargePlan) → first_balance p ≡ raise p zero_snapshot
raise_zero p =
    snapshot-eq {a = first_balance p} {b = raise p zero_snapshot} (omega int_laws) (omega int_laws)
      (omega int_laws)

pub upsert_balance-IsRaised :
    (u : ℕ) (p : ChargePlan) (s : Tables) {t' : Tables}
    → IsKeyed s.balances
    → upsert_balance u (first_balance p) (raise p) s ≡ ok (tt, t')
    → IsRaised u p s t'
unfolding upsert_balance
upsert_balance-IsRaised u p s {t'} k h = elim (Option-cases (find_balance u s.balances)) [
  | inl e ↦ elim (Bool-cases (balance_check (first_balance p))) [
    | inl c ↦
        let row : BalanceRow = record { user_id = u; amounts = first_balance p } in
        let s' : Tables = record s { balances = row ∷ s.balances } in
        let g : ok (tt, s') ≡ ok (tt, t') = rw (e, c, upsert_balance) at h in
        subst (IsRaised u p s) (ap (snd_or s) g) (record {
          higher =
              ap or_zero (find_balance-new u (first_balance p) s.balances)
              ∙ raise_zero p
              ∙ ap (λ o. raise p (or_zero o)) (sym e);
          others = λ v ne. find_balance-ne u v (first_balance p) s.balances ne;
          keyed = (HasNone-find u s.balances e, k);
          same_charges = refl;
          same_next = refl;
        })
    | inr c ↦ cc (rw (e, c, upsert_balance) at h)
  ]
  | inr (b, e) ↦ elim (Bool-cases (balance_check (raise p b))) [
    | inl c ↦
        let matches = λ (r : BalanceRow). r.user_id == u in
        let s' : Tables = record s {
          balances = update_where matches (rewrite_row (raise p)) s.balances;
        } in
        let g : ok (tt, s') ≡ ok (tt, t') = rw (e, c, upsert_balance) at h in
        subst (IsRaised u p s) (ap (snd_or s) g) (record {
          higher =
              ap or_zero (find_balance-update_key u (raise p) s.balances e)
              ∙ ap (λ o. raise p (or_zero o)) (sym e);
          others = λ v ne.
              find_balance-update_ne u v matches (raise p) s.balances (λ r q. ==→eq r.user_id u q)
                ne;
          keyed = IsKeyed-update matches (raise p) s.balances k;
          same_charges = refl;
          same_next = refl;
        })
    | inr c ↦ cc (rw (e, c, upsert_balance) at h)
  ]
]

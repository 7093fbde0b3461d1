-- ===== src/Point/Sound/Spending.antt =====
-- A spend in a sound ledger: what it takes, and that the ledger stays sound.
use ts_graphql_reference.Base.{
  ℕ, suc, ◌≡◌, ◌≢◌, sym, ap, ◌∙◌, false, String, List, [], ◌∷◌, map, All, subst, Bool-cases, inl,
  inr,
}
use ts_graphql_reference.Int.{
  ℤ, pos, ◌+ℤ◌, ◌-ℤ◌, ◌≤ℤ◌, ◌<ℤ◌, min_ℤ, int_laws, ==ℤ→eq, Number, whole,
}
use ts_graphql_reference.Failure.{Result, ok, err}
use ts_graphql_reference.Tx.{lift, >>=-ok, lift-ok, for_each, snd_or}
use ts_graphql_reference.Uow.Atomic.{snapshot-ok}
use ts_graphql_reference.Point.Data.{PointSnapshot, ChargeBalance, SpendAllocation, SpendPlan}
use ts_graphql_reference.Point.Spend.{allocation, plan_spend}
use ts_graphql_reference.Point.Spend.Allocation.{
  IsUnspent, paid_of, free_of, Picks, none_left, skip, take, Within, unspent_nonneg,
}
use ts_graphql_reference.Point.Spend.Plan.{IsSpend, plan_spend-IsSpend}
use ts_graphql_reference.Point.Tables.{
  Tables, ChargeRow, SpendRow, spend_check, find_balance, find_unique_balance, find_usable_charges,
  create_spend,
}
use ts_graphql_reference.Point.Client.{memory, memory-IsAtomic, memory-IsQuiet}
use ts_graphql_reference.Point.Repo.{
  or_zero, charge_balance, load_point_world, apply_allocation, apply_balance, apply_spend_plan,
}
use ts_graphql_reference.Point.Service.{spend, spend_body}
use ts_graphql_reference.Point.Sound.{IsSound, IsOwned, IsMoved}
use ts_graphql_reference.Point.Sound.Steps.{IsExact, allocations-IsMoved}
use ts_graphql_reference.Point.Sound.World.{IsLoaded, loaded, loaded-IsLoaded, loaded_sums}
use ts_graphql_reference.Point.Sound.Settle.{IsRebalanced, apply_balance-IsRebalanced, settled}

abbrev pub snapshot_of : ℕ → Tables → PointSnapshot
snapshot_of u t = or_zero (find_balance u t.balances)

abbrev pub charges_of : ℕ → Tables → List ChargeBalance
charges_of u t = map charge_balance (loaded u t)

-- From `t` to `t'` the user `u` has spent `n`: the ledger is sound, the balance of `u` is lower by
-- `n`, and the balances of the others are the same.
pub record IsSpent (u : ℕ) (n : ℤ) (t t' : Tables) : Type 0 where
  pub sound : IsSound t'
  pub lower : (snapshot_of u t').total_amount ≡ (snapshot_of u t).total_amount -ℤ n
  pub others : (v : ℕ) → v ≢ u → find_balance v t'.balances ≡ find_balance v t.balances

-- What a plan reads of a sound ledger.
pub record IsWorld (u : ℕ) (t : Tables) : Type 0 where
  pub unspent : All IsUnspent (charges_of u t)
  pub owned : All (λ c. IsOwned u t.charges c.id) (charges_of u t)
  pub paid_nonneg : pos 0 ≤ℤ (snapshot_of u t).paid_amount
  pub free_nonneg : pos 0 ≤ℤ (snapshot_of u t).free_amount

All-charge_balance :
    (P : ChargeRow → Type 0) (Q : ChargeBalance → Type 0)
    → ((r : ChargeRow) → P r → Q (charge_balance r))
    → (rows : List ChargeRow) → All P rows
    → All Q (map charge_balance rows)
All-charge_balance P Q f [] h = tt
All-charge_balance P Q f (r ∷ rows) h = (f r h.0, All-charge_balance P Q f rows h.1)

pub IsWorld-sound : (u : ℕ) (t : Tables) → IsSound t → IsWorld u t
IsWorld-sound u t s =
    let l = loaded-IsLoaded u t s.kept in
    let n =
      All-charge_balance (IsLoaded u t.charges) IsUnspent (λ r h. (h.paid, h.free)) (loaded u t)
        l in
    let sums = loaded_sums u t in
    let nonneg = unspent_nonneg (charges_of u t) n in
    record {
      unspent = n;
      owned =
          All-charge_balance (IsLoaded u t.charges) (λ c. IsOwned u t.charges c.id)
            (λ r h. record { row = r; is_there = h.is_there; owner = h.owner }) (loaded u t) l;
      paid_nonneg =
          subst (λ x. pos 0 ≤ℤ x) (sums.0 ∙ sym (ap (λ b. b.paid_amount) (s.balanced u))) nonneg.0;
      free_nonneg =
          subst (λ x. pos 0 ≤ℤ x) (sums.1 ∙ sym (ap (λ b. b.free_amount) (s.balanced u))) nonneg.1;
    }

allocation-IsExact :
    (c : ChargeBalance) (paid free : ℤ)
    → Within c paid free (allocation c paid free)
    → IsExact (allocation c paid free)
unfolding allocation
allocation-IsExact c paid free w =
    let a = min_ℤ paid c.unspent_paid in
    let b = min_ℤ free c.unspent_free in
    let zero_rest = ==ℤ→eq (c.unspent_paid +ℤ c.unspent_free -ℤ a -ℤ b) (pos 0) in
    record {
      paid_end = λ d. let z = zero_rest d in omega int_laws;
      free_end = λ d. let z = zero_rest d in omega int_laws;
    }

picked :
    (u : ℕ) (rows : List ChargeRow) {cs : List ChargeBalance} {l : List SpendAllocation}
    → Picks cs l
    → All (λ c. IsOwned u rows c.id) cs
    → All (λ a. IsExact a × IsOwned u rows a.charge_id) l
unfolding allocation
picked u rows none_left o = tt
picked u rows (skip p) o = picked u rows p o.1
picked u rows (take {c} {cs} {l} paid free w p) o =
    ((allocation-IsExact c paid free w, o.0), picked u rows p o.1)

abbrev row_or : SpendRow → Result (SpendRow × Tables) → SpendRow
row_or r (ok p) = p.0
row_or r (err e) = r

create_spend-ok :
    (make : ℕ → SpendRow) (t : Tables) {r : SpendRow} {t' : Tables}
    → create_spend make t ≡ ok (r, t')
    → (make t.next_spend ≡ r)
      × (t'.charges ≡ t.charges)
      × (t'.balances ≡ t.balances)
      × (t'.next_charge ≡ t.next_charge)
unfolding create_spend
create_spend-ok make t {r} {t'} h = elim (Bool-cases (spend_check (make t.next_spend))) [
  | inl c ↦
      let row = make t.next_spend in
      let s : Tables = record t { spends = row ∷ t.spends; next_spend = suc t.next_spend } in
      let g : ok (row, s) ≡ ok (r, t') = rw c at h in
      let q : s ≡ t' = ap (snd_or t) g in
      (
        ap (row_or row) g,
        sym (ap (λ x. x.charges) q),
        sym (ap (λ x. x.balances) q),
        sym (ap (λ x. x.next_charge) q),
      )
  | inr c ↦ cc (rw c at h)
]

-- The tables that the invariant speaks of are the same.
pub record IsSame (t t' : Tables) : Type 0 where
  pub same_charges : t'.charges ≡ t.charges
  pub same_balances : t'.balances ≡ t.balances
  pub same_next : t'.next_charge ≡ t.next_charge

create_spend-kept :
    (make : ℕ → SpendRow) (t : Tables) {r : SpendRow} {t' : Tables}
    → create_spend make t ≡ ok (r, t')
    → (make t.next_spend ≡ r) × IsSame t t'
create_spend-kept make t h =
    let c = create_spend-ok make t h in
    (c.0, record { same_charges = c.1; same_balances = c.2; same_next = c.3 })

pub IsSound-same : {t t' : Tables} → IsSame t t' → IsSound t → IsSound t'
IsSound-same e s = record {
  kept = record {
    distinct = rw e.same_charges s.kept.distinct;
    below = rw (e.same_charges, e.same_next) s.kept.below;
    checked = rw e.same_charges s.kept.checked;
  };
  keyed = rw e.same_balances s.keyed;
  balanced = λ u. rw (e.same_charges, e.same_balances) (s.balanced u);
}

-- The three writes together.
spent :
    (u : ℕ) (n : ℤ) (plan : SpendPlan) (t a b : Tables) {t' : Tables}
    → IsSound t
    → IsSpend (snapshot_of u t) (charges_of u t) n plan
    → IsMoved u (paid_of plan.allocations) (free_of plan.allocations) t a
    → IsRebalanced u plan.assumed_balance plan.balance_after a b
    → IsSame b t'
    → IsSpent u n t t'
spent u n plan t a b s p m r e =
    let moved : IsMoved u plan.paid_usage plan.free_usage t a =
      subst (λ f. IsMoved u plan.paid_usage f t a) p.free_covered
        (subst (λ x. IsMoved u x (free_of plan.allocations) t a) p.paid_covered m) in
    let was = p.assumed in
    let sound =
      settled u plan.paid_usage plan.free_usage plan.assumed_balance plan.balance_after s moved r
        (p.paid_after ∙ ap (λ x. x.paid_amount -ℤ plan.paid_usage) (sym was))
        (p.free_after ∙ ap (λ x. x.free_amount -ℤ plan.free_usage) (sym was))
        (p.total_after
          ∙ ap (λ x. x -ℤ n) (ap (λ x. x.total_amount) (sym was))
          ∙ ap (λ x. plan.assumed_balance.total_amount -ℤ x) (sym p.usage)) in
    record {
      sound = IsSound-same e sound;
      lower =
          ap (λ l. (or_zero (find_balance u l)).total_amount) e.same_balances
          ∙ ap (λ o. (or_zero o).total_amount) r.is
          ∙ p.total_after;
      others = λ v ne.
          ap (λ l. find_balance v l) e.same_balances
          ∙ r.others v ne
          ∙ ap (λ l. find_balance v l) m.same_balances;
    }

-- Executing a plan in the ledger that it was made for.
pub apply_spend_plan-IsSpent :
    (u : ℕ) (reason : String) (n : ℤ) (plan : SpendPlan) (t : Tables) {r : SpendRow} {t' : Tables}
    → IsSound t
    → IsSpend (snapshot_of u t) (charges_of u t) n plan
    → apply_spend_plan memory u reason plan t ≡ ok (r, t')
    → IsSpent u n t t'
unfolding apply_spend_plan
apply_spend_plan-IsSpent u reason n plan t s p h =
    let (x, s₁, e₁, h₁) = >>=-ok (for_each (apply_allocation memory) plan.allocations) _ t h in
    let (y, s₂, e₂, h₂) =
      >>=-ok (apply_balance memory u plan.assumed_balance plan.balance_after) _ s₁ h₁ in
    let (row, same) = create_spend-kept _ s₂ h₂ in
    let w = IsWorld-sound u t s in
    let moved =
      allocations-IsMoved u plan.allocations t (picked u t.charges p.picks w.owned) s.kept e₁ in
    spent u n plan t s₁ s₂ s p moved
      (apply_balance-IsRebalanced u plan.assumed_balance plan.balance_after s₁
        (rw moved.same_balances s.keyed) e₂)
      same

-- A spend that succeeds in a sound ledger takes exactly the amount, from that user alone.
pub spend_body-IsSpent :
    (u : ℕ) (amount : Number) (reason : String) (t : Tables) {r : SpendRow} {t' : Tables}
    → IsSound t
    → spend_body memory u amount reason t ≡ ok (r, t')
    → (n : ℤ) × (amount ≡ whole n)
      × (pos 0 <ℤ n)
      × (n ≤ℤ (snapshot_of u t).total_amount)
      × IsSpent u n t t'
unfolding spend_body load_point_world find_unique_balance find_usable_charges
spend_body-IsSpent u amount reason t {r} {t'} s h =
    let w = IsWorld-sound u t s in
    let (plan, x, e, f) =
      >>=-ok (lift (plan_spend (snapshot_of u t) (charges_of u t) amount false))
        (apply_spend_plan memory u reason) t h in
    let (planned, same) =
      lift-ok (plan_spend (snapshot_of u t) (charges_of u t) amount false) t e in
    let (n, a, pos_n, fits, p) =
      plan_spend-IsSpend (snapshot_of u t) (charges_of u t) false amount w.unspent w.paid_nonneg
        w.free_nonneg planned in
    (
      n,
      a,
      pos_n,
      fits,
      apply_spend_plan-IsSpent u reason n plan t s p
          (subst (λ y. apply_spend_plan memory u reason plan y ≡ ok (r, t')) (sym same) f),
    )

-- A spend that returns in a sound ledger takes exactly the amount, a positive whole number that the
-- balance covered, from that user alone, and leaves the ledger sound.
pub spend-IsSpent :
    (u : ℕ) (amount : Number) (reason : String) (t : Tables) {r : SpendRow} {t' : Tables}
    → IsSound t
    → spend memory u amount reason t ≡ (ok r, t')
    → (n : ℤ) × (amount ≡ whole n)
      × (pos 0 <ℤ n)
      × (n ≤ℤ (snapshot_of u t).total_amount)
      × IsSpent u n t t'
unfolding spend
spend-IsSpent u amount reason t s h =
    spend_body-IsSpent u amount reason t s
      (snapshot-ok memory-IsAtomic memory-IsQuiet (spend_body memory u amount reason) t h)

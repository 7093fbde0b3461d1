-- ===== src/Point/Sound/Succeeding.antt =====
-- A spend that the balance covers succeeds in a sound ledger.
use ts_graphql_reference.Base.{
  ℕ, suc, ◌≡◌, refl, sym, ap, ◌∙◌, subst, Bool, true, false, not, Option, none, some, List, [], ◌∷◌,
  map, String, All, Bool-cases, inl, inr, ◌==◌, ==_refl,
}
use ts_graphql_reference.Int.{ℤ, pos, ◌+ℤ◌, ◌≤ℤ◌, ◌<ℤ◌, le→leb_ℤ, ==ℤ_refl, int_laws, whole}
use ts_graphql_reference.Failure.{Error, ok, concurrent_update, point_balance}
use ts_graphql_reference.Tx.{Tx, ◌>>=◌, >>=-run, throw_if, for_each, lift}
use ts_graphql_reference.Uow
use ts_graphql_reference.Point.Data.{PointSnapshot, ChargeBalance, SpendAllocation, SpendPlan}
use ts_graphql_reference.Point.Balance.{sum_usable_balance}
use ts_graphql_reference.Point.Spend.{allocation, plan_spend}
use ts_graphql_reference.Point.Spend.Allocation.{
  IsUnspent, Within, Picks, none_left, skip, take, unspent_nonneg, paid_of, free_of, unspent_paid,
  unspent_free,
}
use ts_graphql_reference.Point.Spend.Plan.{IsSpend, plan_spend-consistent}
use ts_graphql_reference.Point.Tables.{
  Tables, ChargeRow, BalanceRow, SpendRow, balance_check, spend_check, is_usable, usable_of,
  select_where, find_balance, find_unique_balance, find_usable_charges, update_where, count_where,
  all_checked, update_balances, create_spend,
}
use ts_graphql_reference.Point.Tables.Balances.{IsKeyed, rewrite_row, count_where-balance}
use ts_graphql_reference.Point.Client.{memory, memory_base}
use ts_graphql_reference.Point.Repo.{
  or_zero, still, charge_balance, balance_still, load_point_world, apply_allocation, apply_balance,
  apply_spend_plan,
}
use ts_graphql_reference.Point.Service.{spend, spend_body}
use ts_graphql_reference.Point.Sound.{IsSound}
use ts_graphql_reference.Point.Sound.World.{IsLoaded, loaded, loaded-IsLoaded, loaded_sums}
use ts_graphql_reference.Point.Sound.Spending.{
  snapshot_of, charges_of, IsWorld-sound, IsSpent, spend-IsSpent,
}
use ts_graphql_reference.Point.Sound.Verifying.{loaded_balance}
use ts_graphql_reference.Point.Sound.Applying.{IsReady, applies}
use ts_graphql_reference.Point.Sound.Different.{
  IsDistinct-select, IsDistinct-order, AreDifferent-map, Picks-Apart,
}

-- What is taken from the charge is ready, whatever it is.
abbrev Gives : List ChargeRow → ChargeBalance → Type 0
Gives rows c =
    (paid free : ℤ)
    → Within c paid free (allocation c paid free)
    → IsReady rows (allocation c paid free)

Picks-IsReady :
    (rows : List ChargeRow) {cs : List ChargeBalance} {l : List SpendAllocation}
    → All (Gives rows) cs
    → Picks cs l
    → All (IsReady rows) l
Picks-IsReady rows h none_left = tt
Picks-IsReady rows h (skip p) = Picks-IsReady rows h.1 p
Picks-IsReady rows h (take paid free w p) = (h.0 paid free w, Picks-IsReady rows h.1 p)

still_self :
    (r : ChargeRow)
    → is_usable r.state ≡ true
    → still r.id (record { unspent_paid = r.unspent_paid; unspent_free = r.unspent_free }) r ≡ true
still_self r u = rw (==_refl r.id, u, ==ℤ_refl r.unspent_paid) (==ℤ_refl r.unspent_free)

IsReady-allocation :
    (u : ℕ) (all_rows : List ChargeRow) (r : ChargeRow) (paid free : ℤ)
    → IsLoaded u all_rows r
    → Within (charge_balance r) paid free (allocation (charge_balance r) paid free)
    → IsReady all_rows (allocation (charge_balance r) paid free)
unfolding allocation
IsReady-allocation u all_rows r paid free h w = record {
  row = r;
  is_there = h.is_there;
  matches = still_self r h.usable;
  paid_low = w.paid_low;
  free_low = w.free_low;
  paid_there = w.paid_there;
  free_there = w.free_there;
}

gives :
    (u : ℕ) (all_rows rows : List ChargeRow)
    → All (IsLoaded u all_rows) rows
    → All (Gives all_rows) (map charge_balance rows)
gives u all_rows [] h = tt
gives u all_rows (r ∷ rows) h =
    (λ paid free w. IsReady-allocation u all_rows r paid free h.0 w, gives u all_rows rows h.1)

-- The write of a balance that is as assumed, to one with nothing negative.
abbrev nonneg_check : BalanceRow → Bool
nonneg_check r = balance_check r.amounts

all_checked-after :
    (matches : BalanceRow → Bool) (after : PointSnapshot) (rows : List BalanceRow)
    → balance_check after ≡ true
    → all_checked matches (rewrite_row (λ _. after)) nonneg_check rows ≡ true
unfolding all_checked
all_checked-after matches after [] c = refl
all_checked-after matches after (r ∷ rows) c =
    let rest = all_checked-after matches after rows c in
    elim (Bool-cases (matches r)) [ inl e ↦ rw (e, c) rest | inr e ↦ rw e rest ]

update_balances-run :
    (matches : BalanceRow → Bool) (after : PointSnapshot) (t : Tables)
    → balance_check after ≡ true
    → update_balances matches (λ _. after) t
      ≡ ok (
        count_where matches t.balances,
        record t { balances = update_where matches (rewrite_row (λ _. after)) t.balances },
      )
unfolding update_balances
update_balances-run matches after t c = rw (all_checked-after matches after t.balances c) refl

passes : (n : ℕ) (e : Error) (t : Tables) → n ≡ 1 → throw_if (not (n == 1)) e t ≡ ok (tt, t)
passes n e t h = rw h refl

apply_balance-run :
    (u : ℕ) (assumed after : PointSnapshot) (t : Tables)
    → IsKeyed t.balances
    → find_balance u t.balances ≡ some assumed
    → balance_check after ≡ true
    → apply_balance memory u assumed after t
      ≡ ok (
        tt,
        record t {
          balances = update_where (balance_still u assumed) (rewrite_row (λ _. after)) t.balances;
        },
      )
unfolding apply_balance
apply_balance-run u assumed after t k h c =
    let matches = balance_still u assumed in
    let lost = concurrent_update (point_balance u) in
    let s : Tables = record t {
      balances = update_where matches (rewrite_row (λ _. after)) t.balances;
    } in
    >>=-run (update_balances matches (λ _. after)) (λ count. throw_if (not (count == 1)) lost) t
      (update_balances-run matches after t c)
    ∙ passes (count_where matches t.balances) lost s
        (count_where-balance u assumed after t.balances k h)

create_spend-run :
    (make : ℕ → SpendRow) (t : Tables)
    → spend_check (make t.next_spend) ≡ true
    → create_spend make t
      ≡ ok (
        make t.next_spend,
        record t { spends = make t.next_spend ∷ t.spends; next_spend = suc t.next_spend },
      )
unfolding create_spend
create_spend-run make t h = rw h refl

-- A positive total is a stored balance.
stored :
    (o : Option PointSnapshot) (n : ℤ)
    → pos 0 <ℤ n
    → n ≤ℤ (or_zero o).total_amount
    → o ≡ some (or_zero o)
stored none n p h = absurd (omega int_laws)
stored (some s) n p h = refl

picks_within :
    (cs : List ChargeBalance) {l : List SpendAllocation}
    → All IsUnspent cs
    → Picks cs l
    → (paid_of l ≤ℤ unspent_paid cs) × (free_of l ≤ℤ unspent_free cs)
unfolding allocation
picks_within cs h none_left = unspent_nonneg cs h
picks_within (c ∷ cs) h (skip p) = (let ih = picks_within cs h.1 p in omega (int_laws, ih))
picks_within (c ∷ cs) h (take paid free w p) =
    let pt = w.paid_there in
    let ft = w.free_there in let ih = picks_within cs h.1 p in omega (int_laws, ih)

nonneg_after :
    (s : PointSnapshot)
    → pos 0 ≤ℤ s.paid_amount
    → pos 0 ≤ℤ s.free_amount
    → pos 0 ≤ℤ s.total_amount
    → balance_check s ≡ true
unfolding balance_check
nonneg_after s p f t =
    rw (le→leb_ℤ (pos 0) s.paid_amount p, le→leb_ℤ (pos 0) s.free_amount f)
      (le→leb_ℤ (pos 0) s.total_amount t)

abbrev spend_row_of : ℕ → String → SpendPlan → ℕ → SpendRow
spend_row_of u reason plan id = record {
  id = id;
  user_id = u;
  paid_amount = plan.paid_usage;
  free_amount = plan.free_usage;
  total_amount = plan.paid_usage +ℤ plan.free_usage;
  reason = reason;
}

spend_row-check :
    (u : ℕ) (reason : String) (plan : SpendPlan) (id : ℕ)
    → pos 0 ≤ℤ plan.paid_usage
    → pos 0 ≤ℤ plan.free_usage
    → spend_check (spend_row_of u reason plan id) ≡ true
unfolding spend_check
spend_row-check u reason plan id p f =
    rw (le→leb_ℤ (pos 0) plan.paid_usage p, le→leb_ℤ (pos 0) plan.free_usage f)
      (==ℤ_refl (plan.paid_usage +ℤ plan.free_usage))

module _ (u : ℕ) (reason : String) (n : ℤ) (t : Tables) (sound : IsSound t) (n_pos : pos 0 <ℤ n)
    (fits : n ≤ℤ (snapshot_of u t).total_amount) where
  world_sum : snapshot_of u t ≡ sum_usable_balance (charges_of u t)
  world_sum = sound.balanced u ∙ sym (loaded_balance u t)

  -- Every write of the plan goes through.
  apply_spend_plan-run :
      (plan : SpendPlan)
      → IsSpend (snapshot_of u t) (charges_of u t) n plan
      → (r : SpendRow) × (t' : Tables) × (apply_spend_plan memory u reason plan t ≡ ok (r, t'))
  unfolding apply_spend_plan
  apply_spend_plan-run plan p =
      let l = plan.allocations in
      let rows = loaded u t in
      let distinct =
        IsDistinct-order (select_where (usable_of u) t.charges)
          (IsDistinct-select (usable_of u) t.charges sound.kept.distinct) in
      let (s₁, e₁, same) =
        applies l t sound.kept.distinct sound.kept.checked
          (Picks-IsReady t.charges (gives u t.charges rows (loaded-IsLoaded u t sound.kept))
            p.picks)
          (Picks-Apart (AreDifferent-map rows distinct) p.picks) in
      let w = IsWorld-sound u t sound in
      let (most_paid, most_free) = picks_within (charges_of u t) w.unspent p.picks in
      let sums = loaded_sums u t in
      let paid : (snapshot_of u t).paid_amount ≡ unspent_paid (charges_of u t) =
        ap (λ x. x.paid_amount) (sound.balanced u) ∙ sym sums.0 in
      let free : (snapshot_of u t).free_amount ≡ unspent_free (charges_of u t) =
        ap (λ x. x.free_amount) (sound.balanced u) ∙ sym sums.1 in
      let pc = p.paid_covered in
      let fc = p.free_covered in
      let pa = p.paid_after in
      let fa = p.free_after in
      let ta = p.total_after in
      let check =
        nonneg_after plan.balance_after (omega int_laws) (omega int_laws) (omega int_laws) in
      let there : find_balance u s₁.balances ≡ some plan.assumed_balance =
        ap (λ b. find_balance u b) same
        ∙ stored (find_balance u t.balances) n n_pos fits
        ∙ ap some (sym p.assumed) in
      let keyed = subst IsKeyed (sym same) sound.keyed in
      let e₂ = apply_balance-run u plan.assumed_balance plan.balance_after s₁ keyed there check in
      let s₂ : Tables = record s₁ {
        balances =
            update_where (balance_still u plan.assumed_balance)
              (rewrite_row (λ _. plan.balance_after)) s₁.balances;
      } in
      let make = spend_row_of u reason plan in
      let e₃ =
        create_spend-run make s₂
          (spend_row-check u reason plan s₂.next_spend p.paid_nonneg p.free_nonneg) in
      let write = create_spend make in
      let rebalance = apply_balance memory u plan.assumed_balance plan.balance_after in
      (
        make s₂.next_spend,
        record s₂ { spends = make s₂.next_spend ∷ s₂.spends; next_spend = suc s₂.next_spend },
        >>=-run (for_each (apply_allocation memory) l) (λ _. rebalance >>= λ _. write) t e₁
            ∙ >>=-run rebalance (λ _. write) s₁ e₂
            ∙ e₃,
      )

  spend_body-run :
      (r : SpendRow) × (t' : Tables) × (spend_body memory u (whole n) reason t ≡ ok (r, t'))
  unfolding spend_body load_point_world find_unique_balance find_usable_charges
  spend_body-run =
      let w = IsWorld-sound u t sound in
      let (plan, e, p) =
        plan_spend-consistent (snapshot_of u t) (charges_of u t) false n w.unspent world_sum n_pos
          fits in
      let (r, t', run) = apply_spend_plan-run plan p in
      let decision = plan_spend (snapshot_of u t) (charges_of u t) (whole n) false in
      let lifted : lift decision t ≡ ok (plan, t) = ap (λ d. lift d t) e in
      (r, t', >>=-run (lift decision) (apply_spend_plan memory u reason) t lifted ∙ run)

closes :
    (body : Tx Tables SpendRow) (t : Tables) {r : SpendRow} {t' : Tables}
    → body t ≡ ok (r, t')
    → Uow.snapshot memory_base body t ≡ (ok r, t')
unfolding Uow.snapshot Uow.run_tx
closes body t e = rw (e, memory_base) refl

-- In a sound ledger a spend of a positive amount that the balance covers always succeeds, whatever
-- the charges it has to be taken from, and takes exactly that amount.
pub spend_succeeds :
    (u : ℕ) (reason : String) (n : ℤ) (t : Tables)
    → IsSound t
    → pos 0 <ℤ n
    → n ≤ℤ (snapshot_of u t).total_amount
    → (r : SpendRow) × (t' : Tables) × (spend memory u (whole n) reason t ≡ (ok r, t'))
      × IsSpent u n t t'
unfolding spend
spend_succeeds u reason n t s n_pos fits =
    let (r, t', e) = spend_body-run u reason n t s n_pos fits in
    let done = closes (spend_body memory u (whole n) reason) t e in
    let (m, same, _, _, spent) = spend-IsSpent u (whole n) reason t s done in
    let q : m ≡ n = cc same in (r, t', done, subst (λ x. IsSpent u x t t') q spent)

-- ===== src/Tests/Points.antt =====
-- The point ledger of one user with 30 paid and 20 free points, and of another with none.
use ts_graphql_reference.Base.{
  List, length, is_some, ◌||◌, ℕ, ◌+◌, ◌*◌, ◌/◌, ◌≡◌, ◌↔◌, refl, true, false, none, some, [], ◌∷◌,
  arith, Bool-cases, inl, inr, ◌==◌, length,
}
use ts_graphql_reference.Int.{ℤ, pos, negsuc, ◌+ℤ◌, ◌-ℤ◌, ◌≤ℤ◌, ◌<ℤ◌, min_ℤ, whole}
use ts_graphql_reference.Failure.{ok}
use ts_graphql_reference.Time.{Dayjs}
use ts_graphql_reference.Uow
use ts_graphql_reference.Point.Data.{ChargePlan, PointChargeState, usable, consumed, expired}
use ts_graphql_reference.Point.Balance.{balance, balances_agree}
use ts_graphql_reference.Point.Spend.{
  allocation, allocate, split_usage, spend_plan, assert_covered, plan_spend, assert_valid_amount,
  plan_transfer, plan_charge, assert_charge_side,
}
use ts_graphql_reference.Point.Tables.{
  Tables, ChargeRow, SpendRow, charge_check, balance_check, spend_check, find_balance,
  find_unique_balance, find_usable_charges, insert_by, order_by, select_where, update_charges,
  update_balances, update_where, count_where, all_checked, create_spend, create_charge,
  upsert_balance,
}
use ts_graphql_reference.Point.Tables.Charges.{usable_paid, usable_free}
use ts_graphql_reference.Point.Client.{memory}
use ts_graphql_reference.Point.Repo.{
  load_point_world, apply_allocation, apply_balance, apply_spend_plan, apply_transfer_plan,
  apply_charge_plan, load_expiry_world, apply_expiry_plan, apply_expiration,
}
use ts_graphql_reference.Tx.{for_each}
use ts_graphql_reference.Time.{add_days, kst_end_of_day}
use ts_graphql_reference.Locks.{order_locks, to_sorted, insert, unique_from, has}
use ts_graphql_reference.Locks.Registry.{lock_key, ordinal}
use ts_graphql_reference.Point.Expiry.{plan_expiry, sweep, not_due, deadline}
use ts_graphql_reference.Point.Expiry.Sweep.{due}
use ts_graphql_reference.Point.Sound.Transferring.{IsTransferred, transfer-IsTransferred}
use ts_graphql_reference.Point.Sound.Charging.{IsCharged, IsChargePlan, charge-IsCharged}
use ts_graphql_reference.Point.Sound.Expiring.{IsExpired, expirable_of, expire-IsExpired}
use ts_graphql_reference.Point.Sound.Verifying.{IsBalanced}
use ts_graphql_reference.Point.Sound.Audited.{has_usable, find_user_ids_lem, verify_balances_iff}
use ts_graphql_reference.Point.Ids.{includes_id}
use ts_graphql_reference.Point.Ids.Ordered.{IsAscending}
use ts_graphql_reference.Point.Repo.{find_user_ids_with_balance_or_usable_charges}
use ts_graphql_reference.Point.Service.{verify_balances}
use ts_graphql_reference.Point.Service.{
  spend, spend_body, transfer, transfer_body, charge, expire, expire_body, now_or,
}
use ts_graphql_reference.Point.Sound.{IsSound}
use ts_graphql_reference.Point.Sound.Spending.{snapshot_of, IsSpent, spend-IsSpent}
use ts_graphql_reference.Point.Sound.Succeeding.{spend_succeeds}

abbrev charge_row :
    ℕ → PointChargeState → (paid free left_paid left_free charged_at : ℤ) → ChargeRow
charge_row id state paid free left_paid left_free charged_at = record {
  id = id;
  user_id = 1;
  state = state;
  paid_amount = paid;
  free_amount = free;
  unspent_paid = left_paid;
  unspent_free = left_free;
  charged_at = charged_at;
  expired_at = none;
}

abbrev ledger : Tables
ledger = record {
  charges =
      charge_row 2 usable (pos 0) (pos 20) (pos 0) (pos 20) (pos 500)
      ∷ charge_row 1 usable (pos 30) (pos 0) (pos 30) (pos 0) (pos 100)
      ∷ [];
  balances = record { user_id = 1; amounts = balance (pos 30) (pos 20) } ∷ [];
  spends = [];
  next_charge = 3;
  next_spend = 1;
}

ledger-IsSound : IsSound ledger
unfolding charge_check find_balance usable_paid usable_free ◌+ℤ◌
ledger-IsSound = record {
  kept = record {
    distinct = ((refl, tt), (tt, tt));
    below = (omega arith, (omega arith, tt));
    checked = (refl, (refl, tt));
  };
  keyed = (tt, tt);
  balanced = λ u. elim (Bool-cases (1 == u)) [ inl e ↦ rw e refl | inr e ↦ rw e refl ];
}

abbrev spend_row : SpendRow
spend_row = record {
  id = 1;
  user_id = 1;
  paid_amount = pos 30;
  free_amount = pos 10;
  total_amount = pos 40;
  reason = "goods";
}

abbrev spent_ledger : Tables
spent_ledger = record {
  charges =
      charge_row 2 usable (pos 0) (pos 20) (pos 0) (pos 10) (pos 500)
      ∷ charge_row 1 consumed (pos 30) (pos 0) (pos 0) (pos 0) (pos 100)
      ∷ [];
  balances = record { user_id = 1; amounts = balance (pos 0) (pos 10) } ∷ [];
  spends = spend_row ∷ [];
  next_charge = 3;
  next_spend = 2;
}

spend_40 : spend memory 1 (whole (pos 40)) "goods" ledger ≡ (ok spend_row, spent_ledger)
unfolding spend Uow.snapshot Uow.run_tx spend_body load_point_world find_unique_balance
    find_usable_charges find_balance insert_by order_by select_where plan_spend assert_valid_amount
    split_usage allocate allocation min_ℤ ◌+ℤ◌ ◌-ℤ◌ assert_covered spend_plan apply_spend_plan
    for_each apply_allocation apply_balance update_charges update_balances update_where count_where
    all_checked charge_check balance_check spend_check balances_agree create_spend
spend_40 = refl

spend-IsSpent_example :
    (n : ℤ) × (whole (pos 40) ≡ whole n)
    × (pos 0 <ℤ n)
    × (n ≤ℤ (snapshot_of 1 ledger).total_amount)
    × IsSpent 1 n ledger spent_ledger
spend-IsSpent_example = spend-IsSpent 1 (whole (pos 40)) "goods" ledger ledger-IsSound spend_40

abbrev charge_of_2 : ChargeRow
charge_of_2 = record {
  id = 3;
  user_id = 2;
  state = usable;
  paid_amount = pos 30;
  free_amount = pos 10;
  unspent_paid = pos 30;
  unspent_free = pos 10;
  charged_at = pos 900;
  expired_at = none;
}

abbrev transferred_ledger : Tables
transferred_ledger = record spent_ledger {
  charges = charge_of_2 ∷ spent_ledger.charges;
  balances = record { user_id = 2; amounts = balance (pos 30) (pos 10) } ∷ spent_ledger.balances;
  next_charge = 4;
}

transfer_40 :
    transfer memory (λ u. "goods") 1 2 (whole (pos 40)) true false (pos 900) ledger
    ≡ (ok spend_row, transferred_ledger)
unfolding transfer transfer_body plan_transfer plan_charge assert_charge_side apply_transfer_plan
    apply_charge_plan create_charge upsert_balance Uow.serialized Uow.run_tx Uow.snapshot_if
    Uow.acquire order_locks to_sorted insert unique_from has lock_key ordinal load_point_world
    find_unique_balance find_usable_charges find_balance insert_by order_by select_where plan_spend
    assert_valid_amount split_usage allocate allocation min_ℤ ◌+ℤ◌ ◌-ℤ◌ assert_covered spend_plan
    apply_spend_plan for_each apply_allocation apply_balance update_charges update_balances
    update_where count_where all_checked charge_check balance_check spend_check balances_agree
    create_spend
transfer_40 = refl

transfer-IsTransferred_example :
    (true ≡ true)
    × (n : ℤ) × (whole (pos 40) ≡ whole n)
    × IsTransferred 1 2 n ledger transferred_ledger
transfer-IsTransferred_example =
    transfer-IsTransferred (λ u. "goods") 1 2 (whole (pos 40)) true false (pos 900) ledger
      ledger-IsSound transfer_40

abbrev charged_ledger : Tables
charged_ledger = record ledger {
  charges = charge_row 3 usable (pos 5) (pos 0) (pos 5) (pos 0) (pos 900) ∷ ledger.charges;
  balances = record { user_id = 1; amounts = balance (pos 35) (pos 20) } ∷ [];
  next_charge = 4;
}

charge_5 :
    charge memory 1 (whole (pos 5)) (whole (pos 0)) (pos 900) ledger
    ≡ (ok (charge_row 3 usable (pos 5) (pos 0) (pos 5) (pos 0) (pos 900)), charged_ledger)
unfolding charge plan_charge assert_charge_side apply_charge_plan create_charge upsert_balance
    Uow.run Uow.run_tx find_balance update_where charge_check balance_check ◌+ℤ◌
charge_5 = refl

charge-IsCharged_example :
    (p : ChargePlan) × IsChargePlan (whole (pos 5)) (whole (pos 0)) (pos 900) p
    × IsCharged 1 p ledger charged_ledger
charge-IsCharged_example =
    charge-IsCharged 1 (whole (pos 5)) (whole (pos 0)) (pos 900) ledger ledger-IsSound charge_5

-- Days of 86,400,000 milliseconds from the epoch.
abbrev days : ℤ → ℤ
days (pos n) = pos (n * 86400000)
days (negsuc n) = negsuc (n * 86400000 + 86399999)

abbrev last_millisecond : ℤ → ℤ
last_millisecond (pos n) = pos (n / 86400000 * 86400000 + 86399999)
last_millisecond (negsuc n) = negsuc (n / 86400000 * 86400000)

abbrev pub utc : Dayjs
utc = record {
  add_days = λ t d. t +ℤ days d;
  add_hours = λ t h. t +ℤ pos (h * 3600000);
  subtract_hours = λ t h. t -ℤ pos (h * 3600000);
  end_of_day = last_millisecond;
  format = λ pattern t. pattern;
}

-- A year and a day later both charges are due.
abbrev pub a_year_later : ℤ
a_year_later = pos 31668800000

abbrev expired_row : ℕ → (paid free charged_at : ℤ) → ChargeRow
expired_row id paid free charged_at = record {
  id = id;
  user_id = 1;
  state = expired;
  paid_amount = paid;
  free_amount = free;
  unspent_paid = pos 0;
  unspent_free = pos 0;
  charged_at = charged_at;
  expired_at = some a_year_later;
}

abbrev expired_ledger : Tables
expired_ledger = record ledger {
  charges =
      expired_row 2 (pos 0) (pos 20) (pos 500) ∷ expired_row 1 (pos 30) (pos 0) (pos 100) ∷ [];
  balances = record { user_id = 1; amounts = balance (pos 0) (pos 0) } ∷ [];
}

expire_both : expire memory utc 1 none a_year_later ledger ≡ (ok 2, expired_ledger)
unfolding expire expire_body load_expiry_world apply_expiry_plan apply_expiration plan_expiry sweep
    not_due deadline add_days kst_end_of_day Uow.snapshot Uow.run_tx find_unique_balance
    find_usable_charges find_balance insert_by order_by select_where ◌+ℤ◌ ◌-ℤ◌ for_each
    apply_balance update_charges update_balances update_where count_where all_checked charge_check
    balance_check balances_agree
expire_both = refl

expire-IsExpired_example :
    let gone = due utc (now_or none a_year_later) (expirable_of 1 ledger) in
    (2 ≡ length gone) × IsExpired 1 a_year_later gone ledger expired_ledger
expire-IsExpired_example =
    expire-IsExpired utc 1 none a_year_later ledger ledger-IsSound expire_both

find_user_ids_lem_example :
    (users : List ℕ) × (find_user_ids_with_balance_or_usable_charges memory ledger
      ≡ ok (users, ledger))
    × IsAscending users
    × ((u : ℕ)
        → includes_id users u
          ≡ (is_some (find_balance u ledger.balances) || has_usable u ledger.charges))
find_user_ids_lem_example = find_user_ids_lem ledger

verify_balances_iff_example :
    (users : List ℕ) × (find_user_ids_with_balance_or_usable_charges memory ledger
      ≡ ok (users, ledger))
    × ((verify_balances memory ledger ≡ (ok (record { users_checked = length users }), ledger))
        ↔ ((u : ℕ) → IsBalanced ledger u))
verify_balances_iff_example = verify_balances_iff ledger

ledger_covers : pos 40 ≤ℤ (snapshot_of 1 ledger).total_amount
unfolding find_balance ◌+ℤ◌
ledger_covers = omega arith

spend_succeeds_example :
    (r : SpendRow) × (t' : Tables) × (spend memory 1 (whole (pos 40)) "goods" ledger ≡ (ok r, t'))
    × IsSpent 1 (pos 40) ledger t'
spend_succeeds_example =
    spend_succeeds 1 "goods" (pos 40) ledger ledger-IsSound (omega arith) ledger_covers

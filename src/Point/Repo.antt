-- ===== src/Point/Repo.antt =====
-- src/modules/point/point.write.repo.ts: reading the world of a decision, and executing its plan.
use ts_graphql_reference.Base.{
  ℕ, Bool, ◌&&◌, not, Option, none, some, List, [], map, String, ◌==◌, if◌then◌else◌, length,
}
use ts_graphql_reference.Int.{ℤ, pos, ◌+ℤ◌, ◌-ℤ◌, ◌==ℤ◌}
use ts_graphql_reference.Failure.{concurrent_update, point_charge, point_balance}
use ts_graphql_reference.Tx.{Tx, pure, throw_if, ◌>>=◌, ◌>>◌, for_each}
use ts_graphql_reference.Point.Data.{
  PointSnapshot, ChargeBalance, Assumed, SpendAllocation, SpendPlan, ChargePlan, TransferPlan,
  ExpirableCharge, ExpiryWorld, ChargeExpiration, ExpiryPlan, usable, consumed, expired,
}
use ts_graphql_reference.Point.Balance.{balances_agree}
use ts_graphql_reference.Point.Ids.{add_ids, sort_ids}
use ts_graphql_reference.Point.Tables.{ChargeRow, BalanceRow, SpendRow, is_usable}
use ts_graphql_reference.Point.Client.{PointDb}

abbrev pub zero_snapshot : PointSnapshot
zero_snapshot = record { paid_amount = pos 0; free_amount = pos 0; total_amount = pos 0 }

-- `balance ?? ZERO_SNAPSHOT`
abbrev pub or_zero : Option PointSnapshot → PointSnapshot
or_zero none = zero_snapshot
or_zero (some s) = s

pub record PointWorld : Type 0 where
  pub snapshot : PointSnapshot
  pub charges : List ChargeBalance

abbrev pub charge_balance : ChargeRow → ChargeBalance
charge_balance r = record {
  id = r.id;
  unspent_paid = r.unspent_paid;
  unspent_free = r.unspent_free;
}

abbrev pub expirable_charge : ChargeRow → ExpirableCharge
expirable_charge r = record {
  id = r.id;
  unspent_paid = r.unspent_paid;
  unspent_free = r.unspent_free;
  charged_at = r.charged_at;
}

-- The guard of a charge's UPDATE: its identifier, its state and the amounts that the plan assumed.
abbrev pub still : ℕ → Assumed → ChargeRow → Bool
still id assumed r =
    r.id == id
    && is_usable r.state
    && r.unspent_paid ==ℤ assumed.unspent_paid
    && r.unspent_free ==ℤ assumed.unspent_free

abbrev pub consume : SpendAllocation → ChargeRow → ChargeRow
consume a r = record r {
  state = if a.depleted then consumed else r.state;
  unspent_paid = r.unspent_paid -ℤ a.paid;
  unspent_free = r.unspent_free -ℤ a.free;
}

abbrev pub expire_charge : ℤ → ChargeRow → ChargeRow
expire_charge now r = record r {
  state = expired;
  unspent_paid = pos 0;
  unspent_free = pos 0;
  expired_at = some now;
}

abbrev pub balance_still : ℕ → PointSnapshot → BalanceRow → Bool
balance_still u s r = r.user_id == u && balances_agree r.amounts s

module _ (db : PointDb) where
  open db use {
    State, find_unique_balance, find_usable_charges, find_balance_users, find_usable_users,
    update_charges, update_balances, create_charge, create_spend, upsert_balance,
  }

  unfoldable pub load_point_world : ℕ → Tx State PointWorld
  load_point_world u = do
    balance ← find_unique_balance u
    charges ← find_usable_charges u
    pure (record { snapshot = or_zero balance; charges = map charge_balance charges })

  unfoldable pub load_expiry_world : ℕ → Tx State ExpiryWorld
  load_expiry_world u = do
    balance ← find_unique_balance u
    charges ← find_usable_charges u
    pure (record { snapshot = or_zero balance; charges = map expirable_charge charges })

  -- The two statements of one `Promise.all`, on the client itself.
  unfoldable pub find_user_ids_with_balance_or_usable_charges : Tx State (List ℕ)
  unfolding add_ids sort_ids
  find_user_ids_with_balance_or_usable_charges = do
    balances ← find_balance_users
    charges ← find_usable_users
    pure (sort_ids (add_ids charges (add_ids balances [])))

  unfoldable pub apply_allocation : SpendAllocation → Tx State Unit
  apply_allocation a = do
    count ← update_charges (still a.charge_id a.assumed) (consume a)
    throw_if (not (count == 1)) (concurrent_update (point_charge a.charge_id))

  unfoldable pub apply_balance : ℕ → PointSnapshot → PointSnapshot → Tx State Unit
  apply_balance u assumed after = do
    count ← update_balances (balance_still u assumed) (λ _. after)
    throw_if (not (count == 1)) (concurrent_update (point_balance u))

  unfoldable pub apply_spend_plan : ℕ → String → SpendPlan → Tx State SpendRow
  unfolding apply_allocation apply_balance
  apply_spend_plan u reason plan = do
    for_each apply_allocation plan.allocations
    apply_balance u plan.assumed_balance plan.balance_after
    create_spend λ id. record {
      id = id;
      user_id = u;
      paid_amount = plan.paid_usage;
      free_amount = plan.free_usage;
      total_amount = plan.paid_usage +ℤ plan.free_usage;
      reason = reason;
    }

  unfoldable pub apply_charge_plan : ℕ → ChargePlan → Tx State ChargeRow
  apply_charge_plan u plan = do
    charge ← create_charge λ id. record {
      id = id;
      user_id = u;
      state = usable;
      paid_amount = plan.paid_amount;
      free_amount = plan.free_amount;
      unspent_paid = plan.paid_amount;
      unspent_free = plan.free_amount;
      charged_at = plan.charged_at;
      expired_at = none;
    }
    upsert_balance u
        (record {
          paid_amount = plan.paid_amount;
          free_amount = plan.free_amount;
          total_amount = plan.total_amount;
        })
        λ s. record {
          paid_amount = s.paid_amount +ℤ plan.paid_amount;
          free_amount = s.free_amount +ℤ plan.free_amount;
          total_amount = s.total_amount +ℤ plan.total_amount;
        }
    pure charge

  -- The reason names the receiver: `transfer to user ${toUserId}`.
  unfoldable pub apply_transfer_plan :
      (ℕ → String) → ℕ → ℕ → TransferPlan → Tx State (SpendRow × ChargeRow)
  unfolding apply_spend_plan apply_charge_plan
  apply_transfer_plan transfer_reason from_user to_user plan = do
    spend ← apply_spend_plan from_user (transfer_reason to_user) plan.spend
    charge ← apply_charge_plan to_user plan.charge
    pure (spend, charge)

  unfoldable pub apply_expiration : ℤ → ChargeExpiration → Tx State Unit
  apply_expiration now e = do
    count ← update_charges (still e.charge_id e.assumed) (expire_charge now)
    throw_if (not (count == 1)) (concurrent_update (point_charge e.charge_id))

  -- An empty plan writes nothing; the result is the number of expired charges.
  unfoldable pub apply_expiry_plan : ℕ → ExpiryPlan → Tx State ℕ
  unfolding apply_expiration apply_balance
  apply_expiry_plan u plan = if length plan.expirations == 0 then pure 0 else do
    for_each (apply_expiration plan.expired_at) plan.expirations
    apply_balance u plan.assumed_balance plan.balance_after
    pure (length plan.expirations)

-- ===== src/Ledger/Loads.antt =====
-- src/modules/financial-ledger/financial-ledger.repo.ts: what it reads.
use ts_graphql_reference.Base.{
  ℕ, Bool, ◌&&◌, ◌||◌, Option, none, some, List, map, String, ◌==◌, ltb, str_eq,
}
use ts_graphql_reference.Int.{ℤ, pos, ◌==ℤ◌, ltb_ℤ}
use ts_graphql_reference.Failure.{
  Error, Result, ok, err, financial_holder_not_found, available_account_not_found,
  commission_settlement_funding_not_found, financial_account_not_found,
}
use ts_graphql_reference.Tx.{Tx, pure, lift, ◌>>=◌}
use ts_graphql_reference.Flow.{command_kind_text}
use ts_graphql_reference.Store.{Store, AccountRow, LotRow, TransferRow, HolderRow}
use ts_graphql_reference.Store.Tables.{
  is_text, is_id, holder_table, account_table, lot_table, reservation_table, transfer_table,
  transfer_action_table, swap_action_table, command_table, operation_table,
}
use ts_graphql_reference.Store.Client.{find_unique, find_unique_or_throw, find_many}
use ts_graphql_reference.Ledger.{FinancialLotBalance}
use ts_graphql_reference.Withdrawal.{IncomeLot, IncomeWithdrawalWorld}
use ts_graphql_reference.PointCharge.{PointChargeWorld}
use ts_graphql_reference.Settlement.Data.{SettlementFunding, SettlementAccounts}

-- `if (!row) throw error;`
abbrev pub or_throw_with {ℓ} : {A : Type ℓ} → Error → Option A → Result A
or_throw_with e none = err e
or_throw_with e (some a) = ok a

abbrev pub is_bound : String → String → HolderRow → Bool
is_bound namespace key r = str_eq r.binding_namespace namespace && str_eq r.binding_key key

unfoldable pub find_holder_id : String → String → Tx Store ℕ
unfolding find_unique
find_holder_id namespace key = do
  holder ← find_unique holder_table (is_bound namespace key)
  row ← lift (or_throw_with (financial_holder_not_found namespace key) holder)
  pure row.id

abbrev pub is_account : ℕ → String → String → AccountRow → Bool
is_account holder currency purpose r =
    is_id r.holder_id holder && str_eq r.currency currency && str_eq r.purpose purpose

-- The relation `lots`, by its foreign key, with something left.
abbrev pub has_left : AccountRow → LotRow → Bool
has_left account r =
    r.account_id == account.id
    && str_eq r.currency account.currency
    && ltb_ℤ (pos 0) r.remaining_amount

-- `orderBy: [{ createdAt: 'asc' }, { id: 'asc' }]`
abbrev pub created_first : LotRow → LotRow → Bool
created_first a b =
    ltb_ℤ a.created_at b.created_at || (a.created_at ==ℤ b.created_at && ltb a.id b.id)

pub record AvailablePointWorld : Type 0 where
  pub account_id : ℕ
  pub lots : List FinancialLotBalance

abbrev pub lot_balance : LotRow → FinancialLotBalance
lot_balance r = record { lot_id = r.id; remaining_amount = r.remaining_amount }

-- The account of `loadAvailablePointWorld`, `loadPointChargeWorld` and `loadAvailableIncomeWorld`.
unfoldable pub available_account : ℕ → String → Tx Store AccountRow
unfolding find_unique
available_account holder currency = do
  account ← find_unique account_table (is_account holder currency "AVAILABLE")
  lift (or_throw_with (available_account_not_found holder currency) account)

unfoldable pub load_available_point_world : ℕ → Tx Store AvailablePointWorld
unfolding available_account find_many
load_available_point_world holder = do
  account ← available_account holder "POINT"
  lots ← find_many lot_table (has_left account) created_first
  pure (record { account_id = account.id; lots = map lot_balance lots })

unfoldable pub load_point_charge_world : ℕ → Tx Store PointChargeWorld
unfolding available_account
load_point_charge_world holder = do
  account ← available_account holder "POINT"
  pure (record { holder_id = holder; available_account_id = account.id })

abbrev pub income_lot : LotRow → IncomeLot
income_lot r = record { lot_id = r.id; remaining_amount = r.remaining_amount }

abbrev pub has_income_left : AccountRow → LotRow → Bool
has_income_left account r = has_left account r && str_eq r.currency "INCOME"

unfoldable pub load_available_income_world : ℕ → Tx Store IncomeWithdrawalWorld
unfolding available_account find_many
load_available_income_world holder = do
  account ← available_account holder "INCOME"
  lots ← find_many lot_table (has_income_left account) created_first
  pure
      (record { holder_id = holder; available_account_id = account.id; lots = map income_lot lots })

pub record PointChargeLedgerResult : Type 0 where
  pub lot_id : ℕ
  pub amount : ℤ

abbrev pub sourced_by : String → LotRow → Bool
sourced_by operation_id r = is_text r.source_operation_id operation_id

unfoldable pub load_point_charge_ledger_result : String → Tx Store PointChargeLedgerResult
unfolding find_unique_or_throw
load_point_charge_ledger_result operation_id = do
  lot ← find_unique_or_throw lot_table (sourced_by operation_id)
  pure (record { lot_id = lot.id; amount = lot.original_amount })

pub record SettlementLedgerResult : Type 0 where
  pub reservation_id : ℕ
  pub income_lot_id : ℕ

unfoldable pub load_commission_settlement_ledger_result : String → Tx Store SettlementLedgerResult
unfolding find_unique_or_throw
load_commission_settlement_ledger_result operation_id = do
  action ← find_unique_or_throw swap_action_table (λ a. str_eq a.operation_id operation_id)
  lot ← find_unique_or_throw lot_table (sourced_by operation_id)
  pure (record { reservation_id = action.reservation_id; income_lot_id = lot.id })

unfoldable pub find_account_id : ℕ → String → String → Tx Store ℕ
unfolding find_unique
find_account_id holder currency purpose = do
  account ← find_unique account_table (is_account holder currency purpose)
  row ← lift (or_throw_with (financial_account_not_found holder currency purpose) account)
  pure row.id

unfoldable pub load_commission_settlement_accounts : ℕ → Tx Store SettlementAccounts
unfolding find_holder_id find_account_id
load_commission_settlement_accounts worker_holder_id = do
  platform_holder_id ← find_holder_id "system" "platform"
  point_settled_account_id ← find_account_id platform_holder_id "POINT" "SETTLED"
  income_issuer_account_id ← find_account_id platform_holder_id "INCOME" "ISSUER"
  income_available_account_id ← find_account_id worker_holder_id "INCOME" "AVAILABLE"
  pure (record {
    beneficiary_holder_id = worker_holder_id;
    point_settled_account_id = point_settled_account_id;
    income_issuer_account_id = income_issuer_account_id;
    income_available_account_id = income_available_account_id;
  })

-- The relation `transfer` of a reservation.
unfoldable pub transfer_of : ℕ → Tx Store (Option TransferRow)
unfolding find_unique
transfer_of reservation_id = find_unique transfer_table (λ t. t.reservation_id == reservation_id)

unfoldable pub load_commission_settlement_funding : ℕ → Tx Store SettlementFunding
unfolding find_unique find_unique_or_throw transfer_of
load_commission_settlement_funding reservation_id = do
  let missing : Error = commission_settlement_funding_not_found reservation_id
  found ← find_unique reservation_table (λ r. r.id == reservation_id)
  reservation ← lift (or_throw_with missing found)
  escrow_account ← find_unique account_table (λ a. is_id a.reservation_id reservation.id)
  escrow ← lift (or_throw_with missing escrow_account)
  found_transfer ← transfer_of reservation.id
  transfer ← lift (or_throw_with missing found_transfer)
  holder ← find_unique_or_throw holder_table (λ h. h.id == reservation.holder_id)
  action ← find_unique_or_throw transfer_action_table (λ a. str_eq a.id transfer.action_id)
  operation ← find_unique_or_throw operation_table (λ o. str_eq o.id action.operation_id)
  command ← find_unique_or_throw command_table (λ c. str_eq c.id operation.originating_command_id)
  pure (record {
    reservation = record {
      id = reservation.id;
      flow_id = reservation.flow_id;
      state = reservation.state;
      currency = reservation.currency;
      target_amount = reservation.target_amount;
      holder_binding = record { namespace = holder.binding_namespace; key = holder.binding_key };
      escrow_account_id = escrow.id;
    };
    transfer = record {
      flow_id = transfer.flow_id;
      currency = transfer.currency;
      amount = transfer.amount;
      to_account_id = transfer.to_account_id;
    };
    provenance = record {
      action_operation_kind = command_kind_text action.operation_kind;
      operation = record {
        id = operation.id;
        flow_id = operation.flow_id;
        kind = command_kind_text operation.kind;
      };
      command = record {
        flow_id = command.flow_id;
        kind = command_kind_text command.kind;
        principal_id = command.principal_id;
        subject = record { namespace = command.subject_namespace; key = command.subject_key };
        result_operation_id = command.result_operation_id;
      };
    };
  })

-- ===== src/Tests/Repeats.antt =====
-- The financial use-cases, each with its key a second time, and what a withdrawal's sources are.
use ts_graphql_reference.Base.{◌≡◌, ◌≤◌, List, refl, true, false, none, some, [], ◌∷◌, String}
use ts_graphql_reference.Int.{pos, min_ℤ, ◌-ℤ◌}
use ts_graphql_reference.Decimal.{decimal}
use ts_graphql_reference.Failure.{ok}
use ts_graphql_reference.Flow.{
  FinancialCommandKind, commission, format_operation_id, format_transaction_reference,
  format_command_id, flow_kind_text,
}
use ts_graphql_reference.Flow.Reference.{operation_reference}
use ts_graphql_reference.Tx.{for_each}
use ts_graphql_reference.Uow.{serialized}
use ts_graphql_reference.Locks.{order_locks}
use ts_graphql_reference.Locks.Registry.{lock_key, order_payment}
use ts_graphql_reference.Point.Tables.{update_where, all_checked, count_where}
use ts_graphql_reference.Withdrawal.Once.{execute_withdrawal-again}
use ts_graphql_reference.Ledger.Sources.{
  FundedAllocation, WithdrawalSource, load_allocations, load_income_withdrawal_sources,
}
use ts_graphql_reference.Ledger.Grouped.{
  listed, listings, taken_from, load_income_withdrawal_sources_add_up,
}
use ts_graphql_reference.PointCharge.Once.{execute_point_charge-again}
use ts_graphql_reference.Runtime.{set_constraints}
use ts_graphql_reference.Store.{Store}
use ts_graphql_reference.PointCharge.Service.{PointChargeResult, execute_point_charge}
use ts_graphql_reference.PointCharge.Service as Charging
use ts_graphql_reference.Withdrawal.Service as Withdrawing
use ts_graphql_reference.Settlement.Service as Settling
use ts_graphql_reference.Checkout.Service as Paying
use ts_graphql_reference.Checkout.Stored.{
  PreparedCommissionCheckout, CommissionCheckoutResult, hash_commission_checkout_payload,
}
use ts_graphql_reference.Checkout.Once.{execute_commission_checkout-again}
use ts_graphql_reference.Settlement.Service.{CommissionSettlementResult}
use ts_graphql_reference.Settlement.Once.{execute_settlement-again}
use ts_graphql_reference.Tests.Finance.{
  node, market, checkout, purchase, settlement, cash_out, charged_market, paid_market,
  settled_market,
}

abbrev first : PointChargeResult
first = record {
  lot_id = 14;
  amount = pos 100;
  reference_id = "POINT_CHARGE-OP-CHARGE-10";
  command_id = "CMD-CHARGE-OP-CHARGE-12";
  operation_id = "OP-CHARGE-OP-CHARGE-13";
  replayed = false;
}

first_charge : execute_point_charge node purchase 1 market ≡ ok (first, charged_market)
unfolding Charging.charge serialized for_each order_locks lock_key format_operation_id update_where
    flow_kind_text format_transaction_reference format_command_id
first_charge = refl

execute_point_charge-again_example :
    execute_point_charge node purchase 1 charged_market
    ≡ ok (record first { replayed = true }, charged_market)
execute_point_charge-again_example =
    execute_point_charge-again node purchase 1 1 market
      (λ n. operation_reference FinancialCommandKind.charge (decimal n)) first_charge

-- A worker with an income to withdraw.
abbrev earned : Store
earned = record market {
  lots =
      record {
        id = 1;
        account_id = 2;
        currency = "INCOME";
        source_kind = "COMMISSION_SETTLEMENT";
        source_operation_id = some "o";
        source_swap_action_id = some "a";
        source_flow_id = some "f";
        source_flow_kind = some commission;
        source_operation_kind = some FinancialCommandKind.settle;
        issuance_reason = none;
        accounting_category = none;
        accounting_policy_version = none;
        original_amount = pos 70;
        remaining_amount = pos 70;
        created_at = pos 900;
      }
      ∷ [];
}

abbrev cashed_out : Store
cashed_out = (Withdrawing.request node (λ s. s) cash_out earned).1

abbrev cashed : Withdrawing.IncomeWithdrawalResult
cashed = record {
  withdrawal_id = "OP-CHARGE-19";
  reservation_id = 15;
  reference_id = "WITHDRAWAL-OP-CHARGE-10";
  command_id = "CMD-WITHDRAW-OP-CHARGE-12";
  operation_id = "OP-WITHDRAW-OP-CHARGE-13";
  replayed = false;
  sources = record { commission_reference_id = "COMMISSION-f"; amount = pos 30 } ∷ [];
}

first_withdrawal : Withdrawing.execute_withdrawal node cash_out 2 earned ≡ ok (cashed, cashed_out)
unfolding Withdrawing.request serialized for_each order_locks lock_key format_operation_id
    update_where min_ℤ ◌-ℤ◌ flow_kind_text all_checked count_where format_transaction_reference
    format_command_id set_constraints
first_withdrawal = refl

execute_withdrawal-again_example :
    Withdrawing.execute_withdrawal node cash_out 2 cashed_out
    ≡ ok (record cashed { replayed = true }, cashed_out)
execute_withdrawal-again_example =
    execute_withdrawal-again node cash_out 2 2 earned
      (λ n. operation_reference FinancialCommandKind.charge (decimal n)) first_withdrawal

-- The one source of the withdrawal, its reservation being the fifteenth row.
abbrev cashed_sources : List WithdrawalSource
cashed_sources = record { flow_id = "f"; amount = pos 30 } ∷ []

loaded_sources : load_income_withdrawal_sources 15 cashed_out ≡ ok (cashed_sources, cashed_out)
unfolding Withdrawing.request serialized for_each order_locks lock_key format_operation_id
    update_where min_ℤ ◌-ℤ◌ flow_kind_text all_checked count_where format_transaction_reference
    format_command_id set_constraints load_income_withdrawal_sources
loaded_sources = refl

load_income_withdrawal_sources_add_up_example :
    (allocations : List FundedAllocation) × (u : Store) × (load_allocations 15 cashed_out
      ≡ ok (allocations, u))
    × ((flow : String) → listings flow cashed_sources ≤ 1)
    × ((flow : String) → listed flow cashed_sources ≡ taken_from flow allocations)
load_income_withdrawal_sources_add_up_example =
    load_income_withdrawal_sources_add_up 15 cashed_out cashed_out loaded_sources

abbrev settled_first : CommissionSettlementResult
settled_first = record {
  contract_id = 22;
  reservation_id = 18;
  income_lot_id = 29;
  reference_id = "COMMISSION-f";
  command_id = "CMD-SETTLE-OP-CHARGE-24";
  operation_id = "OP-SETTLE-OP-CHARGE-25";
  replayed = false;
}

first_settlement :
    Settling.execute_settlement node settlement 2 paid_market ≡ ok (settled_first, settled_market)
unfolding Paying.complete Charging.charge Settling.settle serialized for_each order_locks lock_key
    format_operation_id update_where min_ℤ ◌-ℤ◌ flow_kind_text all_checked count_where
    format_transaction_reference format_command_id set_constraints
first_settlement = refl

execute_settlement-again_example :
    Settling.execute_settlement node settlement 2 settled_market
    ≡ ok (record settled_first { replayed = true }, settled_market)
execute_settlement-again_example =
    execute_settlement-again node settlement 2 2 paid_market
      (λ n. operation_reference FinancialCommandKind.charge (decimal n)) first_settlement

-- The checkout as it is prepared, but for most of its lock keys.
abbrev prepared : PreparedCommissionCheckout
prepared = record {
  input = checkout;
  payload_hash = hash_commission_checkout_payload node checkout;
  locked_targets = record { buyer_id = 1; slot_id = 1; financial_holder_id = 1 };
  lock_keys = lock_key order_payment 5 ∷ [];
}

abbrev paid_first : CommissionCheckoutResult
paid_first = record {
  economic_result = record {
    order_id = 3;
    order_payment_id = 5;
    contract_id = 22;
    reservation_id = 18;
    reference_id = "COMMISSION-f";
    command_id = "CMD-PAY-OP-CHARGE-15";
    operation_id = "OP-PAY-OP-CHARGE-16";
  };
  replayed = false;
}

first_checkout :
    Paying.execute_commission_checkout node prepared charged_market ≡ ok (paid_first, paid_market)
unfolding Paying.complete Charging.charge serialized for_each order_locks lock_key
    format_operation_id update_where min_ℤ ◌-ℤ◌ flow_kind_text all_checked count_where
    format_transaction_reference format_command_id set_constraints hash_commission_checkout_payload
first_checkout = refl

reads_back : node.number_of (decimal 5) ≡ some 5
unfolding decimal
reads_back = refl

execute_commission_checkout-again_example :
    Paying.execute_commission_checkout node (record prepared { lock_keys = [] }) paid_market
    ≡ ok (record paid_first { replayed = true }, paid_market)
execute_commission_checkout-again_example =
    execute_commission_checkout-again node prepared prepared.locked_targets [] charged_market
      (λ n. operation_reference FinancialCommandKind.charge (decimal n)) reads_back first_checkout

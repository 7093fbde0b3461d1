-- ===== src/Tests/Finance.antt =====
-- A store with a buyer, a worker and the platform, and one order that is to be paid; the runs of the
-- four financial use-cases on it.
use ts_graphql_reference.Base.{
  ℕ, ◌≡◌, refl, true, none, some, [], ◌∷◌, map, length, String, str_eq, if◌then◌else◌,
}
use ts_graphql_reference.Int.{pos, min_ℤ, ◌-ℤ◌, whole}
use ts_graphql_reference.Decimal.{decimal}
use ts_graphql_reference.Failure.{Result}
use ts_graphql_reference.Flow.{
  FinancialCommandKind, commission, format_operation_id, format_transaction_reference,
  format_command_id, flow_kind_text,
}
use ts_graphql_reference.Tx.{for_each}
use ts_graphql_reference.Uow.{serialized}
use ts_graphql_reference.Locks.{order_locks}
use ts_graphql_reference.Locks.Registry.{lock_key}
use ts_graphql_reference.Point.Tables.{update_where, all_checked, count_where}
use ts_graphql_reference.Runtime.{Runtime}
use ts_graphql_reference.Ledger.Conserved.{IsConserved}
use ts_graphql_reference.Books.Reached.{
  Reached, without_money, checked_out, settled, withdrawn, Reached-IsConserved,
}
use ts_graphql_reference.Store.{Store, AccountRow, HolderRow, LotRow}
use ts_graphql_reference.PointCharge.{PointChargeInput}
use ts_graphql_reference.PointCharge.Service.{PointChargeResult, execute_point_charge}
use ts_graphql_reference.PointCharge.Service as Charging
use ts_graphql_reference.Withdrawal.{IncomeWithdrawalInput}
use ts_graphql_reference.Withdrawal.Service as Withdrawing
use ts_graphql_reference.Settlement.Data.{CommissionSettlementInput}
use ts_graphql_reference.Settlement.Service as Settling
use ts_graphql_reference.Checkout.{CommissionCheckoutInput}
use ts_graphql_reference.Checkout.Service as Paying

abbrev pub node : Runtime
node = record {
  uuid = λ n. format_operation_id FinancialCommandKind.charge (decimal n);
  constraints_hold = λ names s. true;
  sha256 = λ text. text;
  json_text = λ text. text;
  json_number = λ n. "n";
  number_of = λ text. if str_eq text (decimal 5) then some 5 else none;
}

abbrev pub account : ℕ → ℕ → String → String → AccountRow
account i holder currency purpose = record {
  id = i;
  currency = currency;
  purpose = purpose;
  holder_id = some holder;
  reservation_id = none;
}

abbrev holder : ℕ → String → String → HolderRow
holder i namespace key = record { id = i; binding_namespace = namespace; binding_key = key }

abbrev pub market : Store
market = record {
  commission_types = record { id = 1; worker_id = 2; price = pos 70 } ∷ [];
  slots = record { id = 1; worker_id = 2; state = "AVAILABLE" } ∷ [];
  orders =
      record {
        id = 3;
        buyer_id = 1;
        commission_type_id = 1;
        slot_id = 1;
        flow_id = "f";
        amount = pos 70;
        currency = "POINT";
        state = "REQUESTED";
      }
      ∷ [];
  order_payments =
      record {
        id = 5;
        order_id = 3;
        flow_id = "f";
        amount = pos 70;
        currency = "POINT";
        state = "PENDING";
      }
      ∷ [];
  order_links = [];
  contracts = [];
  holders = holder 1 "user" "1" ∷ holder 2 "user" "2" ∷ holder 3 "system" "platform" ∷ [];
  reservations = [];
  accounts =
      account 1 1 "POINT" "AVAILABLE"
      ∷ account 2 2 "INCOME" "AVAILABLE"
      ∷ account 3 3 "POINT" "SETTLED"
      ∷ account 4 3 "INCOME" "ISSUER"
      ∷ [];
  lots = [];
  transfers = [];
  transfer_allocations = [];
  flows = record { id = "f"; kind = commission } ∷ [];
  policies =
      record { flow_id = "f"; command_kind = FinancialCommandKind.pay }
      ∷ record { flow_id = "f"; command_kind = FinancialCommandKind.settle }
      ∷ [];
  commands = [];
  operations = [];
  transfer_actions = [];
  swap_actions = [];
  swap_legs = [];
  withdrawals = [];
  next_id = 10;
  now = pos 1000;
}

abbrev pub purchase : PointChargeInput
purchase = record {
  actor_id = 1;
  amount = whole (pos 100);
  external_payment_id = "p1";
  command_key = "k1";
}

abbrev state_of : {A : Type 0} → Result A × Store → Store
state_of p = p.1

abbrev pub settlement : CommissionSettlementInput
settlement = record { contract_id = 22; actor_id = 2; command_key = "k3" }

abbrev pub cash_out : IncomeWithdrawalInput
cash_out = record { actor_id = 2; amount = whole (pos 30); command_key = "k4" }

abbrev pub checkout : CommissionCheckoutInput
checkout = record { order_payment_id = 5; actor_id = 1; command_key = "k2" }

-- The four use-cases, one after the other, on the store.
abbrev pub charged_market : Store
charged_market = (Charging.charge node (λ s. s) purchase market).1

abbrev pub paid_market : Store
paid_market = (Paying.complete node (λ s. s) checkout charged_market).1

abbrev pub settled_market : Store
settled_market = (Settling.settle node (λ s. s) settlement paid_market).1

abbrev cashed_market : Store
cashed_market = (Withdrawing.request node (λ s. s) cash_out settled_market).1

-- What is left of each lot in the end.
lots_left : map (λ (r : LotRow). r.remaining_amount) cashed_market.lots ≡ pos 30 ∷ pos 40 ∷ []
unfolding Charging.charge Paying.complete Settling.settle Withdrawing.request serialized for_each
    order_locks lock_key format_operation_id update_where min_ℤ ◌-ℤ◌ flow_kind_text all_checked
    count_where
lots_left = refl

-- A second purchase with the same key writes no lot.
charged_again : length (Charging.charge node (λ s. s) purchase charged_market).1.lots ≡ 1
unfolding Charging.charge serialized for_each order_locks lock_key format_operation_id update_where
    flow_kind_text format_transaction_reference format_command_id
charged_again = refl

cashed-Reached : Reached node cashed_market
cashed-Reached =
    let start = without_money market refl refl refl in
    let first = Reached.charged purchase (λ s. s) start start in
    let second = checked_out checkout (λ s. s) first first in
    let third = settled settlement (λ s. s) second second in withdrawn cash_out (λ s. s) third third

Reached-IsConserved_example : IsConserved cashed_market
Reached-IsConserved_example =
    Reached-IsConserved {runtime = node} {s = cashed_market} cashed-Reached

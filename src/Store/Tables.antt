-- ===== src/Store/Tables.antt =====
-- The tables of the store, each with its unique indexes and the CHECK constraints on its amounts
-- (prisma/schema.prisma and prisma/migrations).
use ts_graphql_reference.Base.{
  ℕ, Bool, true, false, ◌&&◌, ◌||◌, not, Option, none, some, List, String, ◌==◌, str_eq,
}
use ts_graphql_reference.Int.{pos, leb_ℤ, ltb_ℤ}
use ts_graphql_reference.Flow.{
  TransactionFlowKind, FinancialCommandKind, point_charge, charge, flow_kind_text,
  command_kind_text,
}
use ts_graphql_reference.Store.{
  Store, CommissionTypeRow, SlotRow, OrderRow, OrderPaymentRow, OrderLinkRow, ContractRow,
  HolderRow, ReservationRow, AccountRow, LotRow, TransferRow, TransferAllocationRow, FlowRow,
  PolicyRow, CommandRow, OperationRow, TransferActionRow, SwapActionRow, SwapLegRow, WithdrawalRow,
}

abbrev pub same_flow_kind : TransactionFlowKind → TransactionFlowKind → Bool
same_flow_kind a b = str_eq (flow_kind_text a) (flow_kind_text b)

abbrev pub same_command_kind : FinancialCommandKind → FinancialCommandKind → Bool
same_command_kind a b = str_eq (command_kind_text a) (command_kind_text b)

-- A column that may be null, compared with a value.
abbrev pub is_text : Option String → String → Bool
is_text none s = false
is_text (some x) s = str_eq x s

abbrev pub is_id : Option ℕ → ℕ → Bool
is_id none i = false
is_id (some x) i = x == i

-- NULL differs from NULL in a unique index.
abbrev pub both_text : Option String → Option String → Bool
both_text a none = false
both_text a (some s) = is_text a s

abbrev pub both_id : Option ℕ → Option ℕ → Bool
both_id a none = false
both_id a (some i) = is_id a i

-- A table in the store: its rows, whether a new row clashes with one that is there, and the
-- constraints on the amounts.
pub record Table (R : Type 0) : Type 0 where
  pub rows : Store → List R
  pub with_rows : List R → Store → Store
  pub clashes : R → R → Bool
  pub is_checked : R → Bool

abbrev pub slot_table : Table SlotRow
slot_table = record {
  rows = λ s. s.slots;
  with_rows = λ l s. record s { slots = l };
  clashes = λ a b. a.id == b.id;
  is_checked = λ r. true;
}

abbrev pub commission_type_table : Table CommissionTypeRow
commission_type_table = record {
  rows = λ s. s.commission_types;
  with_rows = λ l s. record s { commission_types = l };
  clashes = λ a b. a.id == b.id;
  is_checked = λ r. ltb_ℤ (pos 0) r.price;
}

abbrev pub order_table : Table OrderRow
order_table = record {
  rows = λ s. s.orders;
  with_rows = λ l s. record s { orders = l };
  clashes = λ a b. a.id == b.id || a.slot_id == b.slot_id || str_eq a.flow_id b.flow_id;
  is_checked = λ r. ltb_ℤ (pos 0) r.amount;
}

abbrev pub order_payment_table : Table OrderPaymentRow
order_payment_table = record {
  rows = λ s. s.order_payments;
  with_rows = λ l s. record s { order_payments = l };
  clashes = λ a b. a.id == b.id;
  is_checked = λ r. ltb_ℤ (pos 0) r.amount;
}

abbrev pub order_link_table : Table OrderLinkRow
order_link_table = record {
  rows = λ s. s.order_links;
  with_rows = λ l s. record s { order_links = l };
  clashes = λ a b. a.order_payment_id == b.order_payment_id || a.reservation_id == b.reservation_id;
  is_checked = λ r. true;
}

abbrev pub contract_table : Table ContractRow
contract_table = record {
  rows = λ s. s.contracts;
  with_rows = λ l s. record s { contracts = l };
  clashes = λ a b. a.id == b.id || a.order_id == b.order_id;
  is_checked = λ r. true;
}

abbrev pub holder_table : Table HolderRow
holder_table = record {
  rows = λ s. s.holders;
  with_rows = λ l s. record s { holders = l };
  clashes = λ a b.
      a.id == b.id
      || (str_eq a.binding_namespace b.binding_namespace && str_eq a.binding_key b.binding_key);
  is_checked = λ r. true;
}

abbrev pub reservation_table : Table ReservationRow
reservation_table = record {
  rows = λ s. s.reservations;
  with_rows = λ l s. record s { reservations = l };
  clashes = λ a b.
      a.id == b.id
      || (str_eq a.binding_namespace b.binding_namespace && str_eq a.binding_key b.binding_key);
  is_checked = λ r. ltb_ℤ (pos 0) r.target_amount;
}

abbrev pub account_table : Table AccountRow
account_table = record {
  rows = λ s. s.accounts;
  with_rows = λ l s. record s { accounts = l };
  clashes = λ a b.
      a.id == b.id
      || both_id a.reservation_id b.reservation_id
      || (both_id a.holder_id b.holder_id
          && str_eq a.currency b.currency
          && str_eq a.purpose b.purpose);
  is_checked = λ r. true;
}

abbrev pub lot_table : Table LotRow
lot_table = record {
  rows = λ s. s.lots;
  with_rows = λ l s. record s { lots = l };
  clashes = λ a b.
      a.id == b.id
      || both_text a.source_operation_id b.source_operation_id
      || both_text a.source_swap_action_id b.source_swap_action_id;
  is_checked = λ r.
      ltb_ℤ (pos 0) r.original_amount
      && (leb_ℤ (pos 0) r.remaining_amount && leb_ℤ r.remaining_amount r.original_amount);
}

abbrev pub transfer_table : Table TransferRow
transfer_table = record {
  rows = λ s. s.transfers;
  with_rows = λ l s. record s { transfers = l };
  clashes =
      λ a b. a.id == b.id || a.reservation_id == b.reservation_id || str_eq a.action_id b.action_id;
  is_checked = λ r. ltb_ℤ (pos 0) r.amount && not (r.from_account_id == r.to_account_id);
}

abbrev pub transfer_allocation_table : Table TransferAllocationRow
transfer_allocation_table = record {
  rows = λ s. s.transfer_allocations;
  with_rows = λ l s. record s { transfer_allocations = l };
  clashes = λ a b. a.transfer_id == b.transfer_id && a.lot_id == b.lot_id;
  is_checked = λ r. ltb_ℤ (pos 0) r.amount;
}

abbrev pub flow_table : Table FlowRow
flow_table = record {
  rows = λ s. s.flows;
  with_rows = λ l s. record s { flows = l };
  clashes = λ a b. str_eq a.id b.id;
  is_checked = λ r. true;
}

abbrev pub policy_table : Table PolicyRow
policy_table = record {
  rows = λ s. s.policies;
  with_rows = λ l s. record s { policies = l };
  clashes = λ a b. str_eq a.flow_id b.flow_id && same_command_kind a.command_kind b.command_kind;
  is_checked = λ r. true;
}

-- The key of a command.
abbrev pub has_key : ℕ → FinancialCommandKind → String → CommandRow → Bool
has_key principal kind key r =
    r.principal_id == principal && same_command_kind r.kind kind && str_eq r.idempotency_key key

-- The charges of points have an index of their own: one for each payment.
abbrev pub is_charge : CommandRow → Bool
is_charge r = same_flow_kind r.flow_kind point_charge && same_command_kind r.kind charge

abbrev pub same_payment : CommandRow → CommandRow → Bool
same_payment a b =
    is_charge a
    && is_charge b
    && str_eq a.subject_namespace b.subject_namespace
    && str_eq a.subject_key b.subject_key

abbrev pub command_table : Table CommandRow
command_table = record {
  rows = λ s. s.commands;
  with_rows = λ l s. record s { commands = l };
  clashes = λ a b.
      str_eq a.id b.id || has_key b.principal_id b.kind b.idempotency_key a || same_payment a b;
  is_checked = λ r. true;
}

abbrev pub operation_table : Table OperationRow
operation_table = record {
  rows = λ s. s.operations;
  with_rows = λ l s. record s { operations = l };
  clashes = λ a b. str_eq a.id b.id || str_eq a.originating_command_id b.originating_command_id;
  is_checked = λ r. true;
}

abbrev pub transfer_action_table : Table TransferActionRow
transfer_action_table = record {
  rows = λ s. s.transfer_actions;
  with_rows = λ l s. record s { transfer_actions = l };
  clashes = λ a b. str_eq a.id b.id || str_eq a.operation_id b.operation_id;
  is_checked = λ r. true;
}

abbrev pub swap_action_table : Table SwapActionRow
swap_action_table = record {
  rows = λ s. s.swap_actions;
  with_rows = λ l s. record s { swap_actions = l };
  clashes = λ a b.
      str_eq a.id b.id
      || str_eq a.operation_id b.operation_id
      || a.reservation_id == b.reservation_id;
  is_checked = λ r. true;
}

abbrev pub swap_leg_table : Table SwapLegRow
swap_leg_table = record {
  rows = λ s. s.swap_legs;
  with_rows = λ l s. record s { swap_legs = l };
  clashes = λ a b. str_eq a.action_id b.action_id && str_eq a.currency b.currency;
  is_checked = λ r. ltb_ℤ (pos 0) r.amount && not (r.from_account_id == r.to_account_id);
}

abbrev pub withdrawal_table : Table WithdrawalRow
withdrawal_table = record {
  rows = λ s. s.withdrawals;
  with_rows = λ l s. record s { withdrawals = l };
  clashes = λ a b.
      str_eq a.id b.id
      || str_eq a.flow_id b.flow_id
      || str_eq a.operation_id b.operation_id
      || str_eq a.transfer_action_id b.transfer_action_id
      || a.reservation_id == b.reservation_id;
  is_checked = λ r. true;
}

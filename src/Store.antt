-- ===== src/Store.antt =====
-- The tables of the financial ledger, the transaction flows and the commissions
-- (prisma/schema.prisma, models CommissionType to FinancialWithdrawal): their rows.
pub mod Tables
pub mod Client
use ts_graphql_reference.Base.{ℕ, Option, List, String}
use ts_graphql_reference.Int.{ℤ}
use ts_graphql_reference.Flow.{TransactionFlowKind, FinancialCommandKind}

pub record CommissionTypeRow : Type 0 where
  pub id : ℕ
  pub worker_id : ℕ
  pub price : ℤ

pub record SlotRow : Type 0 where
  pub id : ℕ
  pub worker_id : ℕ
  pub state : String

pub record OrderRow : Type 0 where
  pub id : ℕ
  pub buyer_id : ℕ
  pub commission_type_id : ℕ
  pub slot_id : ℕ
  pub flow_id : String
  pub amount : ℤ
  pub currency : String
  pub state : String

pub record OrderPaymentRow : Type 0 where
  pub id : ℕ
  pub order_id : ℕ
  pub flow_id : String
  pub amount : ℤ
  pub currency : String
  pub state : String

pub record OrderLinkRow : Type 0 where
  pub order_payment_id : ℕ
  pub flow_id : String
  pub reservation_id : ℕ

pub record ContractRow : Type 0 where
  pub id : ℕ
  pub order_id : ℕ
  pub flow_id : String
  pub buyer_id : ℕ
  pub worker_id : ℕ

pub record HolderRow : Type 0 where
  pub id : ℕ
  pub binding_namespace : String
  pub binding_key : String

pub record ReservationRow : Type 0 where
  pub id : ℕ
  pub flow_id : String
  pub binding_namespace : String
  pub binding_key : String
  pub holder_id : ℕ
  pub purpose : String
  pub currency : String
  pub target_amount : ℤ
  pub state : String

-- An account belongs to a holder or to a reservation.
pub record AccountRow : Type 0 where
  pub id : ℕ
  pub currency : String
  pub purpose : String
  pub holder_id : Option ℕ
  pub reservation_id : Option ℕ

pub record LotRow : Type 0 where
  pub id : ℕ
  pub account_id : ℕ
  pub currency : String
  pub source_kind : String
  pub source_operation_id : Option String
  pub source_swap_action_id : Option String
  pub source_flow_id : Option String
  pub source_flow_kind : Option TransactionFlowKind
  pub source_operation_kind : Option FinancialCommandKind
  pub issuance_reason : Option String
  pub accounting_category : Option String
  pub accounting_policy_version : Option String
  pub original_amount : ℤ
  pub remaining_amount : ℤ
  pub created_at : ℤ

pub record TransferRow : Type 0 where
  pub id : ℕ
  pub reservation_id : ℕ
  pub flow_id : String
  pub currency : String
  pub from_account_id : ℕ
  pub to_account_id : ℕ
  pub amount : ℤ
  pub action_id : String

pub record TransferAllocationRow : Type 0 where
  pub transfer_id : ℕ
  pub from_account_id : ℕ
  pub currency : String
  pub lot_id : ℕ
  pub amount : ℤ

pub record FlowRow : Type 0 where
  pub id : String
  pub kind : TransactionFlowKind

pub record PolicyRow : Type 0 where
  pub flow_id : String
  pub command_kind : FinancialCommandKind

pub record CommandRow : Type 0 where
  pub id : String
  pub flow_id : String
  pub flow_kind : TransactionFlowKind
  pub kind : FinancialCommandKind
  pub principal_id : ℕ
  pub idempotency_key : String
  pub payload_hash : String
  pub subject_namespace : String
  pub subject_key : String
  pub result_operation_id : Option String
  pub created_at : ℤ

pub record OperationRow : Type 0 where
  pub id : String
  pub flow_id : String
  pub kind : FinancialCommandKind
  pub originating_command_id : String

pub record TransferActionRow : Type 0 where
  pub id : String
  pub flow_id : String
  pub operation_id : String
  pub operation_kind : FinancialCommandKind

pub record SwapActionRow : Type 0 where
  pub id : String
  pub flow_id : String
  pub operation_id : String
  pub operation_kind : FinancialCommandKind
  pub reservation_id : ℕ
  pub beneficiary_holder_id : ℕ

pub record SwapLegRow : Type 0 where
  pub action_id : String
  pub flow_id : String
  pub currency : String
  pub from_account_id : ℕ
  pub to_account_id : ℕ
  pub amount : ℤ

pub record WithdrawalRow : Type 0 where
  pub id : String
  pub flow_id : String
  pub flow_kind : TransactionFlowKind
  pub operation_id : String
  pub operation_kind : FinancialCommandKind
  pub transfer_action_id : String
  pub reservation_id : ℕ

-- `next_id` numbers the rows of all tables, and `now` is what the columns default to.
pub record Store : Type 0 where
  pub commission_types : List CommissionTypeRow
  pub slots : List SlotRow
  pub orders : List OrderRow
  pub order_payments : List OrderPaymentRow
  pub order_links : List OrderLinkRow
  pub contracts : List ContractRow
  pub holders : List HolderRow
  pub reservations : List ReservationRow
  pub accounts : List AccountRow
  pub lots : List LotRow
  pub transfers : List TransferRow
  pub transfer_allocations : List TransferAllocationRow
  pub flows : List FlowRow
  pub policies : List PolicyRow
  pub commands : List CommandRow
  pub operations : List OperationRow
  pub transfer_actions : List TransferActionRow
  pub swap_actions : List SwapActionRow
  pub swap_legs : List SwapLegRow
  pub withdrawals : List WithdrawalRow
  pub next_id : ℕ
  pub now : ℤ

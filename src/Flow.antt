-- ===== src/Flow.antt =====
-- src/modules/transaction-flow/transaction-flow.core.ts: the public references of flows, commands
-- and operations.
pub mod Reference
pub mod Repo
pub mod Commands
pub mod Completed
pub mod Aliased
use Prim.Native.String.{◌++◌}
use ts_graphql_reference.Base.{String}

pub data TransactionFlowKind : Type 0 where
  commission withdrawal point_charge : TransactionFlowKind

pub data FinancialCommandKind : Type 0 where
  pay extra_pay settle refund cancel withdraw charge : FinancialCommandKind

unfoldable pub flow_kind_text : TransactionFlowKind → String
flow_kind_text commission = "COMMISSION"
flow_kind_text withdrawal = "WITHDRAWAL"
flow_kind_text point_charge = "POINT_CHARGE"

unfoldable pub command_kind_text : FinancialCommandKind → String
command_kind_text pay = "PAY"
command_kind_text extra_pay = "EXTRA_PAY"
command_kind_text settle = "SETTLE"
command_kind_text refund = "REFUND"
command_kind_text cancel = "CANCEL"
command_kind_text withdraw = "WITHDRAW"
command_kind_text charge = "CHARGE"

unfoldable pub format_transaction_reference : TransactionFlowKind → String → String
unfolding flow_kind_text
format_transaction_reference kind id = flow_kind_text kind ++ ("-" ++ id)

unfoldable pub format_command_id : FinancialCommandKind → String → String
unfolding command_kind_text
format_command_id kind id = "CMD-" ++ (command_kind_text kind ++ ("-" ++ id))

unfoldable pub format_operation_id : FinancialCommandKind → String → String
unfolding command_kind_text
format_operation_id kind id = "OP-" ++ (command_kind_text kind ++ ("-" ++ id))

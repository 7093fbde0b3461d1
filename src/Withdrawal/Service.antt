-- ===== src/Withdrawal/Service.antt =====
-- src/modules/income-withdrawal/income-withdrawal.repo.ts and income-withdrawal.service.ts: a
-- withdrawal of income, once for a command key.
use Prim.Native.String.{◌++◌}
use ts_graphql_reference.Base.{
  ℕ, Bool, true, false, Option, none, some, List, [], ◌∷◌, map, String, str_eq,
}
use ts_graphql_reference.Int.{ℤ}
use ts_graphql_reference.Decimal.{decimal}
use ts_graphql_reference.Failure.{Result, ok, err}
use ts_graphql_reference.Tx.{Tx, pure, lift, ◌>>=◌, ◌>>◌}
use ts_graphql_reference.Uow
use ts_graphql_reference.Uow.Alone.{alone}
use ts_graphql_reference.Locks.{LockKey}
use ts_graphql_reference.Locks.Registry.{lock_key, financial_holder, income_withdrawal_command}
use ts_graphql_reference.Flow.{
  FinancialCommandKind, withdrawal, commission, flow_kind_text, command_kind_text,
  format_transaction_reference, format_command_id, format_operation_id,
}
use ts_graphql_reference.Runtime.{Runtime, set_constraints}
use ts_graphql_reference.Store.{Store, FlowRow, CommandRow, OperationRow, WithdrawalRow}
use ts_graphql_reference.Store.Tables.{withdrawal_table}
use ts_graphql_reference.Store.Client.{create, find_unique_or_throw}
use ts_graphql_reference.Flow.Repo.{
  StoredCommand, FinancialCommandRequest, find_command, create_flow, start_command,
  create_operation, complete_command,
}
use ts_graphql_reference.Ledger.Loads.{find_holder_id, load_available_income_world}
use ts_graphql_reference.Ledger.Sources.{WithdrawalSource, load_income_withdrawal_sources}
use ts_graphql_reference.Ledger.Writes.{
  IncomeReservationRequest, create_transfer_action, apply_income_withdrawal_reservation,
}
use ts_graphql_reference.Withdrawal.{
  IncomeWithdrawalInput, IncomeWithdrawalPlan, WithdrawalReplayIdentity, WithdrawalCommandRequest,
  WithdrawalReservation, assert_income_withdrawal_replay, plan_income_withdrawal,
}
use ts_graphql_reference.PointCharge.Service.{CompletedIdentity, text_or_empty}

pub record CommissionSource : Type 0 where
  pub commission_reference_id : String
  pub amount : ℤ

pub record IncomeWithdrawalResult : Type 0 where
  pub withdrawal_id : String
  pub reservation_id : ℕ
  pub reference_id : String
  pub command_id : String
  pub operation_id : String
  pub replayed : Bool
  pub sources : List CommissionSource

abbrev pub replay_of : StoredCommand → WithdrawalReplayIdentity
replay_of c = record {
  flow_id = c.flow_id;
  flow_kind = flow_kind_text c.flow_kind;
  kind = command_kind_text c.kind;
  payload_hash = c.payload_hash;
  subject_namespace = c.subject_namespace;
  subject_key = c.subject_key;
  operation_db_id = c.operation_db_id;
  reference_id = c.reference_id;
  command_id = c.command_id;
  operation_id = c.operation_id;
}

abbrev pub source_reference : WithdrawalSource → CommissionSource
source_reference x = record {
  commission_reference_id = format_transaction_reference commission x.flow_id;
  amount = x.amount;
}

unfoldable pub load_withdrawal_result : String → Tx Store WithdrawalRow
unfolding find_unique_or_throw
load_withdrawal_result flow_id =
    find_unique_or_throw withdrawal_table (λ w. str_eq w.flow_id flow_id)

-- The identity of a completed withdrawal, with its flow.
unfoldable pub load_result : String → CompletedIdentity → Bool → Tx Store IncomeWithdrawalResult
unfolding load_withdrawal_result load_income_withdrawal_sources
load_result flow_id identity replayed = do
  stored ← load_withdrawal_result flow_id
  sources ← load_income_withdrawal_sources stored.reservation_id
  pure (record {
    withdrawal_id = stored.id;
    reservation_id = stored.reservation_id;
    reference_id = identity.reference_id;
    command_id = identity.command_id;
    operation_id = identity.operation_id;
    replayed = replayed;
    sources = map source_reference sources;
  })

abbrev pub replayed_identity : WithdrawalReplayIdentity → CompletedIdentity
replayed_identity c = record {
  operation_db_id = text_or_empty c.operation_db_id;
  reference_id = c.reference_id;
  command_id = c.command_id;
  operation_id = text_or_empty c.operation_id;
}

-- The command and the reservation of the plan, with the flow that the plan left open.
abbrev pub withdrawal_request : WithdrawalCommandRequest → String → String → FinancialCommandRequest
withdrawal_request command payload_hash flow_id = record {
  flow_id = flow_id;
  flow_kind = withdrawal;
  kind = FinancialCommandKind.withdraw;
  principal_id = command.principal_id;
  idempotency_key = command.idempotency_key;
  payload_hash = payload_hash;
  subject_namespace = command.subject_namespace;
  subject_key = flow_id;
}

abbrev pub bound_reservation : WithdrawalReservation → String → IncomeReservationRequest
bound_reservation request flow_id = record {
  binding_namespace = request.binding_namespace;
  binding_key = flow_id;
  holder_id = request.holder_id;
  purpose = request.purpose;
  currency = request.currency;
  amount = request.amount;
  escrow_account = request.escrow_account;
  transfer = request.transfer;
}

module _ (runtime : Runtime) where
  unfoldable pub create_withdrawal :
      (flow_id operation_id transfer_action_id : String) → ℕ → Tx Store WithdrawalRow
  unfolding create
  create_withdrawal flow_id operation_id transfer_action_id reservation_id =
      create withdrawal_table λ i. record {
        id = runtime.uuid i;
        flow_id = flow_id;
        flow_kind = withdrawal;
        operation_id = operation_id;
        operation_kind = FinancialCommandKind.withdraw;
        transfer_action_id = transfer_action_id;
        reservation_id = reservation_id;
      }

  unfoldable pub assert_withdrawal_shape : Tx Store (Unit {0})
  assert_withdrawal_shape = set_constraints runtime (
      "FinancialWithdrawal_shape_check" ∷ "FinancialWithdrawal_totality_check"
      ∷ "FinancialCommand_effect_completeness_check" ∷ "FinancialTransfer_command_completion_check"
      ∷ [])

  unfoldable pub hash_payload : IncomeWithdrawalInput → String
  unfolding decimal
  hash_payload input =
      runtime.sha256
        ("[" ++ (decimal input.actor_id ++ ("," ++ (runtime.json_number input.amount ++ "]"))))

  -- The writes of a new withdrawal, from the transfer action on, and its result.
  unfoldable pub write_withdrawal :
      IncomeWithdrawalPlan → FlowRow → CommandRow → OperationRow → Tx Store IncomeWithdrawalResult
  unfolding create_transfer_action apply_income_withdrawal_reservation create_withdrawal
      complete_command assert_withdrawal_shape load_result
  write_withdrawal plan flow command operation = do
    action ← create_transfer_action runtime operation.id flow.id FinancialCommandKind.withdraw
    reservation ←
        apply_income_withdrawal_reservation flow.id
          (bound_reservation plan.reservation_request flow.id) action.id
    create_withdrawal flow.id operation.id action.id reservation.id
    complete_command runtime command.id operation.id
    assert_withdrawal_shape
    load_result flow.id
        (record {
          operation_db_id = operation.id;
          reference_id = format_transaction_reference flow.kind flow.id;
          command_id = format_command_id command.kind command.id;
          operation_id = format_operation_id operation.kind operation.id;
        })
        false

  -- What a withdrawal that is no replay reads, decides and writes.
  unfoldable pub post_withdrawal : IncomeWithdrawalInput → ℕ → Tx Store IncomeWithdrawalResult
  unfolding load_available_income_world plan_income_withdrawal create_flow start_command
      create_operation write_withdrawal hash_payload
  post_withdrawal input locked_holder_id = do
    world ← load_available_income_world locked_holder_id
    plan ← lift (plan_income_withdrawal world input)
    flow ← create_flow runtime withdrawal (FinancialCommandKind.withdraw ∷ [])
    command ←
        start_command runtime (withdrawal_request plan.command_request (hash_payload input) flow.id)
    operation ← create_operation runtime flow.id FinancialCommandKind.withdraw command.id
    write_withdrawal plan flow command operation

  -- `if (existing) { … }`
  unfoldable pub continue_withdrawal :
      IncomeWithdrawalInput → ℕ → Option StoredCommand → Tx Store IncomeWithdrawalResult
  unfolding assert_income_withdrawal_replay post_withdrawal load_result hash_payload
  continue_withdrawal input locked_holder_id (some stored) = do
    identity ← lift (assert_income_withdrawal_replay (replay_of stored) (hash_payload input))
    load_result identity.flow_id (replayed_identity identity) true
  continue_withdrawal input locked_holder_id none = post_withdrawal input locked_holder_id

  unfoldable pub execute_withdrawal : IncomeWithdrawalInput → ℕ → Tx Store IncomeWithdrawalResult
  unfolding find_command continue_withdrawal
  execute_withdrawal input locked_holder_id = do
    existing ← find_command input.actor_id FinancialCommandKind.withdraw input.command_key
    continue_withdrawal input locked_holder_id existing

  abbrev pub withdrawal_keys : IncomeWithdrawalInput → ℕ → List LockKey
  withdrawal_keys input holder_id =
      lock_key financial_holder holder_id
      ∷ lock_key income_withdrawal_command
          (decimal input.actor_id ++ (":WITHDRAW:" ++ input.command_key))
      ∷ []

  -- The holder is read before the transaction: what others do in between is `others`.
  unfoldable pub request :
      (Store → Store) → IncomeWithdrawalInput → Store → Result IncomeWithdrawalResult × Store
  unfolding find_holder_id execute_withdrawal
  request others input s = elim (find_holder_id "user" (decimal input.actor_id) s) [
    | err e ↦ (err e, s)
    | ok (holder_id, t) ↦
        Uow.serialized (alone Store) (withdrawal_keys input holder_id)
          (execute_withdrawal input holder_id) false (others t)
  ]

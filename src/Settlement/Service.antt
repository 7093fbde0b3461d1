-- ===== src/Settlement/Service.antt =====
-- src/modules/commission-settlement/commission-settlement.service.ts: a worker's settlement of a
-- commission, once for a command key and once for a contract.
use Prim.Native.String.{◌++◌}
use ts_graphql_reference.Base.{ℕ, Bool, true, false, Option, none, some, List, [], ◌∷◌, String}
use ts_graphql_reference.Decimal.{decimal}
use ts_graphql_reference.Failure.{Result, ok, err}
use ts_graphql_reference.Tx.{Tx, pure, lift, ◌>>=◌, ◌>>◌}
use ts_graphql_reference.Uow
use ts_graphql_reference.Uow.Alone.{alone}
use ts_graphql_reference.Locks.{LockKey}
use ts_graphql_reference.Locks.Registry.{
  lock_key, financial_holder, commission_contract, commission_settlement_command,
}
use ts_graphql_reference.Flow.{
  FinancialCommandKind, commission, flow_kind_text, command_kind_text, format_transaction_reference,
  format_command_id, format_operation_id,
}
use ts_graphql_reference.Runtime.{Runtime}
use ts_graphql_reference.Store.{Store}
use ts_graphql_reference.Flow.Repo.{
  StoredCommand, FinancialCommandRequest, find_command, find_completed_command_by_subject,
  start_command, create_operation, complete_command, save_command_alias,
  assert_command_effect_completeness,
}
use ts_graphql_reference.Ledger.Loads.{
  find_holder_id, load_commission_settlement_funding, load_commission_settlement_accounts,
  load_commission_settlement_ledger_result,
}
use ts_graphql_reference.Ledger.Writes.{
  apply_commission_income_settlement, assert_commission_settlement_shape,
}
use ts_graphql_reference.Commerce.{
  load_commission_settlement_contract, load_commission_settlement_order_snapshot,
}
use ts_graphql_reference.Settlement.{
  StoredCommissionSettlementCommand, RequestedSettlement, commission_contract_namespace,
  plan_commission_settlement, plan_commission_settlement_start, SettlementStart, proceed, replay,
  alias, assert_commission_settlement_holder_identity, assert_commission_settlement_replay_flow,
}
use ts_graphql_reference.Settlement.Data.{CommissionSettlementInput, SettlementCommandRequest}
use ts_graphql_reference.PointCharge.Service.{text_or_empty}

pub record CommissionSettlementResult : Type 0 where
  pub contract_id : ℕ
  pub reservation_id : ℕ
  pub income_lot_id : ℕ
  pub reference_id : String
  pub command_id : String
  pub operation_id : String
  pub replayed : Bool

abbrev pub stored_settlement : StoredCommand → StoredCommissionSettlementCommand
stored_settlement c = record {
  flow_id = c.flow_id;
  flow_kind = flow_kind_text c.flow_kind;
  kind = command_kind_text c.kind;
  payload_hash = c.payload_hash;
  subject_namespace = c.subject_namespace;
  subject_key = c.subject_key;
  operation_db_id = c.operation_db_id;
  operation_id = c.operation_id;
  reference_id = c.reference_id;
  command_id = c.command_id;
}

abbrev pub stored_if : Option StoredCommand → Option StoredCommissionSettlementCommand
stored_if none = none
stored_if (some c) = some (stored_settlement c)

-- The literal kinds of a request, and its fields.
abbrev pub settlement_request :
    CommissionSettlementInput → String → (flow_id : String) → FinancialCommandRequest
settlement_request input payload_hash flow_id = record {
  flow_id = flow_id;
  flow_kind = commission;
  kind = FinancialCommandKind.settle;
  principal_id = input.actor_id;
  idempotency_key = input.command_key;
  payload_hash = payload_hash;
  subject_namespace = commission_contract_namespace;
  subject_key = decimal input.contract_id;
}

abbrev pub requested_settlement : FinancialCommandRequest → RequestedSettlement
requested_settlement r = record {
  flow_kind = flow_kind_text r.flow_kind;
  kind = command_kind_text r.kind;
  payload_hash = r.payload_hash;
  subject_namespace = r.subject_namespace;
  subject_key = r.subject_key;
}

-- The command of the plan, with the hash of the payload.
abbrev pub planned_request : SettlementCommandRequest → String → FinancialCommandRequest
planned_request r payload_hash = record {
  flow_id = r.flow_id;
  flow_kind = commission;
  kind = FinancialCommandKind.settle;
  principal_id = r.principal_id;
  idempotency_key = r.idempotency_key;
  payload_hash = payload_hash;
  subject_namespace = r.subject_namespace;
  subject_key = r.subject_key;
}

unfoldable pub load_result :
    StoredCommissionSettlementCommand → ℕ → Bool → Tx Store CommissionSettlementResult
unfolding load_commission_settlement_contract assert_commission_settlement_replay_flow
    load_commission_settlement_ledger_result
load_result identity contract_id replayed = do
  contract ← load_commission_settlement_contract contract_id
  lift (assert_commission_settlement_replay_flow identity.flow_id contract.flow_id)
  ledger_result ← load_commission_settlement_ledger_result (text_or_empty identity.operation_db_id)
  pure (record {
    contract_id = contract_id;
    reservation_id = ledger_result.reservation_id;
    income_lot_id = ledger_result.income_lot_id;
    reference_id = identity.reference_id;
    command_id = identity.command_id;
    operation_id = text_or_empty identity.operation_id;
    replayed = replayed;
  })

-- `existing ? null : findCompletedCommandBySubject(tx, requested)`
unfoldable pub completed_contract :
    FinancialCommandRequest → Option StoredCommand → Tx Store (Option StoredCommand)
unfolding find_completed_command_by_subject
completed_contract requested (some existing) = pure none
completed_contract requested none =
    find_completed_command_by_subject requested.flow_kind requested.kind requested.subject_namespace
      requested.subject_key

module _ (runtime : Runtime) where
  unfoldable pub hash_payload : CommissionSettlementInput → String
  unfolding decimal
  hash_payload input =
      runtime.sha256
        ("[" ++ (decimal input.contract_id ++ ("," ++ (decimal input.actor_id ++ "]"))))

  -- A second key for what is settled already.
  unfoldable pub save_alias :
      CommissionSettlementInput
      → StoredCommissionSettlementCommand
      → Tx Store CommissionSettlementResult
  unfolding load_result save_command_alias assert_command_effect_completeness hash_payload
  save_alias input identity = do
    stored ← load_result identity input.contract_id true
    alias_row ←
        save_command_alias runtime (settlement_request input (hash_payload input) identity.flow_id)
          (text_or_empty identity.operation_db_id)
    assert_command_effect_completeness runtime
    pure (record stored { command_id = format_command_id alias_row.kind alias_row.id })

  -- The reads, the decision and the writes of a settlement that is no replay.
  unfoldable pub post_settlement :
      CommissionSettlementInput → ℕ → Tx Store CommissionSettlementResult
  unfolding load_commission_settlement_contract load_commission_settlement_order_snapshot
      find_holder_id assert_commission_settlement_holder_identity load_commission_settlement_funding
      load_commission_settlement_accounts plan_commission_settlement start_command create_operation
      apply_commission_income_settlement complete_command assert_commission_settlement_shape
      hash_payload
  post_settlement input locked_worker_holder_id = do
    contract ← load_commission_settlement_contract input.contract_id
    commerce ← load_commission_settlement_order_snapshot contract.order_id
    worker_holder_id ← find_holder_id "user" (decimal contract.worker_id)
    lift (assert_commission_settlement_holder_identity locked_worker_holder_id worker_holder_id)
    funding ← load_commission_settlement_funding commerce.payment.funding_link.reservation_id
    accounts ← load_commission_settlement_accounts worker_holder_id
    plan ← lift (
        plan_commission_settlement
          (record {
            contract = contract;
            order = commerce.order;
            payment = commerce.payment;
            funding = funding;
            accounts = accounts;
          })
          input)
    command ← start_command runtime (planned_request plan.command_request (hash_payload input))
    operation ← create_operation runtime command.flow_id FinancialCommandKind.settle command.id
    (action, lot) ← apply_commission_income_settlement runtime plan.swap operation.id
    complete_command runtime command.id operation.id
    assert_commission_settlement_shape runtime
    pure (record {
      contract_id = input.contract_id;
      reservation_id = plan.swap.reservation_id;
      income_lot_id = lot.id;
      reference_id = format_transaction_reference command.flow_kind command.flow_id;
      command_id = format_command_id command.kind command.id;
      operation_id = format_operation_id operation.kind operation.id;
      replayed = false;
    })

  -- What the start decides: to load the stored settlement, to add a key to it, or to post one.
  unfoldable pub continue_settlement :
      CommissionSettlementInput → ℕ → SettlementStart → Tx Store CommissionSettlementResult
  unfolding load_result save_alias post_settlement
  continue_settlement input locked_worker_holder_id (replay identity) =
      load_result identity input.contract_id true
  continue_settlement input locked_worker_holder_id (alias identity) = save_alias input identity
  continue_settlement input locked_worker_holder_id proceed =
      post_settlement input locked_worker_holder_id

  unfoldable pub execute_settlement :
      CommissionSettlementInput → ℕ → Tx Store CommissionSettlementResult
  unfolding find_command completed_contract plan_commission_settlement_start continue_settlement
      hash_payload
  execute_settlement input locked_worker_holder_id = do
    let requested = settlement_request input (hash_payload input) ""
    existing ← find_command requested.principal_id requested.kind requested.idempotency_key
    completed ← completed_contract requested existing
    start ← lift (
        plan_commission_settlement_start (stored_if existing) (stored_if completed)
          (requested_settlement requested))
    continue_settlement input locked_worker_holder_id start

  abbrev pub settlement_keys : CommissionSettlementInput → ℕ → List LockKey
  settlement_keys input worker_holder_id =
      lock_key commission_contract input.contract_id
      ∷ lock_key financial_holder worker_holder_id
      ∷ lock_key commission_settlement_command
          (decimal input.actor_id ++ (":SETTLE:" ++ input.command_key))
      ∷ []

  -- The reads before the transaction.
  unfoldable pub locked_worker_holder : ℕ → Tx Store ℕ
  unfolding load_commission_settlement_contract find_holder_id
  locked_worker_holder contract_id = do
    lock_contract ← load_commission_settlement_contract contract_id
    find_holder_id "user" (decimal lock_contract.worker_id)

  -- What others do before the transaction begins is `others`.
  unfoldable pub settle :
      (Store → Store)
      → CommissionSettlementInput
      → Store
      → Result CommissionSettlementResult × Store
  unfolding locked_worker_holder execute_settlement
  settle others input s = elim (locked_worker_holder input.contract_id s) [
    | err e ↦ (err e, s)
    | ok (holder_id, t) ↦
        Uow.serialized (alone Store) (settlement_keys input holder_id)
          (execute_settlement input holder_id) false (others t)
  ]

-- ===== src/Checkout/Stored.antt =====
-- src/modules/commission-checkout/commission-checkout.repo.ts, and of commission-checkout.service.ts
-- the data and the replay of a checkout that has been completed.
use Prim.Native.String.{◌++◌}
use ts_graphql_reference.Base.{
  ℕ, Bool, true, false, Option, none, some, List, String, ◌==◌, str_ne, str_eq, if◌then◌else◌,
}
use ts_graphql_reference.Decimal.{decimal}
use ts_graphql_reference.Failure.{Result, ok, err, plain_error}
use ts_graphql_reference.Tx.{Tx, pure, lift, throw_if, ◌>>=◌, ◌>>◌}
use ts_graphql_reference.Locks.{LockKey}
use ts_graphql_reference.Flow.{
  FinancialCommandKind, commission, flow_kind_text, command_kind_text, format_command_id,
}
use ts_graphql_reference.Runtime.{Runtime}
use ts_graphql_reference.Store.{Store}
use ts_graphql_reference.Store.Tables.{
  order_payment_table, order_table, order_link_table, contract_table,
}
use ts_graphql_reference.Store.Client.{find_unique, find_unique_or_throw}
use ts_graphql_reference.Flow.Repo.{
  StoredCommand, FinancialCommandRequest, find_command, find_completed_command_by_subject,
  save_command_alias, assert_command_effect_completeness,
}
use ts_graphql_reference.Ledger.{FinancialAllocation}
use ts_graphql_reference.Ledger.Loads.{or_throw_with}
use ts_graphql_reference.Commerce.{order_of}
use ts_graphql_reference.Checkout.{
  CommissionCheckoutInput, CommissionCheckoutPlan, CommissionCheckoutEconomicResult,
  CommissionCheckoutLockTargets, ReplayIdentity, ExistingCommissionCheckout,
  CommissionCheckoutStartPlan, proceed, replay, commission_order_payment_namespace,
  assert_commission_checkout_replay_identity, plan_commission_checkout_start,
}

pub record CommissionCheckoutResult : Type 0 where
  pub economic_result : CommissionCheckoutEconomicResult
  pub replayed : Bool

pub record PreparedCommissionCheckout : Type 0 where
  pub input : CommissionCheckoutInput
  pub payload_hash : String
  pub locked_targets : CommissionCheckoutLockTargets
  pub lock_keys : List LockKey

pub record ExecutableCommissionCheckoutPlan : Type 0 where
  pub commission_plan : CommissionCheckoutPlan
  pub account_id : ℕ
  pub allocations : List FinancialAllocation

-- A stored command with its operation.
pub record CompletedCommand : Type 0 where
  pub stored : StoredCommand
  pub operation_db_id : String
  pub operation_id : String

-- `!operationDbId || !operationId` throws; what passed are two texts.
unfoldable pub require_completed_command : StoredCommand → Result CompletedCommand
require_completed_command identity = elim identity.operation_db_id [
  | none ↦ err (plain_error "Financial command has no completed economic result")
  | some operation_db_id ↦ elim identity.operation_id [
    | none ↦ err (plain_error "Financial command has no completed economic result")
    | some operation_id ↦
        if str_eq operation_db_id ""
        then err (plain_error "Financial command has no completed economic result")
        else if str_eq operation_id ""
        then err (plain_error "Financial command has no completed economic result")
        else ok (record {
          stored = identity;
          operation_db_id = operation_db_id;
          operation_id = operation_id;
        })
  ]
]

pub record CompletedCheckout : Type 0 where
  pub buyer_id : ℕ
  pub result : CommissionCheckoutEconomicResult

module _ (runtime : Runtime) where
  -- `Number(subjectKey)`, and what the payment of that number has led to.
  unfoldable pub load_completed_commission_checkout_result :
      CompletedCommand → Tx Store CompletedCheckout
  unfolding find_unique find_unique_or_throw
  load_completed_commission_checkout_result identity = do
    order_payment_id ← lift (
        or_throw_with (plain_error "Commission payment subject is invalid")
          (runtime.number_of identity.stored.subject_key))
    payment ← find_unique_or_throw order_payment_table (λ p. p.id == order_payment_id)
    order ← find_unique_or_throw order_table (order_of payment)
    link ← find_unique order_link_table (λ l. l.order_payment_id == payment.id)
    contract ← find_unique contract_table (λ c. c.order_id == order.id)
    throw_if (str_ne payment.flow_id identity.stored.flow_id)
        (plain_error "Commission payment belongs to another flow")
    financial_link ←
        lift (or_throw_with (plain_error "Commission payment has no completed result") link)
    formed ←
        lift (or_throw_with (plain_error "Commission payment has no completed result") contract)
    pure (record {
      buyer_id = order.buyer_id;
      result = record {
        order_id = order.id;
        order_payment_id = order_payment_id;
        contract_id = formed.id;
        reservation_id = financial_link.reservation_id;
        reference_id = identity.stored.reference_id;
        command_id = identity.stored.command_id;
        operation_id = identity.operation_id;
      };
    })

  unfoldable pub hash_commission_checkout_payload : CommissionCheckoutInput → String
  unfolding decimal
  hash_commission_checkout_payload input =
      runtime.sha256
        ("[" ++ (decimal input.order_payment_id ++ ("," ++ (decimal input.actor_id ++ "]"))))

-- `planCommissionCheckoutCommand` with the hash; its literal kinds have one value each. A lookup
-- has no flow yet.
abbrev pub checkout_request :
    CommissionCheckoutInput → String → (flow_id : String) → FinancialCommandRequest
checkout_request input payload_hash flow_id = record {
  flow_id = flow_id;
  flow_kind = commission;
  kind = FinancialCommandKind.pay;
  principal_id = input.actor_id;
  idempotency_key = input.command_key;
  payload_hash = payload_hash;
  subject_namespace = commission_order_payment_namespace;
  subject_key = decimal input.order_payment_id;
}

abbrev pub stored_identity : StoredCommand → ReplayIdentity
stored_identity c = record {
  flow_kind = flow_kind_text c.flow_kind;
  kind = command_kind_text c.kind;
  payload_hash = c.payload_hash;
  subject_namespace = c.subject_namespace;
  subject_key = c.subject_key;
}

abbrev pub requested_identity : FinancialCommandRequest → ReplayIdentity
requested_identity r = record {
  flow_kind = flow_kind_text r.flow_kind;
  kind = command_kind_text r.kind;
  payload_hash = r.payload_hash;
  subject_namespace = r.subject_namespace;
  subject_key = r.subject_key;
}

abbrev pub replayed_result : CommissionCheckoutEconomicResult → CommissionCheckoutResult
replayed_result r = record { economic_result = r; replayed = true }

abbrev pub command_of : CommissionCheckoutPlan → String → FinancialCommandRequest
command_of plan payload_hash = record {
  flow_id = plan.command_flow_id;
  flow_kind = commission;
  kind = FinancialCommandKind.pay;
  principal_id = plan.command.principal_id;
  idempotency_key = plan.command.idempotency_key;
  payload_hash = payload_hash;
  subject_namespace = plan.command.subject_namespace;
  subject_key = plan.command.subject_key;
}

module _ (runtime : Runtime) where
  -- A payment that another command has completed.
  unfoldable pub load_completed :
      Option StoredCommand → Tx Store (Option ExistingCommissionCheckout)
  unfolding require_completed_command load_completed_commission_checkout_result
  load_completed none = pure none
  load_completed (some identity) = do
    completed ← lift (require_completed_command identity)
    stored ← load_completed_commission_checkout_result runtime completed
    pure (
        some (record {
          payload_hash = identity.payload_hash;
          buyer_id = stored.buyer_id;
          economic_result = stored.result;
        }))

  unfoldable pub save_alias :
      FinancialCommandRequest
      → Option StoredCommand
      → CommissionCheckoutEconomicResult
      → Tx Store CommissionCheckoutResult
  unfolding require_completed_command save_command_alias assert_command_effect_completeness
  save_alias requested completed_identity result = do
    identity ← lift (
        or_throw_with (plain_error "Completed commission payment disappeared during replay")
          completed_identity)
    complete_identity ← lift (require_completed_command identity)
    alias_row ←
        save_command_alias runtime (record requested { flow_id = identity.flow_id })
          complete_identity.operation_db_id
    assert_command_effect_completeness runtime
    pure (
        replayed_result
          (record result { command_id = format_command_id alias_row.kind alias_row.id }))

  -- `if (start.kind === 'PROCEED') return null; … start.alias ? … : …`
  unfoldable pub replay_start :
      FinancialCommandRequest
      → Option StoredCommand
      → CommissionCheckoutStartPlan
      → Tx Store (Option CommissionCheckoutResult)
  unfolding save_alias
  replay_start requested completed_identity proceed = pure none
  replay_start requested completed_identity (replay result true) = do
    saved ← save_alias requested completed_identity result
    pure (some saved)
  replay_start requested completed_identity (replay result false) =
      pure (some (replayed_result result))

  -- `if (storedCommand) { … }`
  unfoldable pub replay_stored :
      PreparedCommissionCheckout
      → FinancialCommandRequest
      → Option StoredCommand
      → Tx Store (Option CommissionCheckoutResult)
  unfolding assert_commission_checkout_replay_identity require_completed_command
      load_completed_commission_checkout_result find_completed_command_by_subject load_completed
      plan_commission_checkout_start replay_start
  replay_stored prepared requested (some stored) = do
    lift (
        assert_commission_checkout_replay_identity (stored_identity stored)
          (requested_identity requested))
    completed ← lift (require_completed_command stored)
    loaded ← load_completed_commission_checkout_result runtime completed
    pure (some (replayed_result loaded.result))
  replay_stored prepared requested none = do
    completed_identity ←
        find_completed_command_by_subject requested.flow_kind requested.kind
          requested.subject_namespace requested.subject_key
    completed ← load_completed completed_identity
    start ← lift (
        plan_commission_checkout_start none completed prepared.payload_hash prepared.input.actor_id)
    replay_start requested completed_identity start

  unfoldable pub replay_completed_commission_checkout :
      PreparedCommissionCheckout → Tx Store (Option CommissionCheckoutResult)
  unfolding find_command replay_stored
  replay_completed_commission_checkout prepared = do
    let requested = checkout_request prepared.input prepared.payload_hash ""
    stored_command ← find_command requested.principal_id requested.kind requested.idempotency_key
    replay_stored prepared requested stored_command

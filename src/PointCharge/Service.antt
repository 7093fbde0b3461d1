-- ===== src/PointCharge/Service.antt =====
-- src/modules/point-charge/point-charge.service.ts: a purchase of points, once for a command key
-- and once for a payment.
use Prim.Native.String.{◌++◌}
use ts_graphql_reference.Base.{ℕ, Bool, true, false, Option, none, some, List, [], ◌∷◌, map, String}
use ts_graphql_reference.Int.{ℤ}
use ts_graphql_reference.Decimal.{decimal}
use ts_graphql_reference.Failure.{Result, ok, err}
use ts_graphql_reference.Tx.{Tx, pure, lift, ◌>>=◌, ◌>>◌}
use ts_graphql_reference.Uow
use ts_graphql_reference.Locks.{LockKey}
use ts_graphql_reference.Locks.Registry.{
  lock_key, financial_holder, point_charge_payment, point_charge_command,
}
use ts_graphql_reference.Uow.Alone.{alone}
use ts_graphql_reference.Flow.{
  FinancialCommandKind, point_charge, flow_kind_text, command_kind_text,
  format_transaction_reference, format_command_id, format_operation_id,
}
use ts_graphql_reference.Runtime.{Runtime}
use ts_graphql_reference.Store.{Store}
use ts_graphql_reference.Flow.Repo.{
  StoredCommand, FinancialCommandRequest, find_command, find_completed_command_by_subject,
  create_flow, start_command, create_operation, complete_command,
  assert_command_effect_completeness,
}
use ts_graphql_reference.Ledger.Loads.{
  find_holder_id, load_point_charge_world, load_point_charge_ledger_result,
}
use ts_graphql_reference.Ledger.Sources.{load_commission_point_funding_allocations}
use ts_graphql_reference.Ledger.Writes.{apply_point_charge_lot}
use ts_graphql_reference.PointCharge.{
  PointChargeInput, PointChargeCommand, RequestedPointCharge, StoredPointCharge,
  PointChargeFundingSource, PointChargeStart, proceed, replay, plan_point_charge_command,
  plan_point_charge_start, plan_point_charge, identify_point_charge_funding_sources,
}

pub record PointChargeResult : Type 0 where
  pub lot_id : ℕ
  pub amount : ℤ
  pub reference_id : String
  pub command_id : String
  pub operation_id : String
  pub replayed : Bool

pub record CompletedIdentity : Type 0 where
  pub operation_db_id : String
  pub reference_id : String
  pub command_id : String
  pub operation_id : String

-- What the decisions read of a stored command.
abbrev pub stored_point_charge : StoredCommand → StoredPointCharge
stored_point_charge c = record {
  command = record {
    flow_kind = flow_kind_text c.flow_kind;
    kind = command_kind_text c.kind;
    principal_id = c.principal_id;
    idempotency_key = c.idempotency_key;
    subject_namespace = c.subject_namespace;
    subject_key = c.subject_key;
  };
  payload_hash = c.payload_hash;
  flow_id = c.flow_id;
  operation_db_id = c.operation_db_id;
  operation_id = c.operation_id;
  reference_id = c.reference_id;
  command_id = c.command_id;
}

abbrev pub stored_if : Option StoredCommand → Option StoredPointCharge
stored_if none = none
stored_if (some c) = some (stored_point_charge c)

-- The identity of a replay, whose operation the decision has checked to be there.
abbrev pub text_or_empty : Option String → String
text_or_empty none = ""
text_or_empty (some s) = s

abbrev pub replay_identity : StoredPointCharge → CompletedIdentity
replay_identity c = record {
  operation_db_id = text_or_empty c.operation_db_id;
  reference_id = c.reference_id;
  command_id = c.command_id;
  operation_id = text_or_empty c.operation_id;
}

unfoldable pub load_result : CompletedIdentity → Bool → Tx Store PointChargeResult
unfolding load_point_charge_ledger_result
load_result identity replayed = do
  stored ← load_point_charge_ledger_result identity.operation_db_id
  pure (record {
    lot_id = stored.lot_id;
    amount = stored.amount;
    reference_id = identity.reference_id;
    command_id = identity.command_id;
    operation_id = identity.operation_id;
    replayed = replayed;
  })

-- The command that the plan asks for, in its flow: the plan's literal kinds have one value each.
abbrev pub charge_request : PointChargeCommand → String → String → FinancialCommandRequest
charge_request command payload_hash flow_id = record {
  flow_id = flow_id;
  flow_kind = point_charge;
  kind = FinancialCommandKind.charge;
  principal_id = command.principal_id;
  idempotency_key = command.idempotency_key;
  payload_hash = payload_hash;
  subject_namespace = command.subject_namespace;
  subject_key = command.subject_key;
}

-- `command ? null : findCompletedCommandBySubject(tx, requested)`
unfoldable pub completed_payment :
    PointChargeCommand → Option StoredCommand → Tx Store (Option StoredCommand)
unfolding find_completed_command_by_subject
completed_payment requested (some command) = pure none
completed_payment requested none =
    find_completed_command_by_subject point_charge FinancialCommandKind.charge
      requested.subject_namespace requested.subject_key

module _ (runtime : Runtime) where
  unfoldable pub hash_payload : PointChargeInput → String
  unfolding decimal
  hash_payload input = runtime.sha256 (
      "["
      ++ (decimal input.actor_id
          ++ (","
              ++ (runtime.json_number input.amount
                  ++ ("," ++ (runtime.json_text input.external_payment_id ++ "]"))))))

  -- The writes of a charge that is no replay.
  unfoldable pub post_charge : PointChargeInput → ℕ → Tx Store PointChargeResult
  unfolding load_point_charge_world plan_point_charge create_flow start_command create_operation
      apply_point_charge_lot complete_command assert_command_effect_completeness load_result
      hash_payload
  post_charge input locked_holder_id = do
    world ← load_point_charge_world locked_holder_id
    plan ← lift (plan_point_charge world input)
    flow ← create_flow runtime point_charge (FinancialCommandKind.charge ∷ [])
    started ←
        start_command runtime (charge_request plan.command_request (hash_payload input) flow.id)
    operation ← create_operation runtime flow.id FinancialCommandKind.charge started.id
    apply_point_charge_lot flow.id operation.id plan.lot_request
    complete_command runtime started.id operation.id
    assert_command_effect_completeness runtime
    load_result
        (record {
          operation_db_id = operation.id;
          reference_id = format_transaction_reference flow.kind flow.id;
          command_id = format_command_id started.kind started.id;
          operation_id = format_operation_id operation.kind operation.id;
        })
        false

  -- What the start decides: to load the result of the stored charge, or to post a new one.
  unfoldable pub continue_charge :
      PointChargeInput → ℕ → PointChargeStart → Tx Store PointChargeResult
  unfolding load_result post_charge
  continue_charge input locked_holder_id (replay identity) =
      load_result (replay_identity identity) true
  continue_charge input locked_holder_id proceed = post_charge input locked_holder_id

  abbrev pub requested_charge : PointChargeInput → RequestedPointCharge
  requested_charge input = record {
    command = plan_point_charge_command input;
    payload_hash = hash_payload input;
  }

  unfoldable pub execute_point_charge : PointChargeInput → ℕ → Tx Store PointChargeResult
  unfolding find_command completed_payment plan_point_charge_start plan_point_charge_command
      continue_charge hash_payload
  execute_point_charge input locked_holder_id = do
    let requested = requested_charge input
    let own = requested.command
    command ← find_command own.principal_id FinancialCommandKind.charge own.idempotency_key
    payment ← completed_payment own command
    start ← lift (plan_point_charge_start (stored_if command) (stored_if payment) requested)
    continue_charge input locked_holder_id start

  abbrev pub charge_keys : PointChargeInput → ℕ → List LockKey
  charge_keys input holder_id =
      lock_key financial_holder holder_id
      ∷ lock_key point_charge_payment input.external_payment_id
      ∷ lock_key point_charge_command (decimal input.actor_id ++ (":CHARGE:" ++ input.command_key))
      ∷ []

  -- The holder is read before the transaction: what others do in between is `others`.
  unfoldable pub charge :
      (Store → Store) → PointChargeInput → Store → Result PointChargeResult × Store
  unfolding find_holder_id execute_point_charge
  charge others input s = elim (find_holder_id "user" (decimal input.actor_id) s) [
    | err e ↦ (err e, s)
    | ok (holder_id, t) ↦
        Uow.serialized (alone Store) (charge_keys input holder_id)
          (execute_point_charge input holder_id) false (others t)
  ]

-- A source with the public references of its charge.
pub record TracedSource : Type 0 where
  pub source : PointChargeFundingSource
  pub reference_id : String
  pub operation_reference_id : String

abbrev pub traced : PointChargeFundingSource → TracedSource
traced source = record {
  source = source;
  reference_id = format_transaction_reference point_charge source.flow_id;
  operation_reference_id = format_operation_id FinancialCommandKind.charge source.operation_id;
}

unfoldable pub trace_commission_funding : ℕ → Tx Store (List TracedSource)
unfolding load_commission_point_funding_allocations identify_point_charge_funding_sources
trace_commission_funding reservation_id = do
  allocations ← load_commission_point_funding_allocations reservation_id
  sources ← lift (identify_point_charge_funding_sources allocations)
  pure (map traced sources)

-- ===== src/Flow/Repo.antt =====
-- src/modules/transaction-flow/transaction-flow.repo.ts: flows, the commands that ask for an
-- operation, and the operations.
use ts_graphql_reference.Base.{
  ℕ, Bool, ◌&&◌, Option, none, some, List, [], ◌∷◌, map, String, str_eq, is_some,
}
use ts_graphql_reference.Int.{ℤ, ltb_ℤ}
use ts_graphql_reference.Runtime.{Runtime, set_constraints}
use ts_graphql_reference.Failure.{ok, err, foreign_key_violation}
use ts_graphql_reference.Tx.{Tx, pure, ◌>>=◌, ◌>>◌}
use ts_graphql_reference.Flow.{
  TransactionFlowKind, FinancialCommandKind, format_transaction_reference, format_command_id,
  format_operation_id,
}
use ts_graphql_reference.Store.{Store, FlowRow, PolicyRow, CommandRow, OperationRow}
use ts_graphql_reference.Store.Tables.{
  same_flow_kind, same_command_kind, has_key, flow_table, policy_table, command_table,
  operation_table,
}
use ts_graphql_reference.Store.Client.{
  find_first, find_unique, find_many, create, create_many, update,
}

pub record FinancialCommandRequest : Type 0 where
  pub flow_id : String
  pub flow_kind : TransactionFlowKind
  pub kind : FinancialCommandKind
  pub principal_id : ℕ
  pub idempotency_key : String
  pub payload_hash : String
  pub subject_namespace : String
  pub subject_key : String

-- What `mapStoredCommand` returns.
pub record StoredCommand : Type 0 where
  pub command_db_id : String
  pub flow_id : String
  pub flow_kind : TransactionFlowKind
  pub kind : FinancialCommandKind
  pub principal_id : ℕ
  pub idempotency_key : String
  pub payload_hash : String
  pub subject_namespace : String
  pub subject_key : String
  pub operation_db_id : Option String
  pub reference_id : String
  pub command_id : String
  pub operation_id : Option String

-- The relation `resultOperation`, by its foreign key.
unfoldable pub result_operation : CommandRow → Store → Option OperationRow
unfolding find_first
result_operation row s = elim row.result_operation_id [
  | none ↦ none
  | some i ↦ find_first (λ o. str_eq o.id i) s.operations
]

abbrev pub operation_db_id_of : Option OperationRow → Option String
operation_db_id_of none = none
operation_db_id_of (some o) = some o.id

abbrev pub operation_id_of : Option OperationRow → Option String
operation_id_of none = none
operation_id_of (some o) = some (format_operation_id o.kind o.id)

unfoldable pub map_stored_command : CommandRow → Option OperationRow → StoredCommand
map_stored_command row operation = record {
  command_db_id = row.id;
  flow_id = row.flow_id;
  flow_kind = row.flow_kind;
  kind = row.kind;
  principal_id = row.principal_id;
  idempotency_key = row.idempotency_key;
  payload_hash = row.payload_hash;
  subject_namespace = row.subject_namespace;
  subject_key = row.subject_key;
  operation_db_id = operation_db_id_of operation;
  reference_id = format_transaction_reference row.flow_kind row.flow_id;
  command_id = format_command_id row.kind row.id;
  operation_id = operation_id_of operation;
}

-- `row ? mapStoredCommand(row) : null`
unfoldable pub map_found : Option CommandRow → Tx Store (Option StoredCommand)
unfolding result_operation map_stored_command
map_found none s = ok (none, s)
map_found (some row) s = ok (some (map_stored_command row (result_operation row s)), s)

unfoldable pub find_command : ℕ → FinancialCommandKind → String → Tx Store (Option StoredCommand)
unfolding find_unique map_found
find_command principal kind key = do
  row ← find_unique command_table (has_key principal kind key)
  map_found row

-- The subject of a command, and whether a stored one of that subject is completed.
abbrev pub completes :
    TransactionFlowKind → FinancialCommandKind → String → String → CommandRow → Bool
completes flow_kind kind namespace key r =
    str_eq r.subject_namespace namespace
    && str_eq r.subject_key key
    && same_flow_kind r.flow_kind flow_kind
    && same_command_kind r.kind kind
    && is_some r.result_operation_id

abbrev pub created_before : CommandRow → CommandRow → Bool
created_before a b = ltb_ℤ a.created_at b.created_at

abbrev pub first_of : {A : Type 0} → List A → Option A
first_of [] = none
first_of (a ∷ l) = some a

unfoldable pub find_completed_command_by_subject :
    TransactionFlowKind → FinancialCommandKind → String → String → Tx Store (Option StoredCommand)
unfolding find_many map_found
find_completed_command_by_subject flow_kind kind namespace key = do
  rows ← find_many command_table (completes flow_kind kind namespace key) created_before
  map_found (first_of rows)

module _ (runtime : Runtime) where
  -- The row of a request, with what the columns default to.
  abbrev pub command_row : FinancialCommandRequest → Option String → ℤ → ℕ → CommandRow
  command_row input result now i = record {
    id = runtime.uuid i;
    flow_id = input.flow_id;
    flow_kind = input.flow_kind;
    kind = input.kind;
    principal_id = input.principal_id;
    idempotency_key = input.idempotency_key;
    payload_hash = input.payload_hash;
    subject_namespace = input.subject_namespace;
    subject_key = input.subject_key;
    result_operation_id = result;
    created_at = now;
  }

  abbrev pub allows : FinancialCommandRequest → PolicyRow → Bool
  allows input p = str_eq p.flow_id input.flow_id && same_command_kind p.command_kind input.kind

  -- The foreign key to the policy: the flow allows commands of this kind.
  unfoldable pub create_command : FinancialCommandRequest → Option String → Tx Store CommandRow
  unfolding find_first create
  create_command input result s = elim (find_first (allows input) s.policies) [
    | none ↦ err foreign_key_violation
    | some p ↦ create command_table (command_row input result s.now) s
  ]

  unfoldable pub start_command : FinancialCommandRequest → Tx Store CommandRow
  unfolding create_command
  start_command input = create_command input none

  abbrev pub flow_row : TransactionFlowKind → ℕ → FlowRow
  flow_row kind i = record { id = runtime.uuid i; kind = kind }

  unfoldable pub create_flow : TransactionFlowKind → List FinancialCommandKind → Tx Store FlowRow
  unfolding create create_many
  create_flow kind allowed_commands = do
    flow ← create flow_table (flow_row kind)
    create_many policy_table
        (map (λ k. record { flow_id = flow.id; command_kind = k }) allowed_commands)
    pure flow

  abbrev pub operation_row : String → FinancialCommandKind → String → ℕ → OperationRow
  operation_row flow_id kind command_id i = record {
    id = runtime.uuid i;
    flow_id = flow_id;
    kind = kind;
    originating_command_id = command_id;
  }

  unfoldable pub create_operation : String → FinancialCommandKind → String → Tx Store OperationRow
  unfolding create
  create_operation flow_id kind command_id =
      create operation_table (operation_row flow_id kind command_id)

  abbrev pub completed_by : String → CommandRow → CommandRow
  completed_by operation_id r = record r { result_operation_id = some operation_id }

  unfoldable pub complete_command : String → String → Tx Store CommandRow
  unfolding update
  complete_command command_id operation_id =
      update command_table (λ r. str_eq r.id command_id) (completed_by operation_id)

  unfoldable pub save_command_alias : FinancialCommandRequest → String → Tx Store CommandRow
  unfolding create_command
  save_command_alias input operation_id = create_command input (some operation_id)

  unfoldable pub assert_command_effect_completeness : Tx Store (Unit {0})
  unfolding set_constraints
  assert_command_effect_completeness = set_constraints runtime (
      "FinancialCommand_effect_completeness_check" ∷ "FinancialTransfer_command_completion_check"
      ∷ "FinancialLot_point_charge_shape_check" ∷ [])

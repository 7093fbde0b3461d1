-- ===== src/Settlement/Decided.antt =====
-- What a settlement decides on a store, and that it replays a command that is completed there.
use ts_graphql_reference.Base.{
  ℕ, ◌≡◌, refl, ap, ◌∙◌, subst, Bool, true, false, Option, none, some, String, str_eq, str_eq_refl,
}
use ts_graphql_reference.Int.{ℤ}
use ts_graphql_reference.Decimal.{decimal}
use ts_graphql_reference.Failure.{Result, ok}
use ts_graphql_reference.Tx.{lift, ◌>>=◌, >>=-run}
use ts_graphql_reference.Flow.{FinancialCommandKind, commission, flow_kind_text, command_kind_text}
use ts_graphql_reference.Flow.Reference.{operation_reference}
use ts_graphql_reference.Runtime.{Runtime}
use ts_graphql_reference.Store.{Store, CommandRow, OperationRow}
use ts_graphql_reference.Store.Tables.{has_key}
use ts_graphql_reference.Store.Client.{find_first}
use ts_graphql_reference.Flow.Repo.{StoredCommand, command_row, map_stored_command, find_command}
use ts_graphql_reference.Flow.Commands.{
  stored_at, find_command-run, find_completed-run, completed_rows,
}
use ts_graphql_reference.Settlement.{
  StoredCommissionSettlementCommand, SettlementStart, proceed, replay, alias,
  commission_contract_namespace, plan_commission_settlement_start,
}
use ts_graphql_reference.Settlement.Data.{CommissionSettlementInput}
use ts_graphql_reference.Settlement.Start.{IsCompleted, plan_commission_settlement_start_iff}
use ts_graphql_reference.Settlement.Service.{
  stored_settlement, stored_if, settlement_request, requested_settlement, completed_contract,
  hash_payload, continue_settlement, execute_settlement,
}
use ts_graphql_reference.Settlement.Loaded.{HasRows, settlement_result, load_result-run}

module _ (runtime : Runtime) (input : CommissionSettlementInput) where
  abbrev pub own_key : CommandRow → Bool
  own_key = has_key input.actor_id FinancialCommandKind.settle input.command_key

  abbrev pub own_command : Store → Option StoredCommand
  own_command s = stored_at (find_first own_key s.commands) s

  abbrev pub completed_row : Store → Option CommandRow
  completed_row s =
      completed_rows commission FinancialCommandKind.settle commission_contract_namespace
        (decimal input.contract_id) s

  abbrev pub completed_command : Store → Option StoredCommand → Option StoredCommand
  completed_command s (some c) = none
  completed_command s none = stored_at (completed_row s) s

  completed_contract-run :
      (o : Option StoredCommand) (s : Store)
      → completed_contract (settlement_request input (hash_payload runtime input) "") o s
        ≡ ok (completed_command s o, s)
  unfolding completed_contract
  completed_contract-run (some c) s = refl
  completed_contract-run none s =
      find_completed-run commission FinancialCommandKind.settle commission_contract_namespace
        (decimal input.contract_id) s

  -- The decision on the store.
  unfoldable pub start_of : Store → Result SettlementStart
  unfolding plan_commission_settlement_start
  start_of s =
      plan_commission_settlement_start (stored_if (own_command s))
        (stored_if (completed_command s (own_command s)))
        (requested_settlement (settlement_request input (hash_payload runtime input) ""))

  pub execute-run :
      (h : ℕ) (s : Store)
      → execute_settlement runtime input h s
        ≡ (lift (start_of s) >>= continue_settlement runtime input h) s
  unfolding execute_settlement start_of
  execute-run h s =
      >>=-run (find_command input.actor_id FinancialCommandKind.settle input.command_key) _ s
        (find_command-run input.actor_id FinancialCommandKind.settle input.command_key s)
      ∙ >>=-run
          (completed_contract (settlement_request input (hash_payload runtime input) "")
            (own_command s))
          _ s (completed_contract-run (own_command s) s)

  -- A command of the input that has an operation for its result.
  abbrev pub done_row : String → ℤ → ℕ → OperationRow → CommandRow
  done_row flow now i operation =
      command_row runtime (settlement_request input (hash_payload runtime input) flow)
        (some operation.id) now i

  abbrev pub done : String → ℤ → ℕ → OperationRow → StoredCommand
  done flow now i operation = map_stored_command (done_row flow now i operation) (some operation)

  own_replay :
      (flow : String) (now : ℤ) (i : ℕ) (operation : OperationRow)
      → str_eq operation.id "" ≡ false
      → plan_commission_settlement_start
          (some (stored_settlement (done flow now i operation)))
          none
          (requested_settlement (settlement_request input (hash_payload runtime input) ""))
        ≡ ok (replay (stored_settlement (done flow now i operation)))
  unfolding plan_commission_settlement_start map_stored_command flow_kind_text command_kind_text
  own_replay flow now i operation named =
      rw
        (
          str_eq_refl (hash_payload runtime input),
          str_eq_refl (decimal input.contract_id),
          named,
          operation_reference operation.kind operation.id,
        )
        refl

  -- On a store that has the command, its operation and its rows, the result is loaded.
  pub done-again :
      (h : ℕ) (t : Store) (flow : String) (now : ℤ) (i : ℕ) (operation : OperationRow)
      → str_eq operation.id "" ≡ false
      → own_command t ≡ some (done flow now i operation)
      → (rows : HasRows flow operation.id input.contract_id t)
      → execute_settlement runtime input h t
        ≡ ok (
          settlement_result
              (stored_settlement (done flow now i operation))
              input.contract_id
              rows.action
              rows.lot
              true,
          t,
        )
  unfolding start_of continue_settlement map_stored_command
  done-again h t flow now i operation named own rows =
      let decided : start_of t ≡ ok (replay (stored_settlement (done flow now i operation))) =
        rw own (own_replay flow now i operation named) in
      execute-run h t
      ∙ ap (λ x. (lift x >>= continue_settlement runtime input h) t) decided
      ∙ load_result-run (stored_settlement (done flow now i operation)) input.contract_id true t
          rows

  pub none_stored :
      (o : Option CommandRow) (s : Store) → stored_if (stored_at o s) ≡ none → o ≡ none
  none_stored none s e = refl
  none_stored (some row) s e = cc e

  pub start-proceed :
      (o p : Option StoredCommissionSettlementCommand)
      → plan_commission_settlement_start o p
          (requested_settlement (settlement_request input (hash_payload runtime input) ""))
        ≡ ok proceed
      → o ≡ none
  start-proceed none p h = refl
  start-proceed (some x) p h =
      let q = ((plan_commission_settlement_start_iff (some x) p _ proceed).0 h).1 in cc q

  pub start-alias :
      (o p : Option StoredCommissionSettlementCommand)
      {identity : StoredCommissionSettlementCommand}
      → plan_commission_settlement_start o p
          (requested_settlement (settlement_request input (hash_payload runtime input) ""))
        ≡ ok (alias identity)
      → (o ≡ none)
        × (p ≡ some identity)
        × IsCompleted identity
            (requested_settlement (settlement_request input (hash_payload runtime input) ""))
  start-alias (some x) p {identity} h =
      let q = ((plan_commission_settlement_start_iff (some x) p _ (alias identity)).0 h).1 in cc q
  start-alias none (some x) {identity} h =
      let (c, q) = (plan_commission_settlement_start_iff none (some x) _ (alias identity)).0 h in
      let same : x ≡ identity = cc q in
      (
        refl,
        ap some same,
        subst
            (λ y.
              IsCompleted y
                (requested_settlement (settlement_request input (hash_payload runtime input) "")))
            same c,
      )
  start-alias none none {identity} h =
      let q = (plan_commission_settlement_start_iff none none _ (alias identity)).0 h in cc q

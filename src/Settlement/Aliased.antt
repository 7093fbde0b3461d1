-- ===== src/Settlement/Aliased.antt =====
-- A second key for a settlement that is completed.
use Prim.Native.String.{◌++◌ as text_append}
use ts_graphql_reference.Base.{
  ℕ, ◌≡◌, sym, ap, ◌∙◌, subst, true, false, none, some, inl, inr, Option-cases, str_eq, present,
}
use ts_graphql_reference.Failure.{ok}
use ts_graphql_reference.Flow.{
  FinancialCommandKind, commission, flow_kind_text, format_command_id, format_transaction_reference,
}
use ts_graphql_reference.Runtime.{Runtime}
use ts_graphql_reference.Store.{Store, CommandRow, OperationRow}
use ts_graphql_reference.Store.Tables.{command_table}
use ts_graphql_reference.Store.Client.{find_first, added}
use ts_graphql_reference.Store.Client.Calls.{same_value, same_state}
use ts_graphql_reference.Store.Client.Steps.{after_read}
use ts_graphql_reference.Flow.Repo.{
  map_stored_command, result_operation, save_command_alias, assert_command_effect_completeness,
}
use ts_graphql_reference.Flow.Aliased.{found_again, recorded, stored_at-kept}
use ts_graphql_reference.Flow.Commands.{stored_at, after_command, after_constraints}
use ts_graphql_reference.Settlement.{StoredCommissionSettlementCommand, alias}
use ts_graphql_reference.Settlement.Data.{CommissionSettlementInput}
use ts_graphql_reference.Settlement.Service.{
  CommissionSettlementResult, stored_settlement, stored_if, settlement_request, load_result,
  hash_payload, save_alias, execute_settlement,
}
use ts_graphql_reference.Settlement.Loaded.{HasRows, settlement_result, load_result-ok}
use ts_graphql_reference.Settlement.Decided.{
  own_key, own_command, completed_row, completed_command, start_of, done, done-again, none_stored,
  start-alias,
}

module _ (runtime : Runtime) (input : CommissionSettlementInput) where
  -- A command that has completed the settlement by an operation, where none has the input's key.
  pub record IsCompletedBy (s : Store) (row : CommandRow) (operation : OperationRow) : Type 0 where
    pub none_before : find_first (own_key runtime input) s.commands ≡ none
    pub found : find_first (λ o. str_eq o.id operation.id) s.operations ≡ some operation
    pub named : str_eq operation.id "" ≡ false
    pub kind : flow_kind_text row.flow_kind ≡ flow_kind_text commission

  pub alias-IsCompletedBy :
      (s : Store) {identity : StoredCommissionSettlementCommand}
      → start_of runtime input s ≡ ok (alias identity)
      → (row : CommandRow) × (operation : OperationRow) × (stored_settlement
            (map_stored_command row (some operation))
          ≡ identity)
        × IsCompletedBy s row operation
  unfolding start_of map_stored_command
  alias-IsCompletedBy s {identity} h =
      let (q, p, c) =
        start-alias runtime input (stored_if (own_command runtime input s))
          (stored_if (completed_command runtime input s (own_command runtime input s))) h in
      let none_before =
        none_stored runtime input (find_first (own_key runtime input) s.commands) s q in
      let there : stored_if (stored_at (completed_row runtime input s) s) ≡ some identity =
        rw none_before at p in
      elim (Option-cases (completed_row runtime input s)) [
        | inl e ↦ cc (rw e at there)
        | inr (row, e) ↦
            let same : stored_settlement (map_stored_command row (result_operation row s))
                ≡ identity =
              cc (rw e at there) in
            let (operation, found, named) = recorded (result_operation row s) (
              ap (λ (x : StoredCommissionSettlementCommand). present x.operation_db_id) same
              ∙ c.recorded) in
            (
              row,
              operation,
              ap (λ o. stored_settlement (map_stored_command row o)) (sym found) ∙ same,
              record {
                none_before = none_before;
                found = found_again row s found;
                named = named;
                kind =
                    ap (λ (x : StoredCommissionSettlementCommand). x.flow_kind) same ∙ c.flow_kind;
              },
            )
      ]

  -- A second key for a settlement: an execution with it returns what saving it has returned.
  pub alias-again :
      (h : ℕ) (s : Store) (row : CommandRow) (operation : OperationRow)
      {r : CommissionSettlementResult} {t : Store}
      → IsCompletedBy s row operation
      → save_alias runtime input (stored_settlement (map_stored_command row (some operation))) s
        ≡ ok (r, t)
      → execute_settlement runtime input h t ≡ ok (record r { replayed = true }, t)
  unfolding save_alias save_command_alias assert_command_effect_completeness map_stored_command
      format_transaction_reference
  alias-again h s row operation {r} {t} c e =
      let identity = stored_settlement (map_stored_command row (some operation)) in
      after_read (load_result identity input.contract_id true) _ s
        (λ a u d. (load_result-ok identity input.contract_id true s d).0) e
        λ stored e1 h1.
          let (_, rows, result) = load_result-ok identity input.contract_id true s e1 in
          after_command runtime (settlement_request input (hash_payload runtime input) row.flow_id)
            (some operation.id) _ s h1
            λ new c2 h2. after_constraints runtime _ _ _ h2 λ h3.
              let own =
                stored_at-kept runtime
                  (settlement_request input (hash_payload runtime input) row.flow_id) s operation
                  c.none_before c.found c2.row in
              let u = added command_table new s in
              let kept : HasRows row.flow_id operation.id input.contract_id u = record {
                contract = rows.contract;
                contract_found = rows.contract_found;
                own_flow = rows.own_flow;
                action = rows.action;
                action_found = rows.action_found;
                lot = rows.lot;
                lot_found = rows.lot_found;
              } in
              let loaded =
                done-again runtime input h u row.flow_id s.now s.next_id operation c.named own kept
                ∙ ap
                    (λ kind. ok (
                      record (settlement_result
                          (stored_settlement
                            (done runtime input row.flow_id s.now s.next_id operation))
                          input.contract_id rows.action rows.lot true) {
                            reference_id = text_append kind (text_append "-" row.flow_id);
                          },
                      u,
                    ))
                    (sym c.kind)
                ∙ ap
                    (λ (x : CommissionSettlementResult). ok (
                      record x {
                        command_id =
                            format_command_id FinancialCommandKind.settle (runtime.uuid s.next_id);
                        replayed = true;
                      },
                      u,
                    ))
                    result
                ∙ ap
                    (λ (n : CommandRow). ok (
                      record stored { command_id = format_command_id n.kind n.id; replayed = true },
                      u,
                    ))
                    c2.row in
              subst
                (λ x. execute_settlement runtime input h x ≡ ok (record r { replayed = true }, x))
                (same_state h3)
                (loaded
                  ∙ ap (λ (x : CommissionSettlementResult). ok (record x { replayed = true }, u))
                      (same_value h3))

-- ===== src/Settlement/Posted.antt =====
-- What a new settlement leaves: its command, completed by its operation, and the rows of its result.
use ts_graphql_reference.Base.{
  ℕ, suc, ◌≡◌, sym, ap, ◌∙◌, subst, false, none, some, [], ◌∷◌, ◌++◌, String, str_eq, str_eq_refl,
  not, ◌==◌,
}
use ts_graphql_reference.Failure.{ok}
use ts_graphql_reference.Int.{ℤ}
use ts_graphql_reference.Decimal.{decimal}
use ts_graphql_reference.Flow.{
  FinancialCommandKind, format_transaction_reference, format_command_id, format_operation_id,
}
use ts_graphql_reference.Runtime.{Runtime}
use ts_graphql_reference.Point.Tables.{update_where}
use ts_graphql_reference.Store.{Store, CommandRow, OperationRow, SwapActionRow, LotRow, ContractRow}
use ts_graphql_reference.Store.Tables.{command_table, operation_table}
use ts_graphql_reference.Store.Client.{find_first, added}
use ts_graphql_reference.Store.Client.Calls.{same_value, same_state}
use ts_graphql_reference.Store.Client.Steps.{
  after, after_read, after_lift, after_create, after_update, changed,
}
use ts_graphql_reference.Flow.Repo.{
  command_row, operation_row, start_command, create_operation, completed_by, complete_command,
  map_stored_command,
}
use ts_graphql_reference.Flow.Commands.{after_command, after_constraints}
use ts_graphql_reference.Tx.Keeps.{Keeps-quiet}
use ts_graphql_reference.Ledger.Loads.{
  find_holder_id, load_commission_settlement_funding, load_commission_settlement_accounts,
}
use ts_graphql_reference.Ledger.Writes.{
  apply_commission_income_settlement, assert_commission_settlement_shape,
}
use ts_graphql_reference.Commerce.{
  load_commission_settlement_contract, load_commission_settlement_order_snapshot,
}
use ts_graphql_reference.Books.Reads.{
  Keeps-find_holder_id, Keeps-load_commission_settlement_order_snapshot,
  Keeps-load_commission_settlement_funding, Keeps-load_commission_settlement_accounts,
}
use ts_graphql_reference.Settlement.{
  StoredCommissionSettlementCommand, settlement_plan, plan_commission_settlement,
  assert_commission_settlement_holder_identity,
}
use ts_graphql_reference.Settlement.Data.{
  CommissionSettlementInput, CommissionSettlementPlan, CommissionSettlementWorld,
  SettlementContract,
}
use ts_graphql_reference.Settlement.Plan.{plans-IsSettleable}
use ts_graphql_reference.Settlement.Loaded.{
  HasRows, settlement_result, load_commission_settlement_contract-ok,
}
use ts_graphql_reference.Settlement.Service.{
  CommissionSettlementResult, planned_request, hash_payload, post_settlement, settlement_request,
  stored_settlement,
}
use ts_graphql_reference.Settlement.Swapped.{
  IsSwapped, apply_commission_income_settlement-IsSwapped,
}

module _ (runtime : Runtime) (input : CommissionSettlementInput) where
  abbrev pub own_row : String → ℤ → ℕ → CommandRow
  own_row flow now i =
      command_row runtime (settlement_request input (hash_payload runtime input) flow) none now i

  abbrev pub stored_own : CommandRow → OperationRow → StoredCommissionSettlementCommand
  stored_own command operation =
      stored_settlement
        (map_stored_command (completed_by runtime operation.id command) (some operation))

  -- A settlement that has been made: its command, completed by its operation, and its rows.
  pub record IsPosted (s : Store) (r : CommissionSettlementResult) (t : Store) : Type 0 where
    pub flow : String
    pub command : CommandRow
    pub command_is : own_row flow s.now s.next_id ≡ command
    pub operation : OperationRow
    pub operation_id : operation.id ≡ runtime.uuid (suc s.next_id)
    pub fresh : find_first (λ x. operation_table.clashes x operation) s.operations ≡ none
    pub commands :
        t.commands
        ≡ update_where
            (λ r. str_eq r.id command.id)
            (completed_by runtime operation.id)
            (s.commands ++ command ∷ [])
    pub operations : t.operations ≡ s.operations ++ operation ∷ []
    pub rows : HasRows flow operation.id input.contract_id t
    pub result :
        settlement_result
          (stored_own command operation)
          input.contract_id
          rows.action
          rows.lot
          false
        ≡ r

  own_request :
      (world : CommissionSettlementWorld) (plan : CommissionSettlementPlan)
      → plan_commission_settlement world input ≡ ok plan
      → (settlement_request input (hash_payload runtime input) world.contract.flow_id
          ≡ planned_request plan.command_request (hash_payload runtime input))
  unfolding settlement_plan
  own_request world plan e =
      ap (λ p. planned_request p.command_request (hash_payload runtime input))
        (plans-IsSettleable world input e).1

  -- What a settlement that is no replay returns.
  abbrev posted_result :
      CommissionSettlementPlan → CommandRow → OperationRow → LotRow → CommissionSettlementResult
  posted_result plan command operation lot = record {
    contract_id = input.contract_id;
    reservation_id = plan.swap.reservation_id;
    income_lot_id = lot.id;
    reference_id = format_transaction_reference command.flow_kind command.flow_id;
    command_id = format_command_id command.kind command.id;
    operation_id = format_operation_id operation.kind operation.id;
    replayed = false;
  }

  abbrev command_made : CommissionSettlementPlan → ℤ → ℕ → CommandRow
  command_made plan =
      command_row runtime (planned_request plan.command_request (hash_payload runtime input)) none

  abbrev operation_made : CommandRow → ℕ → OperationRow
  operation_made command =
      operation_row runtime command.flow_id FinancialCommandKind.settle command.id

  -- The rows that were written, one after the other, and what they make.
  posted :
      (row : ContractRow) (plan : CommissionSettlementPlan) (command : CommandRow)
      (operation : OperationRow) (action : SwapActionRow) (lot : LotRow) (s v : Store)
      → find_first (λ c. c.id == input.contract_id) s.contracts ≡ some row
      → settlement_request input (hash_payload runtime input) row.flow_id
        ≡ planned_request plan.command_request (hash_payload runtime input)
      → command_made plan s.now s.next_id ≡ command
      → operation_made command (suc s.next_id) ≡ operation
      → find_first (λ x. operation_table.clashes x operation) s.operations ≡ none
      → IsSwapped plan.swap operation.id
          (added operation_table operation (added command_table command s))
          action
          lot
          v
      → IsPosted s (posted_result plan command operation lot) (
          changed command_table (λ r. str_eq r.id command.id) (completed_by runtime operation.id) v)
  unfolding map_stored_command
  posted row plan command operation action lot s v found request started made fresh swapped =
      record {
        flow = row.flow_id;
        command = command;
        command_is = ap (λ x. command_row runtime x none s.now s.next_id) request ∙ started;
        operation = operation;
        operation_id = ap (λ (o : OperationRow). o.id) (sym made);
        fresh = fresh;
        commands =
            ap (update_where (λ r. str_eq r.id command.id) (completed_by runtime operation.id))
              swapped.commands;
        operations = swapped.operations;
        rows = record {
          contract = row;
          contract_found =
              ap (find_first (λ (c : ContractRow). c.id == input.contract_id)) swapped.contracts
              ∙ found;
          own_flow = ap not (str_eq_refl row.flow_id);
          action = action;
          action_found = swapped.action_found;
          lot = lot;
          lot_found = swapped.lot_found;
        };
        result =
            ap (λ n. record (posted_result plan command operation lot) { reservation_id = n })
              swapped.reservation;
      }

  pub post_settlement-IsPosted :
      (holder : ℕ) (s : Store) {r : CommissionSettlementResult} {t : Store}
      → post_settlement runtime input holder s ≡ ok (r, t)
      → IsPosted s r t
  unfolding post_settlement start_command create_operation complete_command
      assert_commission_settlement_shape map_stored_command
  post_settlement-IsPosted holder s {r} {t} h =
      after_read (load_commission_settlement_contract input.contract_id) _ s
        (λ a u e. (load_commission_settlement_contract-ok input.contract_id s e).1) h
        λ contract e1 h1.
          let (row, found, q) = (load_commission_settlement_contract-ok input.contract_id s e1).0 in
          after_read (load_commission_settlement_order_snapshot contract.order_id) _ s
            (λ a u e.
              Keeps-quiet (Keeps-load_commission_settlement_order_snapshot contract.order_id) e)
            h1
            λ commerce e2 h2.
              after_read (find_holder_id "user" (decimal contract.worker_id)) _ s
                (λ a u e. Keeps-quiet (Keeps-find_holder_id "user" (decimal contract.worker_id)) e)
                h2
                λ worker e3 h3.
                  after_lift (assert_commission_settlement_holder_identity holder worker) _ s h3
                    λ same e4 h4.
                      after_read
                        (load_commission_settlement_funding
                          commerce.payment.funding_link.reservation_id)
                        _ s
                        (λ a u e.
                          Keeps-quiet
                            (Keeps-load_commission_settlement_funding
                              commerce.payment.funding_link.reservation_id)
                            e)
                        h4
                        λ funding e5 h5.
                          after_read (load_commission_settlement_accounts worker) _ s
                            (λ a u e.
                              Keeps-quiet (Keeps-load_commission_settlement_accounts worker) e)
                            h5
                            λ accounts e6 h6.
                              let world : CommissionSettlementWorld = record {
                                contract = contract;
                                order = commerce.order;
                                payment = commerce.payment;
                                funding = funding;
                                accounts = accounts;
                              } in
                              after_lift (plan_commission_settlement world input) _ s h6
                                λ plan e7 h7.
                                  after_command runtime
                                    (planned_request plan.command_request
                                      (hash_payload runtime input))
                                    none _ s h7
                                    λ command c8 h8.
                                      after_create operation_table
                                        (operation_row runtime command.flow_id
                                          FinancialCommandKind.settle command.id)
                                        _ _ h8
                                        λ operation c9 h9.
                                          after
                                            (apply_commission_income_settlement runtime plan.swap
                                              operation.id)
                                            _
                                            (added operation_table operation
                                              (added command_table command s))
                                            h9
                                            λ pair v e10 h10.
                                              let swapped =
                                                apply_commission_income_settlement-IsSwapped runtime
                                                  plan.swap operation.id _ e10 in
                                              after_update command_table
                                                (λ r. str_eq r.id command.id)
                                                (completed_by runtime operation.id) _ v h10
                                                λ done c11 h11.
                                                  after_constraints runtime _ _ _ h11 λ h12.
                                                    let request =
                                                      ap
                                                        (λ (c : SettlementContract).
                                                          settlement_request input
                                                            (hash_payload runtime input) c.flow_id)
                                                        q
                                                      ∙ own_request world plan e7 in
                                                    let made =
                                                      posted row plan command operation pair.0
                                                        pair.1 s v found request c8.row c9.row
                                                        c9.fresh swapped in
                                                    subst (λ x. IsPosted s x t) (same_value h12)
                                                      (subst
                                                        (IsPosted s (
                                                          posted_result plan command operation
                                                            pair.1))
                                                        (same_state h12) made)

-- ===== src/Withdrawal/Posted.antt =====
-- What a new withdrawal leaves: its command, completed by its operation, and its result.
use ts_graphql_reference.Base.{
  ℕ, suc, ◌≡◌, refl, sym, ap, ◌∙◌, subst, Bool, true, false, none, [], ◌∷◌, ◌++◌, String, str_eq,
}
use ts_graphql_reference.Int.{pos, ltb_ℤ}
use ts_graphql_reference.Failure.{ok, >>=-ok, throw_if-ok}
use ts_graphql_reference.Tx.{>>=-run}
use ts_graphql_reference.Flow.{
  FinancialCommandKind, withdrawal, format_transaction_reference, format_command_id,
  format_operation_id,
}
use ts_graphql_reference.Runtime.{Runtime}
use ts_graphql_reference.Point.Tables.{update_where}
use ts_graphql_reference.Store.{
  Store, FlowRow, CommandRow, OperationRow, WithdrawalRow, ReservationRow, TransferActionRow,
}
use ts_graphql_reference.Store.Tables.{
  command_table, operation_table, transfer_action_table, withdrawal_table,
}
use ts_graphql_reference.Store.Client.{find_first}
use ts_graphql_reference.Store.Client.Calls.{
  find_unique_or_throw-ok, create-ok, same_value, same_state,
}
use ts_graphql_reference.Store.Client.Steps.{
  after, after_lift, after_read, after_create, after_update,
}
use ts_graphql_reference.Flow.Repo.{
  command_row, operation_row, completed_by, start_command, create_operation, complete_command,
}
use ts_graphql_reference.Flow.Commands.{after_flow, after_command, after_constraints}
use ts_graphql_reference.Tx.Keeps.{Keeps-quiet}
use ts_graphql_reference.Ledger.Loads.{load_available_income_world}
use ts_graphql_reference.Ledger.Sources.{load_income_withdrawal_sources}
use ts_graphql_reference.Ledger.Writes.{
  IncomeReservationRequest, create_transfer_action, apply_income_withdrawal_reservation,
}
use ts_graphql_reference.Ledger.Reserving.{apply_income_withdrawal_reservation-IsReserved}
use ts_graphql_reference.Books.Reads.{
  Keeps-load_available_income_world, Keeps-load_income_withdrawal_sources,
}
use ts_graphql_reference.Withdrawal.{
  IncomeWithdrawalInput, IncomeWithdrawalPlan, IncomeWithdrawalWorld, assert_withdrawal_amount,
  withdraw, withdrawal_plan, plan_income_withdrawal, income_withdrawal_namespace,
}
use ts_graphql_reference.PointCharge.Service.{CompletedIdentity}
use ts_graphql_reference.Withdrawal.Service.{
  IncomeWithdrawalResult, load_withdrawal_result, load_result, withdrawal_request,
  bound_reservation, create_withdrawal, assert_withdrawal_shape, hash_payload, write_withdrawal,
  post_withdrawal,
}

-- The result is loaded from a store that does not change; to say that it is replayed changes only
-- that.
pub load_result-replayed :
    (flow : String) (identity : CompletedIdentity) (b : Bool) (s : Store)
    {r : IncomeWithdrawalResult} {t : Store}
    → load_result flow identity b s ≡ ok (r, t)
    → (s ≡ t) × (load_result flow identity true s ≡ ok (record r { replayed = true }, s))
unfolding load_result load_withdrawal_result
load_result-replayed flow identity b s {r} {t} h =
    after_read (load_withdrawal_result flow) _ s
      (λ a u e. (find_unique_or_throw-ok withdrawal_table _ s e).1) h
      λ stored e1 h1.
        after_read (load_income_withdrawal_sources stored.reservation_id) _ s
          (λ a u e. Keeps-quiet (Keeps-load_income_withdrawal_sources stored.reservation_id) e) h1
          λ sources e2 h2. (
            same_state h2,
            >>=-run (load_withdrawal_result flow) _ s e1
                ∙ >>=-run (load_income_withdrawal_sources stored.reservation_id) _ s e2
                ∙ ap (λ (x : IncomeWithdrawalResult). ok (record x { replayed = true }, s))
                    (same_value h2),
          )

-- A plan's command is the one of its input, and its reservation moves what it holds.
pub record IsPlanned (input : IncomeWithdrawalInput) (p : IncomeWithdrawalPlan) : Type 0 where
  pub principal : p.command_request.principal_id ≡ input.actor_id
  pub key : p.command_request.idempotency_key ≡ input.command_key
  pub namespace : p.command_request.subject_namespace ≡ income_withdrawal_namespace
  pub moved : p.reservation_request.transfer.amount ≡ p.reservation_request.amount

plan-IsPlanned :
    (world : IncomeWithdrawalWorld) (input : IncomeWithdrawalInput) {p : IncomeWithdrawalPlan}
    → plan_income_withdrawal world input ≡ ok p
    → IsPlanned input p
unfolding plan_income_withdrawal withdrawal_plan
plan-IsPlanned world input {p} h =
    let (n, e, f) = >>=-ok (assert_withdrawal_amount input.amount) _ h in
    let (z, g) = throw_if-ok (ltb_ℤ (pos 0) (withdraw world.lots n).1) _ _ f in
    let q : withdrawal_plan world input n (withdraw world.lots n).0 ≡ p = cc g in
    subst (IsPlanned input) q
      (record { principal = refl; key = refl; namespace = refl; moved = refl })

-- The same commands and operations.
record SameCommands (s t : Store) : Type 0 where
  commands : s.commands ≡ t.commands
  operations : s.operations ≡ t.operations

reservation-SameCommands :
    (flow : String) (request : IncomeReservationRequest) (action : String) (s : Store)
    {r : ReservationRow} {t : Store}
    → request.transfer.amount ≡ request.amount
    → apply_income_withdrawal_reservation flow request action s ≡ ok (r, t)
    → SameCommands s t
reservation-SameCommands flow request action s moved e =
    let same =
      (apply_income_withdrawal_reservation-IsReserved flow request action s moved e).state in
    record {
      commands = ap (λ (z : Store). z.commands) same;
      operations = ap (λ (z : Store). z.operations) same;
    }

abbrev pub new_identity : FlowRow → CommandRow → OperationRow → CompletedIdentity
new_identity flow command operation = record {
  operation_db_id = operation.id;
  reference_id = format_transaction_reference flow.kind flow.id;
  command_id = format_command_id command.kind command.id;
  operation_id = format_operation_id operation.kind operation.id;
}

module _ (runtime : Runtime) (input : IncomeWithdrawalInput) where
  create_transfer_action-SameCommands :
      (operation flow : String) (s : Store) {a : TransferActionRow} {t : Store}
      → create_transfer_action runtime operation flow FinancialCommandKind.withdraw s ≡ ok (a, t)
      → SameCommands s t
  unfolding create_transfer_action
  create_transfer_action-SameCommands operation flow s e =
      let make : ℕ → TransferActionRow = λ i. record {
        id = runtime.uuid i;
        flow_id = flow;
        operation_id = operation;
        operation_kind = FinancialCommandKind.withdraw;
      } in
      let same = (create-ok transfer_action_table make s e).state in
      record {
        commands = ap (λ (z : Store). z.commands) same;
        operations = ap (λ (z : Store). z.operations) same;
      }

  create_withdrawal-SameCommands :
      (flow operation action : String) (reservation : ℕ) (s : Store) {a : WithdrawalRow} {t : Store}
      → create_withdrawal runtime flow operation action reservation s ≡ ok (a, t)
      → SameCommands s t
  unfolding create_withdrawal
  create_withdrawal-SameCommands flow operation action reservation s e =
      let make : ℕ → WithdrawalRow = λ i. record {
        id = runtime.uuid i;
        flow_id = flow;
        flow_kind = withdrawal;
        operation_id = operation;
        operation_kind = FinancialCommandKind.withdraw;
        transfer_action_id = action;
        reservation_id = reservation;
      } in
      let same = (create-ok withdrawal_table make s e).state in
      record {
        commands = ap (λ (z : Store). z.commands) same;
        operations = ap (λ (z : Store). z.operations) same;
      }

  -- A withdrawal that has been made: its command, completed by its operation, and its result.
  pub record IsPosted (s : Store) (r : IncomeWithdrawalResult) (t : Store) : Type 0 where
    pub plan : IncomeWithdrawalPlan
    pub planned : IsPlanned input plan
    pub flow : FlowRow
    pub flow_is : withdrawal ≡ flow.kind
    pub command : CommandRow
    pub command_is :
        command_row runtime
          (withdrawal_request plan.command_request (hash_payload runtime input) flow.id)
          none
          s.now
          (suc (suc s.next_id))
        ≡ command
    pub operation : OperationRow
    pub operation_is :
        operation_row runtime flow.id FinancialCommandKind.withdraw command.id
          (suc (suc (suc s.next_id)))
        ≡ operation
    pub fresh : find_first (λ x. operation_table.clashes x operation) s.operations ≡ none
    pub commands :
        t.commands
        ≡ update_where
            (λ r. str_eq r.id command.id)
            (completed_by runtime operation.id)
            (s.commands ++ command ∷ [])
    pub operations : t.operations ≡ s.operations ++ operation ∷ []
    pub loaded :
        load_result flow.id (new_identity flow command operation) true t
        ≡ ok (record r { replayed = true }, t)

  -- What the writes from the transfer action on leave.
  record IsWritten (flow : FlowRow) (command : CommandRow) (operation : OperationRow) (s : Store)
      (r : IncomeWithdrawalResult) (t : Store) : Type 0 where
    commands :
        t.commands
        ≡ update_where (λ r. str_eq r.id command.id) (completed_by runtime operation.id) s.commands
    operations : t.operations ≡ s.operations
    loaded :
        load_result flow.id (new_identity flow command operation) true t
        ≡ ok (record r { replayed = true }, t)

  write_withdrawal-IsWritten :
      (plan : IncomeWithdrawalPlan) (flow : FlowRow) (command : CommandRow)
      (operation : OperationRow) (s : Store) {r : IncomeWithdrawalResult} {t : Store}
      → plan.reservation_request.transfer.amount ≡ plan.reservation_request.amount
      → write_withdrawal runtime plan flow command operation s ≡ ok (r, t)
      → IsWritten flow command operation s r t
  unfolding write_withdrawal complete_command assert_withdrawal_shape
  write_withdrawal-IsWritten plan flow command operation s {r} {t} moved h =
      after (create_transfer_action runtime operation.id flow.id FinancialCommandKind.withdraw) _ s
        h
        λ action u e1 h1.
          let bound = bound_reservation plan.reservation_request flow.id in
          after (apply_income_withdrawal_reservation flow.id bound action.id) _ u h1 λ held v e2 h2.
            after (create_withdrawal runtime flow.id operation.id action.id held.id) _ v h2
              λ made w e3 h3.
                let c1 = create_transfer_action-SameCommands operation.id flow.id s e1 in
                let c2 = reservation-SameCommands flow.id bound action.id u moved e2 in
                let c3 =
                  create_withdrawal-SameCommands flow.id operation.id action.id held.id v e3 in
                after_update command_table (λ r. str_eq r.id command.id)
                  (completed_by runtime operation.id) _ w h3
                  λ done c4 h4. after_constraints runtime _ _ _ h4 λ h5.
                    let (same, loaded) =
                      load_result-replayed flow.id (new_identity flow command operation) false _
                        h5 in
                    subst (IsWritten flow command operation s r) same (record {
                      commands =
                          ap
                            (update_where (λ r. str_eq r.id command.id)
                              (completed_by runtime operation.id))
                            (sym c3.commands ∙ sym c2.commands ∙ sym c1.commands);
                      operations = sym c3.operations ∙ sym c2.operations ∙ sym c1.operations;
                      loaded = loaded;
                    })

  pub post_withdrawal-IsPosted :
      (holder : ℕ) (s : Store) {r : IncomeWithdrawalResult} {t : Store}
      → post_withdrawal runtime input holder s ≡ ok (r, t)
      → IsPosted s r t
  unfolding post_withdrawal start_command create_operation
  post_withdrawal-IsPosted holder s {r} {t} h =
      after_read (load_available_income_world holder) _ s
        (λ a u e. Keeps-quiet (Keeps-load_available_income_world holder) e) h
        λ world e1 h1. after_lift (plan_income_withdrawal world input) _ s h1 λ plan e2 h2.
          let planned = plan-IsPlanned world input e2 in
          after_flow runtime withdrawal FinancialCommandKind.withdraw _ s h2 λ flow flow_row h3.
            let request =
              withdrawal_request plan.command_request (hash_payload runtime input) flow.id in
            after_command runtime request none _ _ h3 λ command c3 h4.
              after_create operation_table
                (operation_row runtime flow.id FinancialCommandKind.withdraw command.id) _ _ h4
                λ operation c4 h5.
                  let written =
                    write_withdrawal-IsWritten plan flow command operation _ planned.moved h5 in
                  record {
                    plan = plan;
                    planned = planned;
                    flow = flow;
                    flow_is = ap (λ (x : FlowRow). x.kind) flow_row;
                    command = command;
                    command_is = c3.row;
                    operation = operation;
                    operation_is = c4.row;
                    fresh = c4.fresh;
                    commands = written.commands;
                    operations = written.operations;
                    loaded = written.loaded;
                  }

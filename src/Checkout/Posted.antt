-- ===== src/Checkout/Posted.antt =====
-- What a new checkout leaves: its command, completed by its operation, and the rows of its result.
use ts_graphql_reference.Base.{
  ℕ, suc, ◌≡◌, refl, sym, ap, ◌∙◌, subst, Bool, true, false, some, none, [], ◌∷◌, ◌++◌, String,
  ◌==◌, ==→eq, str_eq, str_ne, str_eq_refl, not, if◌then◌else◌,
}
use ts_graphql_reference.Int.{ℤ}
use ts_graphql_reference.Failure.{ok}
use ts_graphql_reference.Flow.{
  FinancialCommandKind, format_transaction_reference, format_command_id, format_operation_id,
}
use ts_graphql_reference.Runtime.{Runtime}
use ts_graphql_reference.Point.Tables.{update_where}
use ts_graphql_reference.Store.{
  Store, CommandRow, OperationRow, OrderRow, OrderPaymentRow, OrderLinkRow, ContractRow,
}
use ts_graphql_reference.Store.Tables.{command_table, operation_table, transfer_action_table}
use ts_graphql_reference.Store.Client.{find_first, added}
use ts_graphql_reference.Store.Client.Calls.{
  same_value, same_state, find_first-update, find_first-matches,
}
use ts_graphql_reference.Store.Client.Steps.{after, after_read, after_create, after_update, changed}
use ts_graphql_reference.Flow.Repo.{
  command_row, operation_row, start_command, create_operation, completed_by, complete_command,
  map_stored_command, assert_command_effect_completeness,
}
use ts_graphql_reference.Flow.Commands.{after_command, after_constraints}
use ts_graphql_reference.Ledger.Writes.{create_transfer_action}
use ts_graphql_reference.Commerce.{order_of, is_pending, is_requested, paid_payment, paid_order}
use ts_graphql_reference.Checkout.Loaded.{HasRows, completed_checkout}
use ts_graphql_reference.Checkout.Planned.{IsPlanned, load_commission_checkout_plan-ok}
use ts_graphql_reference.Checkout.Applied.{
  applied_result, IsApplied, apply_commission_checkout_plan-IsApplied,
}
use ts_graphql_reference.Checkout.Stored.{
  CommissionCheckoutResult, PreparedCommissionCheckout, ExecutableCommissionCheckoutPlan,
  CompletedCommand, checkout_request, command_of,
}
use ts_graphql_reference.Checkout.Service.{
  CommissionCheckoutDomainResult, load_commission_checkout_plan, apply_commission_checkout_plan,
  post_checkout,
}

-- A payment, and whether it has been paid; an order likewise.
abbrev pub payment_after : Bool → OrderPaymentRow → OrderPaymentRow
payment_after b p = if b then paid_payment p else p

abbrev pub order_after : Bool → OrderRow → OrderRow
order_after b o = if b then paid_order o else o

payment_id : (b : Bool) (p : OrderPaymentRow) → (payment_after b p).id ≡ p.id
payment_id true p = refl
payment_id false p = refl

payment_flow : (b : Bool) (p : OrderPaymentRow) → (payment_after b p).flow_id ≡ p.flow_id
payment_flow true p = refl
payment_flow false p = refl

payment_order : (b : Bool) (p : OrderPaymentRow) → order_of (payment_after b p) ≡ order_of p
payment_order true p = refl
payment_order false p = refl

order_id_after : (b : Bool) (o : OrderRow) → (order_after b o).id ≡ o.id
order_id_after true o = refl
order_id_after false o = refl

-- The rows of the result, once the plan has been applied.
applied_rows :
    (prepared : PreparedCommissionCheckout) (plan : ExecutableCommissionCheckoutPlan)
    (s v t : Store) (planned : IsPlanned prepared s plan) {r : CommissionCheckoutDomainResult}
    → v.order_payments ≡ s.order_payments
    → v.orders ≡ s.orders
    → (applied : IsApplied plan v r t)
    → (rows : HasRows planned.rows.payment.flow_id prepared.input.order_payment_id t) × (record {
      order_id = rows.order.id;
      order_payment_id = prepared.input.order_payment_id;
      contract_id = rows.contract.id;
      reservation_id = rows.link.reservation_id;
    }
        ≡ r)
applied_rows prepared plan s v t planned same_payments same_orders applied =
    let paid = plan.commission_plan.paid_order in
    let n = prepared.input.order_payment_id in
    let payment = planned.rows.payment in
    let order = planned.rows.order in
    let p = is_pending paid payment in
    let o = is_requested paid order in
    let key = λ (x : OrderPaymentRow). x.id == n in
    let own =
      ==→eq payment.id n (find_first-matches key s.order_payments planned.rows.payment_found) in
    let rows : HasRows payment.flow_id n t = record {
      payment = payment_after p payment;
      payment_found =
          ap (find_first key)
            (applied.payments ∙ ap (update_where (is_pending paid) paid_payment) same_payments)
          ∙ find_first-update key (is_pending paid) paid_payment s.order_payments (λ x. refl)
              planned.rows.payment_found;
      order = order_after o order;
      order_found =
          ap (λ k. find_first k t.orders) (payment_order p payment)
          ∙ ap (find_first (order_of payment))
              (applied.orders ∙ ap (update_where (is_requested paid) paid_order) same_orders)
          ∙ find_first-update (order_of payment) (is_requested paid) paid_order s.orders (λ x. refl)
              planned.rows.order_found;
      own_flow =
          ap (λ f. str_ne f payment.flow_id) (payment_flow p payment)
          ∙ ap not (str_eq_refl payment.flow_id);
      link = applied.link;
      link_found =
          ap (λ i. find_first (λ (l : OrderLinkRow). l.order_payment_id == i) t.order_links)
            (payment_id p payment ∙ sym planned.payment_id)
          ∙ applied.link_found;
      contract = applied.contract;
      contract_found =
          ap (λ i. find_first (λ (c : ContractRow). c.order_id == i) t.contracts)
            (order_id_after o order ∙ sym planned.formed)
          ∙ applied.contract_found;
    } in
    (
      rows,
      ap
            (λ i. record (applied_result plan applied.contract applied.link) {
              order_id = i;
              order_payment_id = n;
            })
            (order_id_after o order ∙ sym planned.order_id)
          ∙ ap
              (λ i. record (applied_result plan applied.contract applied.link) {
                order_payment_id = i;
              })
              (sym own ∙ sym planned.payment_id)
          ∙ applied.result,
    )

module _ (runtime : Runtime) (prepared : PreparedCommissionCheckout) where
  abbrev pub own_row : String → ℤ → ℕ → CommandRow
  own_row flow now i =
      command_row runtime (checkout_request prepared.input prepared.payload_hash flow) none now i

  -- A command that an operation has completed.
  abbrev pub completed_with : CommandRow → OperationRow → CompletedCommand
  completed_with command operation = record {
    stored = map_stored_command (completed_by runtime operation.id command) (some operation);
    operation_db_id = operation.id;
    operation_id = format_operation_id operation.kind operation.id;
  }

  -- A checkout that has been made: its command, completed by its operation, and its rows.
  pub record IsPosted (s : Store) (r : CommissionCheckoutResult) (t : Store) : Type 0 where
    pub flow : String
    pub command : CommandRow
    pub command_is : own_row flow s.now s.next_id ≡ command
    pub operation : OperationRow
    pub operation_id : operation.id ≡ runtime.uuid (suc s.next_id)
    pub fresh : find_first (λ x. operation_table.clashes x operation) s.operations ≡ none
    pub commands :
        t.commands
        ≡ update_where
            (λ r. str_eq r.id command.id)
            (completed_by runtime operation.id)
            (s.commands ++ command ∷ [])
    pub operations : t.operations ≡ s.operations ++ operation ∷ []
    pub rows : HasRows flow prepared.input.order_payment_id t
    pub result :
        record {
          economic_result = (completed_checkout (completed_with command operation) rows).result;
          replayed = false;
        }
        ≡ r

  -- What a checkout that is no replay returns.
  abbrev posted_result :
      CommandRow → OperationRow → CommissionCheckoutDomainResult → CommissionCheckoutResult
  posted_result command operation result = record {
    economic_result = record {
      order_id = result.order_id;
      order_payment_id = result.order_payment_id;
      contract_id = result.contract_id;
      reservation_id = result.reservation_id;
      reference_id = format_transaction_reference command.flow_kind command.flow_id;
      command_id = format_command_id command.kind command.id;
      operation_id = format_operation_id operation.kind operation.id;
    };
    replayed = false;
  }

  -- The rows that were written, one after the other, and what they make.
  posted :
      (plan : ExecutableCommissionCheckoutPlan) (command : CommandRow) (operation : OperationRow)
      (s v t : Store) {result : CommissionCheckoutDomainResult}
      (planned : IsPlanned prepared s plan)
      → command_row runtime
          (command_of plan.commission_plan prepared.payload_hash)
          none
          s.now
          s.next_id
        ≡ command
      → operation_row runtime command.flow_id FinancialCommandKind.pay command.id (suc s.next_id)
        ≡ operation
      → find_first (λ x. operation_table.clashes x operation) s.operations ≡ none
      → v.commands
        ≡ update_where
            (λ r. str_eq r.id command.id)
            (completed_by runtime operation.id)
            (s.commands ++ command ∷ [])
      → v.operations ≡ s.operations ++ operation ∷ []
      → v.order_payments ≡ s.order_payments
      → v.orders ≡ s.orders
      → IsApplied plan v result t
      → IsPosted s (posted_result command operation result) t
  unfolding map_stored_command
  posted plan command operation s v t planned started made fresh commands operations payments orders
        applied =
      let (rows, same) = applied_rows prepared plan s v t planned payments orders applied in
      record {
        flow = planned.rows.payment.flow_id;
        command = command;
        command_is = ap (λ x. command_row runtime x none s.now s.next_id) planned.command ∙ started;
        operation = operation;
        operation_id = ap (λ (o : OperationRow). o.id) (sym made);
        fresh = fresh;
        commands = applied.commands ∙ commands;
        operations = applied.operations ∙ operations;
        rows = rows;
        result = ap (posted_result command operation) same;
      }

  pub post_checkout-IsPosted :
      (s : Store) {r : CommissionCheckoutResult} {t : Store}
      → post_checkout runtime prepared s ≡ ok (r, t)
      → IsPosted s r t
  unfolding post_checkout start_command create_operation create_transfer_action complete_command
      assert_command_effect_completeness map_stored_command
  post_checkout-IsPosted s {r} {t} h =
      after_read (load_commission_checkout_plan prepared) _ s
        (λ a u e. (load_commission_checkout_plan-ok prepared s e).0) h
        λ plan e1 h1.
          let planned = (load_commission_checkout_plan-ok prepared s e1).1 in
          after_command runtime (command_of plan.commission_plan prepared.payload_hash) none _ s h1
            λ command c2 h2.
              let s2 = added command_table command s in
              after_create operation_table
                (operation_row runtime command.flow_id FinancialCommandKind.pay command.id) _ s2 h2
                λ operation c3 h3.
                  let s3 = added operation_table operation s2 in
                  after_create transfer_action_table
                    (λ i. record {
                      id = runtime.uuid i;
                      flow_id = operation.flow_id;
                      operation_id = operation.id;
                      operation_kind = FinancialCommandKind.pay;
                    })
                    _ s3 h3
                    λ action c4 h4.
                      let s4 = added transfer_action_table action s3 in
                      after_update command_table (λ r. str_eq r.id command.id)
                        (completed_by runtime operation.id) _ s4 h4
                        λ done c5 h5.
                          let s5 =
                            changed command_table (λ r. str_eq r.id command.id)
                              (completed_by runtime operation.id) s4 in
                          after (apply_commission_checkout_plan plan action.id) _ s5 h5
                            λ result s6 e6 h6. after_constraints runtime _ _ s6 h6 λ h7.
                              let applied =
                                apply_commission_checkout_plan-IsApplied plan action.id s5 e6 in
                              subst (λ x. IsPosted s x t) (same_value h7)
                                (subst (IsPosted s (posted_result command operation result))
                                  (same_state h7)
                                  (posted plan command operation s s5 s6 planned c2.row c3.row
                                    c3.fresh refl refl refl refl applied))

-- ===== src/Checkout/Aliased.antt =====
-- A second key for a payment that is completed.
use Prim.Native.String.{◌++◌}
use ts_graphql_reference.Base.{
  ℕ, ◌≡◌, sym, ap, ◌∙◌, subst, true, false, Option, none, some, str_eq, Option-cases, ◌⊎◌, inl, inr,
}
use ts_graphql_reference.Decimal.{decimal}
use ts_graphql_reference.Failure.{ok}
use ts_graphql_reference.Tx.{>>=-run}
use ts_graphql_reference.Flow.{
  FinancialCommandKind, commission, format_command_id, format_transaction_reference, flow_kind_text,
}
use ts_graphql_reference.Runtime.{Runtime}
use ts_graphql_reference.Store.{Store, CommandRow, OperationRow}
use ts_graphql_reference.Store.Tables.{command_table}
use ts_graphql_reference.Store.Client.{find_first, added}
use ts_graphql_reference.Store.Client.Calls.{same_value, same_state}
use ts_graphql_reference.Store.Client.Steps.{after, after_lift}
use ts_graphql_reference.Flow.Repo.{
  command_row, map_stored_command, result_operation, operation_db_id_of, save_command_alias,
  assert_command_effect_completeness, find_completed_command_by_subject,
}
use ts_graphql_reference.Flow.Commands.{
  completed_rows, find_completed-run, after_command, after_constraints,
}
use ts_graphql_reference.Flow.Aliased.{found_again, stored_at-kept, completed_rows-completes}
use ts_graphql_reference.PointCharge.Service.{text_or_empty}
use ts_graphql_reference.Checkout.{
  CommissionCheckoutEconomicResult, replay, commission_order_payment_namespace,
  plan_commission_checkout_start,
}
use ts_graphql_reference.Checkout.Start.{plan_commission_checkout_start_iff}
use ts_graphql_reference.Checkout.Loaded.{HasRows, completed_checkout}
use ts_graphql_reference.Checkout.Stored.{
  CommissionCheckoutResult, PreparedCommissionCheckout, CompletedCommand, require_completed_command,
  load_completed, checkout_request, save_alias, replay_start, replayed_result, replay_stored,
}
use ts_graphql_reference.Checkout.Service.{execute_commission_checkout}
use ts_graphql_reference.Checkout.Existing.{
  require_completed-ok, existing, load_completed-IsExisting,
}
use ts_graphql_reference.Checkout.Decided.{own_key, done_row, done, done-again}

module _ (runtime : Runtime) (prepared : PreparedCommissionCheckout) where
  abbrev completed_row : Store → Option CommandRow
  completed_row s =
      completed_rows commission FinancialCommandKind.pay commission_order_payment_namespace
        (decimal prepared.input.order_payment_id) s

  -- A second key that has been saved for a completed payment, and its result.
  pub record IsAliased (s : Store) (r : CommissionCheckoutResult) (t : Store) : Type 0 where
    pub row : CommandRow
    pub operation : OperationRow
    pub found : find_first (λ o. str_eq o.id operation.id) s.operations ≡ some operation
    pub named : str_eq operation.id "" ≡ false
    pub kind : flow_kind_text row.flow_kind ≡ flow_kind_text commission
    pub rows : HasRows row.flow_id prepared.input.order_payment_id s
    pub new : CommandRow
    pub made : done_row runtime prepared row.flow_id s.now s.next_id operation ≡ new
    pub result :
        replayed_result (record (completed_checkout (done row operation) rows).result {
          command_id = format_command_id new.kind new.id;
        })
        ≡ r
    pub state : added command_table new s ≡ t

  -- The row that is saved for a second key, and what it returns.
  record IsSaved (row : CommandRow) (operation : OperationRow)
      (economic : CommissionCheckoutEconomicResult) (s : Store) (r : CommissionCheckoutResult)
      (t : Store) : Type 0 where
    new : CommandRow
    made : done_row runtime prepared row.flow_id s.now s.next_id operation ≡ new
    result :
        replayed_result (record economic { command_id = format_command_id new.kind new.id }) ≡ r
    state : added command_table new s ≡ t

  save_alias-IsSaved :
      (row : CommandRow) (operation : OperationRow) (result : CommissionCheckoutEconomicResult)
      (s : Store) {r : CommissionCheckoutResult} {t : Store}
      → save_alias runtime
          (checkout_request prepared.input prepared.payload_hash "")
          (some (map_stored_command row (some operation)))
          result
          s
        ≡ ok (r, t)
      → IsSaved row operation result s r t
  unfolding save_alias save_command_alias assert_command_effect_completeness map_stored_command
  save_alias-IsSaved row operation result s h =
      after_lift (require_completed_command (map_stored_command row (some operation))) _ s h
        λ completed e1 h1.
          let (other, same, _, is_done) = require_completed-ok row (some operation) e1 in
          let own : operation.id ≡ completed.operation_db_id =
            ap (λ o. text_or_empty (operation_db_id_of o)) same
            ∙ ap (λ (c : CompletedCommand). c.operation_db_id) is_done in
          after_command runtime (checkout_request prepared.input prepared.payload_hash row.flow_id)
            (some completed.operation_db_id) _ s h1
            λ new c2 h2. after_constraints runtime _ _ _ h2 λ h3. record {
              new = new;
              made =
                  ap
                    (λ i.
                      command_row runtime
                        (checkout_request prepared.input prepared.payload_hash row.flow_id) (some i)
                        s.now s.next_id)
                    own
                  ∙ c2.row;
              result = same_value h3;
              state = same_state h3;
            }

  aliased :
      (row : CommandRow) (operation : OperationRow) (s : Store) (n : ℕ)
      → n ≡ prepared.input.order_payment_id
      → (rows : HasRows row.flow_id n s)
      → find_first (λ o. str_eq o.id operation.id) s.operations ≡ some operation
      → str_eq operation.id "" ≡ false
      → flow_kind_text row.flow_kind ≡ flow_kind_text commission
      → {r : CommissionCheckoutResult} {t : Store}
      → IsSaved row operation (completed_checkout (done row operation) rows).result s r t
      → IsAliased s r t
  aliased row operation s n same rows found named kind {r} {t} =
      subst
        (λ m.
          (rows : HasRows row.flow_id m s)
          → IsSaved row operation (completed_checkout (done row operation) rows).result s r t
          → IsAliased s r t)
        (sym same)
        (λ rows saved. record {
          row = row;
          operation = operation;
          found = found;
          named = named;
          kind = kind;
          rows = rows;
          new = saved.new;
          made = saved.made;
          result = saved.result;
          state = saved.state;
        })
        rows

  -- With no command of its key, a checkout goes on, or saves its key for a completed payment.
  pub replay_none_cases :
      (s : Store) {o : Option CommissionCheckoutResult} {t : Store}
      → runtime.number_of (decimal prepared.input.order_payment_id)
        ≡ some prepared.input.order_payment_id
      → replay_stored runtime prepared
          (checkout_request prepared.input prepared.payload_hash "")
          none
          s
        ≡ ok (o, t)
      → ((o ≡ none) × (s ≡ t)) ⊎ ((r : CommissionCheckoutResult) × (o ≡ some r) × IsAliased s r t)
  unfolding replay_stored load_completed plan_commission_checkout_start replay_start
  replay_none_cases s {o} {t} numbers h =
      let requested = checkout_request prepared.input prepared.payload_hash "" in
      let g =
        sym (
          >>=-run
            (find_completed_command_by_subject commission FinancialCommandKind.pay
              commission_order_payment_namespace (decimal prepared.input.order_payment_id))
            _ s
            (find_completed-run commission FinancialCommandKind.pay
              commission_order_payment_namespace (decimal prepared.input.order_payment_id) s))
        ∙ h in
      elim (Option-cases (completed_row s)) [
        | inl e ↦
            let k : ok (none, s) ≡ ok (o, t) = rw e at g in inl (sym (same_value k), same_state k)
        | inr (row, e) ↦
            let stored = result_operation row s in
            after (load_completed runtime (some (map_stored_command row stored))) _ s (rw e at g)
              λ c u e1 g1.
                let x = load_completed-IsExisting runtime row stored s e1 in
                after_lift
                  (plan_commission_checkout_start none c prepared.payload_hash
                    prepared.input.actor_id)
                  _ u g1
                  λ start e2 g2.
                    let p =
                      ((plan_commission_checkout_start_iff none
                          (some (existing row x.operation x.rows)) prepared.payload_hash
                          prepared.input.actor_id start).0
                        (subst
                          (λ y.
                            plan_commission_checkout_start none y prepared.payload_hash
                              prepared.input.actor_id
                            ≡ ok start)
                          (sym x.loaded) e2)).1 in
                    let g3 =
                      subst
                        (λ y.
                          replay_start runtime requested (some (map_stored_command row stored)) y u
                          ≡ ok (o, t))
                        p g2 in
                    let result = (completed_checkout (done row x.operation) x.rows).result in
                    let g4 =
                      subst
                        (λ y.
                          replay_start runtime requested (some (map_stored_command row y))
                            (replay result true) u
                          ≡ ok (o, t))
                        x.recorded g3 in
                    let g5 =
                      subst
                        (λ y.
                          replay_start runtime requested
                            (some (map_stored_command row (some x.operation))) (replay result true)
                            y
                          ≡ ok (o, t))
                        (sym x.same) g4 in
                    after
                      (save_alias runtime requested
                        (some (map_stored_command row (some x.operation))) result)
                      _ s g5
                      λ saved v e3 g6.
                        let made = save_alias-IsSaved row x.operation result s e3 in
                        let (subject, kind) =
                          completed_rows-completes commission FinancialCommandKind.pay
                            commission_order_payment_namespace
                            (decimal prepared.input.order_payment_id) s e in
                        let same_n : some x.n ≡ some prepared.input.order_payment_id =
                          sym x.number ∙ ap runtime.number_of subject ∙ numbers in
                        inr (
                          saved,
                          sym (same_value g6),
                          subst (IsAliased s saved) (same_state g6) (
                              aliased row x.operation s x.n (cc same_n) x.rows
                                (found_again row s x.recorded) x.named kind made),
                        )
      ]

  -- On the store with the second key, an execution with it returns what saving it has returned.
  pub aliased-again :
      (s : Store) {r : CommissionCheckoutResult} {t : Store}
      → runtime.number_of (decimal prepared.input.order_payment_id)
        ≡ some prepared.input.order_payment_id
      → find_first (own_key runtime prepared) s.commands ≡ none
      → IsAliased s r t
      → execute_commission_checkout runtime prepared t ≡ ok (r, t)
  unfolding map_stored_command format_transaction_reference
  aliased-again s {r} {t} numbers none_before a =
      let u = added command_table a.new s in
      let own =
        stored_at-kept runtime (checkout_request prepared.input prepared.payload_hash a.row.flow_id)
          s a.operation none_before a.found a.made in
      let kept : HasRows a.row.flow_id prepared.input.order_payment_id u = record {
        payment = a.rows.payment;
        payment_found = a.rows.payment_found;
        order = a.rows.order;
        order_found = a.rows.order_found;
        own_flow = a.rows.own_flow;
        link = a.rows.link;
        link_found = a.rows.link_found;
        contract = a.rows.contract;
        contract_found = a.rows.contract_found;
      } in
      let result = (completed_checkout (done a.row a.operation) a.rows).result in
      let loaded =
        done-again runtime prepared u a.row.flow_id s.now s.next_id a.operation numbers a.named own
          kept
        ∙ ap
            (λ kind. ok (
              replayed_result (record result {
                reference_id = kind ++ ("-" ++ a.row.flow_id);
                command_id = format_command_id FinancialCommandKind.pay (runtime.uuid s.next_id);
              }),
              u,
            ))
            (sym a.kind)
        ∙ ap
            (λ (n : CommandRow).
              ok
                (replayed_result (record result { command_id = format_command_id n.kind n.id }), u))
            a.made
        ∙ ap (λ x. ok (x, u)) a.result in
      subst (λ x. execute_commission_checkout runtime prepared x ≡ ok (r, x)) a.state loaded

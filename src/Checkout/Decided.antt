-- ===== src/Checkout/Decided.antt =====
-- How a checkout looks for a command or a payment that is completed, and replays it.
use ts_graphql_reference.Base.{ℕ, ◌≡◌, refl, ap, ◌∙◌, Bool, false, Option, some, String, str_eq}
use ts_graphql_reference.Int.{ℤ}
use ts_graphql_reference.Decimal.{decimal}
use ts_graphql_reference.Failure.{ok}
use ts_graphql_reference.Tx.{>>=-run}
use ts_graphql_reference.Flow.{FinancialCommandKind, format_operation_id}
use ts_graphql_reference.Flow.Reference.{operation_reference}
use ts_graphql_reference.Runtime.{Runtime}
use ts_graphql_reference.Store.{Store, CommandRow, OperationRow}
use ts_graphql_reference.Store.Tables.{has_key}
use ts_graphql_reference.Store.Client.{find_first}
use ts_graphql_reference.Flow.Repo.{StoredCommand, command_row, map_stored_command, find_command}
use ts_graphql_reference.Flow.Commands.{stored_at, find_command-run}
use ts_graphql_reference.Checkout.{assert_commission_checkout_replay_identity}
use ts_graphql_reference.Checkout.Start.{assert_commission_checkout_replay_identity_iff}
use ts_graphql_reference.Checkout.Loaded.{HasRows, completed_checkout, load_completed-run}
use ts_graphql_reference.Checkout.Stored.{
  CommissionCheckoutResult, PreparedCommissionCheckout, CompletedCommand, require_completed_command,
  load_completed_commission_checkout_result, checkout_request, stored_identity, requested_identity,
  replayed_result, replay_stored, replay_completed_commission_checkout,
}
use ts_graphql_reference.Checkout.Service.{continue_checkout, execute_commission_checkout}

-- A command with the operation that has completed it.
abbrev pub done : CommandRow → OperationRow → CompletedCommand
done row operation = record {
  stored = map_stored_command row (some operation);
  operation_db_id = operation.id;
  operation_id = format_operation_id operation.kind operation.id;
}

done-required :
    (row : CommandRow) (operation : OperationRow)
    → str_eq operation.id "" ≡ false
    → require_completed_command (map_stored_command row (some operation)) ≡ ok (done row operation)
unfolding require_completed_command map_stored_command
done-required row operation named = rw (named, operation_reference operation.kind operation.id) refl

module _ (runtime : Runtime) (prepared : PreparedCommissionCheckout) where
  abbrev pub own_key : CommandRow → Bool
  own_key = has_key prepared.input.actor_id FinancialCommandKind.pay prepared.input.command_key

  abbrev pub own_command : Store → Option StoredCommand
  own_command s = stored_at (find_first own_key s.commands) s

  pub replay-run :
      (s : Store)
      → replay_completed_commission_checkout runtime prepared s
        ≡ replay_stored runtime prepared
            (checkout_request prepared.input prepared.payload_hash "")
            (own_command s)
            s
  unfolding replay_completed_commission_checkout
  replay-run s =
      >>=-run
        (find_command prepared.input.actor_id FinancialCommandKind.pay prepared.input.command_key) _
        s
        (find_command-run prepared.input.actor_id FinancialCommandKind.pay
          prepared.input.command_key s)

  -- A checkout whose replay returns a result returns it.
  pub replay-execute :
      (s : Store) {r : CommissionCheckoutResult} {t : Store}
      → replay_completed_commission_checkout runtime prepared s ≡ ok (some r, t)
      → execute_commission_checkout runtime prepared s ≡ ok (r, t)
  unfolding execute_commission_checkout continue_checkout
  replay-execute s h = >>=-run (replay_completed_commission_checkout runtime prepared) _ s h

  -- A command of the input that has an operation for its result.
  abbrev pub done_row : String → ℤ → ℕ → OperationRow → CommandRow
  done_row flow now i operation =
      command_row runtime (checkout_request prepared.input prepared.payload_hash flow)
        (some operation.id) now i

  -- On a store that has the command, its operation and its rows, the result is loaded.
  pub done-again :
      (t : Store) (flow : String) (now : ℤ) (i : ℕ) (operation : OperationRow)
      → runtime.number_of (decimal prepared.input.order_payment_id)
        ≡ some prepared.input.order_payment_id
      → str_eq operation.id "" ≡ false
      → own_command t ≡ some (map_stored_command (done_row flow now i operation) (some operation))
      → (rows : HasRows flow prepared.input.order_payment_id t)
      → execute_commission_checkout runtime prepared t
        ≡ ok (
          replayed_result
              (completed_checkout (done (done_row flow now i operation) operation) rows).result,
          t,
        )
  unfolding replay_stored map_stored_command
  done-again t flow now i operation numbers named own rows =
      let row = done_row flow now i operation in
      let requested =
        requested_identity (checkout_request prepared.input prepared.payload_hash "") in
      let is_own : assert_commission_checkout_replay_identity
            (stored_identity (map_stored_command row (some operation))) requested
          ≡ ok tt =
        (assert_commission_checkout_replay_identity_iff requested requested).1 refl in
      let loaded =
        load_completed-run runtime (done row operation) prepared.input.order_payment_id t numbers
          rows in
      replay-execute t (
        replay-run t
        ∙ ap
            (λ o.
              replay_stored runtime prepared
                (checkout_request prepared.input prepared.payload_hash "") o t)
            own
        ∙ rw (is_own, done-required row operation named)
            (>>=-run (load_completed_commission_checkout_result runtime (done row operation)) _ t
              loaded))

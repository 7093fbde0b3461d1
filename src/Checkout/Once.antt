-- ===== src/Checkout/Once.antt =====
-- A checkout is made once: a repeat of its command finds it.
use ts_graphql_reference.Base.{
  ℕ, suc, ◌≡◌, refl, sym, ap, ◌∙◌, subst, true, false, Option, none, some, List, [], ◌∷◌, ◌++◌, inl,
  inr, Option-cases, str_eq,
}
use ts_graphql_reference.Decimal.{decimal}
use ts_graphql_reference.Failure.{ok}
use ts_graphql_reference.Locks.{LockKey}
use ts_graphql_reference.Runtime.{Runtime}
use ts_graphql_reference.Point.Tables.{update_where}
use ts_graphql_reference.Store.{Store, CommandRow}
use ts_graphql_reference.Store.Client.{find_first}
use ts_graphql_reference.Store.Client.Calls.{same_value, same_state}
use ts_graphql_reference.Store.Client.Steps.{after, after_lift}
use ts_graphql_reference.Flow.Repo.{
  StoredCommand, map_stored_command, result_operation, completed_by,
}
use ts_graphql_reference.Flow.Commands.{stored_at}
use ts_graphql_reference.Flow.Completed.{stored_at-completed}
use ts_graphql_reference.Checkout.{
  CommissionCheckoutLockTargets, assert_commission_checkout_replay_identity,
}
use ts_graphql_reference.Checkout.Loaded.{completed_checkout, load_completed-ok}
use ts_graphql_reference.Checkout.Stored.{
  CommissionCheckoutResult, PreparedCommissionCheckout, CompletedCheckout,
  require_completed_command, load_completed_commission_checkout_result, checkout_request,
  stored_identity, requested_identity, replayed_result, replay_stored,
  replay_completed_commission_checkout,
}
use ts_graphql_reference.Checkout.Service.{
  post_checkout, continue_checkout, execute_commission_checkout,
}
use ts_graphql_reference.Checkout.Posted.{completed_with, IsPosted, post_checkout-IsPosted}
use ts_graphql_reference.Checkout.Decided.{
  own_key, own_command, done-again, replay-run, replay-execute,
}
use ts_graphql_reference.Checkout.Aliased.{replay_none_cases, aliased-again}

module _ (runtime : Runtime) (prepared : PreparedCommissionCheckout)
    (locked : CommissionCheckoutLockTargets) (keys : List LockKey) where
  -- The same input, prepared again.
  abbrev repeated : PreparedCommissionCheckout
  repeated = record prepared { locked_targets = locked; lock_keys = keys }

  replay_stored-repeated :
      (o : Option StoredCommand) (s : Store)
      → replay_stored runtime prepared
          (checkout_request prepared.input prepared.payload_hash "")
          o
          s
        ≡ replay_stored runtime repeated
            (checkout_request prepared.input prepared.payload_hash "")
            o
            s
  unfolding replay_stored
  replay_stored-repeated none s = refl
  replay_stored-repeated (some c) s = refl

  -- A stored command that is replayed is only loaded.
  stored-replayed :
      (c : StoredCommand) (s : Store) {o : Option CommissionCheckoutResult} {t : Store}
      → replay_stored runtime prepared
          (checkout_request prepared.input prepared.payload_hash "")
          (some c)
          s
        ≡ ok (o, t)
      → (s ≡ t) × (loaded : CompletedCheckout) × (some (replayed_result loaded.result) ≡ o)
  unfolding replay_stored
  stored-replayed c s h =
      after_lift
        (assert_commission_checkout_replay_identity (stored_identity c)
          (requested_identity (checkout_request prepared.input prepared.payload_hash "")))
        _ s h
        λ u e1 h1. after_lift (require_completed_command c) _ s h1 λ completed e2 h2.
          after (load_completed_commission_checkout_result runtime completed) _ s h2
            λ loaded v e3 h3.
              ((load_completed-ok runtime completed s e3).0 ∙ same_state h3, loaded, same_value h3)

  -- On the store after a new checkout, an execution returns what the checkout has returned.
  posted-again :
      (s : Store) {r : CommissionCheckoutResult} {t : Store}
      → ((n : ℕ) → str_eq (runtime.uuid n) "" ≡ false)
      → runtime.number_of (decimal prepared.input.order_payment_id)
        ≡ some prepared.input.order_payment_id
      → find_first (own_key runtime prepared) s.commands ≡ none
      → IsPosted runtime prepared s r t
      → execute_commission_checkout runtime repeated t ≡ ok (record r { replayed = true }, t)
  unfolding map_stored_command
  posted-again s {r} {t} named numbers none_before p =
      let is_named = ap (λ i. str_eq i "") p.operation_id ∙ named (suc s.next_id) in
      let commands =
        subst
          (λ (c : CommandRow).
            t.commands
            ≡ update_where (λ r. str_eq r.id c.id) (completed_by runtime p.operation.id)
                (s.commands ++ c ∷ []))
          (sym p.command_is) p.commands in
      let own =
        stored_at-completed runtime (checkout_request prepared.input prepared.payload_hash p.flow)
          s.now s.next_id p.operation s t none_before p.fresh commands p.operations in
      done-again runtime repeated t p.flow s.now s.next_id p.operation numbers is_named own p.rows
      ∙ ap
          (λ c. ok (
            replayed_result
                (completed_checkout (completed_with runtime prepared c p.operation) p.rows).result,
            t,
          ))
          p.command_is
      ∙ ap (λ (x : CommissionCheckoutResult). ok (record x { replayed = true }, t)) p.result

  -- An execution that has found its command has returned what is loaded again.
  replayed-again :
      (c : StoredCommand) (s : Store) {o : Option CommissionCheckoutResult} {u : Store}
      {r : CommissionCheckoutResult} {t : Store}
      → own_command runtime prepared s ≡ some c
      → replay_stored runtime prepared
          (checkout_request prepared.input prepared.payload_hash "")
          (own_command runtime prepared s)
          s
        ≡ ok (o, u)
      → continue_checkout runtime prepared o u ≡ ok (r, t)
      → execute_commission_checkout runtime repeated t ≡ ok (record r { replayed = true }, t)
  unfolding continue_checkout
  replayed-again c s {o} {u} {r} {t} own stored g =
      let requested = checkout_request prepared.input prepared.payload_hash "" in
      let (kept, loaded, is_o) =
        stored-replayed c s
          (subst (λ x. replay_stored runtime prepared requested x s ≡ ok (o, u)) own stored) in
      let g1 = subst (λ x. continue_checkout runtime prepared x u ≡ ok (r, t)) (sym is_o) g in
      let again = replay-execute runtime repeated s (
        replay-run runtime repeated s
        ∙ sym (replay_stored-repeated (own_command runtime prepared s) s)
        ∙ stored
        ∙ ap (λ x. ok (x, u)) (sym is_o)) in
      subst
        (λ x. execute_commission_checkout runtime repeated x ≡ ok (record r { replayed = true }, t))
        (kept ∙ same_state g1)
        (again
          ∙ ap (λ x. ok (replayed_result loaded.result, x)) (same_state g1)
          ∙ ap (λ (x : CommissionCheckoutResult). ok (record x { replayed = true }, t))
              (same_value g1))

  -- An execution that has found no command has written it, or has added it to a payment.
  written-again :
      (s : Store) {o : Option CommissionCheckoutResult} {u : Store} {r : CommissionCheckoutResult}
      {t : Store}
      → ((n : ℕ) → str_eq (runtime.uuid n) "" ≡ false)
      → runtime.number_of (decimal prepared.input.order_payment_id)
        ≡ some prepared.input.order_payment_id
      → find_first (own_key runtime prepared) s.commands ≡ none
      → replay_stored runtime prepared
          (checkout_request prepared.input prepared.payload_hash "")
          none
          s
        ≡ ok (o, u)
      → continue_checkout runtime prepared o u ≡ ok (r, t)
      → execute_commission_checkout runtime repeated t ≡ ok (record r { replayed = true }, t)
  unfolding continue_checkout
  written-again s {o} {u} {r} {t} named numbers q stored g =
      elim (replay_none_cases runtime repeated s numbers
        (sym (replay_stored-repeated none s) ∙ stored)) [
          | inl (is_o, kept) ↦ posted-again s named numbers q (
              post_checkout-IsPosted runtime prepared s (
                subst (λ x. post_checkout runtime prepared x ≡ ok (r, t)) (sym kept)
                  (subst (λ x. continue_checkout runtime prepared x u ≡ ok (r, t)) is_o g)))
          | inr (saved, is_o, a) ↦
              let g1 = subst (λ x. continue_checkout runtime prepared x u ≡ ok (r, t)) is_o g in
              subst
                (λ x.
                  execute_commission_checkout runtime repeated x
                  ≡ ok (record r { replayed = true }, x))
                (same_state g1)
                (aliased-again runtime repeated s numbers q a
                  ∙ ap (λ x. ok (x, u)) (sym a.result)
                  ∙ ap (λ (x : CommissionCheckoutResult). ok (record x { replayed = true }, u))
                      (a.result ∙ same_value g1))
        ]

-- A command key checks out once: whatever the store, a second execution of the same input, with
-- whatever targets it has locked, on the store that the first has left returns the first one's
-- result, marked as replayed, and writes nothing, also where the first has only added a key to a
-- payment that was completed. The database's identifiers are no empty texts, and `Number` reads back
-- what `String` writes of the payment's identifier.
pub execute_commission_checkout-again :
    (runtime : Runtime) (prepared : PreparedCommissionCheckout)
    (locked : CommissionCheckoutLockTargets) (keys : List LockKey) (s : Store)
    {r : CommissionCheckoutResult} {t : Store}
    → ((n : ℕ) → str_eq (runtime.uuid n) "" ≡ false)
    → runtime.number_of (decimal prepared.input.order_payment_id)
      ≡ some prepared.input.order_payment_id
    → execute_commission_checkout runtime prepared s ≡ ok (r, t)
    → execute_commission_checkout runtime
        (record prepared { locked_targets = locked; lock_keys = keys })
        t
      ≡ ok (record r { replayed = true }, t)
unfolding execute_commission_checkout
execute_commission_checkout-again runtime prepared locked keys s {r} {t} named numbers e =
    after (replay_completed_commission_checkout runtime prepared) _ s e λ o u e1 g.
      let requested = checkout_request prepared.input prepared.payload_hash "" in
      let stored = sym (replay-run runtime prepared s) ∙ e1 in
      elim (Option-cases (find_first (own_key runtime prepared) s.commands)) [
        | inr (row, q) ↦
            replayed-again runtime prepared locked keys
              (map_stored_command row (result_operation row s)) s (ap (λ x. stored_at x s) q) stored
              g
        | inl q ↦
            written-again runtime prepared locked keys s named numbers q
              (subst (λ x. replay_stored runtime prepared requested x s ≡ ok (o, u))
                (ap (λ x. stored_at x s) q) stored)
              g
      ]

-- ===== src/Books/Checkout.antt =====
-- The books through a checkout: it reserves what its allocations sum up to.
use ts_graphql_reference.Base.{◌≡◌, sym, ap, ◌∙◌, subst, Option, none, some, String, true, false}
use ts_graphql_reference.Int.{ℤ, pos, total_of, Number, whole, fractional}
use ts_graphql_reference.Decimal.{decimal}
use ts_graphql_reference.Tx.Keeps.{Keeps, Returned}
use ts_graphql_reference.Store.{Store}
use ts_graphql_reference.Store.Client.Calls.{same_value}
use ts_graphql_reference.Store.Client.Steps.{after, after_lift}
use ts_graphql_reference.Flow.Repo.{StoredCommand, FinancialCommandRequest}
use ts_graphql_reference.Commerce.{
  load_commission_checkout_payment_snapshot, load_commission_checkout_terms,
  load_commission_checkout_slot,
}
use ts_graphql_reference.Checkout.{
  CommissionCheckoutLockTargets, CommissionCheckoutWorld, assert_locked_commission_checkout_targets,
  plan_commission_checkout, CommissionCheckoutInput, CommissionCheckoutEconomicResult,
  CommissionCheckoutStartPlan, proceed, replay,
}
use ts_graphql_reference.Checkout.Stored.{
  PreparedCommissionCheckout, ExecutableCommissionCheckoutPlan, CompletedCommand,
  CommissionCheckoutResult, load_completed_commission_checkout_result, load_completed, save_alias,
  replay_start, replay_stored, replay_completed_commission_checkout,
}
use ts_graphql_reference.Checkout.Service.{
  load_commission_checkout_plan, apply_commission_checkout_plan, post_checkout, continue_checkout,
  execute_commission_checkout, prepare_commission_checkout,
}
use ts_graphql_reference.Runtime.{Runtime}
use ts_graphql_reference.Ledger.{plan_reservation}
use ts_graphql_reference.Ledger.Reservation.{plan_reservation-IsReservation}
use ts_graphql_reference.Ledger.Loads.{find_holder_id, load_available_point_world}
use ts_graphql_reference.Ledger.Conserved.{IsConserved}
use ts_graphql_reference.Ledger.Writes.{apply_commission_payment_reservation}
use ts_graphql_reference.Ledger.Funds.{load_available_point_world-HasFunds}
use ts_graphql_reference.Ledger.Reserved.{IsReserved-IsConserved}
use ts_graphql_reference.Ledger.Reserving.{
  amount_of, apply_commission_payment_reservation-IsReserved,
}
use ts_graphql_reference.Books.{reads}
use ts_graphql_reference.Books.Reads.{
  Keeps-find_holder_id, Keeps-load_available_point_world,
  Keeps-load_commission_checkout_payment_snapshot, Keeps-load_commission_checkout_terms,
  Keeps-load_commission_checkout_slot, Keeps-find_commission_checkout_lock_targets,
}
use ts_graphql_reference.Books.Writes.{
  writes, Keeps-apply_commission_checkout_contract_formation,
  Keeps-apply_commission_checkout_payment, Keeps-apply_commission_checkout_slot_occupation,
}

whole_of : Number → ℤ
whole_of (whole n) = n
whole_of fractional = pos 0

-- The plan's allocations are of the amount that it reserves.
exact_plan :
    (prepared : PreparedCommissionCheckout) (plan : ExecutableCommissionCheckoutPlan)
    → Returned (load_commission_checkout_plan prepared) plan
    → total_of amount_of plan.allocations ≡ plan.commission_plan.financial_request.amount
unfolding load_commission_checkout_plan whole_of
exact_plan prepared plan (s, t, e) =
    after (load_commission_checkout_payment_snapshot prepared.input.order_payment_id) _ s e
      λ commerce s1 e1 h1.
        after (load_commission_checkout_terms commerce.commission_type_id) _ s1 h1 λ terms s2 e2 h2.
          after (load_commission_checkout_slot commerce.slot_id) _ s2 h2 λ slot s3 e3 h3.
            after (find_holder_id "user" (decimal commerce.order.buyer_id)) _ s3 h3
              λ holder s4 e4 h4.
                let targets : CommissionCheckoutLockTargets = record {
                  buyer_id = commerce.order.buyer_id;
                  slot_id = commerce.slot_id;
                  financial_holder_id = holder;
                } in
                after_lift
                  (assert_locked_commission_checkout_targets prepared.locked_targets targets) _ s4
                  h4
                  λ u e5 h5.
                    let world : CommissionCheckoutWorld = record {
                      order = commerce.order;
                      payment = commerce.payment;
                      terms = terms;
                      slot = slot;
                      funding_holder_id = holder;
                    } in
                    after_lift (plan_commission_checkout world prepared.input) _ s4 h5
                      λ planned e6 h6.
                        after (load_available_point_world planned.financial_request.holder_id) _ s4
                          h6
                          λ points s7 e7 h7.
                            let request = planned.financial_request in
                            after_lift (plan_reservation points.lots (whole request.amount)) _ s7 h7
                              λ allocations e8 h8.
                                let full =
                                  load_available_point_world-HasFunds request.holder_id points
                                    (s4, s7, e7) in
                                let (n, same, fits, r) =
                                  plan_reservation-IsReservation points.lots (whole request.amount)
                                    full e8 in
                                let exact = r.exact ∙ sym (ap whole_of same) in
                                subst
                                  (λ (p : ExecutableCommissionCheckoutPlan).
                                    total_of amount_of p.allocations
                                    ≡ p.commission_plan.financial_request.amount)
                                  (same_value h8) exact

Keeps-apply_commission_payment_reservation :
    (prepared : PreparedCommissionCheckout) (plan : ExecutableCommissionCheckoutPlan)
    (action : String)
    → Returned (load_commission_checkout_plan prepared) plan
    → Keeps IsConserved (
        apply_commission_payment_reservation plan.commission_plan.financial_request plan.account_id
          plan.allocations action)
Keeps-apply_commission_payment_reservation prepared plan action loaded = record {
  at = λ {s} e c.
      IsReserved-IsConserved (exact_plan prepared plan loaded)
        (apply_commission_payment_reservation-IsReserved plan.commission_plan.financial_request
          plan.account_id plan.allocations action s e)
        c;
}

Keeps-apply_commission_checkout_plan :
    (prepared : PreparedCommissionCheckout) (plan : ExecutableCommissionCheckoutPlan)
    (action : String)
    → Returned (load_commission_checkout_plan prepared) plan
    → Keeps IsConserved (apply_commission_checkout_plan plan action)
unfolding apply_commission_checkout_plan
Keeps-apply_commission_checkout_plan prepared plan action loaded =
    search
      (
        reads, Keeps-apply_commission_payment_reservation,
        Keeps-apply_commission_checkout_contract_formation, Keeps-apply_commission_checkout_payment,
        Keeps-apply_commission_checkout_slot_occupation,
      )
      depth 20 fits 2000

Keeps-load_commission_checkout_plan :
    (prepared : PreparedCommissionCheckout)
    → Keeps IsConserved (load_commission_checkout_plan prepared)
unfolding load_commission_checkout_plan
Keeps-load_commission_checkout_plan prepared =
    search
      (
        reads, Keeps-find_holder_id, Keeps-load_available_point_world,
        Keeps-load_commission_checkout_payment_snapshot, Keeps-load_commission_checkout_terms,
        Keeps-load_commission_checkout_slot,
      )
      depth 40 fits 4000

module _ (runtime : Runtime) where
  Keeps-load_completed_commission_checkout_result :
      (identity : CompletedCommand)
      → Keeps IsConserved (load_completed_commission_checkout_result runtime identity)
  unfolding load_completed_commission_checkout_result
  Keeps-load_completed_commission_checkout_result identity = search reads depth 40 fits 4000

  Keeps-load_completed :
      (completed : Option StoredCommand) → Keeps IsConserved (load_completed runtime completed)
  unfolding load_completed
  Keeps-load_completed none = search reads
  Keeps-load_completed (some identity) =
      search (reads, Keeps-load_completed_commission_checkout_result) depth 12

  Keeps-save_alias :
      (requested : FinancialCommandRequest) (completed : Option StoredCommand)
      (result : CommissionCheckoutEconomicResult)
      → Keeps IsConserved (save_alias runtime requested completed result)
  unfolding save_alias
  Keeps-save_alias requested completed result = search writes depth 20 fits 2000

  Keeps-replay_start :
      (requested : FinancialCommandRequest) (completed : Option StoredCommand)
      (start : CommissionCheckoutStartPlan)
      → Keeps IsConserved (replay_start runtime requested completed start)
  unfolding replay_start
  Keeps-replay_start requested completed proceed = search reads
  Keeps-replay_start requested completed (replay result true) = search (reads, Keeps-save_alias)
  Keeps-replay_start requested completed (replay result false) = search reads

  Keeps-replay_stored :
      (prepared : PreparedCommissionCheckout) (requested : FinancialCommandRequest)
      (stored : Option StoredCommand)
      → Keeps IsConserved (replay_stored runtime prepared requested stored)
  unfolding replay_stored
  Keeps-replay_stored prepared requested none =
      search (writes, Keeps-load_completed, Keeps-replay_start) depth 20 fits 2000
  Keeps-replay_stored prepared requested (some stored) =
      search (reads, Keeps-load_completed_commission_checkout_result) depth 20 fits 2000

  Keeps-replay_completed_commission_checkout :
      (prepared : PreparedCommissionCheckout)
      → Keeps IsConserved (replay_completed_commission_checkout runtime prepared)
  unfolding replay_completed_commission_checkout
  Keeps-replay_completed_commission_checkout prepared =
      search (writes, Keeps-replay_stored) depth 12

  Keeps-post_checkout :
      (prepared : PreparedCommissionCheckout) → Keeps IsConserved (post_checkout runtime prepared)
  unfolding post_checkout
  Keeps-post_checkout prepared =
      search (writes, Keeps-load_commission_checkout_plan, Keeps-apply_commission_checkout_plan)
        depth 40 fits 4000

  Keeps-continue_checkout :
      (prepared : PreparedCommissionCheckout) (replayed : Option CommissionCheckoutResult)
      → Keeps IsConserved (continue_checkout runtime prepared replayed)
  unfolding continue_checkout
  Keeps-continue_checkout prepared none = Keeps-post_checkout prepared
  Keeps-continue_checkout prepared (some result) = search reads

  pub Keeps-execute_commission_checkout :
      (prepared : PreparedCommissionCheckout)
      → Keeps IsConserved (execute_commission_checkout runtime prepared)
  unfolding execute_commission_checkout
  Keeps-execute_commission_checkout prepared =
      search (reads, Keeps-replay_completed_commission_checkout, Keeps-continue_checkout) depth 12

  pub Keeps-prepare_commission_checkout :
      {P : Store → Type 0} (input : CommissionCheckoutInput)
      → Keeps P (prepare_commission_checkout runtime input)
  unfolding prepare_commission_checkout
  Keeps-prepare_commission_checkout input =
      search (reads, Keeps-find_holder_id, Keeps-find_commission_checkout_lock_targets) depth 12

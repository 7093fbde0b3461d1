-- ===== src/Checkout/Planned.antt =====
-- The rows that the plan of a checkout is made for.
use ts_graphql_reference.Base.{ℕ, ◌≡◌, sym, ap, ◌∙◌, subst, some, ◌==◌}
use ts_graphql_reference.Int.{whole}
use ts_graphql_reference.Decimal.{decimal}
use ts_graphql_reference.Failure.{ok}
use ts_graphql_reference.Store.{Store, OrderRow, OrderPaymentRow}
use ts_graphql_reference.Store.Tables.{order_table}
use ts_graphql_reference.Store.Client.{find_first, find_unique}
use ts_graphql_reference.Store.Client.Calls.{same_value, same_state}
use ts_graphql_reference.Store.Client.Steps.{after, after_lift, after_read, after_find}
use ts_graphql_reference.Tx.Keeps.{Keeps-quiet}
use ts_graphql_reference.Ledger.{plan_reservation}
use ts_graphql_reference.Ledger.Loads.{or_throw_with, find_holder_id, load_available_point_world}
use ts_graphql_reference.Failure.{order_payment_not_found}
use ts_graphql_reference.Books.Reads.{
  Keeps-find_holder_id, Keeps-load_available_point_world, Keeps-load_commission_checkout_terms,
  Keeps-load_commission_checkout_slot,
}
use ts_graphql_reference.Commerce.{
  order_of, find_payment, checkout_snapshot, CommissionCheckoutPaymentSnapshot,
  load_commission_checkout_payment_snapshot, load_commission_checkout_terms,
  load_commission_checkout_slot,
}
use ts_graphql_reference.Checkout.{
  CommissionCheckoutWorld, CommissionCheckoutPlan, checkout_plan, plan_commission_checkout,
  CommissionCheckoutLockTargets, assert_locked_commission_checkout_targets,
}
use ts_graphql_reference.Checkout.Plan.{plans-IsPayable}
use ts_graphql_reference.Checkout.Loaded.{or_throw_with-ok}
use ts_graphql_reference.Checkout.Stored.{
  PreparedCommissionCheckout, ExecutableCommissionCheckoutPlan, checkout_request, command_of,
}
use ts_graphql_reference.Checkout.Service.{load_commission_checkout_plan}

-- A payment with its order.
pub record HasPayment (n : ℕ) (s : Store) : Type 0 where
  pub payment : OrderPaymentRow
  pub payment_found : find_first (λ p. p.id == n) s.order_payments ≡ some payment
  pub order : OrderRow
  pub order_found : find_first (order_of payment) s.orders ≡ some order

load_commission_checkout_payment_snapshot-ok :
    (n : ℕ) (s : Store) {c : CommissionCheckoutPaymentSnapshot} {t : Store}
    → load_commission_checkout_payment_snapshot n s ≡ ok (c, t)
    → (s ≡ t) × (rows : HasPayment n s) × (checkout_snapshot rows.order rows.payment ≡ c)
unfolding load_commission_checkout_payment_snapshot find_payment find_unique
load_commission_checkout_payment_snapshot-ok n s h = after (find_payment n) _ s h λ pair u e g.
    let found = find_first (λ (p : OrderPaymentRow). p.id == n) s.order_payments in
    let missing = order_payment_not_found n in
    after_lift (or_throw_with missing found) _ s e λ payment e1 h1.
      after_find order_table (order_of payment) _ s h1 λ order e2 h2. (
        same_state h2 ∙ same_state g,
        record {
          payment = payment;
          payment_found = or_throw_with-ok missing found e1;
          order = order;
          order_found = e2;
        },
        ap (λ (x : OrderRow × OrderPaymentRow). checkout_snapshot x.0 x.1) (same_value h2)
            ∙ same_value g,
      )

-- What a plan says of the payment's rows.
pub record IsPlanned (prepared : PreparedCommissionCheckout) (s : Store)
    (plan : ExecutableCommissionCheckoutPlan) : Type 0 where
  pub rows : HasPayment prepared.input.order_payment_id s
  pub command :
      checkout_request prepared.input prepared.payload_hash rows.payment.flow_id
      ≡ command_of plan.commission_plan prepared.payload_hash
  pub order_id : plan.commission_plan.paid_order.order_id ≡ rows.order.id
  pub payment_id : plan.commission_plan.paid_order.order_payment_id ≡ rows.payment.id
  pub formed : plan.commission_plan.contract.order_id ≡ rows.order.id

planned_for :
    (prepared : PreparedCommissionCheckout) (s : Store)
    (rows : HasPayment prepared.input.order_payment_id s) (world : CommissionCheckoutWorld)
    (plan : ExecutableCommissionCheckoutPlan)
    → (checkout_snapshot rows.order rows.payment).order ≡ world.order
    → (checkout_snapshot rows.order rows.payment).payment ≡ world.payment
    → plan_commission_checkout world prepared.input ≡ ok plan.commission_plan
    → IsPlanned prepared s plan
unfolding checkout_plan
planned_for prepared s rows world plan o p e =
    let q = (plans-IsPayable world prepared.input e).1 in
    record {
      rows = rows;
      command =
          ap (λ x. checkout_request prepared.input prepared.payload_hash x.flow_id) p
          ∙ ap (λ x. command_of x prepared.payload_hash) q;
      order_id =
          ap (λ (x : CommissionCheckoutPlan). x.paid_order.order_id) (sym q)
          ∙ ap (λ x. x.id) (sym o);
      payment_id =
          ap (λ (x : CommissionCheckoutPlan). x.paid_order.order_payment_id) (sym q)
          ∙ ap (λ x. x.id) (sym p);
      formed =
          ap (λ (x : CommissionCheckoutPlan). x.contract.order_id) (sym q) ∙ ap (λ x. x.id) (sym o);
    }

-- A plan that is loaded is made for the payment's rows, and loading changes nothing.
pub load_commission_checkout_plan-ok :
    (prepared : PreparedCommissionCheckout) (s : Store) {plan : ExecutableCommissionCheckoutPlan}
    {t : Store}
    → load_commission_checkout_plan prepared s ≡ ok (plan, t)
    → (s ≡ t) × IsPlanned prepared s plan
unfolding load_commission_checkout_plan
load_commission_checkout_plan-ok prepared s {plan} {t} h =
    after_read (load_commission_checkout_payment_snapshot prepared.input.order_payment_id) _ s
      (λ a u e.
        (load_commission_checkout_payment_snapshot-ok prepared.input.order_payment_id s e).0)
      h
      λ commerce e1 h1.
        let (_, rows, same) =
          load_commission_checkout_payment_snapshot-ok prepared.input.order_payment_id s e1 in
        after_read (load_commission_checkout_terms commerce.commission_type_id) _ s
          (λ a u e.
            Keeps-quiet (Keeps-load_commission_checkout_terms commerce.commission_type_id) e)
          h1
          λ terms e2 h2.
            after_read (load_commission_checkout_slot commerce.slot_id) _ s
              (λ a u e. Keeps-quiet (Keeps-load_commission_checkout_slot commerce.slot_id) e) h2
              λ slot e3 h3.
                after_read (find_holder_id "user" (decimal commerce.order.buyer_id)) _ s
                  (λ a u e.
                    Keeps-quiet (Keeps-find_holder_id "user" (decimal commerce.order.buyer_id)) e)
                  h3
                  λ holder e4 h4.
                    let targets : CommissionCheckoutLockTargets = record {
                      buyer_id = commerce.order.buyer_id;
                      slot_id = commerce.slot_id;
                      financial_holder_id = holder;
                    } in
                    after_lift
                      (assert_locked_commission_checkout_targets prepared.locked_targets targets) _
                      s h4
                      λ u e5 h5.
                        let world : CommissionCheckoutWorld = record {
                          order = commerce.order;
                          payment = commerce.payment;
                          terms = terms;
                          slot = slot;
                          funding_holder_id = holder;
                        } in
                        after_lift (plan_commission_checkout world prepared.input) _ s h5
                          λ planned e6 h6.
                            let request = planned.financial_request in
                            after_read (load_available_point_world request.holder_id) _ s
                              (λ a u e.
                                Keeps-quiet (Keeps-load_available_point_world request.holder_id) e)
                              h6
                              λ points e7 h7.
                                after_lift (plan_reservation points.lots (whole request.amount)) _ s
                                  h7
                                  λ allocations e8 h8. (
                                    same_state h8,
                                    subst (IsPlanned prepared s) (same_value h8) (
                                        planned_for prepared s rows world
                                          (record {
                                            commission_plan = planned;
                                            account_id = points.account_id;
                                            allocations = allocations;
                                          })
                                          (ap (λ (x : CommissionCheckoutPaymentSnapshot). x.order)
                                            same)
                                          (ap (λ (x : CommissionCheckoutPaymentSnapshot). x.payment)
                                            same)
                                          e6),
                                  )

-- ===== src/Checkout/Loaded.antt =====
-- What the result of a checkout that is completed is loaded from.
use ts_graphql_reference.Base.{ℕ, ◌≡◌, refl, false, Option, none, some, String, ◌==◌, str_ne}
use ts_graphql_reference.Failure.{Error, ok, plain_error}
use ts_graphql_reference.Runtime.{Runtime}
use ts_graphql_reference.Store.{Store, OrderRow, OrderPaymentRow, OrderLinkRow, ContractRow}
use ts_graphql_reference.Store.Tables.{order_payment_table, order_table}
use ts_graphql_reference.Store.Client.{find_first, find_unique, find_unique_or_throw}
use ts_graphql_reference.Store.Client.Calls.{same_value, same_state}
use ts_graphql_reference.Store.Client.Steps.{after_lift, after_find, after_throw_if}
use ts_graphql_reference.Ledger.Loads.{or_throw_with}
use ts_graphql_reference.Commerce.{order_of}
use ts_graphql_reference.Checkout.Stored.{
  CompletedCommand, CompletedCheckout, load_completed_commission_checkout_result,
}

-- The rows that a completed checkout of the payment `n` has.
pub record HasRows (flow : String) (n : ℕ) (s : Store) : Type 0 where
  pub payment : OrderPaymentRow
  pub payment_found : find_first (λ p. p.id == n) s.order_payments ≡ some payment
  pub order : OrderRow
  pub order_found : find_first (order_of payment) s.orders ≡ some order
  pub own_flow : str_ne payment.flow_id flow ≡ false
  pub link : OrderLinkRow
  pub link_found : find_first (λ l. l.order_payment_id == payment.id) s.order_links ≡ some link
  pub contract : ContractRow
  pub contract_found : find_first (λ c. c.order_id == order.id) s.contracts ≡ some contract

abbrev pub completed_checkout :
    {n : ℕ} {flow : String} {s : Store} → CompletedCommand → HasRows flow n s → CompletedCheckout
completed_checkout {n} identity rows = record {
  buyer_id = rows.order.buyer_id;
  result = record {
    order_id = rows.order.id;
    order_payment_id = n;
    contract_id = rows.contract.id;
    reservation_id = rows.link.reservation_id;
    reference_id = identity.stored.reference_id;
    command_id = identity.stored.command_id;
    operation_id = identity.operation_id;
  };
}

pub or_throw_with-ok :
    {A : Type 0} (e : Error) (o : Option A) {a : A} → or_throw_with e o ≡ ok a → o ≡ some a
or_throw_with-ok e none h = cc h
or_throw_with-ok e (some x) h = cc h

module _ (runtime : Runtime) (identity : CompletedCommand) where
  -- A result that is loaded has its rows, and loading changes nothing.
  pub load_completed-ok :
      (s : Store) {r : CompletedCheckout} {t : Store}
      → load_completed_commission_checkout_result runtime identity s ≡ ok (r, t)
      → (s ≡ t)
        × (n : ℕ) × (runtime.number_of identity.stored.subject_key ≡ some n)
        × (rows : HasRows identity.stored.flow_id n s) × (completed_checkout identity rows ≡ r)
  unfolding load_completed_commission_checkout_result find_unique
  load_completed-ok s {r} {t} h =
      let invalid = plain_error "Commission payment subject is invalid" in
      let missing = plain_error "Commission payment has no completed result" in
      after_lift (or_throw_with invalid (runtime.number_of identity.stored.subject_key)) _ s h
        λ n e1 h1.
          after_find order_payment_table (λ p. p.id == n) _ s h1
            λ payment e2 h2. after_find order_table (order_of payment) _ s h2 λ order e3 h3.
              let o4 =
                find_first (λ (l : OrderLinkRow). l.order_payment_id == payment.id) s.order_links in
              let o5 = find_first (λ (c : ContractRow). c.order_id == order.id) s.contracts in
              after_throw_if (str_ne payment.flow_id identity.stored.flow_id) _ _ s h3 λ own h6.
                after_lift (or_throw_with missing o4) _ s h6 λ link e7 h7.
                  after_lift (or_throw_with missing o5) _ s h7 λ contract e8 h8. (
                    same_state h8,
                    n,
                    or_throw_with-ok invalid (runtime.number_of identity.stored.subject_key) e1,
                    record {
                      payment = payment;
                      payment_found = e2;
                      order = order;
                      order_found = e3;
                      own_flow = own;
                      link = link;
                      link_found = or_throw_with-ok missing o4 e7;
                      contract = contract;
                      contract_found = or_throw_with-ok missing o5 e8;
                    },
                    same_value h8,
                  )

  -- With its rows a result is loaded.
  pub load_completed-run :
      (n : ℕ) (s : Store)
      → runtime.number_of identity.stored.subject_key ≡ some n
      → (rows : HasRows identity.stored.flow_id n s)
      → load_completed_commission_checkout_result runtime identity s
        ≡ ok (completed_checkout identity rows, s)
  unfolding load_completed_commission_checkout_result find_unique find_unique_or_throw
  load_completed-run n s e rows =
      rw
        (
          e, rows.payment_found, rows.order_found, rows.link_found, rows.contract_found,
          rows.own_flow,
        )
        refl

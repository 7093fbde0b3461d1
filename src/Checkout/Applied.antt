-- ===== src/Checkout/Applied.antt =====
-- What the plan of a checkout leaves of the payment, its order, their link and their contract.
use ts_graphql_reference.Base.{
  ℕ, suc, List, ◌≡◌, refl, sym, ap, ◌∙◌, subst, ◌||◌, not, none, some, [], ◌∷◌, ◌++◌, String, ◌==◌,
  ==_refl, second_true,
}
use ts_graphql_reference.Failure.{ok}
use ts_graphql_reference.Point.Tables.{update_where, count_where}
use ts_graphql_reference.Store.{Store, OrderLinkRow, ContractRow}
use ts_graphql_reference.Store.Tables.{
  order_payment_table, order_table, order_link_table, contract_table, slot_table,
}
use ts_graphql_reference.Store.Client.{find_first, added}
use ts_graphql_reference.Store.Client.Calls.{
  same_value, same_state, find_first-append, find_first-none, create-ok,
}
use ts_graphql_reference.Store.Client.Steps.{
  after, after_create, after_update_many, after_throw_if, changed,
}
use ts_graphql_reference.Ledger.Writes.{apply_commission_payment_reservation}
use ts_graphql_reference.Ledger.Reserving.{apply_commission_payment_reservation-IsReserved}
use ts_graphql_reference.Commerce.{
  is_pending, is_requested, paid_payment, paid_order, link_row, apply_commission_checkout_payment,
  is_available, occupied_slot, apply_commission_checkout_slot_occupation, contract_row,
  apply_commission_checkout_contract_formation,
}
use ts_graphql_reference.Checkout.{PaidOrder, OccupiedSlot, CheckoutContract}
use ts_graphql_reference.Tx.{throw_if-ok}
use ts_graphql_reference.Checkout.Stored.{ExecutableCommissionCheckoutPlan}
use ts_graphql_reference.Checkout.Service.{
  CommissionCheckoutDomainResult, apply_commission_checkout_plan,
}

-- A payment and its order are paid, and the payment has its link.
record IsPaid (input : PaidOrder) (reservation : ℕ) (s : Store) (t : Store) : Type 0 where
  link : OrderLinkRow
  own : link_row input reservation s.next_id ≡ link
  fresh : find_first (λ x. order_link_table.clashes x link) s.order_links ≡ none
  state :
      added order_link_table link (
        changed order_table
          (is_requested input)
          paid_order
          (changed order_payment_table (is_pending input) paid_payment s))
      ≡ t

apply_commission_checkout_payment-IsPaid :
    (input : PaidOrder) (reservation : ℕ) (s : Store) {r : OrderLinkRow} {t : Store}
    → apply_commission_checkout_payment input reservation s ≡ ok (r, t)
    → IsPaid input reservation s t
unfolding apply_commission_checkout_payment
apply_commission_checkout_payment-IsPaid input reservation s h =
    after_update_many order_payment_table (is_pending input) paid_payment _ s h λ c1 h1.
      let s1 = changed order_payment_table (is_pending input) paid_payment s in
      after_throw_if (not (count_where (is_pending input) s.order_payments == 1)) _ _ s1 h1 λ n1 h2.
        after_update_many order_table (is_requested input) paid_order _ s1 h2 λ c3 h3.
          let s2 = changed order_table (is_requested input) paid_order s1 in
          after_throw_if (not (count_where (is_requested input) s.orders == 1)) _ _ s2 h3 λ n2 h4.
            let c = create-ok order_link_table (link_row input reservation) s2 h4 in
            record { link = _; own = c.row; fresh = c.fresh; state = c.state }

apply_commission_checkout_slot_occupation-ok :
    (input : OccupiedSlot) (s : Store) {u : Unit {0}} {t : Store}
    → apply_commission_checkout_slot_occupation input s ≡ ok (u, t)
    → changed slot_table (is_available input) occupied_slot s ≡ t
unfolding apply_commission_checkout_slot_occupation
apply_commission_checkout_slot_occupation-ok input s h =
    after_update_many slot_table (is_available input) occupied_slot _ s h λ c1 h1.
      let s1 = changed slot_table (is_available input) occupied_slot s in
      (throw_if-ok (not (count_where (is_available input) s.slots == 1)) _ s1 h1).1

link_appended :
    (input : PaidOrder) (reservation : ℕ) (links : List OrderLinkRow) (i : ℕ) {link : OrderLinkRow}
    → link_row input reservation i ≡ link
    → find_first (λ x. order_link_table.clashes x link) links ≡ none
    → find_first
        (λ (l : OrderLinkRow). l.order_payment_id == input.order_payment_id)
        (links ++ link ∷ [])
      ≡ some link
link_appended input reservation links i {link} row fresh =
    let own : link.order_payment_id ≡ input.order_payment_id =
      ap (λ (l : OrderLinkRow). l.order_payment_id) (sym row) in
    let key = λ (l : OrderLinkRow). l.order_payment_id == input.order_payment_id in
    find_first-append key links link
      (find_first-none key (λ x. order_link_table.clashes x link) links
        (λ x e.
          ap (λ b. b || x.reservation_id == link.reservation_id)
            (ap (λ n. x.order_payment_id == n) own ∙ e))
        fresh)
      (ap (λ n. n == input.order_payment_id) own ∙ ==_refl input.order_payment_id)

contract_appended :
    (formation : CheckoutContract) (contracts : List ContractRow) (i : ℕ) {contract : ContractRow}
    → contract_row formation i ≡ contract
    → find_first (λ x. contract_table.clashes x contract) contracts ≡ none
    → find_first
        (λ (c : ContractRow). c.order_id == formation.order_id)
        (contracts ++ contract ∷ [])
      ≡ some contract
contract_appended formation contracts i {contract} row fresh =
    let own : contract.order_id ≡ formation.order_id =
      ap (λ (c : ContractRow). c.order_id) (sym row) in
    let key = λ (c : ContractRow). c.order_id == formation.order_id in
    find_first-append key contracts contract
      (find_first-none key (λ x. contract_table.clashes x contract) contracts
        (λ x e.
          second_true (x.id == contract.id) (x.order_id == contract.order_id)
            (ap (λ n. x.order_id == n) own ∙ e))
        fresh)
      (ap (λ n. n == formation.order_id) own ∙ ==_refl formation.order_id)

abbrev pub applied_result :
    ExecutableCommissionCheckoutPlan → ContractRow → OrderLinkRow → CommissionCheckoutDomainResult
applied_result plan contract link = record {
  order_id = plan.commission_plan.paid_order.order_id;
  order_payment_id = plan.commission_plan.paid_order.order_payment_id;
  contract_id = contract.id;
  reservation_id = link.reservation_id;
}

-- What the plan leaves of the tables that a result is loaded from.
pub record IsApplied (plan : ExecutableCommissionCheckoutPlan) (s : Store)
    (r : CommissionCheckoutDomainResult) (t : Store) : Type 0 where
  pub commands : t.commands ≡ s.commands
  pub operations : t.operations ≡ s.operations
  pub payments :
      t.order_payments
      ≡ update_where (is_pending plan.commission_plan.paid_order) paid_payment s.order_payments
  pub orders :
      t.orders ≡ update_where (is_requested plan.commission_plan.paid_order) paid_order s.orders
  pub link : OrderLinkRow
  pub link_found :
      find_first
        (λ (l : OrderLinkRow).
          l.order_payment_id == plan.commission_plan.paid_order.order_payment_id)
        t.order_links
      ≡ some link
  pub contract : ContractRow
  pub contract_found :
      find_first
        (λ (c : ContractRow). c.order_id == plan.commission_plan.contract.order_id)
        t.contracts
      ≡ some contract
  pub result : applied_result plan contract link ≡ r

pub apply_commission_checkout_plan-IsApplied :
    (plan : ExecutableCommissionCheckoutPlan) (action : String) (s : Store)
    {r : CommissionCheckoutDomainResult} {t : Store}
    → apply_commission_checkout_plan plan action s ≡ ok (r, t)
    → IsApplied plan s r t
unfolding apply_commission_checkout_plan apply_commission_checkout_contract_formation
apply_commission_checkout_plan-IsApplied plan action s {r} {t} h =
    let p = plan.commission_plan in
    after
      (apply_commission_payment_reservation p.financial_request plan.account_id plan.allocations
        action)
      _ s h
      λ reservation s1 e1 h1.
        let held =
          (apply_commission_payment_reservation-IsReserved p.financial_request plan.account_id
            plan.allocations action s e1).state in
        after_create contract_table (contract_row p.contract) _ s1 h1 λ contract c2 h2.
          after (apply_commission_checkout_payment p.paid_order reservation.id) _
            (added contract_table contract s1) h2
            λ link s3 e3 h3.
              let paid =
                apply_commission_checkout_payment-IsPaid p.paid_order reservation.id _ e3 in
              after (apply_commission_checkout_slot_occupation p.occupied_slot) _ s3 h3
                λ u s4 e4 h4.
                  let slot = apply_commission_checkout_slot_occupation-ok p.occupied_slot s3 e4 in
                  let left = sym (
                    ap (changed slot_table (is_available p.occupied_slot) occupied_slot) paid.state
                    ∙ slot) in
                  let applied : IsApplied plan s (applied_result plan contract paid.link) s4 =
                    record {
                      commands =
                          ap (λ (z : Store). z.commands) left
                          ∙ ap (λ (z : Store). z.commands) (sym held);
                      operations =
                          ap (λ (z : Store). z.operations) left
                          ∙ ap (λ (z : Store). z.operations) (sym held);
                      payments =
                          ap (λ (z : Store). z.order_payments) left
                          ∙ ap
                              (λ (z : Store).
                                update_where (is_pending p.paid_order) paid_payment
                                  z.order_payments)
                              (sym held);
                      orders =
                          ap (λ (z : Store). z.orders) left
                          ∙ ap
                              (λ (z : Store).
                                update_where (is_requested p.paid_order) paid_order z.orders)
                              (sym held);
                      link = paid.link;
                      link_found =
                          ap
                            (λ (z : Store).
                              find_first
                                (λ (l : OrderLinkRow).
                                  l.order_payment_id == p.paid_order.order_payment_id)
                                z.order_links)
                            left
                          ∙ link_appended p.paid_order reservation.id s1.order_links
                              (suc s1.next_id) paid.own paid.fresh;
                      contract = contract;
                      contract_found =
                          ap
                            (λ (z : Store).
                              find_first (λ (c : ContractRow). c.order_id == p.contract.order_id)
                                z.contracts)
                            left
                          ∙ contract_appended p.contract s1.contracts s1.next_id c2.row c2.fresh;
                      result = refl;
                    } in
                  subst (λ x. IsApplied plan s x t)
                    (ap
                        (λ n. record (applied_result plan contract paid.link) {
                          reservation_id = n;
                        })
                        (ap (λ (l : OrderLinkRow). l.reservation_id) (sym paid.own))
                      ∙ same_value h4)
                    (subst (IsApplied plan s (applied_result plan contract paid.link))
                      (same_state h4) applied)

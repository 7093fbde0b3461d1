-- ===== src/Commerce.antt =====
-- src/modules/order/order.repo.ts, slot/slot.repo.ts, contract/contract.repo.ts and
-- commission-type/commission-type.repo.ts: what checkout and settlement read and write of them.
use ts_graphql_reference.Base.{ℕ, Bool, ◌&&◌, not, ◌==◌, ltb, str_eq}
use ts_graphql_reference.Failure.{
  concurrent_update, the_order_payment, the_order, the_commission_slot, order_payment_not_found,
  paid_order_not_found, commission_contract_not_found, commission_slot_not_found,
  commission_type_not_found,
}
use ts_graphql_reference.Tx.{Tx, pure, lift, throw_if, ◌>>=◌, ◌>>◌}
use ts_graphql_reference.Store.{
  Store, OrderRow, OrderPaymentRow, OrderLinkRow, ContractRow, SlotRow,
}
use ts_graphql_reference.Store.Tables.{
  order_table, order_payment_table, order_link_table, contract_table, slot_table,
  commission_type_table,
}
use ts_graphql_reference.Store.Client.{
  find_unique, find_unique_or_throw, find_many, create, update_many,
}
use ts_graphql_reference.Ledger.Loads.{or_throw_with}
use ts_graphql_reference.Flow.Repo.{first_of}
use ts_graphql_reference.Checkout.{
  CheckoutOrder, CheckoutPayment, CheckoutTerms, CheckoutSlot, CheckoutContract, PaidOrder,
  OccupiedSlot,
}
use ts_graphql_reference.Settlement.Data.{SettlementContract, SettlementOrder, SettlementPayment}

abbrev pub order_of : OrderPaymentRow → OrderRow → Bool
order_of payment r = r.id == payment.order_id && str_eq r.flow_id payment.flow_id

-- `orderPayment.findUnique` with its order.
unfoldable pub find_payment : ℕ → Tx Store (OrderRow × OrderPaymentRow)
unfolding find_unique find_unique_or_throw
find_payment order_payment_id = do
  row ← find_unique order_payment_table (λ p. p.id == order_payment_id)
  payment ← lift (or_throw_with (order_payment_not_found order_payment_id) row)
  order ← find_unique_or_throw order_table (order_of payment)
  pure (order, payment)

pub record OrderTargets : Type 0 where
  pub buyer_id : ℕ
  pub slot_id : ℕ

unfoldable pub find_commission_checkout_lock_targets : ℕ → Tx Store OrderTargets
unfolding find_payment
find_commission_checkout_lock_targets order_payment_id = do
  (order, payment) ← find_payment order_payment_id
  pure (record { buyer_id = order.buyer_id; slot_id = order.slot_id })

pub record CommissionCheckoutPaymentSnapshot : Type 0 where
  pub order : CheckoutOrder
  pub commission_type_id : ℕ
  pub slot_id : ℕ
  pub payment : CheckoutPayment

abbrev pub checkout_snapshot : OrderRow → OrderPaymentRow → CommissionCheckoutPaymentSnapshot
checkout_snapshot order payment = record {
  order = record {
    id = order.id;
    buyer_id = order.buyer_id;
    flow_id = order.flow_id;
    amount = order.amount;
    currency = order.currency;
    state = order.state;
  };
  commission_type_id = order.commission_type_id;
  slot_id = order.slot_id;
  payment = record {
    id = payment.id;
    flow_id = payment.flow_id;
    amount = payment.amount;
    currency = payment.currency;
    state = payment.state;
  };
}

unfoldable pub load_commission_checkout_payment_snapshot :
    ℕ → Tx Store CommissionCheckoutPaymentSnapshot
unfolding find_payment
load_commission_checkout_payment_snapshot order_payment_id = do
  (order, payment) ← find_payment order_payment_id
  pure (checkout_snapshot order payment)

pub record CommissionSettlementOrderSnapshot : Type 0 where
  pub order : SettlementOrder
  pub payment : SettlementPayment

-- The relation `payments`, those that are paid.
abbrev pub paid_for : OrderRow → OrderPaymentRow → Bool
paid_for order p = p.order_id == order.id && str_eq p.flow_id order.flow_id && str_eq p.state "PAID"

abbrev pub lower_id : OrderPaymentRow → OrderPaymentRow → Bool
lower_id a b = ltb a.id b.id

unfoldable pub load_commission_settlement_order_snapshot :
    ℕ → Tx Store CommissionSettlementOrderSnapshot
unfolding find_unique find_many
load_commission_settlement_order_snapshot order_id = do
  row ← find_unique order_table (λ o. o.id == order_id)
  order ← lift (or_throw_with (paid_order_not_found order_id) row)
  payments ← find_many order_payment_table (paid_for order) lower_id
  payment ← lift (or_throw_with (paid_order_not_found order_id) (first_of payments))
  financial_link ← find_unique order_link_table (λ l. l.order_payment_id == payment.id)
  link ← lift (or_throw_with (paid_order_not_found order_id) financial_link)
  pure (record {
    order = record {
      id = order.id;
      buyer_id = order.buyer_id;
      flow_id = order.flow_id;
      state = order.state;
      amount = order.amount;
      currency = order.currency;
    };
    payment = record {
      id = payment.id;
      flow_id = payment.flow_id;
      state = payment.state;
      amount = payment.amount;
      currency = payment.currency;
      funding_link = record { reservation_id = link.reservation_id; flow_id = link.flow_id };
    };
  })

-- The guards of the UPDATEs of a payment, an order and a slot.
abbrev pub is_pending : PaidOrder → OrderPaymentRow → Bool
is_pending input p =
    p.id == input.order_payment_id && p.order_id == input.order_id && str_eq p.state "PENDING"

abbrev pub is_requested : PaidOrder → OrderRow → Bool
is_requested input o = o.id == input.order_id && str_eq o.state "REQUESTED"

abbrev pub paid_payment : OrderPaymentRow → OrderPaymentRow
paid_payment p = record p { state = "PAID" }

abbrev pub paid_order : OrderRow → OrderRow
paid_order o = record o { state = "PAID" }

abbrev pub link_row : PaidOrder → ℕ → ℕ → OrderLinkRow
link_row input reservation_id i = record {
  order_payment_id = input.order_payment_id;
  flow_id = input.flow_id;
  reservation_id = reservation_id;
}

unfoldable pub apply_commission_checkout_payment : PaidOrder → ℕ → Tx Store OrderLinkRow
unfolding update_many create
apply_commission_checkout_payment input reservation_id = do
  payment_count ← update_many order_payment_table (is_pending input) paid_payment
  throw_if (not (payment_count == 1)) (concurrent_update (the_order_payment input.order_payment_id))
  order_count ← update_many order_table (is_requested input) paid_order
  throw_if (not (order_count == 1)) (concurrent_update (the_order input.order_id))
  create order_link_table (link_row input reservation_id)

unfoldable pub load_commission_checkout_slot : ℕ → Tx Store CheckoutSlot
unfolding find_unique
load_commission_checkout_slot i = do
  row ← find_unique slot_table (λ r. r.id == i)
  slot ← lift (or_throw_with (commission_slot_not_found i) row)
  pure (record { id = slot.id; worker_id = slot.worker_id; state = slot.state })

abbrev pub is_available : OccupiedSlot → SlotRow → Bool
is_available input r =
    r.id == input.slot_id && r.worker_id == input.worker_id && str_eq r.state "AVAILABLE"

abbrev pub occupied_slot : SlotRow → SlotRow
occupied_slot r = record r { state = "OCCUPIED" }

unfoldable pub apply_commission_checkout_slot_occupation : OccupiedSlot → Tx Store (Unit {0})
unfolding update_many
apply_commission_checkout_slot_occupation input = do
  count ← update_many slot_table (is_available input) occupied_slot
  throw_if (not (count == 1)) (concurrent_update (the_commission_slot input.slot_id))

unfoldable pub load_commission_checkout_terms : ℕ → Tx Store CheckoutTerms
unfolding find_unique
load_commission_checkout_terms i = do
  row ← find_unique commission_type_table (λ r. r.id == i)
  terms ← lift (or_throw_with (commission_type_not_found i) row)
  pure (record { worker_id = terms.worker_id; price = terms.price })

unfoldable pub load_commission_settlement_contract : ℕ → Tx Store SettlementContract
unfolding find_unique
load_commission_settlement_contract contract_id = do
  row ← find_unique contract_table (λ c. c.id == contract_id)
  contract ← lift (or_throw_with (commission_contract_not_found contract_id) row)
  pure (record {
    id = contract.id;
    order_id = contract.order_id;
    flow_id = contract.flow_id;
    worker_id = contract.worker_id;
  })

abbrev pub contract_row : CheckoutContract → ℕ → ContractRow
contract_row formation i = record {
  id = i;
  order_id = formation.order_id;
  flow_id = formation.flow_id;
  buyer_id = formation.buyer_id;
  worker_id = formation.worker_id;
}

unfoldable pub apply_commission_checkout_contract_formation :
    CheckoutContract → Tx Store ContractRow
unfolding create
apply_commission_checkout_contract_formation formation =
    create contract_table (contract_row formation)

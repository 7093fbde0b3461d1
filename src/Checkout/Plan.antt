-- ===== src/Checkout/Plan.antt =====
-- When a checkout is planned.
use ts_graphql_reference.Base.{
  ◌≡◌, ◌↔◌, refl, sym, ap, ◌∙◌, subst, ◌||◌, not, ◌==◌, ||-false, str_ne, str_ne-false, str_eq_refl,
  ==_refl, ==-not-false,
}
use ts_graphql_reference.Int.{◌==ℤ◌, ==ℤ-not-false, ==ℤ_refl}
use ts_graphql_reference.Failure.{
  ok, throw_if-ok, commission_checkout_state, commission_checkout_actor,
}
use ts_graphql_reference.Decimal.{decimal}
use ts_graphql_reference.Checkout.{
  CommissionCheckoutWorld, CommissionCheckoutInput, CommissionCheckoutPlan, checkout_plan,
  plan_commission_checkout, assert_commission_checkout_actor, plan_commission_checkout_command,
}

-- All that a checkout needs of its world.
pub record IsPayable (world : CommissionCheckoutWorld) (input : CommissionCheckoutInput)
    : Type 0 where
  pub same_payment : world.payment.id ≡ input.order_payment_id
  pub buyer_acts : world.order.buyer_id ≡ input.actor_id
  pub requested : world.order.state ≡ "REQUESTED"
  pub pending : world.payment.state ≡ "PENDING"
  pub available : world.slot.state ≡ "AVAILABLE"
  pub own_slot : world.terms.worker_id ≡ world.slot.worker_id
  pub same_flow : world.order.flow_id ≡ world.payment.flow_id
  pub order_point : world.order.currency ≡ "POINT"
  pub payment_point : world.payment.currency ≡ "POINT"
  pub payment_amount : world.order.amount ≡ world.payment.amount
  pub price : world.order.amount ≡ world.terms.price

payable_plans :
    (world : CommissionCheckoutWorld) (input : CommissionCheckoutInput)
    → IsPayable world input
    → plan_commission_checkout world input ≡ ok (checkout_plan world input)
unfolding plan_commission_checkout assert_commission_checkout_actor
payable_plans world input p =
    rw
      (
        p.same_payment,
        p.buyer_acts,
        p.requested,
        p.pending,
        p.available,
        p.own_slot,
        p.same_flow,
        p.order_point,
        p.payment_point,
        ==_refl input.order_payment_id,
        ==_refl input.actor_id,
        ==_refl world.slot.worker_id,
        str_eq_refl world.payment.flow_id,
        sym p.payment_amount,
        sym p.price,
        ==ℤ_refl world.order.amount,
      )
      refl

pub plans-IsPayable :
    (world : CommissionCheckoutWorld) (input : CommissionCheckoutInput) {p : CommissionCheckoutPlan}
    → plan_commission_checkout world input ≡ ok p
    → IsPayable world input × (checkout_plan world input ≡ p)
unfolding plan_commission_checkout assert_commission_checkout_actor
plans-IsPayable world input h =
    let order = world.order in
    let payment = world.payment in
    let terms = world.terms in
    let slot = world.slot in
    let state = commission_checkout_state in
    let (a, h₁) =
      throw_if-ok (not (payment.id == input.order_payment_id))
        (state "Order payment identity changed") _ h in
    let (b, h₂) =
      throw_if-ok (not (order.buyer_id == input.actor_id)) commission_checkout_actor _ h₁ in
    let (c, h₃) =
      throw_if-ok (str_ne order.state "REQUESTED" || str_ne payment.state "PENDING")
        (state "Order and payment must both be pending") _ h₂ in
    let (d, h₄) =
      throw_if-ok (str_ne slot.state "AVAILABLE") (state "Commission slot is not available") _ h₃ in
    let (e, h₅) =
      throw_if-ok (not (terms.worker_id == slot.worker_id))
        (state "Commission slot belongs to a different worker") _ h₄ in
    let (f, h₆) =
      throw_if-ok (str_ne order.flow_id payment.flow_id)
        (state "Order and payment must belong to the same flow") _ h₅ in
    let x = str_ne order.currency "POINT" in
    let y = str_ne payment.currency "POINT" in
    let z = not (order.amount ==ℤ payment.amount) in
    let w = not (order.amount ==ℤ terms.price) in
    let (g, h₇) =
      throw_if-ok (x || y || z || w) (state "Order, payment, and commission price must match") _
        h₆ in
    let (c₁, c₂) = ||-false (str_ne order.state "REQUESTED") (str_ne payment.state "PENDING") c in
    let (xyz, not_w) = ||-false (x || y || z) w g in
    let (xy, not_z) = ||-false (x || y) z xyz in
    let (not_x, not_y) = ||-false x y xy in
    (
      record {
        same_payment = ==-not-false payment.id input.order_payment_id a;
        buyer_acts = ==-not-false order.buyer_id input.actor_id b;
        requested = str_ne-false order.state "REQUESTED" c₁;
        pending = str_ne-false payment.state "PENDING" c₂;
        available = str_ne-false slot.state "AVAILABLE" d;
        own_slot = ==-not-false terms.worker_id slot.worker_id e;
        same_flow = str_ne-false order.flow_id payment.flow_id f;
        order_point = str_ne-false order.currency "POINT" not_x;
        payment_point = str_ne-false payment.currency "POINT" not_y;
        payment_amount = ==ℤ-not-false order.amount payment.amount not_z;
        price = ==ℤ-not-false order.amount terms.price not_w;
      },
      cc h₇,
    )

-- A checkout is planned exactly when the buyer acts on the payment named, order and payment are
-- pending in one flow and in POINT, the slot is free and the worker's own, and order, payment and
-- price are one amount.
pub plan_commission_checkout_iff :
    (world : CommissionCheckoutWorld) (input : CommissionCheckoutInput)
    → (plan_commission_checkout world input ≡ ok (checkout_plan world input))
      ↔ IsPayable world input
plan_commission_checkout_iff world input =
    (λ h. (plans-IsPayable world input h).0, payable_plans world input)

-- What the parts of a plan agree on.
pub record IsCoherent (world : CommissionCheckoutWorld) (input : CommissionCheckoutInput)
    (p : CommissionCheckoutPlan) : Type 0 where
  pub command_flow : p.command_flow_id ≡ world.order.flow_id
  pub funding_flow : p.financial_request.flow_id ≡ p.command_flow_id
  pub contract_flow : p.contract.flow_id ≡ p.command_flow_id
  pub paid_flow : p.paid_order.flow_id ≡ p.command_flow_id
  pub one_subject : p.financial_request.binding_key ≡ p.command.subject_key
  pub funded_price : p.financial_request.amount ≡ world.terms.price
  pub contract_buyer : p.contract.buyer_id ≡ p.command.principal_id
  pub slot_worker : p.occupied_slot.worker_id ≡ world.slot.worker_id
  pub contract_worker : p.contract.worker_id ≡ p.occupied_slot.worker_id
  pub one_order : p.contract.order_id ≡ p.paid_order.order_id

-- The parts of a planned checkout agree: one flow, one payment as the subject of the command and
-- of the reservation, the commission's price as what is reserved, the acting buyer in the contract,
-- and the slot's worker in contract and slot.
pub plan_commission_checkout-IsCoherent :
    (world : CommissionCheckoutWorld) (input : CommissionCheckoutInput) {p : CommissionCheckoutPlan}
    → plan_commission_checkout world input ≡ ok p
    → IsCoherent world input p
unfolding checkout_plan plan_commission_checkout_command
plan_commission_checkout-IsCoherent world input h =
    let (a, q) = plans-IsPayable world input h in
    subst (IsCoherent world input) q (record {
      command_flow = sym a.same_flow;
      funding_flow = refl;
      contract_flow = refl;
      paid_flow = refl;
      one_subject = ap decimal a.same_payment;
      funded_price = sym a.payment_amount ∙ a.price;
      contract_buyer = a.buyer_acts;
      slot_worker = a.own_slot;
      contract_worker = refl;
      one_order = refl;
    })

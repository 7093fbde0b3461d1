-- ===== src/Checkout.antt =====
-- src/modules/commission-checkout/commission-checkout.core.ts: the decisions of a buyer's checkout.
pub mod Start
pub mod Plan
pub mod Stored
pub mod Service
pub mod Loaded
pub mod Applied
pub mod Planned
pub mod Posted
pub mod Decided
pub mod Existing
pub mod Aliased
pub mod Once
use ts_graphql_reference.Base.{
  ℕ, Bool, true, false, ◌&&◌, ◌||◌, not, Option, none, some, String, ◌==◌, if◌then◌else◌, str_ne,
  str_eq,
}
use ts_graphql_reference.Int.{ℤ, ◌==ℤ◌}
use ts_graphql_reference.Failure.{
  Result, ok, err, ◌>>=◌, ◌>>◌, throw_if, concurrent_update, checkout_lock_targets,
  commission_checkout_actor, commission_checkout_state, commission_checkout_idempotency,
}
use ts_graphql_reference.Decimal.{decimal}

abbrev pub commission_order_payment_namespace : String
commission_order_payment_namespace = "commission-order-payment"

pub record CommissionCheckoutInput : Type 0 where
  pub order_payment_id : ℕ
  pub actor_id : ℕ
  pub command_key : String

pub record CheckoutOrder : Type 0 where
  pub id : ℕ
  pub buyer_id : ℕ
  pub flow_id : String
  pub amount : ℤ
  pub currency : String
  pub state : String

pub record CheckoutPayment : Type 0 where
  pub id : ℕ
  pub flow_id : String
  pub amount : ℤ
  pub currency : String
  pub state : String

pub record CheckoutTerms : Type 0 where
  pub worker_id : ℕ
  pub price : ℤ

pub record CheckoutSlot : Type 0 where
  pub id : ℕ
  pub worker_id : ℕ
  pub state : String

pub record CommissionCheckoutWorld : Type 0 where
  pub order : CheckoutOrder
  pub payment : CheckoutPayment
  pub terms : CheckoutTerms
  pub slot : CheckoutSlot
  pub funding_holder_id : ℕ

-- `planCommissionCheckoutCommand`: the command without its flow.
pub record CheckoutCommand : Type 0 where
  pub flow_kind : String
  pub kind : String
  pub principal_id : ℕ
  pub idempotency_key : String
  pub subject_namespace : String
  pub subject_key : String

pub record CommissionPaymentReservationRequest : Type 0 where
  pub flow_id : String
  pub binding_namespace : String
  pub binding_key : String
  pub holder_id : ℕ
  pub purpose : String
  pub currency : String
  pub amount : ℤ

pub record CheckoutContract : Type 0 where
  pub order_id : ℕ
  pub flow_id : String
  pub buyer_id : ℕ
  pub worker_id : ℕ

pub record PaidOrder : Type 0 where
  pub order_id : ℕ
  pub order_payment_id : ℕ
  pub flow_id : String

pub record OccupiedSlot : Type 0 where
  pub slot_id : ℕ
  pub worker_id : ℕ

pub record CommissionCheckoutPlan : Type 0 where
  pub command_flow_id : String
  pub command : CheckoutCommand
  pub operation_kind : String
  pub action_kind : String
  pub financial_request : CommissionPaymentReservationRequest
  pub contract : CheckoutContract
  pub paid_order : PaidOrder
  pub occupied_slot : OccupiedSlot

pub record CommissionCheckoutEconomicResult : Type 0 where
  pub order_id : ℕ
  pub order_payment_id : ℕ
  pub contract_id : ℕ
  pub reservation_id : ℕ
  pub reference_id : String
  pub command_id : String
  pub operation_id : String

pub record ExistingCommissionCheckout : Type 0 where
  pub payload_hash : String
  pub buyer_id : ℕ
  pub economic_result : CommissionCheckoutEconomicResult

pub data CommissionCheckoutStartPlan : Type 0 where
  proceed : CommissionCheckoutStartPlan
  replay : CommissionCheckoutEconomicResult → (save_alias : Bool) → CommissionCheckoutStartPlan

pub record CommissionCheckoutLockTargets : Type 0 where
  pub buyer_id : ℕ
  pub slot_id : ℕ
  pub financial_holder_id : ℕ

unfoldable pub assert_locked_commission_checkout_targets :
    CommissionCheckoutLockTargets → CommissionCheckoutLockTargets → Result (Unit {0})
assert_locked_commission_checkout_targets locked actual =
    throw_if
      (not (locked.buyer_id == actual.buyer_id)
        || not (locked.slot_id == actual.slot_id)
        || not (locked.financial_holder_id == actual.financial_holder_id))
      (concurrent_update checkout_lock_targets)

unfoldable pub assert_commission_checkout_actor : ℕ → ℕ → Result (Unit {0})
assert_commission_checkout_actor buyer_id actor_id =
    throw_if (not (buyer_id == actor_id)) commission_checkout_actor

unfoldable pub plan_commission_checkout_command : CommissionCheckoutInput → CheckoutCommand
plan_commission_checkout_command input = record {
  flow_kind = "COMMISSION";
  kind = "PAY";
  principal_id = input.actor_id;
  idempotency_key = input.command_key;
  subject_namespace = commission_order_payment_namespace;
  subject_key = decimal input.order_payment_id;
}

-- What identifies a command on a replay.
pub record ReplayIdentity : Type 0 where
  pub flow_kind : String
  pub kind : String
  pub payload_hash : String
  pub subject_namespace : String
  pub subject_key : String

unfoldable pub assert_commission_checkout_replay_identity :
    ReplayIdentity → ReplayIdentity → Result (Unit {0})
assert_commission_checkout_replay_identity stored requested =
    throw_if
      (str_ne stored.flow_kind requested.flow_kind
        || str_ne stored.kind requested.kind
        || str_ne stored.payload_hash requested.payload_hash
        || str_ne stored.subject_namespace requested.subject_namespace
        || str_ne stored.subject_key requested.subject_key)
      commission_checkout_idempotency

unfoldable pub plan_commission_checkout_start :
    Option ExistingCommissionCheckout
    → Option ExistingCommissionCheckout
    → String
    → ℕ
    → Result CommissionCheckoutStartPlan
unfolding assert_commission_checkout_actor
plan_commission_checkout_start (some command) payment requested_hash actor_id = do
  throw_if (str_ne command.payload_hash requested_hash) commission_checkout_idempotency
  ok (replay command.economic_result false)
plan_commission_checkout_start none (some payment) requested_hash actor_id = do
  assert_commission_checkout_actor payment.buyer_id actor_id
  ok (replay payment.economic_result true)
plan_commission_checkout_start none none requested_hash actor_id = ok proceed

-- The plan, once its guards have passed.
unfoldable pub checkout_plan :
    CommissionCheckoutWorld → CommissionCheckoutInput → CommissionCheckoutPlan
unfolding plan_commission_checkout_command
checkout_plan world input = record {
  command_flow_id = world.payment.flow_id;
  command = plan_commission_checkout_command input;
  operation_kind = "PAY";
  action_kind = "TRANSFER";
  financial_request = record {
    flow_id = world.payment.flow_id;
    binding_namespace = commission_order_payment_namespace;
    binding_key = decimal world.payment.id;
    holder_id = world.funding_holder_id;
    purpose = "COMMISSION_PAYMENT";
    currency = "POINT";
    amount = world.payment.amount;
  };
  contract = record {
    order_id = world.order.id;
    flow_id = world.payment.flow_id;
    buyer_id = world.order.buyer_id;
    worker_id = world.terms.worker_id;
  };
  paid_order = record {
    order_id = world.order.id;
    order_payment_id = world.payment.id;
    flow_id = world.payment.flow_id;
  };
  occupied_slot = record { slot_id = world.slot.id; worker_id = world.terms.worker_id };
}

unfoldable pub plan_commission_checkout :
    CommissionCheckoutWorld → CommissionCheckoutInput → Result CommissionCheckoutPlan
unfolding assert_commission_checkout_actor checkout_plan
plan_commission_checkout world input = do
  let order = world.order
  let payment = world.payment
  let terms = world.terms
  let slot = world.slot
  throw_if (not (payment.id == input.order_payment_id))
      (commission_checkout_state "Order payment identity changed")
  assert_commission_checkout_actor order.buyer_id input.actor_id
  throw_if (str_ne order.state "REQUESTED" || str_ne payment.state "PENDING")
      (commission_checkout_state "Order and payment must both be pending")
  throw_if (str_ne slot.state "AVAILABLE")
      (commission_checkout_state "Commission slot is not available")
  throw_if (not (terms.worker_id == slot.worker_id))
      (commission_checkout_state "Commission slot belongs to a different worker")
  throw_if (str_ne order.flow_id payment.flow_id)
      (commission_checkout_state "Order and payment must belong to the same flow")
  throw_if
      (str_ne order.currency "POINT"
        || str_ne payment.currency "POINT"
        || not (order.amount ==ℤ payment.amount)
        || not (order.amount ==ℤ terms.price))
      (commission_checkout_state "Order, payment, and commission price must match")
  ok (checkout_plan world input)

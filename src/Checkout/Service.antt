-- ===== src/Checkout/Service.antt =====
-- src/modules/commission-checkout/commission-checkout.service.ts: a buyer's checkout, once for a
-- command key and once for a payment.
use Prim.Native.String.{◌++◌}
use ts_graphql_reference.Base.{ℕ, false, Option, none, some, [], ◌∷◌, String}
use ts_graphql_reference.Int.{whole}
use ts_graphql_reference.Decimal.{decimal}
use ts_graphql_reference.Failure.{Result, ok, err}
use ts_graphql_reference.Tx.{Tx, pure, lift, ◌>>=◌, ◌>>◌}
use ts_graphql_reference.Uow
use ts_graphql_reference.Uow.Alone.{alone}
use ts_graphql_reference.Locks.Registry.{
  lock_key, order_payment, financial_holder, commission_slot, commission_checkout_command,
}
use ts_graphql_reference.Flow.{
  FinancialCommandKind, format_transaction_reference, format_command_id, format_operation_id,
}
use ts_graphql_reference.Runtime.{Runtime}
use ts_graphql_reference.Store.{Store}
use ts_graphql_reference.Flow.Repo.{
  start_command, create_operation, complete_command, assert_command_effect_completeness,
}
use ts_graphql_reference.Ledger.{plan_reservation}
use ts_graphql_reference.Ledger.Loads.{find_holder_id, load_available_point_world}
use ts_graphql_reference.Ledger.Writes.{
  create_transfer_action, apply_commission_payment_reservation,
}
use ts_graphql_reference.Commerce.{
  find_commission_checkout_lock_targets, load_commission_checkout_payment_snapshot,
  load_commission_checkout_terms, load_commission_checkout_slot,
  apply_commission_checkout_contract_formation, apply_commission_checkout_payment,
  apply_commission_checkout_slot_occupation,
}
use ts_graphql_reference.Checkout.{
  CommissionCheckoutInput, assert_locked_commission_checkout_targets, plan_commission_checkout,
}
use ts_graphql_reference.Checkout.Stored.{
  CommissionCheckoutResult, PreparedCommissionCheckout, ExecutableCommissionCheckoutPlan,
  hash_commission_checkout_payload, command_of, replay_completed_commission_checkout,
}

unfoldable pub load_commission_checkout_plan :
    PreparedCommissionCheckout → Tx Store ExecutableCommissionCheckoutPlan
unfolding load_commission_checkout_payment_snapshot load_commission_checkout_terms
    load_commission_checkout_slot find_holder_id assert_locked_commission_checkout_targets
    plan_commission_checkout load_available_point_world plan_reservation
load_commission_checkout_plan prepared = do
  commerce ← load_commission_checkout_payment_snapshot prepared.input.order_payment_id
  terms ← load_commission_checkout_terms commerce.commission_type_id
  slot ← load_commission_checkout_slot commerce.slot_id
  holder_id ← find_holder_id "user" (decimal commerce.order.buyer_id)
  lift (
      assert_locked_commission_checkout_targets prepared.locked_targets (record {
        buyer_id = commerce.order.buyer_id;
        slot_id = commerce.slot_id;
        financial_holder_id = holder_id;
      }))
  plan ← lift (
      plan_commission_checkout
        (record {
          order = commerce.order;
          payment = commerce.payment;
          terms = terms;
          slot = slot;
          funding_holder_id = holder_id;
        })
        prepared.input)
  point_world ← load_available_point_world plan.financial_request.holder_id
  allocations ← lift (plan_reservation point_world.lots (whole plan.financial_request.amount))
  pure (record {
    commission_plan = plan;
    account_id = point_world.account_id;
    allocations = allocations;
  })

pub record CommissionCheckoutDomainResult : Type 0 where
  pub order_id : ℕ
  pub order_payment_id : ℕ
  pub contract_id : ℕ
  pub reservation_id : ℕ

unfoldable pub apply_commission_checkout_plan :
    ExecutableCommissionCheckoutPlan → String → Tx Store CommissionCheckoutDomainResult
unfolding apply_commission_payment_reservation apply_commission_checkout_contract_formation
    apply_commission_checkout_payment apply_commission_checkout_slot_occupation
apply_commission_checkout_plan plan action_id = do
  let commission_plan = plan.commission_plan
  reservation ←
      apply_commission_payment_reservation commission_plan.financial_request plan.account_id
        plan.allocations action_id
  contract ← apply_commission_checkout_contract_formation commission_plan.contract
  apply_commission_checkout_payment commission_plan.paid_order reservation.id
  apply_commission_checkout_slot_occupation commission_plan.occupied_slot
  pure (record {
    order_id = commission_plan.paid_order.order_id;
    order_payment_id = commission_plan.paid_order.order_payment_id;
    contract_id = contract.id;
    reservation_id = reservation.id;
  })

module _ (runtime : Runtime) where
  -- The reads, the decision and the writes of a checkout that is no replay.
  unfoldable pub post_checkout : PreparedCommissionCheckout → Tx Store CommissionCheckoutResult
  unfolding load_commission_checkout_plan start_command create_operation create_transfer_action
      complete_command apply_commission_checkout_plan assert_command_effect_completeness
  post_checkout prepared = do
    plan ← load_commission_checkout_plan prepared
    command ← start_command runtime (command_of plan.commission_plan prepared.payload_hash)
    operation ← create_operation runtime command.flow_id FinancialCommandKind.pay command.id
    action ← create_transfer_action runtime operation.id operation.flow_id FinancialCommandKind.pay
    complete_command runtime command.id operation.id
    result ← apply_commission_checkout_plan plan action.id
    assert_command_effect_completeness runtime
    pure (record {
      economic_result = record {
        order_id = result.order_id;
        order_payment_id = result.order_payment_id;
        contract_id = result.contract_id;
        reservation_id = result.reservation_id;
        reference_id = format_transaction_reference command.flow_kind command.flow_id;
        command_id = format_command_id command.kind command.id;
        operation_id = format_operation_id operation.kind operation.id;
      };
      replayed = false;
    })

  -- `if (replayed) return replayed;`
  unfoldable pub continue_checkout :
      PreparedCommissionCheckout
      → Option CommissionCheckoutResult
      → Tx Store CommissionCheckoutResult
  unfolding post_checkout
  continue_checkout prepared (some result) = pure result
  continue_checkout prepared none = post_checkout prepared

  unfoldable pub execute_commission_checkout :
      PreparedCommissionCheckout → Tx Store CommissionCheckoutResult
  unfolding replay_completed_commission_checkout continue_checkout
  execute_commission_checkout prepared = do
    replayed ← replay_completed_commission_checkout runtime prepared
    continue_checkout prepared replayed

  unfoldable pub prepare_commission_checkout :
      CommissionCheckoutInput → Tx Store PreparedCommissionCheckout
  unfolding find_commission_checkout_lock_targets find_holder_id hash_commission_checkout_payload
  prepare_commission_checkout input = do
    targets ← find_commission_checkout_lock_targets input.order_payment_id
    holder_id ← find_holder_id "user" (decimal targets.buyer_id)
    pure (record {
      input = input;
      payload_hash = hash_commission_checkout_payload runtime input;
      locked_targets = record {
        buyer_id = targets.buyer_id;
        slot_id = targets.slot_id;
        financial_holder_id = holder_id;
      };
      lock_keys =
          lock_key order_payment input.order_payment_id
          ∷ lock_key financial_holder holder_id
          ∷ lock_key commission_slot targets.slot_id
          ∷ lock_key commission_checkout_command
              (decimal input.actor_id ++ (":PAY:" ++ input.command_key))
          ∷ [];
    })

  -- What others do before the transaction begins is `others`.
  unfoldable pub complete :
      (Store → Store) → CommissionCheckoutInput → Store → Result CommissionCheckoutResult × Store
  unfolding prepare_commission_checkout execute_commission_checkout
  complete others input s = elim (prepare_commission_checkout input s) [
    | err e ↦ (err e, s)
    | ok (prepared, t) ↦
        Uow.serialized (alone Store) prepared.lock_keys (execute_commission_checkout prepared) false
          (others t)
  ]

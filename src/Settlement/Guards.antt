-- ===== src/Settlement/Guards.antt =====
-- The guards of a settlement, as what its world must say.
use ts_graphql_reference.Base.{
  ◌≡◌, refl, sym, ap, false, ◌||◌, not, Option, none, some, String, ◌==◌, ||-false, str_ne,
  str_ne-false, str_eq_refl, ==_refl, ==-not-false,
}
use ts_graphql_reference.Int.{pos, ◌==ℤ◌, ◌<ℤ◌, leb_ℤ, leb_ℤ→gt, gt→leb_ℤ, ==ℤ-not-false, ==ℤ_refl}
use ts_graphql_reference.Decimal.{decimal}
use ts_graphql_reference.Settlement.{
  ne_option, not_point, other_flow, not_paid_by, other_principal, other_amount,
}
use ts_graphql_reference.Settlement.Data.{CommissionSettlementWorld, CommissionSettlementInput}

module _ (world : CommissionSettlementWorld) where
  pub record IsPoint : Type 0 where
    pub order : world.order.currency ≡ "POINT"
    pub payment : world.payment.currency ≡ "POINT"
    pub reservation : world.funding.reservation.currency ≡ "POINT"
    pub transfer : world.funding.transfer.currency ≡ "POINT"
    pub positive : pos 0 <ℤ world.funding.reservation.target_amount

  pub record IsOneFlow : Type 0 where
    pub order : world.contract.flow_id ≡ world.order.flow_id
    pub payment : world.contract.flow_id ≡ world.payment.flow_id
    pub link : world.contract.flow_id ≡ world.payment.funding_link.flow_id
    pub reservation : world.contract.flow_id ≡ world.funding.reservation.flow_id
    pub transfer : world.contract.flow_id ≡ world.funding.transfer.flow_id

  pub record IsPaidBy : Type 0 where
    pub action : world.funding.provenance.action_operation_kind ≡ "PAY"
    pub operation : world.funding.provenance.operation.kind ≡ "PAY"
    pub command : world.funding.provenance.command.kind ≡ "PAY"
    pub completed :
        world.funding.provenance.command.result_operation_id
        ≡ some world.funding.provenance.operation.id
    pub operation_flow : world.funding.provenance.operation.flow_id ≡ world.contract.flow_id
    pub command_flow : world.funding.provenance.command.flow_id ≡ world.contract.flow_id

  pub record IsBuyers : Type 0 where
    pub principal : world.funding.provenance.command.principal_id ≡ world.order.buyer_id
    pub subject : world.funding.provenance.command.subject.namespace ≡ "commission-order-payment"
    pub payment : world.funding.provenance.command.subject.key ≡ decimal world.payment.id
    pub holder : world.funding.reservation.holder_binding.namespace ≡ "user"
    pub buyer : world.funding.reservation.holder_binding.key ≡ decimal world.order.buyer_id

  pub record IsOneAmount : Type 0 where
    pub payment : world.order.amount ≡ world.payment.amount
    pub reservation : world.order.amount ≡ world.funding.reservation.target_amount
    pub transfer : world.order.amount ≡ world.funding.transfer.amount

  -- All that a settlement needs of its world.
  pub record IsSettleable (input : CommissionSettlementInput) : Type 0 where
    pub same_contract : world.contract.id ≡ input.contract_id
    pub same_order : world.contract.order_id ≡ world.order.id
    pub worker_acts : world.contract.worker_id ≡ input.actor_id
    pub order_paid : world.order.state ≡ "PAID"
    pub payment_paid : world.payment.state ≡ "PAID"
    pub held : world.funding.reservation.state ≡ "HELD"
    pub point : IsPoint
    pub one_flow : IsOneFlow
    pub own_link : world.payment.funding_link.reservation_id ≡ world.funding.reservation.id
    pub paid_by : IsPaidBy
    pub buyers : IsBuyers
    pub one_amount : IsOneAmount
    pub escrow : world.funding.transfer.to_account_id ≡ world.funding.reservation.escrow_account_id

  pub not_point-false : not_point world ≡ false → IsPoint
  not_point-false h =
      let a = str_ne world.order.currency "POINT" in
      let b = str_ne world.payment.currency "POINT" in
      let c = str_ne world.funding.reservation.currency "POINT" in
      let d = str_ne world.funding.transfer.currency "POINT" in
      let (abcd, e) =
        ||-false (a || b || c || d) (leb_ℤ world.funding.reservation.target_amount (pos 0)) h in
      let (abc, not_d) = ||-false (a || b || c) d abcd in
      let (ab, not_c) = ||-false (a || b) c abc in
      let (not_a, not_b) = ||-false a b ab in
      record {
        order = str_ne-false world.order.currency "POINT" not_a;
        payment = str_ne-false world.payment.currency "POINT" not_b;
        reservation = str_ne-false world.funding.reservation.currency "POINT" not_c;
        transfer = str_ne-false world.funding.transfer.currency "POINT" not_d;
        positive = leb_ℤ→gt world.funding.reservation.target_amount (pos 0) e;
      }

  pub IsPoint-not_point : IsPoint → not_point world ≡ false
  IsPoint-not_point p =
      rw (p.order, p.payment, p.reservation, p.transfer)
        (gt→leb_ℤ world.funding.reservation.target_amount (pos 0) p.positive)

  pub other_flow-false : other_flow world ≡ false → IsOneFlow
  other_flow-false h =
      let flow = world.contract.flow_id in
      let a = str_ne flow world.order.flow_id in
      let b = str_ne flow world.payment.flow_id in
      let c = str_ne flow world.payment.funding_link.flow_id in
      let d = str_ne flow world.funding.reservation.flow_id in
      let e = str_ne flow world.funding.transfer.flow_id in
      let (abcd, not_e) = ||-false (a || b || c || d) e h in
      let (abc, not_d) = ||-false (a || b || c) d abcd in
      let (ab, not_c) = ||-false (a || b) c abc in
      let (not_a, not_b) = ||-false a b ab in
      record {
        order = str_ne-false flow world.order.flow_id not_a;
        payment = str_ne-false flow world.payment.flow_id not_b;
        link = str_ne-false flow world.payment.funding_link.flow_id not_c;
        reservation = str_ne-false flow world.funding.reservation.flow_id not_d;
        transfer = str_ne-false flow world.funding.transfer.flow_id not_e;
      }

  pub IsOneFlow-other_flow : IsOneFlow → other_flow world ≡ false
  IsOneFlow-other_flow p =
      rw
        (
          sym p.order,
          sym p.payment,
          sym p.link,
          sym p.reservation,
          sym p.transfer,
          str_eq_refl world.contract.flow_id,
        )
        refl

  ne_option-false : (a : String) (o : Option String) → ne_option a o ≡ false → o ≡ some a
  ne_option-false a none h = cc h
  ne_option-false a (some b) h = ap some (sym (str_ne-false a b h))

  pub not_paid_by-false : not_paid_by world ≡ false → IsPaidBy
  not_paid_by-false h =
      let p = world.funding.provenance in
      let a = str_ne p.action_operation_kind "PAY" in
      let b = str_ne p.operation.kind "PAY" in
      let c = str_ne p.command.kind "PAY" in
      let d = ne_option p.operation.id p.command.result_operation_id in
      let e = str_ne p.operation.flow_id world.contract.flow_id in
      let f = str_ne p.command.flow_id world.contract.flow_id in
      let (abcde, not_f) = ||-false (a || b || c || d || e) f h in
      let (abcd, not_e) = ||-false (a || b || c || d) e abcde in
      let (abc, not_d) = ||-false (a || b || c) d abcd in
      let (ab, not_c) = ||-false (a || b) c abc in
      let (not_a, not_b) = ||-false a b ab in
      record {
        action = str_ne-false p.action_operation_kind "PAY" not_a;
        operation = str_ne-false p.operation.kind "PAY" not_b;
        command = str_ne-false p.command.kind "PAY" not_c;
        completed = ne_option-false p.operation.id p.command.result_operation_id not_d;
        operation_flow = str_ne-false p.operation.flow_id world.contract.flow_id not_e;
        command_flow = str_ne-false p.command.flow_id world.contract.flow_id not_f;
      }

  pub IsPaidBy-not_paid_by : IsPaidBy → not_paid_by world ≡ false
  IsPaidBy-not_paid_by p =
      rw
        (
          p.action,
          p.operation,
          p.command,
          p.completed,
          p.operation_flow,
          p.command_flow,
          str_eq_refl world.funding.provenance.operation.id,
          str_eq_refl world.contract.flow_id,
        )
        refl

  pub other_principal-false : other_principal world ≡ false → IsBuyers
  other_principal-false h =
      let command = world.funding.provenance.command in
      let binding = world.funding.reservation.holder_binding in
      let a = not (command.principal_id == world.order.buyer_id) in
      let b = str_ne command.subject.namespace "commission-order-payment" in
      let c = str_ne command.subject.key (decimal world.payment.id) in
      let d = str_ne binding.namespace "user" in
      let e = str_ne binding.key (decimal world.order.buyer_id) in
      let (abcd, not_e) = ||-false (a || b || c || d) e h in
      let (abc, not_d) = ||-false (a || b || c) d abcd in
      let (ab, not_c) = ||-false (a || b) c abc in
      let (not_a, not_b) = ||-false a b ab in
      record {
        principal = ==-not-false command.principal_id world.order.buyer_id not_a;
        subject = str_ne-false command.subject.namespace "commission-order-payment" not_b;
        payment = str_ne-false command.subject.key (decimal world.payment.id) not_c;
        holder = str_ne-false binding.namespace "user" not_d;
        buyer = str_ne-false binding.key (decimal world.order.buyer_id) not_e;
      }

  pub IsBuyers-other_principal : IsBuyers → other_principal world ≡ false
  IsBuyers-other_principal p =
      rw
        (
          p.principal,
          p.subject,
          p.payment,
          p.holder,
          p.buyer,
          ==_refl world.order.buyer_id,
          str_eq_refl (decimal world.payment.id),
          str_eq_refl (decimal world.order.buyer_id),
        )
        refl

  pub other_amount-false : other_amount world ≡ false → IsOneAmount
  other_amount-false h =
      let n = world.order.amount in
      let a = not (n ==ℤ world.payment.amount) in
      let b = not (n ==ℤ world.funding.reservation.target_amount) in
      let c = not (n ==ℤ world.funding.transfer.amount) in
      let (ab, not_c) = ||-false (a || b) c h in
      let (not_a, not_b) = ||-false a b ab in
      record {
        payment = ==ℤ-not-false n world.payment.amount not_a;
        reservation = ==ℤ-not-false n world.funding.reservation.target_amount not_b;
        transfer = ==ℤ-not-false n world.funding.transfer.amount not_c;
      }

  pub IsOneAmount-other_amount : IsOneAmount → other_amount world ≡ false
  IsOneAmount-other_amount p =
      rw (sym p.payment, sym p.reservation, sym p.transfer, ==ℤ_refl world.order.amount) refl

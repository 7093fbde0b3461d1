-- ===== src/Settlement/Plan.antt =====
-- When a settlement is planned, and what its plan moves.
use ts_graphql_reference.Base.{
  ◌≡◌, ◌↔◌, refl, sym, ap, ◌∙◌, subst, not, ◌==◌, str_ne, str_ne-false, ==_refl, ==-not-false,
}
use ts_graphql_reference.Int.{pos, ◌<ℤ◌}
use ts_graphql_reference.Failure.{ok, throw_if-ok, commission_settlement_state}
use ts_graphql_reference.Decimal.{decimal}
use ts_graphql_reference.Settlement.{
  not_point, other_flow, not_paid_by, other_principal, other_amount, settlement_plan,
  plan_commission_settlement,
}
use ts_graphql_reference.Settlement.Data.{
  CommissionSettlementWorld, CommissionSettlementInput, CommissionSettlementPlan,
}
use ts_graphql_reference.Settlement.Guards.{
  IsSettleable, not_point-false, IsPoint-not_point, other_flow-false, IsOneFlow-other_flow,
  not_paid_by-false, IsPaidBy-not_paid_by, other_principal-false, IsBuyers-other_principal,
  other_amount-false, IsOneAmount-other_amount,
}

settleable_plans :
    (world : CommissionSettlementWorld) (input : CommissionSettlementInput)
    → IsSettleable world input
    → plan_commission_settlement world input ≡ ok (settlement_plan world input)
unfolding plan_commission_settlement
settleable_plans world input s =
    rw
      (
        s.same_contract,
        s.same_order,
        s.worker_acts,
        s.order_paid,
        s.payment_paid,
        s.held,
        s.own_link,
        s.escrow,
        ==_refl input.contract_id,
        ==_refl world.order.id,
        ==_refl input.actor_id,
        ==_refl world.funding.reservation.id,
        ==_refl world.funding.reservation.escrow_account_id,
        IsPoint-not_point world s.point,
        IsOneFlow-other_flow world s.one_flow,
        IsPaidBy-not_paid_by world s.paid_by,
        IsBuyers-other_principal world s.buyers,
        IsOneAmount-other_amount world s.one_amount,
      )
      refl

pub plans-IsSettleable :
    (world : CommissionSettlementWorld) (input : CommissionSettlementInput)
    {p : CommissionSettlementPlan}
    → plan_commission_settlement world input ≡ ok p
    → IsSettleable world input × (settlement_plan world input ≡ p)
unfolding plan_commission_settlement
plans-IsSettleable world input h =
    let contract = world.contract in
    let state = commission_settlement_state in
    let reservation = world.funding.reservation in
    let link = world.payment.funding_link in
    let transfer = world.funding.transfer in
    let (a₁, h₁) =
      throw_if-ok (not (contract.id == input.contract_id)) (state "Contract identity changed") _
        h in
    let (a₂, h₂) =
      throw_if-ok (not (contract.order_id == world.order.id))
        (state "Contract Order identity changed") _ h₁ in
    let (a₃, h₃) =
      throw_if-ok (not (contract.worker_id == input.actor_id))
        (state "Only the contract worker can settle commission") _ h₂ in
    let (a₄, h₄) =
      throw_if-ok (str_ne world.order.state "PAID")
        (state "Commission Order must be paid before settlement") _ h₃ in
    let (a₅, h₅) =
      throw_if-ok (str_ne world.payment.state "PAID")
        (state "Commission payment must be paid before settlement") _ h₄ in
    let (a₆, h₆) =
      throw_if-ok (str_ne reservation.state "HELD")
        (state "Commission POINT must still be held for settlement") _ h₅ in
    let (a₇, h₇) =
      throw_if-ok (not_point world) (state "Settlement input must be positive POINT") _ h₆ in
    let (a₈, h₈) =
      throw_if-ok (other_flow world) (state "Settlement funding must belong to the Contract flow") _
        h₇ in
    let (a₉, h₉) =
      throw_if-ok (not (link.reservation_id == reservation.id))
        (state "Settlement must use the Order-owned reservation link") _ h₈ in
    let (b₁, k₁) =
      throw_if-ok (not_paid_by world) (state "Settlement funding must come from a completed PAY") _
        h₉ in
    let (b₂, k₂) =
      throw_if-ok (other_principal world)
        (state "Settlement PAY principal, payment subject, and buyer holder must agree") _ k₁ in
    let (b₃, k₃) =
      throw_if-ok (other_amount world) (state "Settlement funded amount must equal the paid Order")
        _ k₂ in
    let (b₄, k₄) =
      throw_if-ok (not (transfer.to_account_id == reservation.escrow_account_id))
        (state "Settlement funding must target the reservation escrow") _ k₃ in
    (
      record {
        same_contract = ==-not-false contract.id input.contract_id a₁;
        same_order = ==-not-false contract.order_id world.order.id a₂;
        worker_acts = ==-not-false contract.worker_id input.actor_id a₃;
        order_paid = str_ne-false world.order.state "PAID" a₄;
        payment_paid = str_ne-false world.payment.state "PAID" a₅;
        held = str_ne-false reservation.state "HELD" a₆;
        point = not_point-false world a₇;
        one_flow = other_flow-false world a₈;
        own_link = ==-not-false link.reservation_id reservation.id a₉;
        paid_by = not_paid_by-false world b₁;
        buyers = other_principal-false world b₂;
        one_amount = other_amount-false world b₃;
        escrow = ==-not-false transfer.to_account_id reservation.escrow_account_id b₄;
      },
      cc k₄,
    )

-- A settlement is planned exactly when the worker acts on a paid contract whose held POINT were
-- reserved by the buyer's completed payment, in one flow, for the one amount, into the escrow.
pub plan_commission_settlement_iff :
    (world : CommissionSettlementWorld) (input : CommissionSettlementInput)
    → (plan_commission_settlement world input ≡ ok (settlement_plan world input))
      ↔ IsSettleable world input
plan_commission_settlement_iff world input =
    (λ h. (plans-IsSettleable world input h).0, settleable_plans world input)

-- What the swap of a plan does with the money.
pub record IsSwap (world : CommissionSettlementWorld) (input : CommissionSettlementInput)
    (p : CommissionSettlementPlan) : Type 0 where
  pub positive : pos 0 <ℤ p.swap.amount
  pub paid_amount : p.swap.amount ≡ world.payment.amount
  pub all_of_it : p.swap.amount ≡ world.funding.transfer.amount
  pub lot : p.swap.income_lot.original_amount ≡ p.swap.amount
  pub lot_account : p.swap.income_lot.account_id ≡ p.swap.income_leg.to_account_id
  pub income_currency : p.swap.income_leg.currency ≡ "INCOME"
  pub lot_currency : p.swap.income_lot.currency ≡ "INCOME"
  pub lot_source : p.swap.income_lot.source_kind ≡ "COMMISSION_SETTLEMENT"
  pub from_issuer : p.swap.income_leg.from_account_id ≡ world.accounts.income_issuer_account_id
  pub to_worker : p.swap.income_leg.to_account_id ≡ world.accounts.income_available_account_id
  pub beneficiary : p.swap.beneficiary_holder_id ≡ world.accounts.beneficiary_holder_id
  pub point_currency : p.swap.point_leg.currency ≡ "POINT"
  pub to_settled : p.swap.point_leg.to_account_id ≡ world.accounts.point_settled_account_id
  pub from_escrow : p.swap.point_leg.from_account_id ≡ world.funding.transfer.to_account_id
  pub own_reservation : p.swap.reservation_id ≡ world.payment.funding_link.reservation_id
  pub one_flow : p.swap.flow_id ≡ world.payment.flow_id
  pub worker : p.command_request.principal_id ≡ world.contract.worker_id
  pub subject : p.command_request.subject_key ≡ decimal world.contract.id

-- A planned settlement moves exactly the positive POINT amount that was paid and transferred into the
-- escrow out of that escrow into the settled account, and issues an INCOME lot of the same amount from
-- the issuer's account to the available account of the worker's holder.
pub plan_commission_settlement-IsSwap :
    (world : CommissionSettlementWorld) (input : CommissionSettlementInput)
    {p : CommissionSettlementPlan}
    → plan_commission_settlement world input ≡ ok p
    → IsSwap world input p
unfolding settlement_plan
plan_commission_settlement-IsSwap world input h =
    let (s, q) = plans-IsSettleable world input h in
    subst (IsSwap world input) q (record {
      positive = s.point.positive;
      paid_amount = sym s.one_amount.reservation ∙ s.one_amount.payment;
      all_of_it = sym s.one_amount.reservation ∙ s.one_amount.transfer;
      lot = refl;
      lot_account = refl;
      income_currency = refl;
      lot_currency = refl;
      lot_source = refl;
      from_issuer = refl;
      to_worker = refl;
      beneficiary = refl;
      point_currency = refl;
      to_settled = refl;
      from_escrow = sym s.escrow;
      own_reservation = sym s.own_link;
      one_flow = s.one_flow.payment;
      worker = sym s.worker_acts;
      subject = sym (ap decimal s.same_contract);
    })

-- ===== src/Settlement.antt =====
-- src/modules/commission-settlement/commission-settlement.core.ts: the decisions of the settlement
-- of a commission by its worker.
pub mod Swapped
pub mod Data
pub mod Guards
pub mod Plan
pub mod Start
pub mod Service
pub mod Loaded
pub mod Posted
pub mod Decided
pub mod Aliased
pub mod Once
use ts_graphql_reference.Base.{
  ℕ, Bool, true, false, ◌&&◌, ◌||◌, not, Option, none, some, String, ◌==◌, if◌then◌else◌, str_ne,
  str_eq, present, or_else,
}
use ts_graphql_reference.Int.{ℤ, pos, ◌==ℤ◌, leb_ℤ}
use ts_graphql_reference.Failure.{
  Result, ok, err, ◌>>=◌, ◌>>◌, throw_if, commission_settlement_state,
}
use ts_graphql_reference.Decimal.{decimal}
use ts_graphql_reference.Settlement.Data.{
  CommissionSettlementInput, SettlementContract, SettlementOrder, FundingLink, SettlementPayment,
  Binding, SettlementReservation, SettlementTransfer, SettlementOperation, SettlementCommand,
  Provenance, SettlementFunding, SettlementAccounts, CommissionSettlementWorld,
  SettlementCommandRequest, SwapLeg, IncomeLotRequest, SwapRequest, CommissionSettlementPlan,
}

abbrev pub commission_contract_namespace : String
commission_contract_namespace = "commission-contract"

-- `a !== b` where `b` may be null.
abbrev pub ne_option : String → Option String → Bool
ne_option a none = true
ne_option a (some b) = str_ne a b

-- The plan, once its guards have passed.
unfoldable pub settlement_plan :
    CommissionSettlementWorld → CommissionSettlementInput → CommissionSettlementPlan
settlement_plan world input =
    let reservation = world.funding.reservation in
    let accounts = world.accounts in
    record {
      command_request = record {
        flow_id = world.contract.flow_id;
        flow_kind = "COMMISSION";
        kind = "SETTLE";
        principal_id = input.actor_id;
        idempotency_key = input.command_key;
        subject_namespace = commission_contract_namespace;
        subject_key = decimal input.contract_id;
      };
      operation_kind = "SETTLE";
      action_kind = "SWAP";
      swap = record {
        flow_id = world.contract.flow_id;
        reservation_id = reservation.id;
        beneficiary_holder_id = accounts.beneficiary_holder_id;
        amount = reservation.target_amount;
        point_leg = record {
          currency = "POINT";
          from_account_id = reservation.escrow_account_id;
          to_account_id = accounts.point_settled_account_id;
        };
        income_leg = record {
          currency = "INCOME";
          from_account_id = accounts.income_issuer_account_id;
          to_account_id = accounts.income_available_account_id;
        };
        income_lot = record {
          account_id = accounts.income_available_account_id;
          currency = "INCOME";
          source_kind = "COMMISSION_SETTLEMENT";
          original_amount = reservation.target_amount;
        };
      };
    }

-- The conditions of `planCommissionSettlement` with more than one part, in its order.
module _ (world : CommissionSettlementWorld) where
  abbrev pub not_point : Bool
  not_point =
      str_ne world.order.currency "POINT"
      || str_ne world.payment.currency "POINT"
      || str_ne world.funding.reservation.currency "POINT"
      || str_ne world.funding.transfer.currency "POINT"
      || leb_ℤ world.funding.reservation.target_amount (pos 0)

  abbrev pub other_flow : Bool
  other_flow =
      str_ne world.contract.flow_id world.order.flow_id
      || str_ne world.contract.flow_id world.payment.flow_id
      || str_ne world.contract.flow_id world.payment.funding_link.flow_id
      || str_ne world.contract.flow_id world.funding.reservation.flow_id
      || str_ne world.contract.flow_id world.funding.transfer.flow_id

  abbrev pub not_paid_by : Bool
  not_paid_by =
      let provenance = world.funding.provenance in
      str_ne provenance.action_operation_kind "PAY"
      || str_ne provenance.operation.kind "PAY"
      || str_ne provenance.command.kind "PAY"
      || ne_option provenance.operation.id provenance.command.result_operation_id
      || str_ne provenance.operation.flow_id world.contract.flow_id
      || str_ne provenance.command.flow_id world.contract.flow_id

  abbrev pub other_principal : Bool
  other_principal =
      let command = world.funding.provenance.command in
      let binding = world.funding.reservation.holder_binding in
      not (command.principal_id == world.order.buyer_id)
      || str_ne command.subject.namespace "commission-order-payment"
      || str_ne command.subject.key (decimal world.payment.id)
      || str_ne binding.namespace "user"
      || str_ne binding.key (decimal world.order.buyer_id)

  abbrev pub other_amount : Bool
  other_amount =
      not (world.order.amount ==ℤ world.payment.amount)
      || not (world.order.amount ==ℤ world.funding.reservation.target_amount)
      || not (world.order.amount ==ℤ world.funding.transfer.amount)

unfoldable pub plan_commission_settlement :
    CommissionSettlementWorld → CommissionSettlementInput → Result CommissionSettlementPlan
unfolding settlement_plan
plan_commission_settlement world input = do
  let contract = world.contract
  let state = commission_settlement_state
  let reservation = world.funding.reservation
  throw_if (not (contract.id == input.contract_id)) (state "Contract identity changed")
  throw_if (not (contract.order_id == world.order.id)) (state "Contract Order identity changed")
  throw_if (not (contract.worker_id == input.actor_id))
      (state "Only the contract worker can settle commission")
  throw_if (str_ne world.order.state "PAID")
      (state "Commission Order must be paid before settlement")
  throw_if (str_ne world.payment.state "PAID")
      (state "Commission payment must be paid before settlement")
  throw_if (str_ne reservation.state "HELD")
      (state "Commission POINT must still be held for settlement")
  throw_if (not_point world) (state "Settlement input must be positive POINT")
  throw_if (other_flow world) (state "Settlement funding must belong to the Contract flow")
  throw_if (not (world.payment.funding_link.reservation_id == reservation.id))
      (state "Settlement must use the Order-owned reservation link")
  throw_if (not_paid_by world) (state "Settlement funding must come from a completed PAY")
  throw_if (other_principal world)
      (state "Settlement PAY principal, payment subject, and buyer holder must agree")
  throw_if (other_amount world) (state "Settlement funded amount must equal the paid Order")
  throw_if (not (world.funding.transfer.to_account_id == reservation.escrow_account_id))
      (state "Settlement funding must target the reservation escrow")
  ok (settlement_plan world input)

pub record StoredCommissionSettlementCommand : Type 0 where
  pub flow_id : String
  pub flow_kind : String
  pub kind : String
  pub payload_hash : String
  pub subject_namespace : String
  pub subject_key : String
  pub operation_db_id : Option String
  pub operation_id : Option String
  pub reference_id : String
  pub command_id : String

-- The part of a stored command that a request has too.
pub record RequestedSettlement : Type 0 where
  pub flow_kind : String
  pub kind : String
  pub payload_hash : String
  pub subject_namespace : String
  pub subject_key : String

pub data SettlementStart : Type 0 where
  proceed : SettlementStart
  replay : StoredCommissionSettlementCommand → SettlementStart
  alias : StoredCommissionSettlementCommand → SettlementStart

-- `existing ? 'REPLAY' : 'ALIAS'`
abbrev pub start_kind :
    Option StoredCommissionSettlementCommand → StoredCommissionSettlementCommand → SettlementStart
start_kind (some existing) identity = replay identity
start_kind none identity = alias identity

unfoldable pub plan_commission_settlement_start :
    Option StoredCommissionSettlementCommand
    → Option StoredCommissionSettlementCommand
    → RequestedSettlement
    → Result SettlementStart
plan_commission_settlement_start existing completed requested = elim (or_else existing completed) [
  | none ↦ ok proceed
  | some stored ↦ do
    throw_if
        (str_ne stored.flow_kind requested.flow_kind
          || str_ne stored.kind requested.kind
          || str_ne stored.payload_hash requested.payload_hash
          || str_ne stored.subject_namespace requested.subject_namespace
          || str_ne stored.subject_key requested.subject_key)
        (commission_settlement_state "Settlement command key identity mismatch")
    throw_if (not (present stored.operation_db_id) || not (present stored.operation_id))
        (commission_settlement_state "Settlement command has no completed operation")
    ok (start_kind existing stored)
]

unfoldable pub assert_commission_settlement_holder_identity : ℕ → ℕ → Result (Unit {0})
assert_commission_settlement_holder_identity locked actual =
    throw_if (not (locked == actual))
      (commission_settlement_state "Commission worker financial holder changed")

unfoldable pub assert_commission_settlement_replay_flow : String → String → Result (Unit {0})
assert_commission_settlement_replay_flow expected actual =
    throw_if (str_ne expected actual)
      (commission_settlement_state "Stored settlement belongs to another commission flow")

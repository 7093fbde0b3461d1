-- ===== src/Settlement/Data.antt =====
-- src/modules/commission-settlement/commission-settlement.core.ts: what the decisions of a settlement
-- read, and the plan that they return.
use ts_graphql_reference.Base.{ℕ, Option, String}
use ts_graphql_reference.Int.{ℤ}

pub record CommissionSettlementInput : Type 0 where
  pub contract_id : ℕ
  pub actor_id : ℕ
  pub command_key : String

pub record SettlementContract : Type 0 where
  pub id : ℕ
  pub order_id : ℕ
  pub flow_id : String
  pub worker_id : ℕ

pub record SettlementOrder : Type 0 where
  pub id : ℕ
  pub buyer_id : ℕ
  pub flow_id : String
  pub state : String
  pub amount : ℤ
  pub currency : String

pub record FundingLink : Type 0 where
  pub reservation_id : ℕ
  pub flow_id : String

pub record SettlementPayment : Type 0 where
  pub id : ℕ
  pub flow_id : String
  pub state : String
  pub amount : ℤ
  pub currency : String
  pub funding_link : FundingLink

-- A holder binding, or the subject of a command.
pub record Binding : Type 0 where
  pub namespace : String
  pub key : String

pub record SettlementReservation : Type 0 where
  pub id : ℕ
  pub flow_id : String
  pub state : String
  pub currency : String
  pub target_amount : ℤ
  pub holder_binding : Binding
  pub escrow_account_id : ℕ

pub record SettlementTransfer : Type 0 where
  pub flow_id : String
  pub currency : String
  pub amount : ℤ
  pub to_account_id : ℕ

pub record SettlementOperation : Type 0 where
  pub id : String
  pub flow_id : String
  pub kind : String

pub record SettlementCommand : Type 0 where
  pub flow_id : String
  pub kind : String
  pub principal_id : ℕ
  pub subject : Binding
  pub result_operation_id : Option String

pub record Provenance : Type 0 where
  pub action_operation_kind : String
  pub operation : SettlementOperation
  pub command : SettlementCommand

pub record SettlementFunding : Type 0 where
  pub reservation : SettlementReservation
  pub transfer : SettlementTransfer
  pub provenance : Provenance

pub record SettlementAccounts : Type 0 where
  pub beneficiary_holder_id : ℕ
  pub point_settled_account_id : ℕ
  pub income_issuer_account_id : ℕ
  pub income_available_account_id : ℕ

pub record CommissionSettlementWorld : Type 0 where
  pub contract : SettlementContract
  pub order : SettlementOrder
  pub payment : SettlementPayment
  pub funding : SettlementFunding
  pub accounts : SettlementAccounts

pub record SettlementCommandRequest : Type 0 where
  pub flow_id : String
  pub flow_kind : String
  pub kind : String
  pub principal_id : ℕ
  pub idempotency_key : String
  pub subject_namespace : String
  pub subject_key : String

pub record SwapLeg : Type 0 where
  pub currency : String
  pub from_account_id : ℕ
  pub to_account_id : ℕ

pub record IncomeLotRequest : Type 0 where
  pub account_id : ℕ
  pub currency : String
  pub source_kind : String
  pub original_amount : ℤ

pub record SwapRequest : Type 0 where
  pub flow_id : String
  pub reservation_id : ℕ
  pub beneficiary_holder_id : ℕ
  pub amount : ℤ
  pub point_leg : SwapLeg
  pub income_leg : SwapLeg
  pub income_lot : IncomeLotRequest

pub record CommissionSettlementPlan : Type 0 where
  pub command_request : SettlementCommandRequest
  pub operation_kind : String
  pub action_kind : String
  pub swap : SwapRequest

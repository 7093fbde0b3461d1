-- ===== src/Tests/Settlements.antt =====
-- Settlements at concrete data.
use ts_graphql_reference.Base.{◌≡◌, ◌↔◌, refl, none, some}
use ts_graphql_reference.Int.{pos}
use ts_graphql_reference.Failure.{ok}
use ts_graphql_reference.Decimal.{decimal, digits}
use ts_graphql_reference.Settlement
use ts_graphql_reference.Settlement.{
  settlement_plan, plan_commission_settlement, plan_commission_settlement_start,
}
use ts_graphql_reference.Settlement.Data.{CommissionSettlementWorld, CommissionSettlementInput}
use ts_graphql_reference.Settlement.Guards.{IsSettleable}
use ts_graphql_reference.Settlement.Plan.{
  plan_commission_settlement_iff, IsSwap, plan_commission_settlement-IsSwap,
}
use ts_graphql_reference.Settlement.Start as SettlementStart
use ts_graphql_reference.Settlement.Start.{plan_commission_settlement_start_iff}

abbrev settlement_world : CommissionSettlementWorld
settlement_world = record {
  contract = record { id = 1; order_id = 5; flow_id = "f"; worker_id = 2 };
  order = record {
    id = 5;
    buyer_id = 7;
    flow_id = "f";
    state = "PAID";
    amount = pos 40;
    currency = "POINT";
  };
  payment = record {
    id = 6;
    flow_id = "f";
    state = "PAID";
    amount = pos 40;
    currency = "POINT";
    funding_link = record { reservation_id = 9; flow_id = "f" };
  };
  funding = record {
    reservation = record {
      id = 9;
      flow_id = "f";
      state = "HELD";
      currency = "POINT";
      target_amount = pos 40;
      holder_binding = record { namespace = "user"; key = "7" };
      escrow_account_id = 11;
    };
    transfer = record { flow_id = "f"; currency = "POINT"; amount = pos 40; to_account_id = 11 };
    provenance = record {
      action_operation_kind = "PAY";
      operation = record { id = "o"; flow_id = "f"; kind = "PAY" };
      command = record {
        flow_id = "f";
        kind = "PAY";
        principal_id = 7;
        subject = record { namespace = "commission-order-payment"; key = "6" };
        result_operation_id = some "o";
      };
    };
  };
  accounts = record {
    beneficiary_holder_id = 3;
    point_settled_account_id = 12;
    income_issuer_account_id = 13;
    income_available_account_id = 14;
  };
}

abbrev settlement_input : CommissionSettlementInput
settlement_input = record { contract_id = 1; actor_id = 2; command_key = "k" }

settle_1 :
    plan_commission_settlement settlement_world settlement_input
    ≡ ok (settlement_plan settlement_world settlement_input)
unfolding plan_commission_settlement decimal digits
settle_1 = refl

plan_commission_settlement_iff_example :
    (plan_commission_settlement settlement_world settlement_input
      ≡ ok (settlement_plan settlement_world settlement_input))
    ↔ IsSettleable settlement_world settlement_input
plan_commission_settlement_iff_example =
    plan_commission_settlement_iff settlement_world settlement_input

plan_commission_settlement-IsSwap_example :
    IsSwap settlement_world settlement_input (settlement_plan settlement_world settlement_input)
plan_commission_settlement-IsSwap_example =
    plan_commission_settlement-IsSwap settlement_world settlement_input settle_1

abbrev kept_settlement : Settlement.StoredCommissionSettlementCommand
kept_settlement = record {
  flow_id = "f";
  flow_kind = "COMMISSION";
  kind = "SETTLE";
  payload_hash = "h";
  subject_namespace = "commission-contract";
  subject_key = "1";
  operation_db_id = some "o";
  operation_id = some "OP-SETTLE-o";
  reference_id = "COMMISSION-f";
  command_id = "CMD-SETTLE-c";
}

abbrev asked_settlement : Settlement.RequestedSettlement
asked_settlement = record {
  flow_kind = "COMMISSION";
  kind = "SETTLE";
  payload_hash = "h";
  subject_namespace = "commission-contract";
  subject_key = "1";
}

plan_commission_settlement_start_iff_example :
    (plan_commission_settlement_start none (some kept_settlement) asked_settlement
      ≡ ok (Settlement.alias kept_settlement))
    ↔ SettlementStart.IsStart none
        (some kept_settlement)
        asked_settlement
        (Settlement.alias kept_settlement)
plan_commission_settlement_start_iff_example =
    plan_commission_settlement_start_iff none (some kept_settlement) asked_settlement
      (Settlement.alias kept_settlement)

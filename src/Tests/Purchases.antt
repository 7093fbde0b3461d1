-- ===== src/Tests/Purchases.antt =====
-- Purchases of points at concrete data.
use ts_graphql_reference.Base.{◌≡◌, ◌↔◌, refl, none, some, [], ◌∷◌, or_else}
use ts_graphql_reference.Int.{pos, whole, total_of}
use ts_graphql_reference.Failure.{ok}
use ts_graphql_reference.PointCharge
use ts_graphql_reference.PointCharge.{
  PointChargeWorld, PointChargeInput, PointChargePlan, StoredPointCharge, RequestedPointCharge,
  CommissionPointFundingAllocation, PointChargeFundingSource, plan_point_charge,
  plan_point_charge_start, plan_point_charge_command, assert_charge_amount,
  identify_point_charge_funding_sources, identify_source, required, required_kind,
}
use ts_graphql_reference.PointCharge.Start as PurchaseStart
use ts_graphql_reference.PointCharge.Start.{
  IsPointCharge, plan_point_charge-IsPointCharge, plan_point_charge_start_iff,
}
use ts_graphql_reference.PointCharge.Funding.{
  AreSources, identify_point_charge_funding_sources-AreSources,
}

abbrev charge_world : PointChargeWorld
charge_world = record { holder_id = 4; available_account_id = 8 }

abbrev charge_input : PointChargeInput
charge_input = record {
  actor_id = 7;
  amount = whole (pos 40);
  external_payment_id = "pg-1";
  command_key = "k";
}

abbrev charge_plan : PointChargePlan
charge_plan = record {
  flow_kind = "POINT_CHARGE";
  allowed_commands = "CHARGE" ∷ [];
  command_request = plan_point_charge_command charge_input;
  operation_kind = "CHARGE";
  lot_request = record {
    holder_id = 4;
    account_id = 8;
    currency = "POINT";
    source_kind = "PAID";
    issuance_reason = "PURCHASE";
    accounting_category = "CUSTOMER_ADVANCE";
    accounting_policy_version = "point-charge-v1";
    amount = pos 40;
  };
}

charge_40 : plan_point_charge charge_world charge_input ≡ ok charge_plan
unfolding plan_point_charge assert_charge_amount
charge_40 = refl

plan_point_charge-IsPointCharge_example : IsPointCharge charge_world charge_input charge_plan
plan_point_charge-IsPointCharge_example =
    plan_point_charge-IsPointCharge charge_world charge_input charge_40

abbrev asked_charge : RequestedPointCharge
asked_charge = record { command = plan_point_charge_command charge_input; payload_hash = "h" }

abbrev stored_charge : StoredPointCharge
stored_charge = record {
  command = plan_point_charge_command charge_input;
  payload_hash = "h";
  flow_id = "f";
  operation_db_id = some "o";
  operation_id = some "OP-CHARGE-o";
  reference_id = "POINT_CHARGE-f";
  command_id = "CMD-CHARGE-c";
}

plan_point_charge_start_iff_example :
    (plan_point_charge_start none (some stored_charge) asked_charge
      ≡ ok (PointCharge.replay stored_charge))
    ↔ PurchaseStart.IsStart
        (or_else none (some stored_charge))
        asked_charge
        (PointCharge.replay stored_charge)
plan_point_charge_start_iff_example =
    plan_point_charge_start_iff none (some stored_charge) asked_charge
      (PointCharge.replay stored_charge)

abbrev funded : CommissionPointFundingAllocation
funded = record {
  lot_id = 1;
  amount = pos 40;
  source_flow_id = some "f";
  source_flow_kind = some "POINT_CHARGE";
  source_operation_id = some "o";
  source_operation_kind = some "CHARGE";
  issuance_reason = some "PURCHASE";
  accounting_category = some "CUSTOMER_ADVANCE";
  accounting_policy_version = some "point-charge-v1";
}

abbrev source : PointChargeFundingSource
source = record {
  lot_id = 1;
  operation_id = "o";
  flow_id = "f";
  amount = pos 40;
  issuance_reason = "PURCHASE";
  accounting_category = "CUSTOMER_ADVANCE";
  accounting_policy_version = "point-charge-v1";
}

identify_one : identify_point_charge_funding_sources (funded ∷ []) ≡ ok (source ∷ [])
unfolding identify_point_charge_funding_sources identify_source required required_kind
identify_one = refl

identify_point_charge_funding_sources-AreSources_example :
    AreSources (funded ∷ []) (source ∷ [])
    × (total_of (λ s. s.amount) (source ∷ []) ≡ total_of (λ a. a.amount) (funded ∷ []))
identify_point_charge_funding_sources-AreSources_example =
    identify_point_charge_funding_sources-AreSources (funded ∷ []) identify_one

-- ===== src/PointCharge.antt =====
-- src/modules/point-charge/point-charge.core.ts: the decisions of a purchase of points.
pub mod Start
pub mod Funding
pub mod Service
pub mod Posted
pub mod Once
use ts_graphql_reference.Base.{
  ℕ, Bool, true, false, ◌&&◌, ◌||◌, not, Option, none, some, List, [], ◌∷◌, String, ◌==◌,
  if◌then◌else◌, str_ne, str_eq, present, or_else,
}
use ts_graphql_reference.Int.{ℤ, pos, leb_ℤ, ltb_ℤ, Number, whole, fractional, max_safe_integer}
use ts_graphql_reference.Failure.{
  Result, ok, err, ◌>>=◌, ◌>>◌, throw_if, point_charge_state, point_charge_source,
}

abbrev pub point_charge_payment_namespace : String
point_charge_payment_namespace = "point-charge-payment"

abbrev pub point_charge_accounting_policy_version : String
point_charge_accounting_policy_version = "point-charge-v1"

pub record PointChargeInput : Type 0 where
  pub actor_id : ℕ
  pub amount : Number
  pub external_payment_id : String
  pub command_key : String

pub record PointChargeWorld : Type 0 where
  pub holder_id : ℕ
  pub available_account_id : ℕ

pub record PointChargeCommand : Type 0 where
  pub flow_kind : String
  pub kind : String
  pub principal_id : ℕ
  pub idempotency_key : String
  pub subject_namespace : String
  pub subject_key : String

-- A command with the hash of its payload.
pub record RequestedPointCharge : Type 0 where
  pub command : PointChargeCommand
  pub payload_hash : String

pub record StoredPointCharge : Type 0 where
  pub command : PointChargeCommand
  pub payload_hash : String
  pub flow_id : String
  pub operation_db_id : Option String
  pub operation_id : Option String
  pub reference_id : String
  pub command_id : String

unfoldable pub plan_point_charge_command : PointChargeInput → PointChargeCommand
plan_point_charge_command input = record {
  flow_kind = "POINT_CHARGE";
  kind = "CHARGE";
  principal_id = input.actor_id;
  idempotency_key = input.command_key;
  subject_namespace = point_charge_payment_namespace;
  subject_key = input.external_payment_id;
}

unfoldable pub assert_point_charge_identity :
    StoredPointCharge → RequestedPointCharge → Result (Unit {0})
assert_point_charge_identity stored requested = do
  let s = stored.command
  let r = requested.command
  throw_if
      (str_ne s.flow_kind r.flow_kind
        || str_ne s.kind r.kind
        || not (s.principal_id == r.principal_id)
        || str_ne stored.payload_hash requested.payload_hash
        || str_ne s.subject_namespace r.subject_namespace
        || str_ne s.subject_key r.subject_key)
      (point_charge_state "Point charge command identity mismatch")
  throw_if (not (present stored.operation_db_id) || not (present stored.operation_id))
      (point_charge_state "Point charge command has no completed operation")

pub data PointChargeStart : Type 0 where
  proceed : PointChargeStart
  replay : StoredPointCharge → PointChargeStart

unfoldable pub plan_point_charge_start :
    Option StoredPointCharge
    → Option StoredPointCharge
    → RequestedPointCharge
    → Result PointChargeStart
unfolding assert_point_charge_identity
plan_point_charge_start command payment requested = elim (or_else command payment) [
  | none ↦ ok proceed
  | some stored ↦ do assert_point_charge_identity stored requested; ok (replay stored)
]

pub record LotRequest : Type 0 where
  pub holder_id : ℕ
  pub account_id : ℕ
  pub currency : String
  pub source_kind : String
  pub issuance_reason : String
  pub accounting_category : String
  pub accounting_policy_version : String
  pub amount : ℤ

pub record PointChargePlan : Type 0 where
  pub flow_kind : String
  pub allowed_commands : List String
  pub command_request : PointChargeCommand
  pub operation_kind : String
  pub lot_request : LotRequest

-- `!Number.isSafeInteger(amount) || amount <= 0` throws; what passed is a whole number.
unfoldable pub assert_charge_amount : Number → Result ℤ
assert_charge_amount (whole n) =
    if leb_ℤ n (pos 0) || ltb_ℤ max_safe_integer n
    then err (point_charge_state "Point charge amount must be a positive integer")
    else ok n
assert_charge_amount fractional =
    err (point_charge_state "Point charge amount must be a positive integer")

unfoldable pub plan_point_charge : PointChargeWorld → PointChargeInput → Result PointChargePlan
unfolding assert_charge_amount plan_point_charge_command
plan_point_charge world input = do
  n ← assert_charge_amount input.amount
  throw_if (str_eq input.external_payment_id "")
      (point_charge_state "External payment id is required")
  throw_if (str_eq input.command_key "") (point_charge_state "Command key is required")
  ok (record {
    flow_kind = "POINT_CHARGE";
    allowed_commands = "CHARGE" ∷ [];
    command_request = plan_point_charge_command input;
    operation_kind = "CHARGE";
    lot_request = record {
      holder_id = world.holder_id;
      account_id = world.available_account_id;
      currency = "POINT";
      source_kind = "PAID";
      issuance_reason = "PURCHASE";
      accounting_category = "CUSTOMER_ADVANCE";
      accounting_policy_version = point_charge_accounting_policy_version;
      amount = n;
    };
  })

pub record CommissionPointFundingAllocation : Type 0 where
  pub lot_id : ℕ
  pub amount : ℤ
  pub source_flow_id : Option String
  pub source_flow_kind : Option String
  pub source_operation_id : Option String
  pub source_operation_kind : Option String
  pub issuance_reason : Option String
  pub accounting_category : Option String
  pub accounting_policy_version : Option String

pub record PointChargeFundingSource : Type 0 where
  pub lot_id : ℕ
  pub operation_id : String
  pub flow_id : String
  pub amount : ℤ
  pub issuance_reason : String
  pub accounting_category : String
  pub accounting_policy_version : String

-- `!a`, and `a !== b`, of a text that may be null; what passed is a text.
unfoldable pub required : Option String → ℕ → Result String
required none lot = err (point_charge_source lot)
required (some s) lot = if str_eq s "" then err (point_charge_source lot) else ok s

unfoldable pub required_kind : Option String → String → ℕ → Result (Unit {0})
required_kind none kind lot = err (point_charge_source lot)
required_kind (some s) kind lot = throw_if (str_ne s kind) (point_charge_source lot)

-- Every test of the condition throws the same error.
unfoldable pub identify_source : CommissionPointFundingAllocation → Result PointChargeFundingSource
unfolding required required_kind
identify_source allocation = do
  let lot = allocation.lot_id
  flow ← required allocation.source_flow_id lot
  required_kind allocation.source_flow_kind "POINT_CHARGE" lot
  operation ← required allocation.source_operation_id lot
  required_kind allocation.source_operation_kind "CHARGE" lot
  reason ← required allocation.issuance_reason lot
  category ← required allocation.accounting_category lot
  version ← required allocation.accounting_policy_version lot
  ok (record {
    lot_id = lot;
    operation_id = operation;
    flow_id = flow;
    amount = allocation.amount;
    issuance_reason = reason;
    accounting_category = category;
    accounting_policy_version = version;
  })

unfoldable pub identify_point_charge_funding_sources :
    List CommissionPointFundingAllocation → Result (List PointChargeFundingSource)
unfolding identify_source
identify_point_charge_funding_sources [] = ok []
identify_point_charge_funding_sources (a ∷ allocations) = do
  source ← identify_source a
  sources ← identify_point_charge_funding_sources allocations
  ok (source ∷ sources)

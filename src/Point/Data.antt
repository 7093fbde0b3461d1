-- ===== src/Point/Data.antt =====
-- The data of src/modules/point/point.core.ts: what the decisions read, and the plans they return.
-- Amounts are whole numbers of either sign; an instant is its milliseconds since the epoch.
use ts_graphql_reference.Base.{ℕ, Bool, List}
use ts_graphql_reference.Int.{ℤ}

pub data PointChargeState : Type 0 where
  usable consumed expired : PointChargeState

pub PointChargeState-discrete : Discrete PointChargeState
PointChargeState-discrete = hlevel

pub record PointSnapshot : Type 0 where
  pub paid_amount : ℤ
  pub free_amount : ℤ
  pub total_amount : ℤ

pub record ChargeBalance : Type 0 where
  pub id : ℕ
  pub unspent_paid : ℤ
  pub unspent_free : ℤ

-- The unspent amounts that a plan assumed: the guard of the write.
pub record Assumed : Type 0 where
  pub unspent_paid : ℤ
  pub unspent_free : ℤ

pub record SpendAllocation : Type 0 where
  pub charge_id : ℕ
  pub paid : ℤ
  pub free : ℤ
  pub assumed : Assumed
  pub depleted : Bool

pub record SpendPlan : Type 0 where
  pub paid_usage : ℤ
  pub free_usage : ℤ
  pub allocations : List SpendAllocation
  pub assumed_balance : PointSnapshot
  pub balance_after : PointSnapshot

pub record ChargePlan : Type 0 where
  pub paid_amount : ℤ
  pub free_amount : ℤ
  pub total_amount : ℤ
  pub charged_at : ℤ

pub record TransferPlan : Type 0 where
  pub spend : SpendPlan
  pub charge : ChargePlan

pub record ExpirableCharge : Type 0 where
  pub id : ℕ
  pub unspent_paid : ℤ
  pub unspent_free : ℤ
  pub charged_at : ℤ

pub record ExpiryWorld : Type 0 where
  pub snapshot : PointSnapshot
  pub charges : List ExpirableCharge

pub record ChargeExpiration : Type 0 where
  pub charge_id : ℕ
  pub expired_paid : ℤ
  pub expired_free : ℤ
  pub assumed : Assumed

pub record ExpiryPlan : Type 0 where
  pub expirations : List ChargeExpiration
  pub expired_at : ℤ
  pub assumed_balance : PointSnapshot
  pub balance_after : PointSnapshot

-- ===== src/Point/Expiry.antt =====
-- The decision of src/modules/point/point.core.ts on expiring charges.
pub mod Sweep
pub mod Deadline
use ts_graphql_reference.Base.{Bool, List, [], ◌∷◌, if◌then◌else◌}
use ts_graphql_reference.Int.{ℤ, pos, ◌+ℤ◌, ◌-ℤ◌, ltb_ℤ}
use ts_graphql_reference.Time.{Dayjs, add_days, kst_end_of_day}
use ts_graphql_reference.Point.Data.{
  PointSnapshot, ExpirableCharge, ExpiryWorld, ChargeExpiration, ExpiryPlan,
}

abbrev pub expire_after_days : ℤ
expire_after_days = pos 365

abbrev pub expiration : ExpirableCharge → ChargeExpiration
expiration c = record {
  charge_id = c.id;
  expired_paid = c.unspent_paid;
  expired_free = c.unspent_free;
  assumed = record { unspent_paid = c.unspent_paid; unspent_free = c.unspent_free };
}

module _ (dayjs : Dayjs) where
  unfoldable pub deadline : ExpirableCharge → ℤ
  deadline c = kst_end_of_day dayjs (add_days dayjs c.charged_at expire_after_days)

  -- Still within its day: not due.
  unfoldable pub not_due : ℤ → ExpirableCharge → Bool
  unfolding deadline
  not_due now c = ltb_ℤ now (deadline c)

  -- The loop of `planExpiry`: the expirations, and what they remove of each kind.
  unfoldable pub sweep : ℤ → List ExpirableCharge → ℤ → ℤ → List ChargeExpiration × ℤ × ℤ
  sweep now [] paid_removed free_removed = ([], paid_removed, free_removed)
  sweep now (c ∷ charges) paid_removed free_removed =
      let continued = sweep now charges paid_removed free_removed in
      let pushed : List ChargeExpiration × ℤ × ℤ =
        let (rest, paid, free) =
          sweep now charges (paid_removed +ℤ c.unspent_paid) (free_removed +ℤ c.unspent_free) in
        (expiration c ∷ rest, paid, free) in
      if not_due now c then continued else pushed

  unfoldable pub plan_expiry : ExpiryWorld → ℤ → ExpiryPlan
  plan_expiry world now =
      let (expirations, paid_removed, free_removed) = sweep now world.charges (pos 0) (pos 0) in
      record {
        expirations = expirations;
        expired_at = now;
        assumed_balance = world.snapshot;
        balance_after = record {
          paid_amount = world.snapshot.paid_amount -ℤ paid_removed;
          free_amount = world.snapshot.free_amount -ℤ free_removed;
          total_amount = world.snapshot.total_amount -ℤ paid_removed -ℤ free_removed;
        };
      }

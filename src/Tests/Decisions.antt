-- ===== src/Tests/Decisions.antt =====
-- The decisions on points, at the world of a user with two charges.
use ts_graphql_reference.Base.{◌*◌, ◌⊎◌, ◌≡◌, refl, true, false, List, [], ◌∷◌, arith}
use ts_graphql_reference.Int.{pos, ◌+ℤ◌, ◌-ℤ◌, ◌≤ℤ◌, ◌<ℤ◌, min_ℤ, whole}
use ts_graphql_reference.Failure.{ok}
use ts_graphql_reference.Point.Data.{ExpirableCharge, PointSnapshot, ChargeBalance, SpendPlan}
use ts_graphql_reference.Point.Balance.{balance, sum_from, sum_usable_balance}
use ts_graphql_reference.Point.Spend.{
  allocation, allocate, split_usage, spend_plan, assert_covered, plan_spend, assert_valid_amount,
  plan_charge, assert_charge_side,
}
use ts_graphql_reference.Point.Spend.Plan.{IsSpend, plan_spend-consistent}
use ts_graphql_reference.Point.Expiry.{not_due}
use ts_graphql_reference.Time.Kst.{DayjsLaws, day}
use ts_graphql_reference.Point.Expiry.Deadline.{not_due-IsYear}
use ts_graphql_reference.Tests.Points.{utc}

abbrev held : PointSnapshot
held = balance (pos 30) (pos 20)

abbrev charge_1 : ChargeBalance
charge_1 = record { id = 1; unspent_paid = pos 30; unspent_free = pos 0 }

abbrev charge_2 : ChargeBalance
charge_2 = record { id = 2; unspent_paid = pos 0; unspent_free = pos 20 }

abbrev charges : List ChargeBalance
charges = charge_1 ∷ charge_2 ∷ []

abbrev plan_of_40 : SpendPlan
plan_of_40 = record {
  paid_usage = pos 30;
  free_usage = pos 10;
  allocations =
      record {
        charge_id = 1;
        paid = pos 30;
        free = pos 0;
        assumed = record { unspent_paid = pos 30; unspent_free = pos 0 };
        depleted = true;
      }
      ∷ record {
        charge_id = 2;
        paid = pos 0;
        free = pos 10;
        assumed = record { unspent_paid = pos 0; unspent_free = pos 20 };
        depleted = false;
      }
      ∷ [];
  assumed_balance = held;
  balance_after = balance (pos 0) (pos 10);
}

plan_40 : plan_spend held charges (whole (pos 40)) false ≡ ok plan_of_40
unfolding plan_spend assert_valid_amount split_usage allocate allocation min_ℤ ◌+ℤ◌ ◌-ℤ◌
    assert_covered spend_plan
plan_40 = refl

summed : held ≡ sum_usable_balance charges
unfolding sum_usable_balance sum_from ◌+ℤ◌
summed = refl

plan_spend-consistent_example :
    (p : SpendPlan) × (plan_spend held charges (whole (pos 40)) true ≡ ok p)
    × IsSpend held charges (pos 40) p
unfolding ◌+ℤ◌
plan_spend-consistent_example =
    plan_spend-consistent held charges true (pos 40)
      ((omega arith, omega arith), ((omega arith, omega arith), tt)) summed (omega arith)
      (omega arith)

charge_plan_5 :
    plan_charge (whole (pos 5)) (whole (pos 0)) (pos 900)
    ≡ ok (record {
      paid_amount = pos 5;
      free_amount = pos 0;
      total_amount = pos 5;
      charged_at = pos 900;
    })
unfolding plan_charge assert_charge_side ◌+ℤ◌
charge_plan_5 = refl

-- The laws of the date library hold of plain arithmetic.
utc-laws : DayjsLaws utc
unfolding ◌+ℤ◌ ◌-ℤ◌
utc-laws = record {
  adds_days = λ t n. refl;
  adds = λ t h. refl;
  subtracts = λ t h. refl;
  not_over = λ t. ground arith;
  within = λ t. ground arith;
}

abbrev made_at_100 : ExpirableCharge
made_at_100 = record { id = 1; unspent_paid = pos 30; unspent_free = pos 0; charged_at = pos 100 }

not_due-IsYear_example :
    ((not_due utc (pos 200) made_at_100 ≡ true) × (pos 200 <ℤ pos 100 +ℤ pos (366 * day)))
    ⊎ ((not_due utc (pos 200) made_at_100 ≡ false) × (pos 100 +ℤ pos (365 * day) ≤ℤ pos 200))
not_due-IsYear_example = not_due-IsYear utc utc-laws made_at_100 (pos 200)

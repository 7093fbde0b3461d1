-- ===== src/Point/Spend.antt =====
-- The decisions of src/modules/point/point.core.ts on charging, spending and transferring.
pub mod Allocation
pub mod Fifo
pub mod Plan
use ts_graphql_reference.Base.{
  ℕ, Bool, true, false, ◌&&◌, ◌||◌, not, List, [], ◌∷◌, ◌==◌, if◌then◌else◌,
}
use ts_graphql_reference.Int.{
  ℤ, pos, ◌+ℤ◌, ◌-ℤ◌, ◌==ℤ◌, ltb_ℤ, leb_ℤ, min_ℤ, Number, whole, fractional,
}
use ts_graphql_reference.Failure.{
  Result, ok, err, ◌>>=◌, ◌>>◌, throw_if, point_amount_not_positive, insufficient_point,
  point_ledger_inconsistency, point_transfer_to_self,
}
use ts_graphql_reference.Point.Data.{
  PointSnapshot, ChargeBalance, SpendAllocation, SpendPlan, ChargePlan, TransferPlan,
}

-- `isValidPointAmount`
unfoldable pub is_valid_point_amount : Number → Bool
is_valid_point_amount (whole n) = ltb_ℤ (pos 0) n
is_valid_point_amount fractional = false

-- `assertValidAmount`; the value that passed is a whole number.
unfoldable pub assert_valid_amount : Number → Result ℤ
assert_valid_amount (whole n) =
    if ltb_ℤ (pos 0) n then ok n else err (point_amount_not_positive (whole n))
assert_valid_amount fractional = err (point_amount_not_positive fractional)

-- `isValidChargeSide`, with the throw that follows it in `planCharge`.
unfoldable pub assert_charge_side : Number → Result ℤ
assert_charge_side (whole n) =
    if leb_ℤ (pos 0) n then ok n else err (point_amount_not_positive (whole n))
assert_charge_side fractional = err (point_amount_not_positive fractional)

unfoldable pub plan_charge : Number → Number → ℤ → Result ChargePlan
unfolding assert_charge_side
plan_charge paid_amount free_amount now = do
  paid ← assert_charge_side paid_amount
  free ← assert_charge_side free_amount
  throw_if (paid +ℤ free ==ℤ pos 0) (point_amount_not_positive (whole (pos 0)))
  ok (record {
    paid_amount = paid;
    free_amount = free;
    total_amount = paid +ℤ free;
    charged_at = now;
  })

-- How a spend of `amount` splits into paid and free points, in this order.
unfoldable pub split_usage : Bool → PointSnapshot → ℤ → ℤ × ℤ
split_usage true snapshot amount =
    let free = min_ℤ amount snapshot.free_amount in (amount -ℤ free, free)
split_usage false snapshot amount =
    let paid = min_ℤ amount snapshot.paid_amount in (paid, amount -ℤ paid)

-- What one charge gives while `paid_left` and `free_left` are still to be covered.
unfoldable pub allocation : ChargeBalance → ℤ → ℤ → SpendAllocation
allocation charge paid_left free_left =
    let paid = min_ℤ paid_left charge.unspent_paid in
    let free = min_ℤ free_left charge.unspent_free in
    record {
      charge_id = charge.id;
      paid = paid;
      free = free;
      assumed = record { unspent_paid = charge.unspent_paid; unspent_free = charge.unspent_free };
      depleted = charge.unspent_paid +ℤ charge.unspent_free -ℤ paid -ℤ free ==ℤ pos 0;
    }

-- The loop of `planSpend`: the allocations in order, and what of each kind is left uncovered.
unfoldable pub allocate : List ChargeBalance → ℤ → ℤ → List SpendAllocation × ℤ × ℤ
allocate [] paid_left free_left = ([], paid_left, free_left)
allocate (charge ∷ charges) paid_left free_left =
    let a = allocation charge paid_left free_left in
    let skipped = allocate charges paid_left free_left in
    let taken : List SpendAllocation × ℤ × ℤ =
      let (rest, paid_end, free_end) =
        allocate charges (paid_left -ℤ a.paid) (free_left -ℤ a.free) in
      (a ∷ rest, paid_end, free_end) in
    if paid_left ==ℤ pos 0 && free_left ==ℤ pos 0
    then ([], paid_left, free_left)
    else if a.paid +ℤ a.free ==ℤ pos 0
    then skipped
    else taken

-- The plan of `planSpend`, from the two usages.
unfoldable pub spend_plan : PointSnapshot → ℤ → ℤ → ℤ → List SpendAllocation → SpendPlan
spend_plan snapshot amount paid_usage free_usage allocations = record {
  paid_usage = paid_usage;
  free_usage = free_usage;
  allocations = allocations;
  assumed_balance = snapshot;
  balance_after = record {
    paid_amount = snapshot.paid_amount -ℤ paid_usage;
    free_amount = snapshot.free_amount -ℤ free_usage;
    total_amount = snapshot.total_amount -ℤ amount;
  };
}

-- The conservation check after the loop.
unfoldable pub assert_covered : PointSnapshot → ℤ → ℤ → Result (Unit {0})
assert_covered snapshot paid_left free_left =
    throw_if (not (paid_left ==ℤ pos 0) || not (free_left ==ℤ pos 0))
      (point_ledger_inconsistency snapshot paid_left free_left)

unfoldable pub plan_spend : PointSnapshot → List ChargeBalance → Number → Bool → Result SpendPlan
plan_spend snapshot charges amount prefer_free = do
  n ← assert_valid_amount amount
  throw_if (ltb_ℤ snapshot.total_amount n) (insufficient_point snapshot.total_amount n)
  let (paid_usage, free_usage) = split_usage prefer_free snapshot n
  let (allocations, paid_left, free_left) = allocate charges paid_usage free_usage
  assert_covered snapshot paid_left free_left
  ok (spend_plan snapshot n paid_usage free_usage allocations)

unfoldable pub plan_transfer :
    ℕ → ℕ → PointSnapshot → List ChargeBalance → Number → ℤ → Bool → Result TransferPlan
plan_transfer from_user_id to_user_id snapshot charges amount now prefer_free = do
  throw_if (from_user_id == to_user_id) (point_transfer_to_self from_user_id)
  spend ← plan_spend snapshot charges amount prefer_free
  charge ← plan_charge (whole spend.paid_usage) (whole spend.free_usage) now
  ok (record { spend = spend; charge = charge })

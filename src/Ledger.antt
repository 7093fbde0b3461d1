-- ===== src/Ledger.antt =====
-- src/modules/financial-ledger/financial-ledger.core.ts: which lots a reservation is taken from.
pub mod Reservation
pub mod Loads
pub mod Sources
pub mod Writes
pub mod Conserved
pub mod Taking
pub mod Reserved
pub mod Reserving
pub mod Funds
pub mod Grouped
use ts_graphql_reference.Base.{ℕ, Bool, true, false, not, List, [], ◌∷◌, if◌then◌else◌}
use ts_graphql_reference.Int.{
  ℤ, pos, ◌+ℤ◌, ◌-ℤ◌, ◌==ℤ◌, ltb_ℤ, leb_ℤ, min_ℤ, Number, whole, fractional,
}
use ts_graphql_reference.Failure.{
  Result, ok, err, ◌>>=◌, ◌>>◌, throw_if, invalid_financial_amount, insufficient_financial_funds,
}

pub record FinancialLotBalance : Type 0 where
  pub lot_id : ℕ
  pub remaining_amount : ℤ

pub record FinancialAllocation : Type 0 where
  pub lot_id : ℕ
  pub amount : ℤ
  pub assumed_remaining_amount : ℤ

-- `!Number.isInteger(amount) || amount <= 0` throws; what passed is a whole number.
unfoldable pub assert_financial_amount : Number → Result ℤ
assert_financial_amount (whole n) =
    if leb_ℤ n (pos 0) then err (invalid_financial_amount (whole n)) else ok n
assert_financial_amount fractional = err (invalid_financial_amount fractional)

-- The loop of `planReservation`: the allocations in order, and what remains to be allocated.
unfoldable pub reserve : List FinancialLotBalance → ℤ → List FinancialAllocation × ℤ
reserve [] remaining = ([], remaining)
reserve (lot ∷ lots) remaining =
    let allocated = min_ℤ lot.remaining_amount remaining in
    let skipped = reserve lots remaining in
    let taken : List FinancialAllocation × ℤ =
      let (rest, left) = reserve lots (remaining -ℤ allocated) in
      (
        record {
          lot_id = lot.lot_id;
          amount = allocated;
          assumed_remaining_amount = lot.remaining_amount;
        }
            ∷ rest,
        left,
      ) in
    if remaining ==ℤ pos 0
    then ([], remaining)
    else if ltb_ℤ (pos 0) allocated
    then taken
    else skipped

unfoldable pub plan_reservation :
    List FinancialLotBalance → Number → Result (List FinancialAllocation)
unfolding assert_financial_amount reserve
plan_reservation lots amount = do
  n ← assert_financial_amount amount
  let (allocations, remaining) = reserve lots n
  throw_if (ltb_ℤ (pos 0) remaining) (insufficient_financial_funds (n -ℤ remaining) n)
  ok allocations

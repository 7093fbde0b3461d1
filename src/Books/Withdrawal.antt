-- ===== src/Books/Withdrawal.antt =====
-- The books through a withdrawal: it reserves what its allocations sum up to.
use ts_graphql_reference.Base.{
  ℕ, ◌≡◌, refl, sym, ap, ◌∙◌, Option, none, some, List, [], ◌∷◌, map, String, Bool,
}
use ts_graphql_reference.Int.{◌+ℤ◌, total_of}
use ts_graphql_reference.Tx.{lift, lift-ok}
use ts_graphql_reference.Tx.Keeps.{Keeps, Returned}
use ts_graphql_reference.Store.{Store}
use ts_graphql_reference.Flow.Repo.{StoredCommand}
use ts_graphql_reference.Withdrawal.{
  IncomeAllocation, IncomeWithdrawalInput, IncomeWithdrawalPlan, IncomeWithdrawalWorld,
  plan_income_withdrawal,
}
use ts_graphql_reference.Withdrawal.Allocation.{as_allocation, plan_income_withdrawal-IsWithdrawal}
use ts_graphql_reference.PointCharge.Service.{CompletedIdentity}
use ts_graphql_reference.Withdrawal.Service.{
  load_result, load_withdrawal_result, create_withdrawal, assert_withdrawal_shape,
  bound_reservation, write_withdrawal, post_withdrawal, continue_withdrawal, execute_withdrawal,
}
use ts_graphql_reference.Runtime.{Runtime}
use ts_graphql_reference.Ledger.Reservation.{reserved}
use ts_graphql_reference.Ledger.Conserved.{IsConserved}
use ts_graphql_reference.Ledger.Writes.{
  IncomeReservationRequest, apply_income_withdrawal_reservation,
}
use ts_graphql_reference.Ledger.Funds.{load_available_income_world-HasFunds}
use ts_graphql_reference.Ledger.Reserved.{IsReserved-IsConserved}
use ts_graphql_reference.Ledger.Reserving.{
  income_of, apply_income_withdrawal_reservation-IsReserved,
}
use ts_graphql_reference.Ledger.Loads.{load_available_income_world}
use ts_graphql_reference.Books.{reads, Keeps-create}
use ts_graphql_reference.Books.Reads.{
  Keeps-load_available_income_world, Keeps-load_income_withdrawal_sources,
}
use ts_graphql_reference.Books.Writes.{writes, withdrawal_table-IsAside}

Keeps-load_result :
    (flow : String) (identity : CompletedIdentity) (replayed : Bool)
    → Keeps IsConserved (load_result flow identity replayed)
unfolding load_result load_withdrawal_result
Keeps-load_result flow identity replayed =
    search (reads, Keeps-load_income_withdrawal_sources) depth 12

Keeps-apply_income_withdrawal_reservation :
    (flow : String) (request : IncomeReservationRequest) (action : String)
    → request.transfer.amount ≡ request.amount
    → total_of income_of request.transfer.allocations ≡ request.amount
    → Keeps IsConserved (apply_income_withdrawal_reservation flow request action)
Keeps-apply_income_withdrawal_reservation flow request action same exact = record {
  at = λ {s} e c.
      IsReserved-IsConserved exact
        (apply_income_withdrawal_reservation-IsReserved flow request action s same e) c;
}

total-as_allocation :
    (l : List IncomeAllocation) → reserved (map as_allocation l) ≡ total_of income_of l
total-as_allocation [] = refl
total-as_allocation (a ∷ l) = ap (λ n. a.amount +ℤ n) (total-as_allocation l)

-- The reservation of a plan, over the world that was loaded.
Keeps-bound_reservation :
    (input : IncomeWithdrawalInput) (holder : ℕ) (world : IncomeWithdrawalWorld)
    (plan : IncomeWithdrawalPlan) (flow action : String)
    → Returned (load_available_income_world holder) world
    → Returned (lift {S = Store} (plan_income_withdrawal world input)) plan
    → Keeps IsConserved (
        apply_income_withdrawal_reservation flow
          (bound_reservation plan.reservation_request flow)
          action)
Keeps-bound_reservation input holder world plan flow action loaded (s, t, planned) =
    let full = load_available_income_world-HasFunds holder world loaded in
    let decided = (lift-ok (plan_income_withdrawal world input) s planned).0 in
    let (n, p) = plan_income_withdrawal-IsWithdrawal world input full decided in
    let allocations = plan.reservation_request.transfer.allocations in
    Keeps-apply_income_withdrawal_reservation flow (bound_reservation plan.reservation_request flow)
      action (p.transferred ∙ sym p.held)
      (sym (total-as_allocation allocations) ∙ p.reservation.exact ∙ sym p.held)

module _ (runtime : Runtime) where
  Keeps-post_withdrawal :
      (input : IncomeWithdrawalInput) (holder : ℕ)
      → Keeps IsConserved (post_withdrawal runtime input holder)
  unfolding post_withdrawal write_withdrawal create_withdrawal assert_withdrawal_shape
  Keeps-post_withdrawal input holder =
      search
        (
          writes, Keeps-load_available_income_world, Keeps-bound_reservation, Keeps-create,
          withdrawal_table-IsAside, Keeps-load_result,
        )
        depth 40 fits 4000

  Keeps-continue_withdrawal :
      (input : IncomeWithdrawalInput) (holder : ℕ) (existing : Option StoredCommand)
      → Keeps IsConserved (continue_withdrawal runtime input holder existing)
  unfolding continue_withdrawal
  Keeps-continue_withdrawal input holder none = Keeps-post_withdrawal input holder
  Keeps-continue_withdrawal input holder (some stored) = search (reads, Keeps-load_result) depth 12

  pub Keeps-execute_withdrawal :
      (input : IncomeWithdrawalInput) (holder : ℕ)
      → Keeps IsConserved (execute_withdrawal runtime input holder)
  unfolding execute_withdrawal
  Keeps-execute_withdrawal input holder = search (writes, Keeps-continue_withdrawal) depth 12

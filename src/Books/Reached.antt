-- ===== src/Books/Reached.antt =====
-- The stores that the four financial use-cases reach, in any order and however they overlap.
use ts_graphql_reference.Base.{◌≡◌, refl, sym, subst, List, [], false, inl, inr}
use ts_graphql_reference.Decimal.{decimal}
use ts_graphql_reference.Failure.{Result, ok, err, Result-cases}
use ts_graphql_reference.Int.{int_laws}
use ts_graphql_reference.Tx.{Tx, ◌>>◌}
use ts_graphql_reference.Tx.Keeps.{Keeps}
use ts_graphql_reference.Uow
use ts_graphql_reference.Uow.{serialized, snapshot_if, acquire}
use ts_graphql_reference.Uow.Alone.{alone, alone-IsAtomic, alone-IsQuiet}
use ts_graphql_reference.Uow.Atomic.{run_tx-rolls_back, serialized-ok}
use ts_graphql_reference.Locks.{LockKey}
use ts_graphql_reference.Runtime.{Runtime}
use ts_graphql_reference.Store.{Store}
use ts_graphql_reference.Ledger.Loads.{find_holder_id}
use ts_graphql_reference.PointCharge.{PointChargeInput}
use ts_graphql_reference.PointCharge.Service as Charging
use ts_graphql_reference.Checkout.{CommissionCheckoutInput}
use ts_graphql_reference.Checkout.Service as Paying
use ts_graphql_reference.Settlement.Data.{CommissionSettlementInput}
use ts_graphql_reference.Settlement.Service as Settling
use ts_graphql_reference.Withdrawal.{IncomeWithdrawalInput}
use ts_graphql_reference.Withdrawal.Service as Withdrawing
use ts_graphql_reference.Ledger.Conserved.{IsConserved}
use ts_graphql_reference.Books.Reads.{Keeps-find_holder_id}
use ts_graphql_reference.Books.Charge.{Keeps-execute_point_charge}
use ts_graphql_reference.Books.Checkout.{
  Keeps-execute_commission_checkout, Keeps-prepare_commission_checkout,
}
use ts_graphql_reference.Books.Settlement.{Keeps-execute_settlement, Keeps-locked_worker_holder}
use ts_graphql_reference.Books.Withdrawal.{Keeps-execute_withdrawal}

-- A transaction keeps what its body keeps, and an error has changed nothing.
serialized-Keeps :
    {A : Type 0} {P : Store → Type 0} (keys : List LockKey) (body : Tx Store A)
    → Keeps P body
    → (s : Store) → P s
    → P (serialized (alone Store) keys body false s).1
unfolding serialized
serialized-Keeps {A} {P} keys body keeps s p =
    by_result (serialized (alone Store) keys body false s) refl
  where
    by_result : (r : Result A × Store) → serialized (alone Store) keys body false s ≡ r → P r.1
    by_result (ok a, t) e =
        keeps.at (serialized-ok alone-IsAtomic alone-IsQuiet keys body false s e) p
    by_result (err x, t) e =
        subst P
          (sym
            (run_tx-rolls_back alone-IsAtomic
              (do snapshot_if (alone Store) false; acquire (alone Store) keys; body) s e).0)
          p

-- A use-case: a read, then a transaction on what it has read, in the store that others have left.
module _ {A B : Type 0} (read : Tx Store A) (keys : A → List LockKey) (body : A → Tx Store B) where
  abbrev use_case : (Store → Store) → Store → Result B × Store
  use_case others s = elim (read s) [
    | err e ↦ (err e, s)
    | ok (a, t) ↦ Uow.serialized (alone Store) (keys a) (body a) false (others t)
  ]

  use_case-Keeps :
      {P : Store → Type 0}
      → ((s : Store) → Keeps (λ t. s ≡ t) read)
      → ((a : A) → Keeps P (body a))
      → (others : Store → Store) (s : Store) → P s
      → P (others s)
      → P (use_case others s).1
  use_case-Keeps {P} quiet keeps others s p q = elim (Result-cases (read s)) [
    | inr (x, e) ↦ rw (e, use_case) p
    | inl ((a, t), e) ↦
        let same = (quiet s).at {s = s} e refl in
        rw (e, use_case)
          (serialized-Keeps (keys a) (body a) (keeps a) (others t)
            (subst (λ x. P (others x)) same q))
  ]

-- A store before any money, and what a use-case makes of a store that is reached. What others do
-- between its read and its transaction leads to a store that is reached, too.
pub data Reached (runtime : Runtime) : Store → Type 0 where
  without_money :
      (s : Store) → s.lots ≡ [] → s.transfers ≡ [] → s.transfer_allocations ≡ [] → Reached runtime s
  charged :
      (input : PointChargeInput) (others : Store → Store) {s : Store}
      → Reached runtime s
      → Reached runtime (others s)
      → Reached runtime (Charging.charge runtime others input s).1
  checked_out :
      (input : CommissionCheckoutInput) (others : Store → Store) {s : Store}
      → Reached runtime s
      → Reached runtime (others s)
      → Reached runtime (Paying.complete runtime others input s).1
  settled :
      (input : CommissionSettlementInput) (others : Store → Store) {s : Store}
      → Reached runtime s
      → Reached runtime (others s)
      → Reached runtime (Settling.settle runtime others input s).1
  withdrawn :
      (input : IncomeWithdrawalInput) (others : Store → Store) {s : Store}
      → Reached runtime s
      → Reached runtime (others s)
      → Reached runtime (Withdrawing.request runtime others input s).1

-- In every store that charges, checkouts, settlements and withdrawals reach from one without money,
-- with whatever outcome each has and however they overlap: for every account, what its lots were
-- issued with is what is left in them and what has been allocated out of them, and the allocations
-- are what transfers have moved out of the account.
pub Reached-IsConserved : {runtime : Runtime} {s : Store} → Reached runtime s → IsConserved s
unfolding Charging.charge Paying.complete Settling.settle Withdrawing.request
Reached-IsConserved (without_money s lots transfers allocations) = record {
  accounted = λ a. rw (lots, allocations) (omega int_laws);
  moved = λ a. rw (transfers, allocations) refl;
}
Reached-IsConserved {runtime} (charged input others {s} r q) =
    use_case-Keeps (find_holder_id "user" (decimal input.actor_id))
      (Charging.charge_keys runtime input) (Charging.execute_point_charge runtime input)
      (λ x. Keeps-find_holder_id _ _) (Keeps-execute_point_charge runtime input) others s
      (Reached-IsConserved r) (Reached-IsConserved q)
Reached-IsConserved {runtime} (checked_out input others {s} r q) =
    use_case-Keeps (Paying.prepare_commission_checkout runtime input) (λ p. p.lock_keys)
      (Paying.execute_commission_checkout runtime)
      (λ x. Keeps-prepare_commission_checkout runtime input)
      (Keeps-execute_commission_checkout runtime) others s (Reached-IsConserved r)
      (Reached-IsConserved q)
Reached-IsConserved {runtime} (settled input others {s} r q) =
    use_case-Keeps (Settling.locked_worker_holder runtime input.contract_id)
      (Settling.settlement_keys runtime input) (Settling.execute_settlement runtime input)
      (λ x. Keeps-locked_worker_holder runtime input.contract_id)
      (Keeps-execute_settlement runtime input) others s (Reached-IsConserved r)
      (Reached-IsConserved q)
Reached-IsConserved {runtime} (withdrawn input others {s} r q) =
    use_case-Keeps (find_holder_id "user" (decimal input.actor_id))
      (Withdrawing.withdrawal_keys runtime input) (Withdrawing.execute_withdrawal runtime input)
      (λ x. Keeps-find_holder_id _ _) (Keeps-execute_withdrawal runtime input) others s
      (Reached-IsConserved r) (Reached-IsConserved q)

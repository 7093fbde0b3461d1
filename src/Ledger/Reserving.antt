-- ===== src/Ledger/Reserving.antt =====
-- The reservations of the ledger repository take from the lots what they move.
use ts_graphql_reference.Base.{
  ℕ, ◌≡◌, refl, sym, ap, ◌∙◌, subst, some, List, [], ◌∷◌, ◌++◌, map, String,
}
use ts_graphql_reference.Int.{ℤ, total_of}
use ts_graphql_reference.Failure.{ok}
use ts_graphql_reference.Tx.{Tx, for_each, pure, ◌>>=◌, ◌>>◌}
use ts_graphql_reference.Store.{
  Store, ReservationRow, AccountRow, TransferRow, TransferAllocationRow,
}
use ts_graphql_reference.Store.Tables.{
  reservation_table, account_table, transfer_table, transfer_allocation_table,
}
use ts_graphql_reference.Store.Client.{added, create, create_many}
use ts_graphql_reference.Store.Client.Calls.{same_value, same_state}
use ts_graphql_reference.Store.Client.Steps.{after, after_create, after_create_many}
use ts_graphql_reference.Ledger.{FinancialAllocation}
use ts_graphql_reference.Withdrawal.{IncomeAllocation}
use ts_graphql_reference.Checkout.{CommissionPaymentReservationRequest}
use ts_graphql_reference.Ledger.Writes.{
  IncomeReservationRequest, escrow_row, payment_reservation, transfer_row, allocation_row,
  reserve_lot, apply_commission_payment_reservation, income_reservation, income_escrow,
  withdraw_lot, apply_income_withdrawal_reservation,
}
use ts_graphql_reference.Ledger.Taking.{
  IsTaken, reserve_lot-IsTaken, withdraw_lot-IsTaken, for_each-IsTaken,
}
use ts_graphql_reference.Ledger.Reserved.{IsReserved, allocations_added, total-allocations}

abbrev pub amount_of : FinancialAllocation → ℤ
amount_of a = a.amount

abbrev pub income_of : IncomeAllocation → ℤ
income_of a = a.amount

-- What follows the loop over the lots: the reservation, its escrow, the transfer into it.
module _ {A : Type 0} (make_reservation : ℕ → ReservationRow) (make_escrow : ℕ → ℕ → AccountRow)
    (make_transfer : ℕ → ℕ → ℕ → TransferRow) (row : ℕ → A → TransferAllocationRow)
    (amount_of : A → ℤ) (account : ℕ) (amount : ℤ) where
  -- The requests say what the rows must.
  pub record IsRequested : Type 0 where
    pub owned : (r i : ℕ) → (make_escrow r i).reservation_id ≡ some r
    pub from_account : (r e i : ℕ) → (make_transfer r e i).from_account_id ≡ account
    pub to_escrow : (r e i : ℕ) → (make_transfer r e i).to_account_id ≡ e
    pub own_transfer : (r e i : ℕ) → (make_transfer r e i).reservation_id ≡ r
    pub moved : (r e i : ℕ) → (make_transfer r e i).amount ≡ amount
    pub held : (i : ℕ) → (make_reservation i).state ≡ "HELD"
    pub target : (i : ℕ) → (make_reservation i).target_amount ≡ amount
    pub allocated_from : (i : ℕ) (x : A) → (row i x).from_account_id ≡ account
    pub allocated : (i : ℕ) (x : A) → (row i x).amount ≡ amount_of x

  hold : List A → Tx Store ReservationRow
  unfolding create create_many
  hold allocations = do
    reservation ← create reservation_table make_reservation
    escrow ← create account_table (make_escrow reservation.id)
    transfer ← create transfer_table (make_transfer reservation.id escrow.id)
    create_many transfer_allocation_table (map (row transfer.id) allocations)
    pure reservation

  hold-IsReserved :
      IsRequested
      → (allocations : List A) (s s1 : Store)
      → IsTaken account (total_of amount_of allocations) s s1
      → {r : ReservationRow} {t : Store} → hold allocations s1 ≡ ok (r, t)
      → IsReserved account (total_of amount_of allocations) amount s r t
  unfolding hold
  hold-IsReserved requested allocations s s1 taken {r} {t} h =
      after_create reservation_table make_reservation _ s1 h λ reservation c2 h2.
        let s2 = added reservation_table reservation s1 in
        after_create account_table (make_escrow reservation.id) _ s2 h2 λ escrow c3 h3.
          let s3 = added account_table escrow s2 in
          after_create transfer_table (make_transfer reservation.id escrow.id) _ s3 h3
            λ transfer c4 h4.
              let s4 = added transfer_table transfer s3 in
              let rows = map (row transfer.id) allocations in
              after_create_many transfer_allocation_table rows _ s4 h4 λ h5.
                let (last, all) = allocations_added rows s4 in
                let total = total_of amount_of allocations in
                subst (λ x. IsReserved account total amount s x t) (same_value h5)
                  (record {
                    lots = taken.lots;
                    issued_same = taken.issued_same;
                    left = taken.left;
                    escrow = escrow;
                    owned = rw (← c3.row) (requested.owned reservation.id s2.next_id);
                    transfer = transfer;
                    from_account =
                        rw (← c4.row) (requested.from_account reservation.id escrow.id s3.next_id);
                    to_escrow =
                        rw (← c4.row) (requested.to_escrow reservation.id escrow.id s3.next_id);
                    own_transfer =
                        rw (← c4.row) (requested.own_transfer reservation.id escrow.id s3.next_id);
                    moved = rw (← c4.row) (requested.moved reservation.id escrow.id s3.next_id);
                    held = rw (← c2.row) (requested.held s1.next_id);
                    target = rw (← c2.row) (requested.target s1.next_id);
                    rows = rows;
                    allocations = λ a.
                        total-allocations (row transfer.id) amount_of account a
                          (requested.allocated_from transfer.id) (requested.allocated transfer.id)
                          allocations;
                    last_id = last;
                    state =
                        ap {A = Store}
                          (λ z. record z {
                            reservations = z.reservations ++ reservation ∷ [];
                            accounts = z.accounts ++ escrow ∷ [];
                            transfers = z.transfers ++ transfer ∷ [];
                            transfer_allocations = z.transfer_allocations ++ rows;
                            next_id = last;
                          })
                          taken.state
                        ∙ sym all
                        ∙ same_state h5;
                  })

pub apply_commission_payment_reservation-IsReserved :
    (request : CommissionPaymentReservationRequest) (account : ℕ)
    (allocations : List FinancialAllocation) (action : String) (s : Store) {r : ReservationRow}
    {t : Store}
    → apply_commission_payment_reservation request account allocations action s ≡ ok (r, t)
    → IsReserved account (total_of amount_of allocations) request.amount s r t
unfolding apply_commission_payment_reservation hold
apply_commission_payment_reservation-IsReserved request account allocations action s h =
    after (for_each (reserve_lot account) allocations) _ s h λ u s1 e1 h1.
      let taken =
        for_each-IsTaken (reserve_lot account) amount_of account
          (λ a x y v e. reserve_lot-IsTaken account a x e) allocations s e1 in
      hold-IsReserved (payment_reservation request) (escrow_row request.currency)
        (λ r e. transfer_row r request.flow_id request.currency account e request.amount action)
        (λ i a. allocation_row i account request.currency a.lot_id a.amount) amount_of account
        request.amount
        (record {
          owned = λ r i. refl;
          from_account = λ r e i. refl;
          to_escrow = λ r e i. refl;
          own_transfer = λ r e i. refl;
          moved = λ r e i. refl;
          held = λ i. refl;
          target = λ i. refl;
          allocated_from = λ i x. refl;
          allocated = λ i x. refl;
        })
        allocations s s1 taken h1

-- The reservation's amount and its transfer's are two fields of the request: they agree in those
-- that are planned.
pub apply_income_withdrawal_reservation-IsReserved :
    (flow : String) (request : IncomeReservationRequest) (action : String) (s : Store)
    {r : ReservationRow} {t : Store}
    → request.transfer.amount ≡ request.amount
    → apply_income_withdrawal_reservation flow request action s ≡ ok (r, t)
    → IsReserved request.transfer.from_account_id
        (total_of income_of request.transfer.allocations)
        request.amount
        s
        r
        t
unfolding apply_income_withdrawal_reservation hold
apply_income_withdrawal_reservation-IsReserved flow request action s same h =
    let transfer = request.transfer in
    after (for_each (withdraw_lot transfer) transfer.allocations) _ s h λ u s1 e1 h1.
      let taken =
        for_each-IsTaken (withdraw_lot transfer) income_of transfer.from_account_id
          (λ a x y v e. withdraw_lot-IsTaken transfer a x e) transfer.allocations s e1 in
      hold-IsReserved (income_reservation flow request) (income_escrow request.escrow_account)
        (λ r e.
          transfer_row r flow transfer.currency transfer.from_account_id e transfer.amount action)
        (λ i a. allocation_row i transfer.from_account_id transfer.currency a.lot_id a.amount)
        income_of transfer.from_account_id request.amount
        (record {
          owned = λ r i. refl;
          from_account = λ r e i. refl;
          to_escrow = λ r e i. refl;
          own_transfer = λ r e i. refl;
          moved = λ r e i. same;
          held = λ i. refl;
          target = λ i. refl;
          allocated_from = λ i x. refl;
          allocated = λ i x. refl;
        })
        transfer.allocations s s1 taken h1

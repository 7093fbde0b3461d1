-- ===== src/Ledger/Reserved.antt =====
-- A reservation as a whole: what is taken from the lots, held in an escrow by one transfer.
use ts_graphql_reference.Base.{
  ℕ, ◌≡◌, refl, sym, ap, ◌∙◌, subst, Bool, true, false, some, List, [], ◌∷◌, ◌++◌, map, ◌==◌,
}
use mathlib.Core.List.{append_assoc, append-nil}
use ts_graphql_reference.Int.{ℤ, pos, ◌+ℤ◌, ◌-ℤ◌, int_laws, total_of}
use ts_graphql_reference.Store.{
  Store, LotRow, ReservationRow, AccountRow, TransferRow, TransferAllocationRow,
}
use ts_graphql_reference.Store.Tables.{transfer_allocation_table}
use ts_graphql_reference.Store.Client.{added}
use ts_graphql_reference.Store.Client.Calls.{added_all}
use ts_graphql_reference.Ledger.Conserved.{
  IsConserved, if_ℤ, issued_row, unspent_row, allocated_row, transferred_row, issued, unspent,
  total-append,
}

-- A transfer from the account into an escrow of the reservation, whose allocations sum up to what
-- the lots of the account, and of no other, have lost.
pub record IsReserved (account : ℕ) (n amount : ℤ) (s : Store) (reservation : ReservationRow)
    (t : Store) : Type 0 where
  pub lots : List LotRow
  pub issued_same : (a : ℕ) → total_of (issued_row a) lots ≡ issued a s
  pub left : (a : ℕ) → total_of (unspent_row a) lots ≡ unspent a s -ℤ if_ℤ (account == a) n
  pub escrow : AccountRow
  pub owned : escrow.reservation_id ≡ some reservation.id
  pub transfer : TransferRow
  pub from_account : transfer.from_account_id ≡ account
  pub to_escrow : transfer.to_account_id ≡ escrow.id
  pub own_transfer : transfer.reservation_id ≡ reservation.id
  pub moved : transfer.amount ≡ amount
  pub held : reservation.state ≡ "HELD"
  pub target : reservation.target_amount ≡ amount
  pub rows : List TransferAllocationRow
  pub allocations : (a : ℕ) → total_of (allocated_row a) rows ≡ if_ℤ (account == a) n
  pub last_id : ℕ
  pub state :
      record s {
        lots = lots;
        reservations = s.reservations ++ reservation ∷ [];
        accounts = s.accounts ++ escrow ∷ [];
        transfers = s.transfers ++ transfer ∷ [];
        transfer_allocations = s.transfer_allocations ++ rows;
        next_id = last_id;
      }
      ≡ t

-- A reservation that takes what it moves keeps the books.
pub IsReserved-IsConserved :
    {account : ℕ} {n amount : ℤ} {s : Store} {reservation : ReservationRow} {t : Store}
    → n ≡ amount
    → IsReserved account n amount s reservation t
    → IsConserved s
    → IsConserved t
IsReserved-IsConserved {account} {n} {amount} {s} exact r c = subst IsConserved r.state (record {
  accounted = λ a.
      let before = c.accounted a in
      let same = r.issued_same a in
      let left = r.left a in
      let rows = r.allocations a in
      let more = total-append (allocated_row a) s.transfer_allocations r.rows in
      omega (int_laws, before, same, left, rows, more);
  moved = λ a.
      let before = c.moved a in
      let rows = r.allocations a in
      let more = total-append (allocated_row a) s.transfer_allocations r.rows in
      let out = total-append (transferred_row a) s.transfers (r.transfer ∷ []) in
      let own : transferred_row a r.transfer ≡ if_ℤ (account == a) n =
        rw (r.from_account, r.moved) (ap (if_ℤ (account == a)) (sym exact)) in
      omega (int_laws, before, rows, more, out, own);
})

-- `createMany` of allocations appends them.
pub allocations_added :
    (rows : List TransferAllocationRow) (s : Store)
    → (i : ℕ) × (added_all transfer_allocation_table rows s
        ≡ record s { transfer_allocations = s.transfer_allocations ++ rows; next_id = i })
allocations_added [] s = (
  s.next_id,
  ap (λ l. record s { transfer_allocations = l }) (sym (append-nil s.transfer_allocations)),
)
allocations_added (r ∷ rows) s =
    let (i, e) = allocations_added rows (added transfer_allocation_table r s) in
    (
      i,
      e
          ∙ ap (λ l. record s { transfer_allocations = l; next_id = i })
              (append_assoc s.transfer_allocations (r ∷ []) rows),
    )

-- The allocations of one account, summed up for any.
pub total-allocations :
    {A : Type 0} (row : A → TransferAllocationRow) (amount : A → ℤ) (account a : ℕ)
    → ((x : A) → (row x).from_account_id ≡ account)
    → ((x : A) → (row x).amount ≡ amount x)
    → (l : List A)
    → total_of (allocated_row a) (map row l) ≡ if_ℤ (account == a) (total_of amount l)
total-allocations row amount account a from of_amount [] = none_for (account == a)
  where
    none_for : (b : Bool) → pos 0 ≡ if_ℤ b (pos 0)
    none_for true = refl
    none_for false = refl
total-allocations row amount account a from of_amount (x ∷ l) =
    let ih = total-allocations row amount account a from of_amount l in
    rw (from x, of_amount x, ih) (sum_for (account == a) (amount x) (total_of amount l))
  where
    sum_for : (b : Bool) (m n : ℤ) → if_ℤ b m +ℤ if_ℤ b n ≡ if_ℤ b (m +ℤ n)
    sum_for true m n = refl
    sum_for false m n = omega int_laws

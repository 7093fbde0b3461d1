-- ===== src/Ledger/Taking.antt =====
-- What a reservation takes from the lots of an account.
use ts_graphql_reference.Base.{
  ℕ, ◌≡◌, refl, sym, ap, ◌∙◌, subst, Bool, true, false, ◌&&◌, not, List, [], ◌∷◌, ◌==◌,
  ==-not-false, &&-true, str_eq,
}
use ts_graphql_reference.Int.{ℤ, pos, ◌+ℤ◌, ◌-ℤ◌, ◌==ℤ◌, int_laws, total_of}
use ts_graphql_reference.Failure.{ok, concurrent_update, financial_lot}
use ts_graphql_reference.Tx.{Tx, for_each, throw_if-ok}
use ts_graphql_reference.Point.Tables.{update_where, count_where}
use ts_graphql_reference.Store.{Store, LotRow}
use ts_graphql_reference.Store.Tables.{lot_table}
use ts_graphql_reference.Store.Client.Calls.{same_state}
use ts_graphql_reference.Store.Client.Steps.{after, after_update_many}
use ts_graphql_reference.Ledger.{FinancialAllocation}
use ts_graphql_reference.Withdrawal.{IncomeAllocation, WithdrawalTransfer}
use ts_graphql_reference.Ledger.Writes.{
  remains, decrement, reserve_lot, income_remains, withdraw_lot,
}
use ts_graphql_reference.Ledger.Conserved.{
  if_ℤ, issued_row, unspent_row, issued, unspent, issued-update, unspent-update,
}

-- Only the lots are written; what is left of the account's falls by `n`, and of no other's.
pub record IsTaken (account : ℕ) (n : ℤ) (s t : Store) : Type 0 where
  pub lots : List LotRow
  pub state : record s { lots = lots } ≡ t
  pub issued_same : (a : ℕ) → total_of (issued_row a) lots ≡ issued a s
  pub left : (a : ℕ) → total_of (unspent_row a) lots ≡ unspent a s -ℤ if_ℤ (account == a) n

-- One write that has hit one lot.
write-IsTaken :
    (matches : LotRow → Bool) (account : ℕ) (n : ℤ)
    → ((r : LotRow) → matches r ≡ true → r.account_id == account ≡ true)
    → (s : Store) → count_where matches s.lots ≡ 1
    → IsTaken account n s (record s { lots = update_where matches (decrement n) s.lots })
write-IsTaken matches account n only s count = record {
  lots = update_where matches (decrement n) s.lots;
  state = refl;
  issued_same = λ a. issued-update matches account n only a s.lots;
  left = λ a. unspent-update matches account n only a s.lots count;
}

pub reserve_lot-IsTaken :
    (account : ℕ) (a : FinancialAllocation) (s : Store) {u : Unit {0}} {t : Store}
    → reserve_lot account a s ≡ ok (u, t)
    → IsTaken account a.amount s t
unfolding reserve_lot
reserve_lot-IsTaken account a s h =
    after_update_many lot_table (remains account a) (decrement a.amount) _ s h λ checked h1.
      let count = count_where (remains account a) s.lots in
      let (one, same) =
        throw_if-ok (not (count == 1)) (concurrent_update (financial_lot a.lot_id)) _ h1 in
      let only = λ (r : LotRow) (m : remains account a r ≡ true).
        (&&-true (r.id == a.lot_id) (r.account_id == account)
          (&&-true (r.id == a.lot_id && r.account_id == account)
            (r.remaining_amount ==ℤ a.assumed_remaining_amount) m).0).1 in
      subst (IsTaken account a.amount s) same
        (write-IsTaken (remains account a) account a.amount only s (==-not-false count 1 one))

pub withdraw_lot-IsTaken :
    (transfer : WithdrawalTransfer) (a : IncomeAllocation) (s : Store) {u : Unit {0}} {t : Store}
    → withdraw_lot transfer a s ≡ ok (u, t)
    → IsTaken transfer.from_account_id a.amount s t
unfolding withdraw_lot
withdraw_lot-IsTaken transfer a s h =
    after_update_many lot_table (income_remains transfer a) (decrement a.amount) _ s h λ checked h1.
      let account = transfer.from_account_id in
      let count = count_where (income_remains transfer a) s.lots in
      let (one, same) =
        throw_if-ok (not (count == 1)) (concurrent_update (financial_lot a.lot_id)) _ h1 in
      let only = λ (r : LotRow) (m : income_remains transfer a r ≡ true).
        (&&-true (r.id == a.lot_id) (r.account_id == account)
          (&&-true (r.id == a.lot_id && r.account_id == account)
            (str_eq r.currency transfer.currency)
            (&&-true
              (r.id == a.lot_id && r.account_id == account && str_eq r.currency transfer.currency)
              (r.remaining_amount ==ℤ a.assumed_remaining_amount) m).0).0).1 in
      subst (IsTaken account a.amount s) same (
        write-IsTaken (income_remains transfer a) account a.amount only s
          (==-not-false count 1 one))

-- The loop over the allocations.
module _ {A : Type 0} (take : A → Tx Store (Unit {0})) (amount : A → ℤ) (account : ℕ)
    (each : (x : A) (s t : Store) (u : Unit {0})
      → take x s ≡ ok (u, t)
      → IsTaken account (amount x) s t) where
  if_sum : (b : Bool) (x m n : ℤ) → x -ℤ if_ℤ b m -ℤ if_ℤ b n ≡ x -ℤ if_ℤ b (m +ℤ n)
  if_sum true x m n = omega int_laws
  if_sum false x m n = omega int_laws

  none_taken : (b : Bool) (x : ℤ) → x ≡ x -ℤ if_ℤ b (pos 0)
  none_taken true x = omega int_laws
  none_taken false x = omega int_laws

  pub for_each-IsTaken :
      (l : List A) (s : Store) {u : Unit {0}} {t : Store}
      → for_each take l s ≡ ok (u, t)
      → IsTaken account (total_of amount l) s t
  unfolding for_each
  for_each-IsTaken [] s h = record {
    lots = s.lots;
    state = same_state h;
    issued_same = λ a. refl;
    left = λ a. none_taken (account == a) (unspent a s);
  }
  for_each-IsTaken (x ∷ l) s {u} {t} h = after (take x) _ s h λ v s1 e g.
      let first = each x s s1 v e in
      let rest = for_each-IsTaken l s1 g in
      record {
        lots = rest.lots;
        state = ap {A = Store} (λ z. record z { lots = rest.lots }) first.state ∙ rest.state;
        issued_same =
            λ a. rest.issued_same a ∙ ap (issued a) (sym first.state) ∙ first.issued_same a;
        left = λ a.
            rest.left a
            ∙ ap (λ z. unspent a z -ℤ if_ℤ (account == a) (total_of amount l)) (sym first.state)
            ∙ ap (λ z. z -ℤ if_ℤ (account == a) (total_of amount l)) (first.left a)
            ∙ if_sum (account == a) (unspent a s) (amount x) (total_of amount l);
      }

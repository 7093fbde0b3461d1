-- ===== src/Ledger/Conserved.antt =====
-- The books of the ledger, account by account.
use ts_graphql_reference.Base.{
  ℕ, ◌≡◌, refl, ap, Bool, true, false, List, [], ◌∷◌, ◌++◌, Bool-cases, inl, inr, ◌==◌, ==→eq,
  arith,
}
use ts_graphql_reference.Int.{ℤ, pos, ◌+ℤ◌, ◌-ℤ◌, int_laws, total_of}
use ts_graphql_reference.Point.Tables.{update_where, count_where}
use ts_graphql_reference.Store.{Store, LotRow, TransferRow, TransferAllocationRow}
use ts_graphql_reference.Ledger.Writes.{decrement}

-- What counts for one account.
abbrev pub if_ℤ : Bool → ℤ → ℤ
if_ℤ true n = n
if_ℤ false n = pos 0

module _ (account : ℕ) where
  abbrev pub issued_row : LotRow → ℤ
  issued_row r = if_ℤ (r.account_id == account) r.original_amount

  abbrev pub unspent_row : LotRow → ℤ
  unspent_row r = if_ℤ (r.account_id == account) r.remaining_amount

  abbrev pub allocated_row : TransferAllocationRow → ℤ
  allocated_row r = if_ℤ (r.from_account_id == account) r.amount

  abbrev pub transferred_row : TransferRow → ℤ
  transferred_row r = if_ℤ (r.from_account_id == account) r.amount

  -- What the lots of the account were issued with, and what is left of it; what the allocations and
  -- the transfers have taken from the account.
  abbrev pub issued : Store → ℤ
  issued s = total_of issued_row s.lots

  abbrev pub unspent : Store → ℤ
  unspent s = total_of unspent_row s.lots

  abbrev pub allocated : Store → ℤ
  allocated s = total_of allocated_row s.transfer_allocations

  abbrev pub transferred : Store → ℤ
  transferred s = total_of transferred_row s.transfers

-- The books balance: in every account, what was issued is what is left and what was allocated, and
-- the allocations are what the transfers have moved out.
pub record IsConserved (s : Store) : Type 0 where
  pub accounted : (a : ℕ) → issued a s ≡ unspent a s +ℤ allocated a s
  pub moved : (a : ℕ) → allocated a s ≡ transferred a s

pub total-append {ℓ} :
    {A : Type ℓ} (f : A → ℤ) (xs ys : List A)
    → total_of f (xs ++ ys) ≡ total_of f xs +ℤ total_of f ys
total-append f [] ys = omega int_laws
total-append f (x ∷ xs) ys = omega (int_laws, total-append f xs ys)

-- The write of one lot, by a guard that holds only of lots of the account.
module _ (matches : LotRow → Bool) (account : ℕ) (n : ℤ)
    (only : (r : LotRow) → matches r ≡ true → r.account_id == account ≡ true) where
  unmatched :
      (rows : List LotRow)
      → count_where matches rows ≡ 0
      → update_where matches (decrement n) rows ≡ rows
  unfolding count_where update_where
  unmatched [] h = refl
  unmatched (r ∷ rows) h = elim (Bool-cases (matches r)) [
    | inl e ↦ absurd (omega (arith, rw e at h))
    | inr e ↦ rw e (ap (λ l. r ∷ l) (unmatched rows (rw e at h)))
  ]

  pub issued-update :
      (a : ℕ) (rows : List LotRow)
      → total_of (issued_row a) (update_where matches (decrement n) rows)
        ≡ total_of (issued_row a) rows
  unfolding update_where
  issued-update a [] = refl
  issued-update a (r ∷ rows) = elim (Bool-cases (matches r)) [
    | inl e ↦ rw e (ap (λ x. issued_row a r +ℤ x) (issued-update a rows))
    | inr e ↦ rw e (ap (λ x. issued_row a r +ℤ x) (issued-update a rows))
  ]

  taken_row :
      (a : ℕ) (r : LotRow) (rest : ℤ)
      → r.account_id == account ≡ true
      → unspent_row a (decrement n r) +ℤ rest ≡ (unspent_row a r +ℤ rest) -ℤ if_ℤ (account == a) n
  taken_row a r rest own = rw (==→eq r.account_id account own) (by_account (account == a))
    where
      by_account :
          (b : Bool)
          → if_ℤ b (r.remaining_amount -ℤ n) +ℤ rest
            ≡ (if_ℤ b r.remaining_amount +ℤ rest) -ℤ if_ℤ b n
      by_account true = omega int_laws
      by_account false = omega int_laws

  pub unspent-update :
      (a : ℕ) (rows : List LotRow)
      → count_where matches rows ≡ 1
      → total_of (unspent_row a) (update_where matches (decrement n) rows)
        ≡ total_of (unspent_row a) rows -ℤ if_ℤ (account == a) n
  unfolding count_where update_where
  unspent-update a [] h = absurd (omega (arith, h))
  unspent-update a (r ∷ rows) h = elim (Bool-cases (matches r)) [
    | inl e ↦
        let none_more : count_where matches rows ≡ 0 = omega (arith, rw e at h) in
        rw (e, unmatched rows none_more) (taken_row a r (total_of (unspent_row a) rows) (only r e))
    | inr e ↦ let ih = unspent-update a rows (rw e at h) in rw e (omega (int_laws, ih))
  ]

-- ===== src/Books/Reads.antt =====
-- The books through what the use-cases read.
use ts_graphql_reference.Base.{
  ℕ, ◌≡◌, ◌∙◌, String, ◌==◌, Option, none, some, List, [], ◌∷◌, inl, inr,
}
use ts_graphql_reference.Failure.{ok, Result-cases}
use ts_graphql_reference.Tx.Keeps.{Keeps, Keeps-read, Keeps-pure, Keeps-bind}
use ts_graphql_reference.Store.{Store, TransferRow, TransferAllocationRow}
use ts_graphql_reference.Store.Tables.{lot_table, transfer_allocation_table}
use ts_graphql_reference.Store.Client.{find_unique_or_throw, find_many}
use ts_graphql_reference.Store.Client.Calls.{find_unique_or_throw-ok, same_state}
use ts_graphql_reference.Books.{reads}
use ts_graphql_reference.Ledger.Loads.{
  find_holder_id, available_account, load_available_point_world, load_point_charge_world,
  load_available_income_world, load_point_charge_ledger_result,
  load_commission_settlement_ledger_result, find_account_id, load_commission_settlement_accounts,
  transfer_of, load_commission_settlement_funding,
}
use ts_graphql_reference.Ledger.Sources.{
  FundedAllocation, lot_before, join_lots, allocations_of, load_allocations,
  load_income_withdrawal_sources,
}
use ts_graphql_reference.Commerce.{
  find_payment, find_commission_checkout_lock_targets, load_commission_checkout_payment_snapshot,
  load_commission_checkout_terms, load_commission_checkout_slot,
  load_commission_settlement_contract, load_commission_settlement_order_snapshot,
}

join_lots-quiet :
    (rows : List TransferAllocationRow) (s : Store) {l : List FundedAllocation} {t : Store}
    → join_lots rows s ≡ ok (l, t)
    → s ≡ t
unfolding join_lots
join_lots-quiet [] s e = same_state e
join_lots-quiet (a ∷ rows) s {l} {t} e =
    elim (Result-cases (find_unique_or_throw lot_table (λ x. x.id == a.lot_id) s)) [
      | inr (x, found) ↦ cc (rw (found, join_lots) at e)
      | inl ((lot, u), found) ↦
          let quiet = (find_unique_or_throw-ok lot_table _ s found).1 in
          elim (Result-cases (join_lots rows u)) [
            | inr (x, rest) ↦ cc (rw (found, rest, join_lots) at e)
            | inl ((l2, v), rest) ↦
                let last : ok ((a, lot) ∷ l2, v) ≡ ok (l, t) = rw (found, rest) at e in
                quiet ∙ join_lots-quiet rows u rest ∙ same_state last
          ]
    ]

module _ {P : Store → Type 0} where
  pub Keeps-find_holder_id : (namespace key : String) → Keeps P (find_holder_id namespace key)
  unfolding find_holder_id
  Keeps-find_holder_id namespace key = search reads depth 12

  Keeps-available_account :
      (holder : ℕ) (currency : String) → Keeps P (available_account holder currency)
  unfolding available_account
  Keeps-available_account holder currency = search reads depth 12

  pub Keeps-load_available_point_world : (h : ℕ) → Keeps P (load_available_point_world h)
  unfolding load_available_point_world
  Keeps-load_available_point_world h = search (reads, Keeps-available_account) depth 12

  pub Keeps-load_point_charge_world : (h : ℕ) → Keeps P (load_point_charge_world h)
  unfolding load_point_charge_world
  Keeps-load_point_charge_world h = search (reads, Keeps-available_account) depth 12

  pub Keeps-load_available_income_world : (h : ℕ) → Keeps P (load_available_income_world h)
  unfolding load_available_income_world
  Keeps-load_available_income_world h = search (reads, Keeps-available_account) depth 12

  pub Keeps-load_point_charge_ledger_result :
      (operation : String) → Keeps P (load_point_charge_ledger_result operation)
  unfolding load_point_charge_ledger_result
  Keeps-load_point_charge_ledger_result operation = search reads depth 12

  pub Keeps-load_commission_settlement_ledger_result :
      (operation : String) → Keeps P (load_commission_settlement_ledger_result operation)
  unfolding load_commission_settlement_ledger_result
  Keeps-load_commission_settlement_ledger_result operation = search reads depth 12

  Keeps-find_account_id :
      (holder : ℕ) (currency purpose : String) → Keeps P (find_account_id holder currency purpose)
  unfolding find_account_id
  Keeps-find_account_id holder currency purpose = search reads depth 12

  pub Keeps-load_commission_settlement_accounts :
      (worker : ℕ) → Keeps P (load_commission_settlement_accounts worker)
  unfolding load_commission_settlement_accounts
  Keeps-load_commission_settlement_accounts worker =
      search (reads, Keeps-find_holder_id, Keeps-find_account_id) depth 40 fits 2000

  pub Keeps-load_commission_settlement_funding :
      (reservation : ℕ) → Keeps P (load_commission_settlement_funding reservation)
  unfolding load_commission_settlement_funding transfer_of
  Keeps-load_commission_settlement_funding reservation = search reads depth 40 fits 2000

  Keeps-find_payment : (i : ℕ) → Keeps P (find_payment i)
  unfolding find_payment
  Keeps-find_payment i = search reads depth 40 fits 2000

  pub Keeps-find_commission_checkout_lock_targets :
      (i : ℕ) → Keeps P (find_commission_checkout_lock_targets i)
  unfolding find_commission_checkout_lock_targets
  Keeps-find_commission_checkout_lock_targets i = search (reads, Keeps-find_payment) depth 12

  pub Keeps-load_commission_checkout_payment_snapshot :
      (i : ℕ) → Keeps P (load_commission_checkout_payment_snapshot i)
  unfolding load_commission_checkout_payment_snapshot
  Keeps-load_commission_checkout_payment_snapshot i = search (reads, Keeps-find_payment) depth 12

  pub Keeps-load_commission_checkout_terms : (i : ℕ) → Keeps P (load_commission_checkout_terms i)
  unfolding load_commission_checkout_terms
  Keeps-load_commission_checkout_terms i = search reads depth 12

  pub Keeps-load_commission_checkout_slot : (i : ℕ) → Keeps P (load_commission_checkout_slot i)
  unfolding load_commission_checkout_slot
  Keeps-load_commission_checkout_slot i = search reads depth 12

  pub Keeps-load_commission_settlement_contract :
      (i : ℕ) → Keeps P (load_commission_settlement_contract i)
  unfolding load_commission_settlement_contract
  Keeps-load_commission_settlement_contract i = search reads depth 12

  pub Keeps-load_commission_settlement_order_snapshot :
      (i : ℕ) → Keeps P (load_commission_settlement_order_snapshot i)
  unfolding load_commission_settlement_order_snapshot
  Keeps-load_commission_settlement_order_snapshot i = search reads depth 40 fits 2000

  Keeps-join_lots : (rows : List TransferAllocationRow) → Keeps P (join_lots rows)
  Keeps-join_lots rows = Keeps-read _ (λ s t a e. join_lots-quiet rows s e)

  Keeps-allocations_of : (transfer : Option TransferRow) → Keeps P (allocations_of transfer)
  unfolding allocations_of
  Keeps-allocations_of none = Keeps-pure []
  Keeps-allocations_of (some transfer) =
      Keeps-bind
        (find_many transfer_allocation_table (λ a. a.transfer_id == transfer.id) lot_before)
        join_lots (search reads) λ rows q. Keeps-join_lots rows

  pub Keeps-load_income_withdrawal_sources :
      (reservation : ℕ) → Keeps P (load_income_withdrawal_sources reservation)
  unfolding load_income_withdrawal_sources load_allocations transfer_of
  Keeps-load_income_withdrawal_sources reservation = search (reads, Keeps-allocations_of) depth 12

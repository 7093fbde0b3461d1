-- ===== src/Books/Settlement.antt =====
-- The books through a settlement: the new income lot is whole.
use ts_graphql_reference.Base.{ℕ, ◌≡◌, refl, subst, Option, none, some, String, Bool, true}
use ts_graphql_reference.Tx.Keeps.{Keeps}
use ts_graphql_reference.Flow.Repo.{StoredCommand, FinancialCommandRequest}
use ts_graphql_reference.Store.{Store}
use ts_graphql_reference.Store.Tables.{lot_table}
use ts_graphql_reference.Store.Client.Calls.{create-ok}
use ts_graphql_reference.Settlement.{
  StoredCommissionSettlementCommand, SettlementStart, proceed, replay, alias,
}
use ts_graphql_reference.Settlement.Data.{SwapRequest, CommissionSettlementInput}
use ts_graphql_reference.Settlement.Service.{
  load_result, completed_contract, save_alias, post_settlement, continue_settlement,
  execute_settlement, locked_worker_holder,
}
use ts_graphql_reference.Runtime.{Runtime}
use ts_graphql_reference.Ledger.Conserved.{IsConserved}
use ts_graphql_reference.Ledger.Writes.{
  income_lot_row, create_income_lot, apply_commission_income_settlement,
  assert_commission_settlement_shape,
}
use ts_graphql_reference.Books.{
  reads, new_lot-IsConserved, Keeps-create, Keeps-create_many, Keeps-update_many,
}
use ts_graphql_reference.Books.Reads.{
  Keeps-find_holder_id, Keeps-load_commission_settlement_contract,
  Keeps-load_commission_settlement_order_snapshot, Keeps-load_commission_settlement_funding,
  Keeps-load_commission_settlement_accounts, Keeps-load_commission_settlement_ledger_result,
}
use ts_graphql_reference.Books.Writes.{
  writes, swap_action_table-IsAside, swap_leg_table-IsAside, reservation_table-IsAside,
}

Keeps-load_result :
    (identity : StoredCommissionSettlementCommand) (contract : ℕ) (replayed : Bool)
    → Keeps IsConserved (load_result identity contract replayed)
unfolding load_result
Keeps-load_result identity contract replayed =
    search
      (
        reads, Keeps-load_commission_settlement_contract,
        Keeps-load_commission_settlement_ledger_result,
      )
      depth 12

Keeps-completed_contract :
    (requested : FinancialCommandRequest) (existing : Option StoredCommand)
    → Keeps IsConserved (completed_contract requested existing)
unfolding completed_contract
Keeps-completed_contract requested none = search writes
Keeps-completed_contract requested (some existing) = search reads

module _ (runtime : Runtime) where
  Keeps-create_income_lot :
      (input : SwapRequest) (operation action : String)
      → Keeps IsConserved (create_income_lot runtime input operation action)
  Keeps-create_income_lot input operation action = record {
    at = λ {s} e c.
        let made = create-ok lot_table (income_lot_row runtime input operation action s.now) s e in
        subst IsConserved made.state (
          new_lot-IsConserved _ s
            (subst (λ r. r.original_amount ≡ r.remaining_amount) made.row refl) c);
  }

  Keeps-apply_commission_income_settlement :
      (input : SwapRequest) (operation : String)
      → Keeps IsConserved (apply_commission_income_settlement runtime input operation)
  unfolding apply_commission_income_settlement
  Keeps-apply_commission_income_settlement input operation =
      search
        (
          reads, Keeps-create, Keeps-create_many, Keeps-update_many, Keeps-create_income_lot,
          swap_action_table-IsAside, swap_leg_table-IsAside, reservation_table-IsAside,
        )
        depth 20 fits 2000

  Keeps-save_alias :
      (input : CommissionSettlementInput) (identity : StoredCommissionSettlementCommand)
      → Keeps IsConserved (save_alias runtime input identity)
  unfolding save_alias
  Keeps-save_alias input identity = search (writes, Keeps-load_result) depth 20 fits 2000

  Keeps-post_settlement :
      (input : CommissionSettlementInput) (holder : ℕ)
      → Keeps IsConserved (post_settlement runtime input holder)
  unfolding post_settlement assert_commission_settlement_shape
  Keeps-post_settlement input holder =
      search
        (
          writes, Keeps-find_holder_id, Keeps-load_commission_settlement_contract,
          Keeps-load_commission_settlement_order_snapshot, Keeps-load_commission_settlement_funding,
          Keeps-load_commission_settlement_accounts, Keeps-apply_commission_income_settlement,
        )
        depth 40 fits 4000

  Keeps-continue_settlement :
      (input : CommissionSettlementInput) (holder : ℕ) (start : SettlementStart)
      → Keeps IsConserved (continue_settlement runtime input holder start)
  unfolding continue_settlement
  Keeps-continue_settlement input holder (replay identity) =
      Keeps-load_result identity input.contract_id true
  Keeps-continue_settlement input holder (alias identity) = Keeps-save_alias input identity
  Keeps-continue_settlement input holder proceed = Keeps-post_settlement input holder

  pub Keeps-execute_settlement :
      (input : CommissionSettlementInput) (holder : ℕ)
      → Keeps IsConserved (execute_settlement runtime input holder)
  unfolding execute_settlement
  Keeps-execute_settlement input holder =
      search (writes, Keeps-completed_contract, Keeps-continue_settlement) depth 20 fits 2000

  pub Keeps-locked_worker_holder :
      {P : Store → Type 0} (contract : ℕ) → Keeps P (locked_worker_holder runtime contract)
  unfolding locked_worker_holder
  Keeps-locked_worker_holder contract =
      search (reads, Keeps-find_holder_id, Keeps-load_commission_settlement_contract) depth 12

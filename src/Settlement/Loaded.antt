-- ===== src/Settlement/Loaded.antt =====
-- What the result of a settlement that is stored is loaded from.
use ts_graphql_reference.Base.{
  ℕ, ◌≡◌, refl, ap, ◌∙◌, Bool, true, false, some, String, ◌==◌, str_eq, str_ne, Option-cases, inl,
  inr,
}
use ts_graphql_reference.Failure.{Error, ok, throw_if}
use ts_graphql_reference.Store.{Store, ContractRow, SwapActionRow, LotRow}
use ts_graphql_reference.Store.Tables.{swap_action_table, lot_table}
use ts_graphql_reference.Store.Client.{find_first, find_unique, find_unique_or_throw}
use ts_graphql_reference.Store.Client.Calls.{same_value, same_state}
use ts_graphql_reference.Store.Client.Steps.{after, after_lift, after_read, after_find}
use ts_graphql_reference.Ledger.Loads.{
  sourced_by, SettlementLedgerResult, load_commission_settlement_ledger_result,
}
use ts_graphql_reference.Commerce.{load_commission_settlement_contract}
use ts_graphql_reference.PointCharge.Service.{text_or_empty}
use ts_graphql_reference.Settlement.{
  StoredCommissionSettlementCommand, assert_commission_settlement_replay_flow,
}
use ts_graphql_reference.Settlement.Data.{SettlementContract}
use ts_graphql_reference.Settlement.Service.{CommissionSettlementResult, load_result}

abbrev pub settlement_result :
    StoredCommissionSettlementCommand
    → ℕ
    → SwapActionRow
    → LotRow
    → Bool
    → CommissionSettlementResult
settlement_result identity contract_id action lot replayed = record {
  contract_id = contract_id;
  reservation_id = action.reservation_id;
  income_lot_id = lot.id;
  reference_id = identity.reference_id;
  command_id = identity.command_id;
  operation_id = text_or_empty identity.operation_id;
  replayed = replayed;
}

-- The rows that a completed settlement has.
pub record HasRows (flow operation : String) (contract_id : ℕ) (s : Store) : Type 0 where
  pub contract : ContractRow
  pub contract_found : find_first (λ c. c.id == contract_id) s.contracts ≡ some contract
  pub own_flow : str_ne flow contract.flow_id ≡ false
  pub action : SwapActionRow
  pub action_found : find_first (λ a. str_eq a.operation_id operation) s.swap_actions ≡ some action
  pub lot : LotRow
  pub lot_found : find_first (sourced_by operation) s.lots ≡ some lot

abbrev pub settlement_contract : ContractRow → SettlementContract
settlement_contract c = record {
  id = c.id;
  order_id = c.order_id;
  flow_id = c.flow_id;
  worker_id = c.worker_id;
}

pub load_commission_settlement_contract-ok :
    (contract_id : ℕ) (s : Store) {c : SettlementContract} {t : Store}
    → load_commission_settlement_contract contract_id s ≡ ok (c, t)
    → ((row : ContractRow) × (find_first (λ r. r.id == contract_id) s.contracts ≡ some row)
        × (settlement_contract row ≡ c))
      × (s ≡ t)
unfolding load_commission_settlement_contract find_unique
load_commission_settlement_contract-ok contract_id s h =
    elim (Option-cases (find_first (λ c. c.id == contract_id) s.contracts)) [
      | inl e ↦ cc (rw e at h)
      | inr (row, e) ↦ let k = rw e at h in ((row, e, same_value k), same_state k)
    ]

thrown : (b : Bool) (e : Error) {u : Unit {0}} → throw_if b e ≡ ok u → b ≡ false
thrown true e h = cc h
thrown false e h = refl

module _ (identity : StoredCommissionSettlementCommand) (contract_id : ℕ) where
  abbrev pub OwnRows : Store → Type 0
  OwnRows = HasRows identity.flow_id (text_or_empty identity.operation_db_id) contract_id

  -- A result that is loaded has its rows, and loading changes nothing.
  pub load_result-ok :
      (replayed : Bool) (s : Store) {r : CommissionSettlementResult} {t : Store}
      → load_result identity contract_id replayed s ≡ ok (r, t)
      → (s ≡ t)
        × (rows : OwnRows s) × (settlement_result identity contract_id rows.action rows.lot replayed
            ≡ r)
  unfolding load_result load_commission_settlement_ledger_result
      assert_commission_settlement_replay_flow
  load_result-ok replayed s {r} {t} h =
      after_read (load_commission_settlement_contract contract_id) _ s
        (λ a u e. (load_commission_settlement_contract-ok contract_id s e).1) h
        λ contract e1 h1.
          let (row, found, q) = (load_commission_settlement_contract-ok contract_id s e1).0 in
          after_lift (assert_commission_settlement_replay_flow identity.flow_id contract.flow_id) _
            s h1
            λ u own h2.
              let operation = text_or_empty identity.operation_db_id in
              after (load_commission_settlement_ledger_result operation) _ s h2 λ stored v e3 h3.
                after_find swap_action_table (λ a. str_eq a.operation_id operation) _ s e3
                  λ action action_found e4.
                    after_find lot_table (sourced_by operation) _ s e4 λ lot lot_found e5.
                      let k = same_value e5 in
                      (
                        same_state e5 ∙ same_state h3,
                        record {
                          contract = row;
                          contract_found = found;
                          own_flow =
                              ap (λ (c : SettlementContract). str_ne identity.flow_id c.flow_id) q
                              ∙ thrown (str_ne identity.flow_id contract.flow_id) _ own;
                          action = action;
                          action_found = action_found;
                          lot = lot;
                          lot_found = lot_found;
                        },
                        ap
                              (λ (x : SettlementLedgerResult). record {
                                contract_id = contract_id;
                                reservation_id = x.reservation_id;
                                income_lot_id = x.income_lot_id;
                                reference_id = identity.reference_id;
                                command_id = identity.command_id;
                                operation_id = text_or_empty identity.operation_id;
                                replayed = replayed;
                              })
                              k
                            ∙ same_value h3,
                      )

  -- With its rows a result is loaded.
  pub load_result-run :
      (replayed : Bool) (s : Store) (rows : OwnRows s)
      → load_result identity contract_id replayed s
        ≡ ok (settlement_result identity contract_id rows.action rows.lot replayed, s)
  unfolding load_result load_commission_settlement_ledger_result
      assert_commission_settlement_replay_flow load_commission_settlement_contract find_unique
      find_unique_or_throw
  load_result-run replayed s rows =
      rw (rows.contract_found, rows.own_flow, rows.action_found, rows.lot_found) refl

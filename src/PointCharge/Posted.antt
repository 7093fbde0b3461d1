-- ===== src/PointCharge/Posted.antt =====
-- What a charge that is no replay has written.
use ts_graphql_reference.Base.{
  ℕ, suc, ◌≡◌, sym, ap, ◌∙◌, subst, Bool, false, none, some, [], ◌∷◌, ◌++◌, String, Option-cases,
  inl, inr, str_eq,
}
use ts_graphql_reference.Failure.{ok}
use ts_graphql_reference.Tx.{>>=-ok}
use ts_graphql_reference.Flow.{
  FinancialCommandKind, point_charge, format_transaction_reference, format_command_id,
  format_operation_id,
}
use ts_graphql_reference.Runtime.{Runtime}
use ts_graphql_reference.Point.Tables.{update_where}
use ts_graphql_reference.Store.{Store, FlowRow, CommandRow, OperationRow, LotRow, AccountRow}
use ts_graphql_reference.Store.Tables.{command_table, operation_table, lot_table}
use ts_graphql_reference.Store.Client.{find_first, find_unique, find_unique_or_throw}
use ts_graphql_reference.Store.Client.Steps.{
  after, after_read, after_lift, after_create, after_update,
}
use ts_graphql_reference.Store.Client.Calls.{same_value, same_state, find_unique_or_throw-ok}
use ts_graphql_reference.Flow.Repo.{
  command_row, operation_row, start_command, create_operation, completed_by, complete_command,
  assert_command_effect_completeness,
}
use ts_graphql_reference.Flow.Commands.{after_flow, after_command, after_constraints}
use ts_graphql_reference.Ledger.Loads.{
  is_account, available_account, load_point_charge_world, load_point_charge_ledger_result,
  sourced_by, PointChargeLedgerResult,
}
use ts_graphql_reference.Ledger.Writes.{charge_lot, apply_point_charge_lot}
use ts_graphql_reference.PointCharge.{
  PointChargeInput, PointChargeWorld, PointChargePlan, plan_point_charge,
}
use ts_graphql_reference.PointCharge.Service.{
  PointChargeResult, CompletedIdentity, charge_request, load_result, hash_payload, post_charge,
}

-- The result of a completed charge, whose lot is there.
abbrev pub charge_result : CompletedIdentity → LotRow → Bool → PointChargeResult
charge_result identity lot replayed = record {
  lot_id = lot.id;
  amount = lot.original_amount;
  reference_id = identity.reference_id;
  command_id = identity.command_id;
  operation_id = identity.operation_id;
  replayed = replayed;
}

-- The lot that a result is loaded from.
pub record IsLoaded (identity : CompletedIdentity) (replayed : Bool) (s : Store)
    (r : PointChargeResult) (t : Store) : Type 0 where
  pub lot : LotRow
  pub found : find_first (sourced_by identity.operation_db_id) s.lots ≡ some lot
  pub result : charge_result identity lot replayed ≡ r
  pub same : s ≡ t

pub load_result-ok :
    (identity : CompletedIdentity) (replayed : Bool) (s : Store) {r : PointChargeResult} {t : Store}
    → load_result identity replayed s ≡ ok (r, t)
    → IsLoaded identity replayed s r t
unfolding load_result load_point_charge_ledger_result
load_result-ok identity replayed s h =
    let (stored, s1, e1, h1) =
      >>=-ok (load_point_charge_ledger_result identity.operation_db_id) _ s h in
    let (lot, s2, e2, h2) =
      >>=-ok (find_unique_or_throw lot_table (sourced_by identity.operation_db_id)) _ s e1 in
    let (found, q) = find_unique_or_throw-ok lot_table _ s e2 in
    let k : record { lot_id = lot.id; amount = lot.original_amount } ≡ stored = same_value h2 in
    record {
      lot = lot;
      found = found;
      result =
          ap
            (λ (x : PointChargeLedgerResult). record {
              lot_id = x.lot_id;
              amount = x.amount;
              reference_id = identity.reference_id;
              command_id = identity.command_id;
              operation_id = identity.operation_id;
              replayed = replayed;
            })
            k
          ∙ same_value h1;
      same = q ∙ same_state h2 ∙ same_state h1;
    }

-- The store after a charge: a flow that allows charges, its command, which is completed, its
-- operation, and its lot.
abbrev pub charged_store : Store → FlowRow → CommandRow → OperationRow → LotRow → Store
charged_store s flow started operation lot = record s {
  flows = s.flows ++ flow ∷ [];
  policies =
      s.policies ++ record { flow_id = flow.id; command_kind = FinancialCommandKind.charge } ∷ [];
  commands =
      update_where (λ r. str_eq r.id started.id)
        (λ r. record r { result_operation_id = some operation.id }) (s.commands ++ started ∷ []);
  operations = s.operations ++ operation ∷ [];
  lots = s.lots ++ lot ∷ [];
  next_id = suc (suc (suc (suc (suc s.next_id))));
}

abbrev pub new_identity : FlowRow → CommandRow → OperationRow → CompletedIdentity
new_identity flow started operation = record {
  operation_db_id = operation.id;
  reference_id = format_transaction_reference flow.kind flow.id;
  command_id = format_command_id started.kind started.id;
  operation_id = format_operation_id operation.kind operation.id;
}

-- The account of the holder, the plan for it, the rows that the plan asks for, and the store and the
-- result that they make.
pub record IsPosted (runtime : Runtime) (input : PointChargeInput) (holder : ℕ) (s : Store)
    (r : PointChargeResult) (t : Store) : Type 0 where
  pub account : AccountRow
  pub account_found : find_first (is_account holder "POINT" "AVAILABLE") s.accounts ≡ some account
  pub plan : PointChargePlan
  pub planned :
      plan_point_charge (record { holder_id = holder; available_account_id = account.id }) input
      ≡ ok plan
  pub flow : FlowRow
  pub flow_row : record { id = runtime.uuid s.next_id; kind = point_charge } ≡ flow
  pub started : CommandRow
  pub started_row :
      command_row runtime
        (charge_request plan.command_request (hash_payload runtime input) flow.id)
        none
        s.now
        (suc (suc s.next_id))
      ≡ started
  pub started_fresh : find_first (λ x. command_table.clashes x started) s.commands ≡ none
  pub operation : OperationRow
  pub operation_is :
      operation_row runtime flow.id FinancialCommandKind.charge started.id
        (suc (suc (suc s.next_id)))
      ≡ operation
  pub operation_fresh : find_first (λ x. operation_table.clashes x operation) s.operations ≡ none
  pub lot : LotRow
  pub lot_row :
      charge_lot flow.id operation.id plan.lot_request s.now (suc (suc (suc (suc s.next_id)))) ≡ lot
  pub lot_fresh : find_first (λ x. lot_table.clashes x lot) s.lots ≡ none
  pub loaded :
      IsLoaded
        (new_identity flow started operation)
        false
        (charged_store s flow started operation lot)
        r
        t

available_account-ok :
    (holder : ℕ) (currency : String) (s : Store) {r : AccountRow} {t : Store}
    → available_account holder currency s ≡ ok (r, t)
    → (find_first (is_account holder currency "AVAILABLE") s.accounts ≡ some r) × (s ≡ t)
unfolding available_account find_unique
available_account-ok holder currency s h =
    elim (Option-cases (find_first (is_account holder currency "AVAILABLE") s.accounts)) [
      | inl e ↦ cc (rw e at h)
      | inr (x, e) ↦ let k = rw e at h in (e ∙ ap some (same_value k), same_state k)
    ]

-- The account of a world that was loaded.
pub load_point_charge_world-ok :
    (holder : ℕ) (s : Store) {w : PointChargeWorld} {t : Store}
    → load_point_charge_world holder s ≡ ok (w, t)
    → ((account : AccountRow) × (find_first (is_account holder "POINT" "AVAILABLE") s.accounts
          ≡ some account)
        × (record { holder_id = holder; available_account_id = account.id } ≡ w))
      × (s ≡ t)
unfolding load_point_charge_world
load_point_charge_world-ok holder s h =
    after (available_account holder "POINT") _ s h λ account u e g.
      let (found, q) = available_account-ok holder "POINT" s e in
      ((account, found, same_value g), q ∙ same_state g)

pub post_charge-IsPosted :
    (runtime : Runtime) (input : PointChargeInput) (holder : ℕ) (s : Store) {r : PointChargeResult}
    {t : Store}
    → post_charge runtime input holder s ≡ ok (r, t)
    → IsPosted runtime input holder s r t
unfolding post_charge start_command create_operation apply_point_charge_lot complete_command
    assert_command_effect_completeness
post_charge-IsPosted runtime input holder s {r} {t} h =
    after_read (load_point_charge_world holder) _ s
      (λ a u e. (load_point_charge_world-ok holder s e).1) h
      λ world e1 h1.
        let (account, account_found, w) = (load_point_charge_world-ok holder s e1).0 in
        after_lift (plan_point_charge world input) _ s h1 λ plan planned h2.
          after_flow runtime point_charge FinancialCommandKind.charge _ s h2 λ flow flow_row h3.
            after_command runtime
              (charge_request plan.command_request (hash_payload runtime input) flow.id) none _ _ h3
              λ started c3 h4.
                after_create operation_table
                  (operation_row runtime flow.id FinancialCommandKind.charge started.id) _ _ h4
                  λ operation c4 h5.
                    after_create lot_table (charge_lot flow.id operation.id plan.lot_request s.now)
                      _ _ h5
                      λ lot c5 h6.
                        after_update command_table (λ r. str_eq r.id started.id)
                          (completed_by runtime operation.id) _ _ h6
                          λ done c6 h7. after_constraints runtime _ _ _ h7 λ h8.
                            let loaded =
                              load_result-ok (new_identity flow started operation) false _ h8 in
                            record {
                              account = account;
                              account_found = account_found;
                              plan = plan;
                              planned =
                                  subst (λ x. plan_point_charge x input ≡ ok plan) (sym w) planned;
                              flow = flow;
                              flow_row = flow_row;
                              started = started;
                              started_row = c3.row;
                              started_fresh = c3.fresh;
                              operation = operation;
                              operation_is = c4.row;
                              operation_fresh = c4.fresh;
                              lot = lot;
                              lot_row = c5.row;
                              lot_fresh = c5.fresh;
                              loaded = loaded;
                            }

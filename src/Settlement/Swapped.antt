-- ===== src/Settlement/Swapped.antt =====
-- What the swap of a settlement leaves of the tables.
use ts_graphql_reference.Base.{
  second_true, ℕ, ◌≡◌, sym, ap, ◌∙◌, subst, none, some, [], ◌∷◌, ◌++◌, map, String, str_eq,
  str_eq_refl, not, ◌==◌, ◌||◌,
}
use ts_graphql_reference.Failure.{ok}
use ts_graphql_reference.Runtime.{Runtime}
use ts_graphql_reference.Point.Tables.{count_where}
use ts_graphql_reference.Store.{Store, SwapActionRow, LotRow}
use ts_graphql_reference.Store.Tables.{
  swap_action_table, swap_leg_table, lot_table, reservation_table, both_text,
}
use ts_graphql_reference.Store.Client.{find_first, added}
use ts_graphql_reference.Store.Client.Calls.{
  same_value, same_state, find_first-append, find_first-none, added_all, create-ok,
}
use ts_graphql_reference.Store.Client.Steps.{
  after, after_create, after_create_many, after_update_many, after_throw_if, changed,
}
use ts_graphql_reference.Ledger.Loads.{sourced_by}
use ts_graphql_reference.Ledger.Writes.{
  swap_action_row, swap_leg_row, income_lot_row, create_income_lot, is_held, as_settled,
  apply_commission_income_settlement,
}
use ts_graphql_reference.Settlement.Data.{SwapRequest}

-- What a swap leaves of the tables that a result is loaded from.
pub record IsSwapped (input : SwapRequest) (operation : String) (s : Store) (action : SwapActionRow)
    (lot : LotRow) (t : Store) : Type 0 where
  pub commands : t.commands ≡ s.commands
  pub operations : t.operations ≡ s.operations
  pub contracts : t.contracts ≡ s.contracts
  pub reservation : action.reservation_id ≡ input.reservation_id
  pub action_found :
      find_first (λ (a : SwapActionRow). str_eq a.operation_id operation) t.swap_actions
      ≡ some action
  pub lot_found : find_first (sourced_by operation) t.lots ≡ some lot

module _ (runtime : Runtime) where
  action_appended :
      (input : SwapRequest) (operation : String) (s : Store) (i : ℕ) {action : SwapActionRow}
      → swap_action_row runtime input operation i ≡ action
      → find_first (λ x. swap_action_table.clashes x action) s.swap_actions ≡ none
      → find_first
          (λ (a : SwapActionRow). str_eq a.operation_id operation)
          (s.swap_actions ++ action ∷ [])
        ≡ some action
  action_appended input operation s i {action} row fresh =
      let own : action.operation_id ≡ operation =
        ap (λ (a : SwapActionRow). a.operation_id) (sym row) in
      find_first-append (λ (a : SwapActionRow). str_eq a.operation_id operation) s.swap_actions
        action
        (find_first-none (λ (a : SwapActionRow). str_eq a.operation_id operation)
          (λ x. swap_action_table.clashes x action) s.swap_actions
          (λ x e.
            ap (λ b. b || x.reservation_id == action.reservation_id)
              (second_true (str_eq x.id action.id) (str_eq x.operation_id action.operation_id)
                (rw own e)))
          fresh)
        (rw own (str_eq_refl operation))

  lot_appended :
      (input : SwapRequest) (operation action : String) (s : Store) (i : ℕ) {lot : LotRow}
      → income_lot_row runtime input operation action s.now i ≡ lot
      → find_first (λ x. lot_table.clashes x lot) s.lots ≡ none
      → find_first (sourced_by operation) (s.lots ++ lot ∷ []) ≡ some lot
  lot_appended input operation action s i {lot} row fresh =
      let own : lot.source_operation_id ≡ some operation =
        ap (λ (l : LotRow). l.source_operation_id) (sym row) in
      find_first-append (sourced_by operation) s.lots lot
        (find_first-none (sourced_by operation) (λ x. lot_table.clashes x lot) s.lots
          (λ x e.
            ap (λ b. b || both_text x.source_swap_action_id lot.source_swap_action_id)
              (second_true (x.id == lot.id)
                (both_text x.source_operation_id lot.source_operation_id) (rw own e)))
          fresh)
        (rw own (str_eq_refl operation))

  pub apply_commission_income_settlement-IsSwapped :
      (input : SwapRequest) (operation : String) (s : Store) {p : SwapActionRow × LotRow}
      {t : Store}
      → apply_commission_income_settlement runtime input operation s ≡ ok (p, t)
      → IsSwapped input operation s p.0 p.1 t
  unfolding apply_commission_income_settlement
  apply_commission_income_settlement-IsSwapped input operation s {p} {t} h =
      after_create swap_action_table (swap_action_row runtime input operation) _ s h λ action c1 h1.
        after_create_many swap_leg_table
          (map (swap_leg_row runtime input action.id) (input.point_leg ∷ input.income_leg ∷ [])) _ _
          h1
          λ h2.
            let u =
              added_all swap_leg_table
                (map (swap_leg_row runtime input action.id)
                  (input.point_leg ∷ input.income_leg ∷ []))
                (added swap_action_table action s) in
            after (create_income_lot runtime input operation action.id) _ u h2 λ lot v e3 h3.
              let c3 =
                create-ok lot_table (income_lot_row runtime input operation action.id u.now) u e3 in
              after_update_many reservation_table (is_held runtime input) (as_settled runtime) _ v
                h3
                λ checked h4.
                  after_throw_if (not (count_where (is_held runtime input) v.reservations == 1)) _ _
                    _ h4
                    λ held h5.
                      let appended =
                        lot_appended input operation action.id u u.next_id c3.row c3.fresh in
                      let swapped : IsSwapped input operation s action lot (
                          changed reservation_table (is_held runtime input) (as_settled runtime)
                            v) =
                        record {
                          commands = ap (λ (z : Store). z.commands) (sym c3.state);
                          operations = ap (λ (z : Store). z.operations) (sym c3.state);
                          contracts = ap (λ (z : Store). z.contracts) (sym c3.state);
                          reservation = ap (λ (a : SwapActionRow). a.reservation_id) (sym c1.row);
                          action_found =
                              ap
                                (λ (z : Store).
                                  find_first
                                    (λ (a : SwapActionRow). str_eq a.operation_id operation)
                                    z.swap_actions)
                                (sym c3.state)
                              ∙ action_appended input operation s s.next_id c1.row c1.fresh;
                          lot_found =
                              ap (λ (z : Store). find_first (sourced_by operation) z.lots)
                                (sym c3.state)
                              ∙ appended;
                        } in
                      subst (λ (x : SwapActionRow × LotRow). IsSwapped input operation s x.0 x.1 t)
                        (same_value h5)
                        (subst (IsSwapped input operation s action lot) (same_state h5) swapped)

-- ===== src/Ledger/Funds.antt =====
-- What the look-ups of an account's lots return: lots with something left.
use ts_graphql_reference.Base.{
  ℕ, ◌≡◌, subst, Bool, true, List, [], ◌∷◌, map, All, All-map, Bool-cases, inl, inr, ◌&&◌, ◌==◌,
  &&-true, str_eq,
}
use ts_graphql_reference.Int.{pos, int_laws, ltb_ℤ, ltb_ℤ→lt}
use ts_graphql_reference.Tx.{pure}
use ts_graphql_reference.Tx.Keeps.{Returned}
use ts_graphql_reference.Point.Tables.{select_where}
use ts_graphql_reference.Store.{LotRow, AccountRow}
use ts_graphql_reference.Store.Tables.{lot_table}
use ts_graphql_reference.Store.Client.{insert_sorted, sort_by, find_many}
use ts_graphql_reference.Store.Client.Calls.{find_many-ok, same_value}
use ts_graphql_reference.Store.Client.Steps.{after}
use ts_graphql_reference.Ledger.Loads.{
  available_account, has_left, has_income_left, created_first, lot_balance, income_lot,
  AvailablePointWorld, load_available_point_world, load_available_income_world,
}
use ts_graphql_reference.Ledger.Reservation.{HasFunds}
use ts_graphql_reference.Withdrawal.{IncomeWithdrawalWorld}
use ts_graphql_reference.Withdrawal.Allocation.{as_lot}

module _ {R : Type 0} (matches : R → Bool) where
  select_where-All : (rows : List R) → All (λ r. matches r ≡ true) (select_where matches rows)
  unfolding select_where
  select_where-All [] = tt
  select_where-All (r ∷ rows) = elim (Bool-cases (matches r)) [
    | inl e ↦ rw e (e, select_where-All rows)
    | inr e ↦ rw e (select_where-All rows)
  ]

module _ {R : Type 0} (P : R → Type 0) (before : R → R → Bool) where
  All-insert_sorted :
      (r : R) (rows : List R) → P r → All P rows → All P (insert_sorted before r rows)
  unfolding insert_sorted
  All-insert_sorted r [] p h = (p, tt)
  All-insert_sorted r (x ∷ rows) p h = elim (Bool-cases (before r x)) [
    | inl e ↦ rw e (p, h)
    | inr e ↦ rw e (h.0, All-insert_sorted r rows p h.1)
  ]

  All-sort_by : (rows : List R) → All P rows → All P (sort_by before rows)
  unfolding sort_by
  All-sort_by [] h = tt
  All-sort_by (r ∷ rows) h = All-insert_sorted r (sort_by before rows) h.0 (All-sort_by rows h.1)

All-of_map :
    {A B : Type 0} (P : B → Type 0) (f : A → B) (l : List A)
    → All (λ a. P (f a)) l
    → All P (map f l)
All-of_map P f [] h = tt
All-of_map P f (a ∷ l) h = (h.0, All-of_map P f l h.1)

has_left-HasFunds :
    (account : AccountRow) (r : LotRow) → has_left account r ≡ true → HasFunds (lot_balance r)
has_left-HasFunds account r h =
    let left =
      (&&-true (r.account_id == account.id && str_eq r.currency account.currency)
        (ltb_ℤ (pos 0) r.remaining_amount) h).1 in
    omega (int_laws, ltb_ℤ→lt (pos 0) r.remaining_amount left)

pub load_available_point_world-HasFunds :
    (holder : ℕ) (world : AvailablePointWorld)
    → Returned (load_available_point_world holder) world
    → All HasFunds world.lots
unfolding load_available_point_world
load_available_point_world-HasFunds holder world (s, t, e) =
    after (available_account holder "POINT") _ s e λ account u e1 g.
      after (find_many lot_table (has_left account) created_first)
        (λ l. pure (record { account_id = account.id; lots = map lot_balance l })) u g
        λ lots v e2 k.
          let found = (find_many-ok lot_table (has_left account) created_first u e2).0 in
          let all =
            All-sort_by (λ r. has_left account r ≡ true) created_first
              (select_where (has_left account) u.lots)
              (select_where-All (has_left account) u.lots) in
          subst (λ w. All HasFunds w.lots) (same_value k)
            (subst (λ l. All HasFunds (map lot_balance l)) found
              (All-of_map HasFunds lot_balance _
                (All-map (λ r h. has_left-HasFunds account r h) _ all)))

pub load_available_income_world-HasFunds :
    (holder : ℕ) (world : IncomeWithdrawalWorld)
    → Returned (load_available_income_world holder) world
    → All HasFunds (map as_lot world.lots)
unfolding load_available_income_world
load_available_income_world-HasFunds holder world (s, t, e) =
    after (available_account holder "INCOME") _ s e λ account u e1 g.
      after (find_many lot_table (has_income_left account) created_first)
        (λ l. pure (record {
          holder_id = holder;
          available_account_id = account.id;
          lots = map income_lot l;
        }))
        u g
        λ lots v e2 k.
          let found = (find_many-ok lot_table (has_income_left account) created_first u e2).0 in
          let all =
            All-sort_by (λ r. has_income_left account r ≡ true) created_first
              (select_where (has_income_left account) u.lots)
              (select_where-All (has_income_left account) u.lots) in
          let each = λ (r : LotRow) (h : has_income_left account r ≡ true).
            has_left-HasFunds account r
              (&&-true (has_left account r) (str_eq r.currency "INCOME") h).0 in
          subst (λ w. All HasFunds (map as_lot w.lots)) (same_value k)
            (subst (λ l. All HasFunds (map as_lot (map income_lot l))) found
              (All-of_map HasFunds as_lot _
                (All-of_map (λ l. HasFunds (as_lot l)) income_lot _ (All-map each _ all))))

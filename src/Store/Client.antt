-- ===== src/Store/Client.antt =====
-- What a call of the database client documents to do with a table of the store: its look-ups, and
-- its writes, which the unique indexes and the CHECK constraints refuse.
pub mod Calls
pub mod Steps
use ts_graphql_reference.Base.{
  ℕ, suc, Bool, true, false, Option, none, some, List, [], ◌∷◌, ◌++◌, if◌then◌else◌,
}
use ts_graphql_reference.Failure.{
  Result, ok, err, record_not_found, unique_violation, check_violation,
}
use ts_graphql_reference.Tx.{Tx}
use ts_graphql_reference.Point.Tables.{update_where, count_where, all_checked, select_where}
use ts_graphql_reference.Store.{Store}
use ts_graphql_reference.Store.Tables.{Table}

-- The first row that a condition holds of.
unfoldable pub find_first {ℓ} : {R : Type ℓ} → (R → Bool) → List R → Option R
find_first matches [] = none
find_first matches (r ∷ rows) =
    let rest = find_first matches rows in if matches r then some r else rest

-- `orderBy`, the least first.
module _ {R : Type 0} (before : R → R → Bool) where
  unfoldable pub insert_sorted : R → List R → List R
  insert_sorted r [] = r ∷ []
  insert_sorted r (x ∷ rows) =
      let rest = x ∷ insert_sorted r rows in if before r x then r ∷ x ∷ rows else rest

  unfoldable pub sort_by : List R → List R
  unfolding insert_sorted
  sort_by [] = []
  sort_by (r ∷ rows) = insert_sorted r (sort_by rows)

module _ {R : Type 0} (table : Table R) where
  unfoldable pub find_unique : (R → Bool) → Tx Store (Option R)
  unfolding find_first
  find_unique matches s = ok (find_first matches (table.rows s), s)

  unfoldable pub find_unique_or_throw : (R → Bool) → Tx Store R
  unfolding find_first
  find_unique_or_throw matches s = elim (find_first matches (table.rows s)) [
    | none ↦ err record_not_found
    | some r ↦ ok (r, s)
  ]

  -- `findMany` with an order.
  unfoldable pub find_many : (R → Bool) → (R → R → Bool) → Tx Store (List R)
  unfolding sort_by select_where
  find_many matches before s = ok (sort_by before (select_where matches (table.rows s)), s)

  -- The store with one more row.
  abbrev pub added : R → Store → Store
  added r s = table.with_rows (table.rows s ++ r ∷ []) (record s { next_id = suc s.next_id })

  unfoldable pub create : (ℕ → R) → Tx Store R
  unfolding find_first
  create make s =
      let r = make s.next_id in
      elim (find_first (λ x. table.clashes x r) (table.rows s)) [
        | some x ↦ err unique_violation
        | none ↦ if table.is_checked r then ok (r, added r s) else err check_violation
      ]

  -- `createMany` inserts its rows in one statement; a violation of one refuses them all.
  unfoldable pub create_many : List R → Tx Store (Unit {0})
  unfolding create
  create_many [] s = ok (tt, s)
  create_many (r ∷ rows) s = elim (create (λ _. r) s) [
    | err e ↦ err e
    | ok (x, t) ↦ create_many rows t
  ]

  unfoldable pub update_many : (R → Bool) → (R → R) → Tx Store ℕ
  update_many matches change s =
      if all_checked matches change table.is_checked (table.rows s)
      then ok (
        count_where matches (table.rows s),
        table.with_rows (update_where matches change (table.rows s)) s,
      )
      else err check_violation

  -- `update` of the row of a unique key.
  unfoldable pub update : (R → Bool) → (R → R) → Tx Store R
  unfolding find_first
  update matches change s = elim (find_first matches (table.rows s)) [
    | none ↦ err record_not_found
    | some r ↦
        if table.is_checked (change r)
        then ok (change r, table.with_rows (update_where matches change (table.rows s)) s)
        else err check_violation
  ]

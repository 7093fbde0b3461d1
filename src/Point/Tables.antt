-- ===== src/Point/Tables.antt =====
-- The tables of the point module (prisma/schema.prisma, models PointBalance, PointCharge and
-- PointSpend): their rows, and what a call of the database client documents to do with them.
pub mod Balances
pub mod Charges
use ts_graphql_reference.Base.{
  ℕ, suc, ◌+◌, Bool, true, false, ◌&&◌, ◌||◌, not, Option, none, some, List, [], ◌∷◌, ◌++◌, map,
  String, ◌==◌, ltb, if◌then◌else◌,
}
use ts_graphql_reference.Int.{ℤ, pos, ◌+ℤ◌, leb_ℤ, ltb_ℤ, ◌==ℤ◌}
use ts_graphql_reference.Failure.{Result, ok, err, check_violation}
use ts_graphql_reference.Point.Data.{PointChargeState, PointSnapshot, usable, consumed, expired}
use ts_graphql_reference.Point.Ids.{add_ids}
use ts_graphql_reference.Tx.{Tx}

pub record ChargeRow : Type 0 where
  pub id : ℕ
  pub user_id : ℕ
  pub state : PointChargeState
  pub paid_amount : ℤ
  pub free_amount : ℤ
  pub unspent_paid : ℤ
  pub unspent_free : ℤ
  pub charged_at : ℤ
  pub expired_at : Option ℤ

pub record BalanceRow : Type 0 where
  pub user_id : ℕ
  pub amounts : PointSnapshot

pub record SpendRow : Type 0 where
  pub id : ℕ
  pub user_id : ℕ
  pub paid_amount : ℤ
  pub free_amount : ℤ
  pub total_amount : ℤ
  pub reason : String

pub record Tables : Type 0 where
  pub charges : List ChargeRow
  pub balances : List BalanceRow
  pub spends : List SpendRow
  pub next_charge : ℕ
  pub next_spend : ℕ

-- The CHECK constraints of `PointCharge`, `PointBalance` and `PointSpend`.
unfoldable pub charge_check : ChargeRow → Bool
charge_check r =
    leb_ℤ (pos 0) r.paid_amount
    && leb_ℤ (pos 0) r.free_amount
    && (leb_ℤ (pos 0) r.unspent_paid && leb_ℤ r.unspent_paid r.paid_amount)
    && (leb_ℤ (pos 0) r.unspent_free && leb_ℤ r.unspent_free r.free_amount)

unfoldable pub balance_check : PointSnapshot → Bool
balance_check s =
    leb_ℤ (pos 0) s.paid_amount && leb_ℤ (pos 0) s.free_amount && leb_ℤ (pos 0) s.total_amount

unfoldable pub spend_check : SpendRow → Bool
spend_check r =
    leb_ℤ (pos 0) r.paid_amount
    && leb_ℤ (pos 0) r.free_amount
    && r.total_amount ==ℤ r.paid_amount +ℤ r.free_amount

abbrev pub is_usable : PointChargeState → Bool
is_usable usable = true
is_usable consumed = false
is_usable expired = false

module _ {R : Type 0} where
  -- The rows after `updateMany` by `change` where `matches`.
  unfoldable pub update_where : (R → Bool) → (R → R) → List R → List R
  update_where matches change [] = []
  update_where matches change (r ∷ rows) =
      (if matches r then change r else r) ∷ update_where matches change rows

  -- `count` of `updateMany`.
  unfoldable pub count_where : (R → Bool) → List R → ℕ
  count_where matches [] = 0
  count_where matches (r ∷ rows) =
      let rest = count_where matches rows in if matches r then suc rest else rest

  -- Every row that would be written satisfies its constraints.
  unfoldable pub all_checked : (R → Bool) → (R → R) → (R → Bool) → List R → Bool
  all_checked matches change check [] = true
  all_checked matches change check (r ∷ rows) =
      (not (matches r) || check (change r)) && all_checked matches change check rows

  unfoldable pub select_where : (R → Bool) → List R → List R
  select_where matches [] = []
  select_where matches (r ∷ rows) =
      let rest = select_where matches rows in if matches r then r ∷ rest else rest

-- `orderBy: [{ chargedAt: 'asc' }, { id: 'asc' }]`
abbrev pub charged_before : ChargeRow → ChargeRow → Bool
charged_before a b =
    ltb_ℤ a.charged_at b.charged_at || (a.charged_at ==ℤ b.charged_at && ltb a.id b.id)

unfoldable pub insert_by : ChargeRow → List ChargeRow → List ChargeRow
insert_by r [] = r ∷ []
insert_by r (x ∷ rows) = if charged_before r x then r ∷ x ∷ rows else x ∷ insert_by r rows

unfoldable pub order_by : List ChargeRow → List ChargeRow
unfolding insert_by
order_by [] = []
order_by (r ∷ rows) = insert_by r (order_by rows)

unfoldable pub find_balance : ℕ → List BalanceRow → Option PointSnapshot
find_balance u [] = none
find_balance u (r ∷ rows) = if r.user_id == u then some r.amounts else find_balance u rows

unfoldable pub find_charge : ℕ → List ChargeRow → Option ChargeRow
find_charge i [] = none
find_charge i (r ∷ rows) = if r.id == i then some r else find_charge i rows

-- What the client's calls do to the tables.
abbrev pub usable_of : ℕ → ChargeRow → Bool
usable_of u r = r.user_id == u && is_usable r.state

unfoldable pub find_unique_balance : ℕ → Tx Tables (Option PointSnapshot)
find_unique_balance u t = ok (find_balance u t.balances, t)

unfoldable pub find_usable_charges : ℕ → Tx Tables (List ChargeRow)
find_usable_charges u t = ok (order_by (select_where (usable_of u) t.charges), t)

unfoldable pub find_balance_users : Tx Tables (List ℕ)
find_balance_users t = ok (map (λ r. r.user_id) t.balances, t)

-- `distinct: ['userId']`
unfoldable pub find_usable_users : Tx Tables (List ℕ)
unfolding add_ids
find_usable_users t =
    ok (add_ids (map (λ r. r.user_id) (select_where (λ r. is_usable r.state) t.charges)) [], t)

unfoldable pub update_charges : (ChargeRow → Bool) → (ChargeRow → ChargeRow) → Tx Tables ℕ
update_charges matches change t =
    if all_checked matches change charge_check t.charges
    then ok (
      count_where matches t.charges,
      record t { charges = update_where matches change t.charges },
    )
    else err check_violation

unfoldable pub update_balances : (BalanceRow → Bool) → (PointSnapshot → PointSnapshot) → Tx Tables ℕ
update_balances matches change t =
    let write = λ (r : BalanceRow). record r { amounts = change r.amounts } in
    let check = λ (r : BalanceRow). balance_check r.amounts in
    if all_checked matches write check t.balances
    then ok (
      count_where matches t.balances,
      record t { balances = update_where matches write t.balances },
    )
    else err check_violation

-- A new row takes the next identifier.
unfoldable pub create_charge : (ℕ → ChargeRow) → Tx Tables ChargeRow
create_charge make t =
    let r = make t.next_charge in
    if charge_check r
    then ok (r, record t { charges = r ∷ t.charges; next_charge = suc t.next_charge })
    else err check_violation

unfoldable pub create_spend : (ℕ → SpendRow) → Tx Tables SpendRow
create_spend make t =
    let r = make t.next_spend in
    if spend_check r
    then ok (r, record t { spends = r ∷ t.spends; next_spend = suc t.next_spend })
    else err check_violation

-- `upsert` on the unique `userId`.
unfoldable pub upsert_balance : ℕ → PointSnapshot → (PointSnapshot → PointSnapshot) → Tx Tables Unit
upsert_balance u created change t = elim (find_balance u t.balances) [
  | none ↦
      if balance_check created
      then ok (tt, record t { balances = record { user_id = u; amounts = created } ∷ t.balances })
      else err check_violation
  | some s ↦
      if balance_check (change s)
      then ok (
        tt,
        record t {
          balances =
              update_where (λ r. r.user_id == u) (λ r. record r { amounts = change r.amounts })
                t.balances;
        },
      )
      else err check_violation
]

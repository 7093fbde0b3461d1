-- ===== src/Point/Service.antt =====
-- src/modules/point/point.service.ts: the use-cases, each one transaction that reads, decides and
-- executes. The clock's reading is an argument, and so are the two flags of a transfer.
use ts_graphql_reference.Base.{
  ℕ, Bool, true, false, List, [], ◌∷◌, length, String, Option, none, some,
}
use ts_graphql_reference.Int.{ℤ, Number}
use ts_graphql_reference.Failure.{Result, ok, err, feature_disabled}
use ts_graphql_reference.Locks.Registry.{lock_key, point_balance}
use ts_graphql_reference.Time.{Dayjs}
use ts_graphql_reference.Tx.{Tx, lift, ◌>>=◌}
use ts_graphql_reference.Uow
use ts_graphql_reference.Point.Spend.{plan_charge, plan_spend, plan_transfer}
use ts_graphql_reference.Point.Expiry.{plan_expiry}
use ts_graphql_reference.Point.Balance.{assert_balance_consistent}
use ts_graphql_reference.Point.Tables.{ChargeRow, SpendRow}
use ts_graphql_reference.Point.Client.{PointDb}
use ts_graphql_reference.Point.Repo.{
  find_user_ids_with_balance_or_usable_charges, load_point_world, load_expiry_world,
  apply_spend_plan, apply_charge_plan, apply_transfer_plan, apply_expiry_plan,
}

-- `const { spend } = ...; return spend;`
abbrev pub spend_of : {A B S : Type 0} → Result (A × B) × S → Result A × S
spend_of (ok r, s) = (ok r.0, s)
spend_of (err e, s) = (err e, s)

-- `opts.now ?? clock.now()`
abbrev pub now_or : Option ℤ → ℤ → ℤ
now_or none clock = clock
now_or (some t) clock = t

-- `{ usersChecked: number }`
pub record VerifiedBalances : Type 0 where
  pub users_checked : ℕ

module _ (db : PointDb) where
  open db use {State, base}

  -- The decision of `charge` comes before the transaction.
  unfoldable pub charge : ℕ → Number → Number → ℤ → State → Result ChargeRow × State
  charge u paid free now s = elim (plan_charge paid free now) [
    | ok plan ↦ Uow.run base (apply_charge_plan db u plan) s
    | err e ↦ (err e, s)
  ]

  unfoldable pub spend_body : ℕ → Number → String → Tx State SpendRow
  spend_body u amount reason = do
    world ← load_point_world db u
    plan ← lift (plan_spend world.snapshot world.charges amount false)
    apply_spend_plan db u reason plan

  unfoldable pub spend : ℕ → Number → String → State → Result SpendRow × State
  spend u amount reason = Uow.snapshot base (spend_body u amount reason)

  unfoldable pub expire_body : Dayjs → ℕ → ℤ → Tx State ℕ
  expire_body dayjs u now = do
    world ← load_expiry_world db u
    apply_expiry_plan db u (plan_expiry dayjs world now)

  unfoldable pub expire : Dayjs → ℕ → Option ℤ → ℤ → State → Result ℕ × State
  expire dayjs u at clock = Uow.snapshot base (expire_body dayjs u (now_or at clock))

  unfoldable pub transfer_body :
      (ℕ → String) → ℕ → ℕ → Number → ℤ → Bool → Tx State (SpendRow × ChargeRow)
  transfer_body transfer_reason from_user to_user amount now prefer_free = do
    world ← load_point_world db from_user
    plan ←
        lift (plan_transfer from_user to_user world.snapshot world.charges amount now prefer_free)
    apply_transfer_plan db transfer_reason from_user to_user plan

  -- The gate comes before everything else.
  unfoldable pub transfer :
      (ℕ → String)
      → ℕ
      → ℕ
      → Number
      → (gate prefer_free : Bool) → ℤ
      → State
      → Result SpendRow × State
  transfer transfer_reason from_user to_user amount gate prefer_free now s = elim gate [
    | true ↦ spend_of (
        Uow.serialized base (lock_key point_balance from_user ∷ lock_key point_balance to_user ∷ [])
          (transfer_body transfer_reason from_user to_user amount now prefer_free) true s)
    | false ↦ (err (feature_disabled "pointTransfer"), s)
  ]

  unfoldable pub verify_body : ℕ → Tx State Unit
  verify_body u = do
    world ← load_point_world db u
    lift (assert_balance_consistent u world.snapshot world.charges)

  -- The loop of `verifyBalances` over the users: it stops at the first drift.
  unfoldable pub verify_all : List ℕ → State → Result (Unit {0}) × State
  verify_all [] s = (ok tt, s)
  verify_all (u ∷ users) s =
      let (r, s') = Uow.snapshot base (verify_body u) s in
      let rest = verify_all users s' in elim r [ ok _ ↦ rest | err e ↦ (err e, s') ]

  unfoldable pub verify_balances : State → Result VerifiedBalances × State
  unfolding find_user_ids_with_balance_or_usable_charges verify_all
  verify_balances s = elim (find_user_ids_with_balance_or_usable_charges db s) [
    | err e ↦ (err e, s)
    | ok (users, t) ↦
        let (r, u) = verify_all users t in
        elim r [ ok _ ↦ (ok (record { users_checked = length users }), u) | err e ↦ (err e, u) ]
  ]

-- ===== src/Point/Sound/Transferring.antt =====
-- A transfer in a sound ledger: what one user loses the other gains.
use ts_graphql_reference.Base.{
  ℕ, ◌≡◌, ◌≢◌, refl, sym, ap, ap₂, ◌∙◌, subst, Bool, true, false, String, ◌==◌, ==→ne,
}
use ts_graphql_reference.Int.{ℤ, pos, ◌+ℤ◌, ◌-ℤ◌, ◌≤ℤ◌, ◌<ℤ◌, Number, whole}
use ts_graphql_reference.Failure
use ts_graphql_reference.Failure.{Result, ok, err, point_transfer_to_self}
use ts_graphql_reference.Tx.{lift, >>=-ok, lift-ok, snd_or}
use ts_graphql_reference.Uow.{serialized}
use ts_graphql_reference.Uow.Atomic.{serialized-ok}
use ts_graphql_reference.Point.Data.{PointSnapshot, TransferPlan}
use ts_graphql_reference.Point.Spend.{plan_spend, plan_charge, plan_transfer}
use ts_graphql_reference.Point.Spend.Plan.{IsSpend, plan_spend-IsSpend}
use ts_graphql_reference.Point.Tables.{
  Tables, SpendRow, ChargeRow, find_balance, find_unique_balance, find_usable_charges,
}
use ts_graphql_reference.Point.Client.{memory, memory_base, memory-IsAtomic, memory-IsQuiet}
use ts_graphql_reference.Point.Repo.{
  or_zero, load_point_world, apply_spend_plan, apply_charge_plan, apply_transfer_plan,
}
use ts_graphql_reference.Point.Service.{transfer, transfer_body, spend_of}
use ts_graphql_reference.Point.Sound.{IsSound}
use ts_graphql_reference.Point.Sound.Spending.{
  snapshot_of, charges_of, IsWorld-sound, apply_spend_plan-IsSpent,
}
use ts_graphql_reference.Point.Sound.Charging.{
  plan_charge-IsChargePlan, apply_charge_plan-IsCharged,
}

-- From `t` to `t'` the user `from_user` has given `n` to `to_user`.
pub record IsTransferred (from_user to_user : ℕ) (n : ℤ) (t t' : Tables) : Type 0 where
  pub different : from_user ≢ to_user
  pub positive : pos 0 <ℤ n
  pub fits : n ≤ℤ (snapshot_of from_user t).total_amount
  pub sound : IsSound t'
  pub lower : (snapshot_of from_user t').total_amount ≡ (snapshot_of from_user t).total_amount -ℤ n
  pub higher : (snapshot_of to_user t').total_amount ≡ (snapshot_of to_user t).total_amount +ℤ n
  pub others :
      (v : ℕ) → v ≢ from_user → v ≢ to_user → find_balance v t'.balances ≡ find_balance v t.balances

-- What a plan to transfer says.
pub record IsTransferPlan (from_user to_user : ℕ) (snapshot : PointSnapshot) (t : Tables) (n : ℤ)
    (plan : TransferPlan) : Type 0 where
  pub different : from_user ≢ to_user
  pub positive : pos 0 <ℤ n
  pub fits : n ≤ℤ snapshot.total_amount
  pub spend : IsSpend snapshot (charges_of from_user t) n plan.spend
  pub total : plan.charge.total_amount ≡ plan.charge.paid_amount +ℤ plan.charge.free_amount
  pub all_of_it : plan.charge.total_amount ≡ n

module _ (from_user to_user : ℕ) (amount : Number) (now : ℤ) (prefer_free : Bool) (t : Tables)
    (s : IsSound t) where
  plan_transfer-IsTransferPlan :
      {plan : TransferPlan}
      → plan_transfer from_user to_user
          (snapshot_of from_user t)
          (charges_of from_user t)
          amount
          now
          prefer_free
        ≡ ok plan
      → (n : ℤ) × (amount ≡ whole n)
        × IsTransferPlan from_user to_user (snapshot_of from_user t) t n plan
  unfolding plan_transfer
  plan_transfer-IsTransferPlan {plan} h =
      let w = IsWorld-sound from_user t s in
      let (d, h₁) =
        Failure.throw_if-ok (from_user == to_user) (point_transfer_to_self from_user) _ h in
      let (spend, e, h₂) =
        Failure.>>=-ok
          (plan_spend (snapshot_of from_user t) (charges_of from_user t) amount prefer_free) _ h₁ in
      let (charge, f, h₃) =
        Failure.>>=-ok (plan_charge (whole spend.paid_usage) (whole spend.free_usage) now) _ h₂ in
      let (n, a, p, fits, is_spend) =
        plan_spend-IsSpend (snapshot_of from_user t) (charges_of from_user t) prefer_free amount
          w.unspent w.paid_nonneg w.free_nonneg e in
      let c = plan_charge-IsChargePlan (whole spend.paid_usage) (whole spend.free_usage) now f in
      let paid : spend.paid_usage ≡ charge.paid_amount = cc c.paid in
      let free : spend.free_usage ≡ charge.free_amount = cc c.free in
      let q : record { spend = spend; charge = charge } ≡ plan = cc h₃ in
      (
        n,
        a,
        subst (IsTransferPlan from_user to_user (snapshot_of from_user t) t n) q (record {
          different = ==→ne from_user to_user d;
          positive = p;
          fits = fits;
          spend = is_spend;
          total = c.total;
          all_of_it = c.total ∙ ap₂ (λ x y. x +ℤ y) (sym paid) (sym free) ∙ is_spend.usage;
        }),
      )

  module _ (n : ℤ) (plan : TransferPlan)
      (p : IsTransferPlan from_user to_user (snapshot_of from_user t) t n plan) where
    apply_transfer_plan-IsTransferred :
        (transfer_reason : ℕ → String) {r : SpendRow × ChargeRow} {t' : Tables}
        → apply_transfer_plan memory transfer_reason from_user to_user plan t ≡ ok (r, t')
        → IsTransferred from_user to_user n t t'
    unfolding apply_transfer_plan
    apply_transfer_plan-IsTransferred transfer_reason h =
        let (a, s₁, e₁, h₁) =
          >>=-ok (apply_spend_plan memory from_user (transfer_reason to_user) plan.spend) _ t h in
        let (b, s₂, e₂, h₂) = >>=-ok (apply_charge_plan memory to_user plan.charge) _ s₁ h₁ in
        let spent =
          apply_spend_plan-IsSpent from_user (transfer_reason to_user) n plan.spend t s p.spend
            e₁ in
        let charged = apply_charge_plan-IsCharged to_user plan.charge s₁ p.total spent.sound e₂ in
        subst (IsTransferred from_user to_user n t) (ap (snd_or s₂) h₂) (record {
          different = p.different;
          positive = p.positive;
          fits = p.fits;
          sound = charged.sound;
          lower =
              ap (λ o. (or_zero o).total_amount) (charged.others from_user p.different)
              ∙ spent.lower;
          higher =
              ap (λ x. x.total_amount) charged.higher
              ∙ ap₂ (λ x y. x +ℤ y)
                  (ap (λ o. (or_zero o).total_amount)
                    (spent.others to_user (λ e. p.different (sym e))))
                  p.all_of_it;
          others = λ v a b. charged.others v b ∙ spent.others v a;
        })

spend_of-ok :
    {A B S : Type 0} (p : Result (A × B) × S) {r : A} {t : S}
    → spend_of p ≡ (ok r, t)
    → (b : B) × (p ≡ (ok (r, b), t))
spend_of-ok (ok x, s) {r} {t} h = (x.1, ap (with_charge x.1) h)
  where
    with_charge : {A B S : Type 0} → B → Result A × S → Result (A × B) × S
    with_charge b (ok a, s) = (ok (a, b), s)
    with_charge b (err e, s) = (err e, s)
spend_of-ok (err e, s) h = cc h

-- A transfer that succeeds in a sound ledger, behind an open gate, moves exactly the amount from
-- the one user to the other: a different user, no more than there was, and nobody else's points.
pub transfer-IsTransferred :
    (transfer_reason : ℕ → String) (from_user to_user : ℕ) (amount : Number)
    (gate prefer_free : Bool) (now : ℤ) (t : Tables) {r : SpendRow} {t' : Tables}
    → IsSound t
    → transfer memory transfer_reason from_user to_user amount gate prefer_free now t ≡ (ok r, t')
    → (gate ≡ true) × (n : ℤ) × (amount ≡ whole n) × IsTransferred from_user to_user n t t'
unfolding transfer transfer_body load_point_world find_unique_balance find_usable_charges
transfer-IsTransferred transfer_reason from_user to_user amount true prefer_free now t {r} {t'} s
      h =
    let snapshot = snapshot_of from_user t in
    let charges = charges_of from_user t in
    let body = transfer_body memory transfer_reason from_user to_user amount now prefer_free in
    let (charge, both) = spend_of-ok (serialized memory_base _ body true t) h in
    let ran = serialized-ok memory-IsAtomic memory-IsQuiet _ body true t both in
    let decision = plan_transfer from_user to_user snapshot charges amount now prefer_free in
    let (plan, x, e, f) =
      >>=-ok (lift decision) (apply_transfer_plan memory transfer_reason from_user to_user) t ran in
    let (planned, same) = lift-ok decision t e in
    let (n, a, p) =
      plan_transfer-IsTransferPlan from_user to_user amount now prefer_free t s planned in
    (
      refl,
      n,
      a,
      apply_transfer_plan-IsTransferred from_user to_user amount now prefer_free t s n plan p
          transfer_reason
          (subst
            (λ y.
              apply_transfer_plan memory transfer_reason from_user to_user plan y
              ≡ ok ((r, charge), t'))
            (sym same) f),
    )
transfer-IsTransferred transfer_reason from_user to_user amount false prefer_free now t s h = cc

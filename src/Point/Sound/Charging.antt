-- ===== src/Point/Sound/Charging.antt =====
-- A charge in a sound ledger: what it adds, and that the ledger stays sound.
use ts_graphql_reference.Base.{
  ℕ, ◌≡◌, ◌≢◌, refl, sym, ap, ◌∙◌, false, ◌==◌, subst, Bool-cases, inl, inr, ==→eq, ==→ne, ==_refl,
}
use ts_graphql_reference.Int.{
  ℤ, pos, ◌+ℤ◌, ◌≤ℤ◌, ◌<ℤ◌, ◌==ℤ◌, leb_ℤ, leb_ℤ→le, ==ℤ→ne, int_laws, Number, whole, fractional,
}
use ts_graphql_reference.Failure
use ts_graphql_reference.Failure.{Result, ok, err, point_amount_not_positive}
use ts_graphql_reference.Uow.Atomic.{run-ok}
use ts_graphql_reference.Point.Spend.{plan_charge, assert_charge_side}
use ts_graphql_reference.Point.Service.{charge}
use ts_graphql_reference.Tx.{>>=-ok, snd_or}
use ts_graphql_reference.Point.Data.{ChargePlan}
use ts_graphql_reference.Point.Balance.{balance, snapshot-eq}
use ts_graphql_reference.Point.Tables.{
  Tables, ChargeRow, find_balance, create_charge, upsert_balance,
}
use ts_graphql_reference.Point.Tables.Charges.{usable_paid, usable_free}
use ts_graphql_reference.Point.Client.{memory, memory-IsAtomic}
use ts_graphql_reference.Point.Repo.{or_zero, apply_charge_plan}
use ts_graphql_reference.Point.Sound.{IsSound}
use ts_graphql_reference.Point.Sound.Spending.{snapshot_of}
use ts_graphql_reference.Point.Sound.Raising.{
  raise, first_balance, new_charge, IsAdded, IsRaised, create_charge-IsAdded,
  upsert_balance-IsRaised,
}

-- From `t` to `t'` the user `u` has been charged by the plan.
pub record IsCharged (u : ℕ) (p : ChargePlan) (t t' : Tables) : Type 0 where
  pub sound : IsSound t'
  pub higher : snapshot_of u t' ≡ raise p (snapshot_of u t)
  pub others : (v : ℕ) → v ≢ u → find_balance v t'.balances ≡ find_balance v t.balances

module _ (u : ℕ) (p : ChargePlan) {t s t' : Tables} (sound : IsSound t) (added : IsAdded u p t s)
    (raised : IsRaised u p s t') (sum : p.total_amount ≡ p.paid_amount +ℤ p.free_amount) where
  charged_self :
      or_zero (find_balance u t'.balances)
      ≡ balance (usable_paid u t'.charges) (usable_free u t'.charges)
  charged_self =
      let paid : usable_paid u s.charges ≡ p.paid_amount +ℤ usable_paid u t.charges =
        rw (==_refl u) at (added.paid_added u) in
      let free : usable_free u s.charges ≡ p.free_amount +ℤ usable_free u t.charges =
        rw (==_refl u) at (added.free_added u) in
      raised.higher
      ∙ ap (λ l. raise p (or_zero (find_balance u l))) added.same_balances
      ∙ ap (raise p) (sound.balanced u)
      ∙ rw raised.same_charges (
          snapshot-eq {a = raise p (balance (usable_paid u t.charges) (usable_free u t.charges))}
            {b = balance (usable_paid u s.charges) (usable_free u s.charges)} (omega int_laws)
            (omega int_laws) (omega int_laws))

  charged_other :
      (v : ℕ)
      → u == v ≡ false
      → or_zero (find_balance v t'.balances)
        ≡ balance (usable_paid v t'.charges) (usable_free v t'.charges)
  charged_other v ne =
      let paid : usable_paid v s.charges ≡ pos 0 +ℤ usable_paid v t.charges =
        rw ne at (added.paid_added v) in
      let free : usable_free v s.charges ≡ pos 0 +ℤ usable_free v t.charges =
        rw ne at (added.free_added v) in
      ap or_zero (raised.others v (λ e. ==→ne u v ne (sym e)))
      ∙ ap (λ l. or_zero (find_balance v l)) added.same_balances
      ∙ sound.balanced v
      ∙ rw raised.same_charges (
          snapshot-eq {a = balance (usable_paid v t.charges) (usable_free v t.charges)}
            {b = balance (usable_paid v s.charges) (usable_free v s.charges)} (omega int_laws)
            (omega int_laws) (omega int_laws))

  charged : IsCharged u p t t'
  charged = record {
    sound = record {
      kept = record {
        distinct = rw raised.same_charges added.kept.distinct;
        below = rw (raised.same_charges, raised.same_next) added.kept.below;
        checked = rw raised.same_charges added.kept.checked;
      };
      keyed = raised.keyed;
      balanced = λ v. elim (Bool-cases (u == v)) [
        | inl e ↦
            subst
              (λ w.
                or_zero (find_balance w t'.balances)
                ≡ balance (usable_paid w t'.charges) (usable_free w t'.charges))
              (==→eq u v e) charged_self
        | inr e ↦ charged_other v e
      ];
    };
    higher = raised.higher ∙ ap (λ l. raise p (or_zero (find_balance u l))) added.same_balances;
    others = λ v ne. raised.others v ne ∙ ap (λ l. find_balance v l) added.same_balances;
  }

-- Executing a charge plan in a sound ledger.
pub apply_charge_plan-IsCharged :
    (u : ℕ) (p : ChargePlan) (t : Tables) {r : ChargeRow} {t' : Tables}
    → p.total_amount ≡ p.paid_amount +ℤ p.free_amount
    → IsSound t
    → apply_charge_plan memory u p t ≡ ok (r, t')
    → IsCharged u p t t'
unfolding apply_charge_plan
apply_charge_plan-IsCharged u p t {r} {t'} sum s h =
    let (row, s₁, e₁, h₁) = >>=-ok (create_charge (new_charge u p)) _ t h in
    let (x, s₂, e₂, h₂) = >>=-ok (upsert_balance u (first_balance p) (raise p)) _ s₁ h₁ in
    let added = create_charge-IsAdded u p t s.kept e₁ in
    let raised = upsert_balance-IsRaised u p s₁ (rw added.same_balances s.keyed) e₂ in
    charged u p s added (subst (IsRaised u p s₁) (ap (snd_or s₂) h₂) raised) sum

-- What a plan to charge says.
pub record IsChargePlan (paid_asked free_asked : Number) (instant : ℤ) (p : ChargePlan)
    : Type 0 where
  pub paid : paid_asked ≡ whole p.paid_amount
  pub free : free_asked ≡ whole p.free_amount
  pub paid_nonneg : pos 0 ≤ℤ p.paid_amount
  pub free_nonneg : pos 0 ≤ℤ p.free_amount
  pub total : p.total_amount ≡ p.paid_amount +ℤ p.free_amount
  pub positive : pos 0 <ℤ p.total_amount
  pub stamped : p.charged_at ≡ instant

assert_charge_side-ok :
    (x : Number) {n : ℤ} → assert_charge_side x ≡ ok n → (x ≡ whole n) × (pos 0 ≤ℤ n)
unfolding assert_charge_side
assert_charge_side-ok (whole m) {n} h = elim (Bool-cases (leb_ℤ (pos 0) m)) [
  | inl e ↦
      let g : ok m ≡ ok n = rw e at h in
      let q : m ≡ n = cc g in (ap whole q, subst (λ x. pos 0 ≤ℤ x) q (leb_ℤ→le (pos 0) m e))
  | inr e ↦ cc (rw e at h)
]
assert_charge_side-ok fractional h = cc

abbrev plan_of : ℤ → ℤ → ℤ → ChargePlan
plan_of paid free now = record {
  paid_amount = paid;
  free_amount = free;
  total_amount = paid +ℤ free;
  charged_at = now;
}

-- A plan to charge has the two sides asked for, neither negative and not both zero.
pub plan_charge-IsChargePlan :
    (paid free : Number) (now : ℤ) {p : ChargePlan}
    → plan_charge paid free now ≡ ok p
    → IsChargePlan paid free now p
unfolding plan_charge
plan_charge-IsChargePlan paid free now {p} h =
    let (a, ea, ha) = Failure.>>=-ok (assert_charge_side paid) _ h in
    let (b, eb, hb) = Failure.>>=-ok (assert_charge_side free) _ ha in
    let (z, hz) =
      Failure.throw_if-ok (a +ℤ b ==ℤ pos 0) (point_amount_not_positive (whole (pos 0))) _ hb in
    let (ia, na) = assert_charge_side-ok paid ea in
    let (ib, nb) = assert_charge_side-ok free eb in
    let q : plan_of a b now ≡ p = cc hz in
    subst (IsChargePlan paid free now) q (record {
      paid = ia;
      free = ib;
      paid_nonneg = na;
      free_nonneg = nb;
      total = refl;
      positive = (let ne = ==ℤ→ne (a +ℤ b) (pos 0) z in omega int_laws);
      stamped = refl;
    })

-- A charge that succeeds in a sound ledger adds exactly its two sides, to that user alone, and
-- leaves the ledger sound.
pub charge-IsCharged :
    (u : ℕ) (paid free : Number) (now : ℤ) (t : Tables) {r : ChargeRow} {t' : Tables}
    → IsSound t
    → charge memory u paid free now t ≡ (ok r, t')
    → (p : ChargePlan) × IsChargePlan paid free now p × IsCharged u p t t'
unfolding charge
charge-IsCharged u paid free now t {r} {t'} s h =
    elim (Failure.Result-cases (plan_charge paid free now)) [
      | inl (p, e) ↦
          let plan = plan_charge-IsChargePlan paid free now e in
          (
            p,
            plan,
            apply_charge_plan-IsCharged u p t plan.total s
                (run-ok memory-IsAtomic (apply_charge_plan memory u p) t (rw (e, charge) at h)),
          )
      | inr (x, e) ↦ cc (rw (e, charge) at h)
    ]

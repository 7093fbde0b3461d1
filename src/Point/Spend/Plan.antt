-- ===== src/Point/Spend/Plan.antt =====
-- What a plan of `planSpend` promises, and when there is one.
use ts_graphql_reference.Base.{
  ◌≡◌, refl, sym, ap, ap₂, ◌∙◌, inl, inr, Bool, true, false, List, Bool-cases, All, ◌||◌, not,
  ||-false, not-false, subst,
}
use ts_graphql_reference.Int.{
  ℤ, pos, ◌+ℤ◌, ◌-ℤ◌, ◌≤ℤ◌, ◌<ℤ◌, ◌==ℤ◌, min_ℤ, int_laws, ==ℤ_iff, parts_of_eq, Number, whole,
  fractional, ltb_ℤ, ltb_ℤ→lt, ltb_ℤ→ge, lt→ltb_ℤ, ge→ltb_ℤ,
}
use ts_graphql_reference.Failure.{ok, >>=-ok, throw_if-ok, ◌>>◌}
use ts_graphql_reference.Point.Data.{PointSnapshot, ChargeBalance, SpendAllocation, SpendPlan}
use ts_graphql_reference.Point.Spend.{
  split_usage, allocate, assert_valid_amount, assert_covered, spend_plan, plan_spend,
}
use ts_graphql_reference.Point.Spend.Allocation.{
  IsUnspent, unspent_paid, unspent_free, paid_of, free_of, unspent_nonneg, Covers, allocate-Covers,
  Picks, allocate-Picks,
}
use ts_graphql_reference.Point.Balance.{sum_usable_balance, sum_usable_balance_lem}

-- A plan for spending `n` of the balance `s` over the charges `cs`.
pub record IsSpend (s : PointSnapshot) (cs : List ChargeBalance) (n : ℤ) (p : SpendPlan)
    : Type 0 where
  pub usage : p.paid_usage +ℤ p.free_usage ≡ n
  pub paid_nonneg : pos 0 ≤ℤ p.paid_usage
  pub free_nonneg : pos 0 ≤ℤ p.free_usage
  pub paid_covered : paid_of p.allocations ≡ p.paid_usage
  pub free_covered : free_of p.allocations ≡ p.free_usage
  pub picks : Picks cs p.allocations
  pub assumed : p.assumed_balance ≡ s
  pub paid_after : p.balance_after.paid_amount ≡ s.paid_amount -ℤ p.paid_usage
  pub free_after : p.balance_after.free_amount ≡ s.free_amount -ℤ p.free_usage
  pub total_after : p.balance_after.total_amount ≡ s.total_amount -ℤ n

-- The split of a positive amount: the preferred side first, and no side negative.
split_usage_lem :
    (prefer_free : Bool) (s : PointSnapshot) (n : ℤ)
    → pos 0 <ℤ n
    → pos 0 ≤ℤ s.paid_amount
    → pos 0 ≤ℤ s.free_amount
    → let (paid, free) = split_usage prefer_free s n in
      (paid +ℤ free ≡ n) × (pos 0 ≤ℤ paid) × (pos 0 ≤ℤ free)
unfolding split_usage
split_usage_lem true s n h p f = omega int_laws
split_usage_lem false s n h p f = omega int_laws

-- Neither usage passes its side of a balance that adds up.
split_usage_fits :
    (prefer_free : Bool) (s : PointSnapshot) (n : ℤ)
    → pos 0 ≤ℤ s.paid_amount
    → pos 0 ≤ℤ s.free_amount
    → s.total_amount ≡ s.paid_amount +ℤ s.free_amount
    → n ≤ℤ s.total_amount
    → let (paid, free) = split_usage prefer_free s n in
      (paid ≤ℤ s.paid_amount) × (free ≤ℤ s.free_amount)
unfolding split_usage
split_usage_fits true s n p f t h = omega int_laws
split_usage_fits false s n p f t h = omega int_laws

left_zero : (a b : ℤ) → a ≤ℤ b → a -ℤ min_ℤ a b ≡ pos 0
left_zero a b h = omega int_laws

assert_covered-ok :
    (s : PointSnapshot) (paid free : ℤ)
    → assert_covered s paid free ≡ ok tt
    → (paid ≡ pos 0) × (free ≡ pos 0)
unfolding assert_covered
assert_covered-ok s paid free h =
    let b = not (paid ==ℤ pos 0) || not (free ==ℤ pos 0) in
    let e : b ≡ false = elim (Bool-cases b) [ inl e ↦ cc (rw e at h) | inr e ↦ e ] in
    let (p, f) = ||-false (not (paid ==ℤ pos 0)) (not (free ==ℤ pos 0)) e in
    ((==ℤ_iff paid (pos 0)).0 (not-false _ p), (==ℤ_iff free (pos 0)).0 (not-false _ f))

assert_covered-zero :
    (s : PointSnapshot) (paid free : ℤ)
    → paid ≡ pos 0
    → free ≡ pos 0
    → assert_covered s paid free ≡ ok tt
unfolding assert_covered
assert_covered-zero s paid free p f = rw (p, f)

-- The loop on the two usages leaves nothing over exactly when the plan stands.
module _ (s : PointSnapshot) (cs : List ChargeBalance) (n paid free : ℤ) where
  conclude :
      (r : List SpendAllocation × ℤ × ℤ) {p : SpendPlan}
      → ((assert_covered s r.1 r.2) >> ok (spend_plan s n paid free r.0)) ≡ ok p
      → (r.1 ≡ pos 0) × (r.2 ≡ pos 0) × (spend_plan s n paid free r.0 ≡ p)
  conclude r h =
      let (u, e, h') =
        >>=-ok (assert_covered s r.1 r.2) (λ _. ok (spend_plan s n paid free r.0)) h in
      let (a, b) = assert_covered-ok s r.1 r.2 e in (a, b, cc h')

  IsSpend-conclude :
      (r : List SpendAllocation × ℤ × ℤ)
      → Covers cs paid free r
      → Picks cs r.0
      → (paid +ℤ free ≡ n) × (pos 0 ≤ℤ paid) × (pos 0 ≤ℤ free)
      → r.1 ≡ pos 0
      → r.2 ≡ pos 0
      → IsSpend s cs n (spend_plan s n paid free r.0)
  unfolding spend_plan
  IsSpend-conclude r c picks u e f = record {
    usage = u.0;
    paid_nonneg = u.1;
    free_nonneg = u.2;
    paid_covered = omega (int_laws, parts_of_eq _ _ c.paid_sum, parts_of_eq _ _ e);
    free_covered = omega (int_laws, parts_of_eq _ _ c.free_sum, parts_of_eq _ _ f);
    picks = picks;
    assumed = refl;
    paid_after = refl;
    free_after = refl;
    total_after = refl;
  }

module _ (s : PointSnapshot) (cs : List ChargeBalance) (prefer_free : Bool) where
  planned :
      (n : ℤ)
      → All IsUnspent cs
      → pos 0 ≤ℤ s.paid_amount
      → pos 0 ≤ℤ s.free_amount
      → pos 0 <ℤ n
      → let (paid, free) = split_usage prefer_free s n in
        let r = allocate cs paid free in
        (r.1 ≡ pos 0) → (r.2 ≡ pos 0) → IsSpend s cs n (spend_plan s n paid free r.0)
  planned n h sp sf n_pos e f =
      let (paid, free) = split_usage prefer_free s n in
      let u = split_usage_lem prefer_free s n n_pos sp sf in
      IsSpend-conclude s cs n paid free (allocate cs paid free)
        (allocate-Covers cs paid free h u.1 u.2) (allocate-Picks cs paid free h u.1 u.2) u e f

  checked :
      (n : ℤ) {p : SpendPlan}
      → All IsUnspent cs
      → pos 0 ≤ℤ s.paid_amount
      → pos 0 ≤ℤ s.free_amount
      → pos 0 <ℤ n
      → plan_spend s cs (whole n) prefer_free ≡ ok p
      → (n ≤ℤ s.total_amount) × IsSpend s cs n p
  unfolding plan_spend assert_valid_amount
  checked n h sp sf n_pos e =
      let (paid, free) = split_usage prefer_free s n in
      let t = lt→ltb_ℤ (pos 0) n n_pos in
      let (enough, e') = throw_if-ok (ltb_ℤ s.total_amount n) _ _ (rw t at e) in
      let (a, b, q) = conclude s cs n paid free (allocate cs paid free) e' in
      (ltb_ℤ→ge s.total_amount n enough, subst (IsSpend s cs n) q (planned n h sp sf n_pos a b))

  -- Whatever plan is returned spends exactly the requested amount, which the balance covers.
  pub plan_spend-IsSpend :
      (amount : Number) {p : SpendPlan}
      → All IsUnspent cs
      → pos 0 ≤ℤ s.paid_amount
      → pos 0 ≤ℤ s.free_amount
      → plan_spend s cs amount prefer_free ≡ ok p
      → (n : ℤ) × (amount ≡ whole n) × (pos 0 <ℤ n) × (n ≤ℤ s.total_amount) × IsSpend s cs n p
  unfolding plan_spend assert_valid_amount
  plan_spend-IsSpend (whole n) h sp sf e = elim (Bool-cases (ltb_ℤ (pos 0) n)) [
    | inl t ↦
        let n_pos = ltb_ℤ→lt (pos 0) n t in
        let (enough, spend) = checked n h sp sf n_pos e in (n, refl, n_pos, enough, spend)
    | inr t ↦ cc (rw t at e)
  ]
  plan_spend-IsSpend fractional h sp sf e = cc

  -- In a consistent world every positive amount that the balance covers has a plan.
  pub plan_spend-consistent :
      (n : ℤ)
      → All IsUnspent cs
      → s ≡ sum_usable_balance cs
      → pos 0 <ℤ n
      → n ≤ℤ s.total_amount
      → (p : SpendPlan) × (plan_spend s cs (whole n) prefer_free ≡ ok p) × IsSpend s cs n p
  unfolding plan_spend assert_valid_amount assert_covered
  plan_spend-consistent n h c n_pos enough =
      let (paid, free) = split_usage prefer_free s n in
      let r = allocate cs paid free in
      let b = c ∙ sum_usable_balance_lem cs in
      let p_eq = ap (λ x. x.paid_amount) b in
      let f_eq = ap (λ x. x.free_amount) b in
      let t_eq = ap (λ x. x.total_amount) b in
      let u = unspent_nonneg cs h in
      let sp : pos 0 ≤ℤ s.paid_amount = rw p_eq u.0 in
      let sf : pos 0 ≤ℤ s.free_amount = rw f_eq u.1 in
      let v = split_usage_lem prefer_free s n n_pos sp sf in
      let total : s.total_amount ≡ s.paid_amount +ℤ s.free_amount =
        t_eq ∙ sym (ap₂ ◌+ℤ◌ p_eq f_eq) in
      let fits = split_usage_fits prefer_free s n sp sf total enough in
      let covers = allocate-Covers cs paid free h v.1 v.2 in
      let a : r.1 ≡ pos 0 =
        covers.paid_left ∙ left_zero paid (unspent_paid cs) (subst (λ x. paid ≤ℤ x) p_eq fits.0) in
      let d : r.2 ≡ pos 0 =
        covers.free_left ∙ left_zero free (unspent_free cs) (subst (λ x. free ≤ℤ x) f_eq fits.1) in
      (
        spend_plan s n paid free r.0,
        rw (lt→ltb_ℤ (pos 0) n n_pos, ge→ltb_ℤ s.total_amount n enough) (rw (a, d)),
        planned n h sp sf n_pos a d,
      )

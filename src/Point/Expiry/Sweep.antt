-- ===== src/Point/Expiry/Sweep.antt =====
-- The loop of `planExpiry` against its specification: the due charges, in order, and their sums.
use ts_graphql_reference.Base.{
  ◌≡◌, refl, ap, List, [], ◌∷◌, map, Bool-cases, inl, inr, if◌then◌else◌, All,
}
use ts_graphql_reference.Int.{ℤ, pos, ◌+ℤ◌, ◌-ℤ◌, int_laws, total_of}
use ts_graphql_reference.Time.{Dayjs}
use ts_graphql_reference.Point.Data.{ExpirableCharge, ExpiryWorld, ChargeExpiration, ExpiryPlan}
use ts_graphql_reference.Point.Expiry.{expiration, not_due, sweep, plan_expiry}

abbrev pub held_paid : List ExpirableCharge → ℤ
held_paid = total_of (λ c. c.unspent_paid)

abbrev pub held_free : List ExpirableCharge → ℤ
held_free = total_of (λ c. c.unspent_free)

module _ (dayjs : Dayjs) (now : ℤ) where
  -- The charges whose deadline has come.
  abbrev pub due : List ExpirableCharge → List ExpirableCharge
  due [] = []
  due (c ∷ cs) = let rest = due cs in if not_due dayjs now c then rest else c ∷ rest

  pub All-due :
      (P : ExpirableCharge → Type 0) (cs : List ExpirableCharge) → All P cs → All P (due cs)
  All-due P [] h = tt
  All-due P (c ∷ cs) h = elim (Bool-cases (not_due dayjs now c)) [
    | inl e ↦ rw e (All-due P cs h.1)
    | inr e ↦ rw e (h.0, All-due P cs h.1)
  ]

  pub record IsSweep (cs : List ExpirableCharge) (paid free : ℤ) (r : List ChargeExpiration × ℤ × ℤ)
      : Type 0 where
    pub picks : r.0 ≡ map expiration (due cs)
    pub paid_sum : r.1 ≡ paid +ℤ held_paid (due cs)
    pub free_sum : r.2 ≡ free +ℤ held_free (due cs)

  pub sweep-IsSweep :
      (cs : List ExpirableCharge) (paid free : ℤ)
      → IsSweep cs paid free (sweep dayjs now cs paid free)
  unfolding sweep
  sweep-IsSweep [] paid free = record {
    picks = refl;
    paid_sum = omega int_laws;
    free_sum = omega int_laws;
  }
  sweep-IsSweep (c ∷ cs) paid free = elim (Bool-cases (not_due dayjs now c)) [
    | inl e ↦
        let ih = sweep-IsSweep cs paid free in
        record { picks = rw e ih.picks; paid_sum = rw e ih.paid_sum; free_sum = rw e ih.free_sum }
    | inr e ↦
        let ih = sweep-IsSweep cs (paid +ℤ c.unspent_paid) (free +ℤ c.unspent_free) in
        let p = ih.paid_sum in
        let f = ih.free_sum in
        record {
          picks = rw e (ap (λ l. expiration c ∷ l) ih.picks);
          paid_sum = rw e (omega (int_laws, p));
          free_sum = rw e (omega (int_laws, f));
        }
  ]

  -- What a plan to expire says: exactly the due charges, and the balance without them.
  pub record IsExpiryPlan (w : ExpiryWorld) (p : ExpiryPlan) : Type 0 where
    pub expires : p.expirations ≡ map expiration (due w.charges)
    pub stamped : p.expired_at ≡ now
    pub assumed : p.assumed_balance ≡ w.snapshot
    pub paid_after :
        p.balance_after.paid_amount ≡ w.snapshot.paid_amount -ℤ held_paid (due w.charges)
    pub free_after :
        p.balance_after.free_amount ≡ w.snapshot.free_amount -ℤ held_free (due w.charges)
    pub total_after :
        p.balance_after.total_amount
        ≡ w.snapshot.total_amount -ℤ (held_paid (due w.charges) +ℤ held_free (due w.charges))

  -- The sweep expires exactly the charges whose deadline has come, in their order, and takes from
  -- the balance what they still held.
  pub plan_expiry-IsExpiryPlan : (w : ExpiryWorld) → IsExpiryPlan w (plan_expiry dayjs w now)
  unfolding plan_expiry
  plan_expiry-IsExpiryPlan w =
      let s = sweep-IsSweep w.charges (pos 0) (pos 0) in
      let p = s.paid_sum in
      let f = s.free_sum in
      record {
        expires = s.picks;
        stamped = refl;
        assumed = refl;
        paid_after = omega (int_laws, p);
        free_after = omega (int_laws, f);
        total_after = omega (int_laws, p, f);
      }

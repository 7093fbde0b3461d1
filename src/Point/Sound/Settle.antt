-- ===== src/Point/Sound/Settle.antt =====
-- The write of the balance that closes a plan, and what it makes of the invariant.
use ts_graphql_reference.Base.{
  ℕ, ◌≡◌, ◌≢◌, refl, sym, ap, ◌∙◌, Bool, true, false, not, some, ◌==◌, Bool-cases, inl, inr,
  &&-true, ==→eq, ==→ne, ==_refl, subst, not-false,
}
use ts_graphql_reference.Int.{ℤ, pos, ◌+ℤ◌, ◌-ℤ◌, int_laws}
use ts_graphql_reference.Failure.{Result, ok, err, concurrent_update, point_balance}
use ts_graphql_reference.Tx.{throw_if, >>=-ok, throw_if-ok, snd_or}
use ts_graphql_reference.Point.Data.{PointSnapshot}
use ts_graphql_reference.Point.Balance.{balance, snapshot-eq}
use ts_graphql_reference.Point.Tables.{
  Tables, BalanceRow, balance_check, find_balance, update_balances, update_where, count_where,
  all_checked,
}
use ts_graphql_reference.Point.Tables.Balances.{
  IsKeyed, rewrite_row, IsKeyed-update, find_balance-update_ne, find_balance-update_self,
}
use ts_graphql_reference.Point.Tables.Charges.{usable_paid, usable_free}
use ts_graphql_reference.Point.Client.{memory}
use ts_graphql_reference.Point.Repo.{or_zero, balance_still, apply_balance}
use ts_graphql_reference.Point.Sound.{IsSound, IsMoved}

-- The balance of `u` was `assumed` and is `after`; all else is as before.
pub record IsRebalanced (u : ℕ) (assumed after : PointSnapshot) (t t' : Tables) : Type 0 where
  pub was : find_balance u t.balances ≡ some assumed
  pub is : find_balance u t'.balances ≡ some after
  pub others : (v : ℕ) → v ≢ u → find_balance v t'.balances ≡ find_balance v t.balances
  pub keyed : IsKeyed t'.balances
  pub same_charges : t'.charges ≡ t.charges
  pub same_next : t'.next_charge ≡ t.next_charge

abbrev count_or : ℕ → Result (ℕ × Tables) → ℕ
count_or n (ok r) = r.0
count_or n (err e) = n

update_balances-ok :
    (matches : BalanceRow → Bool) (change : PointSnapshot → PointSnapshot) (t : Tables) {n : ℕ}
    {s : Tables}
    → update_balances matches change t ≡ ok (n, s)
    → (count_where matches t.balances ≡ n)
      × (record t { balances = update_where matches (rewrite_row change) t.balances } ≡ s)
unfolding update_balances
update_balances-ok matches change t {n} {s} h =
    let check = λ (r : BalanceRow). balance_check r.amounts in
    elim (Bool-cases (all_checked matches (rewrite_row change) check t.balances)) [
      | inl c ↦
          let g : ok (
            count_where matches t.balances,
            record t { balances = update_where matches (rewrite_row change) t.balances },
          )
              ≡ ok (n, s) =
            rw c at h in
          (ap (count_or n) g, ap (snd_or s) g)
      | inr c ↦ cc (rw c at h)
    ]

still-user :
    (u : ℕ) (s : PointSnapshot) (r : BalanceRow) → balance_still u s r ≡ true → r.user_id ≡ u
still-user u s r h = ==→eq r.user_id u (&&-true (r.user_id == u) _ h).0

pub apply_balance-IsRebalanced :
    (u : ℕ) (assumed after : PointSnapshot) (t : Tables) {t' : Tables}
    → IsKeyed t.balances
    → apply_balance memory u assumed after t ≡ ok (tt, t')
    → IsRebalanced u assumed after t t'
unfolding apply_balance
apply_balance-IsRebalanced u assumed after t k h =
    let matches = balance_still u assumed in
    let test = λ (count : ℕ). throw_if (not (count == 1)) (concurrent_update (point_balance u)) in
    let (n, s, e, f) = >>=-ok (update_balances matches (λ _. after)) test t h in
    let (m, w) = update_balances-ok matches (λ _. after) t e in
    let (b, q) = throw_if-ok (not (n == 1)) (concurrent_update (point_balance u)) s f in
    let one = m ∙ ==→eq n 1 (not-false _ b) in
    let (was, now) = find_balance-update_self u assumed after t.balances k one in
    subst (IsRebalanced u assumed after t) (w ∙ q) (record {
      was = was;
      is = now;
      others = λ v ne.
          find_balance-update_ne u v matches (λ _. after) t.balances (still-user u assumed) ne;
      keyed = IsKeyed-update matches (λ _. after) t.balances k;
      same_charges = refl;
      same_next = refl;
    })

unshared : (a b p : ℤ) → a +ℤ p ≡ b → a ≡ b -ℤ p
unshared a b p h = omega int_laws

module _ (u : ℕ) (paid free : ℤ) (assumed after : PointSnapshot) {t s t' : Tables}
    (sound : IsSound t) (moved : IsMoved u paid free t s)
    (rebalanced : IsRebalanced u assumed after s t')
    (paid_after : after.paid_amount ≡ assumed.paid_amount -ℤ paid)
    (free_after : after.free_amount ≡ assumed.free_amount -ℤ free)
    (total_after : after.total_amount ≡ assumed.total_amount -ℤ (paid +ℤ free)) where
  was_balanced : assumed ≡ balance (usable_paid u t.charges) (usable_free u t.charges)
  was_balanced =
      sym (
        ap or_zero
          (subst (λ l. find_balance u l ≡ some assumed) moved.same_balances rebalanced.was))
      ∙ sound.balanced u

  balanced_self :
      or_zero (find_balance u t'.balances)
      ≡ balance (usable_paid u t'.charges) (usable_free u t'.charges)
  balanced_self =
      let m : usable_paid u s.charges +ℤ paid ≡ usable_paid u t.charges =
        rw (==_refl u) at (moved.paid_moved u) in
      let g : usable_free u s.charges +ℤ free ≡ usable_free u t.charges =
        rw (==_refl u) at (moved.free_moved u) in
      let p : assumed.paid_amount ≡ usable_paid u t.charges =
        ap (λ x. x.paid_amount) was_balanced in
      let f : assumed.free_amount ≡ usable_free u t.charges =
        ap (λ x. x.free_amount) was_balanced in
      let a : assumed.total_amount ≡ usable_paid u t.charges +ℤ usable_free u t.charges =
        ap (λ x. x.total_amount) was_balanced in
      ap or_zero rebalanced.is
      ∙ rw rebalanced.same_charges (
          snapshot-eq {a = after} {b = balance (usable_paid u s.charges) (usable_free u s.charges)}
            (omega int_laws) (omega int_laws) (omega int_laws))

  balanced_other :
      (v : ℕ)
      → u == v ≡ false
      → or_zero (find_balance v t'.balances)
        ≡ balance (usable_paid v t'.charges) (usable_free v t'.charges)
  balanced_other v ne =
      let m : usable_paid v s.charges +ℤ pos 0 ≡ usable_paid v t.charges =
        rw ne at (moved.paid_moved v) in
      let g : usable_free v s.charges +ℤ pos 0 ≡ usable_free v t.charges =
        rw ne at (moved.free_moved v) in
      ap or_zero (rebalanced.others v (λ e. ==→ne u v ne (sym e)))
      ∙ ap (λ l. or_zero (find_balance v l)) moved.same_balances
      ∙ sound.balanced v
      ∙ rw rebalanced.same_charges (
          snapshot-eq {a = balance (usable_paid v t.charges) (usable_free v t.charges)}
            {b = balance (usable_paid v s.charges) (usable_free v s.charges)} (omega int_laws)
            (omega int_laws) (omega int_laws))

  pub settled : IsSound t'
  settled = record {
    kept = record {
      distinct = rw rebalanced.same_charges moved.kept.distinct;
      below = rw (rebalanced.same_charges, rebalanced.same_next) moved.kept.below;
      checked = rw rebalanced.same_charges moved.kept.checked;
    };
    keyed = rebalanced.keyed;
    balanced = λ v. elim (Bool-cases (u == v)) [
      | inl e ↦
          subst
            (λ w.
              or_zero (find_balance w t'.balances)
              ≡ balance (usable_paid w t'.charges) (usable_free w t'.charges))
            (==→eq u v e) balanced_self
      | inr e ↦ balanced_other v e
    ];
  }

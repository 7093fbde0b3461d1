-- ===== src/Point/Balance.antt =====
-- The conservation law of src/modules/point/point.core.ts: a stored balance equals the sum of the
-- usable charges.
use ts_graphql_reference.Base.{
  ℕ, ◌≡◌, refl, ◌∙◌, ◌↔◌, subst, Bool, true, ◌&&◌, not, List, [], ◌∷◌, Bool-cases, inl, inr,
  &&-true,
}
use ts_graphql_reference.Int.{ℤ, pos, ◌+ℤ◌, ◌==ℤ◌, int_laws, ==ℤ_iff, ==ℤ_refl}
use ts_graphql_reference.Failure.{Result, ok, throw_if, point_balance_drift}
use ts_graphql_reference.Point.Data.{PointSnapshot, ChargeBalance}
use ts_graphql_reference.Point.Spend.Allocation.{unspent_paid, unspent_free}

-- The loop of `sumUsableBalance`, over its two running sums.
unfoldable pub sum_from : ℤ → ℤ → List ChargeBalance → PointSnapshot
sum_from paid free [] = record {
  paid_amount = paid;
  free_amount = free;
  total_amount = paid +ℤ free;
}
sum_from paid free (charge ∷ charges) =
    sum_from (paid +ℤ charge.unspent_paid) (free +ℤ charge.unspent_free) charges

unfoldable pub sum_usable_balance : List ChargeBalance → PointSnapshot
unfolding sum_from
sum_usable_balance = sum_from (pos 0) (pos 0)

unfoldable pub balances_agree : PointSnapshot → PointSnapshot → Bool
balances_agree a b =
    a.paid_amount ==ℤ b.paid_amount
    && a.free_amount ==ℤ b.free_amount
    && a.total_amount ==ℤ b.total_amount

unfoldable pub assert_balance_consistent :
    ℕ → PointSnapshot → List ChargeBalance → Result (Unit {0})
assert_balance_consistent user_id stored charges =
    let computed = sum_usable_balance charges in
    throw_if (not (balances_agree stored computed)) (point_balance_drift user_id stored computed)

-- The balance with these two sides, and their sum as its total.
abbrev pub balance : ℤ → ℤ → PointSnapshot
balance paid free = record { paid_amount = paid; free_amount = free; total_amount = paid +ℤ free }

balance-eq : {a b c d : ℤ} → a ≡ b → c ≡ d → balance a c ≡ balance b d
balance-eq p q = λ i. balance (p i) (q i)

sum_from_lem :
    (paid free : ℤ) (cs : List ChargeBalance)
    → sum_from paid free cs ≡ balance (paid +ℤ unspent_paid cs) (free +ℤ unspent_free cs)
unfolding sum_from
sum_from_lem paid free [] = balance-eq (omega int_laws) (omega int_laws)
sum_from_lem paid free (c ∷ cs) =
    sum_from_lem (paid +ℤ c.unspent_paid) (free +ℤ c.unspent_free) cs
    ∙ balance-eq (omega int_laws) (omega int_laws)

pub sum_usable_balance_lem :
    (cs : List ChargeBalance) → sum_usable_balance cs ≡ balance (unspent_paid cs) (unspent_free cs)
unfolding sum_usable_balance
sum_usable_balance_lem cs =
    sum_from_lem (pos 0) (pos 0) cs ∙ balance-eq (omega int_laws) (omega int_laws)

pub snapshot-eq :
    {a b : PointSnapshot}
    → a.paid_amount ≡ b.paid_amount
    → a.free_amount ≡ b.free_amount
    → a.total_amount ≡ b.total_amount
    → a ≡ b
snapshot-eq p f t = λ i. record { paid_amount = p i; free_amount = f i; total_amount = t i }

balances_agree_refl : (a : PointSnapshot) → balances_agree a a ≡ true
unfolding balances_agree
balances_agree_refl a =
    rw (==ℤ_refl a.paid_amount, ==ℤ_refl a.free_amount) (==ℤ_refl a.total_amount)

pub balances_agree_iff : (a b : PointSnapshot) → (balances_agree a b ≡ true) ↔ (a ≡ b)
unfolding balances_agree
balances_agree_iff a b = (
  λ h.
      let (both, t) =
        &&-true (a.paid_amount ==ℤ b.paid_amount && a.free_amount ==ℤ b.free_amount)
          (a.total_amount ==ℤ b.total_amount) h in
      let (p, f) =
        &&-true (a.paid_amount ==ℤ b.paid_amount) (a.free_amount ==ℤ b.free_amount) both in
      snapshot-eq ((==ℤ_iff _ _).0 p) ((==ℤ_iff _ _).0 f) ((==ℤ_iff _ _).0 t),
  λ e. subst (λ x. balances_agree a x ≡ true) e (balances_agree_refl a),
)

-- The check passes exactly when the stored balance is the sum of the charges.
pub assert_balance_consistent_iff :
    (u : ℕ) (s : PointSnapshot) (cs : List ChargeBalance)
    → (assert_balance_consistent u s cs ≡ ok tt) ↔ (s ≡ sum_usable_balance cs)
unfolding assert_balance_consistent
assert_balance_consistent_iff u s cs =
    let i = balances_agree_iff s (sum_usable_balance cs) in
    (
      λ h. elim (Bool-cases (balances_agree s (sum_usable_balance cs))) [
        | inl e ↦ i.0 e
        | inr e ↦ cc (rw e at h)
      ],
      λ e. rw (i.1 e) refl,
    )

-- ===== src/Point/Sound/Verifying.antt =====
-- The audit of every balance: when it passes.
use ts_graphql_reference.Base.{ℕ, ◌≡◌, ◌↔◌, refl, sym, ap, ◌∙◌, List, [], ◌∷◌, All, inl, inr}
use ts_graphql_reference.Failure.{Result, ok, err, Result-cases}
use ts_graphql_reference.Tx.{lift}
use ts_graphql_reference.Uow
use ts_graphql_reference.Uow.{translated, rethrow}
use ts_graphql_reference.Point.Balance.{
  balance, assert_balance_consistent, assert_balance_consistent_iff, sum_usable_balance,
  sum_usable_balance_lem,
}
use ts_graphql_reference.Point.Tables.{Tables, find_unique_balance, find_usable_charges}
use ts_graphql_reference.Point.Tables.Charges.{usable_paid, usable_free}
use ts_graphql_reference.Point.Client.{memory, memory_base}
use ts_graphql_reference.Point.Repo.{load_point_world}
use ts_graphql_reference.Point.Service.{verify_body, verify_all}
use ts_graphql_reference.Point.Sound.{IsSound}
use ts_graphql_reference.Point.Sound.World.{loaded_sums}
use ts_graphql_reference.Point.Sound.Spending.{snapshot_of, charges_of}

-- The stored balance of `u` is the sum of the usable charges.
abbrev pub IsBalanced : Tables → ℕ → Type 0
IsBalanced t u = snapshot_of u t ≡ balance (usable_paid u t.charges) (usable_free u t.charges)

check_of : ℕ → Tables → Result (Unit {0})
check_of u t = assert_balance_consistent u (snapshot_of u t) (charges_of u t)

pub loaded_balance :
    (u : ℕ) (t : Tables)
    → sum_usable_balance (charges_of u t)
      ≡ balance (usable_paid u t.charges) (usable_free u t.charges)
loaded_balance u t =
    let (p, f) = loaded_sums u t in
    sum_usable_balance_lem (charges_of u t) ∙ (λ i. balance (p i) (f i))

check_iff : (u : ℕ) (t : Tables) → (check_of u t ≡ ok tt) ↔ IsBalanced t u
unfolding check_of
check_iff u t =
    let i = assert_balance_consistent_iff u (snapshot_of u t) (charges_of u t) in
    (λ h. i.0 h ∙ loaded_balance u t, λ b. i.1 (b ∙ sym (loaded_balance u t)))

-- What one audit makes of the check.
verdict : Result (Unit {0}) → Tables → Result (Unit {0}) × Tables
verdict (ok a) t = (ok a, t)
verdict (err e) t = (err (translated e), t)

in_transaction :
    (r : Result (Unit {0})) (t : Tables)
    → rethrow (memory_base.transaction Unit (λ s. lift r s) t) ≡ verdict r t
unfolding verdict
in_transaction (ok a) t = refl
in_transaction (err e) t = refl

verify_one :
    (u : ℕ) (t : Tables)
    → Uow.snapshot memory_base (verify_body memory u) t ≡ verdict (check_of u t) t
unfolding check_of verify_body load_point_world find_unique_balance find_usable_charges Uow.snapshot
    Uow.run_tx
verify_one u t = in_transaction (check_of u t) t

-- How the audit goes on after one verdict.
onward : List ℕ → Result (Unit {0}) × Tables → Result (Unit {0}) × Tables
onward users r =
    let rest = verify_all memory users r.1 in elim r.0 [ ok _ ↦ rest | err e ↦ (err e, r.1) ]

verify_all-step :
    (u : ℕ) (users : List ℕ) (t : Tables)
    → verify_all memory (u ∷ users) t ≡ onward users (verdict (check_of u t) t)
unfolding verify_all onward
verify_all-step u users t = ap (onward users) (verify_one u t)

-- The audit passes exactly when the stored balance of each user is the sum of the usable charges;
-- and it changes nothing.
pub verify_all_iff :
    (users : List ℕ) (t : Tables)
    → (verify_all memory users t ≡ (ok tt, t)) ↔ All (IsBalanced t) users
unfolding verify_all onward verdict
verify_all_iff [] t = (λ h. tt, λ h. refl)
verify_all_iff (u ∷ users) t =
    let ih = verify_all_iff users t in
    let step = verify_all-step u users t in
    elim (Result-cases (check_of u t)) [
      | inl (x, e) ↦
          let passed : verify_all memory (u ∷ users) t ≡ verify_all memory users t =
            step ∙ ap (λ r. onward users (verdict r t)) e in
          (λ h. ((check_iff u t).0 e, ih.0 (sym passed ∙ h)), λ a. passed ∙ ih.1 a.1)
      | inr (x, e) ↦
          let failed : verify_all memory (u ∷ users) t ≡ (err (translated x), t) =
            step ∙ ap (λ r. onward users (verdict r t)) e in
          (
            λ h. (let q = ap (λ r. r.0) (sym failed ∙ h) in cc q),
            λ a. (let c = (check_iff u t).1 a.0 in cc (sym c ∙ e)),
          )
    ]

-- In a sound ledger the audit of any users passes.
pub verify_all-IsSound :
    (users : List ℕ) (t : Tables) → IsSound t → verify_all memory users t ≡ (ok tt, t)
verify_all-IsSound users t s = (verify_all_iff users t).1 (everyone users)
  where
    everyone : (users : List ℕ) → All (IsBalanced t) users
    everyone [] = tt
    everyone (u ∷ users) = (s.balanced u, everyone users)

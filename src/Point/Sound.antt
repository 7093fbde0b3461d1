-- ===== src/Point/Sound.antt =====
-- The invariant of the point ledger, and how one guarded write moves its sums.
pub mod Steps
pub mod World
pub mod Settle
pub mod Spending
pub mod Raising
pub mod Charging
pub mod Gone
pub mod Expiring
pub mod Transferring
pub mod Verifying
pub mod Audited
pub mod Applying
pub mod Different
pub mod Succeeding
use ts_graphql_reference.Base.{
  ℕ, ◌≡◌, refl, sym, ap, ◌∙◌, Bool, true, false, ◌&&◌, not, Option, none, some, List, [], ◌∷◌, ◌==◌,
  ◌<◌, if◌then◌else◌, All, arith, Bool-cases, inl, inr,
}
use ts_graphql_reference.Int.{ℤ, pos, ◌+ℤ◌, ◌-ℤ◌, int_laws}
use ts_graphql_reference.Point.Data.{PointSnapshot}
use ts_graphql_reference.Point.Balance.{balance}
use ts_graphql_reference.Point.Tables.{ChargeRow, Tables, charge_check, find_charge, find_balance}
use ts_graphql_reference.Point.Tables.Balances.{IsKeyed}
use ts_graphql_reference.Point.Tables.Charges.{usable_paid, usable_free, IsDistinct}
use ts_graphql_reference.Point.Repo.{or_zero}

-- The charges have different identifiers, below the next one, and satisfy their constraints.
pub record IsKept (t : Tables) : Type 0 where
  pub distinct : IsDistinct t.charges
  pub below : All (λ r. r.id < t.next_charge) t.charges
  pub checked : All (λ r. charge_check r ≡ true) t.charges

-- The stored balance of every user is the sum of the user's usable charges; none stored is zero.
pub record IsSound (t : Tables) : Type 0 where
  pub kept : IsKept t
  pub keyed : IsKeyed t.balances
  pub balanced :
      (u : ℕ)
      → or_zero (find_balance u t.balances)
        ≡ balance (usable_paid u t.charges) (usable_free u t.charges)

-- The charge `i` is there and belongs to `u`.
pub record IsOwned (u : ℕ) (rows : List ChargeRow) (i : ℕ) : Type 0 where
  pub row : ChargeRow
  pub is_there : find_charge i rows ≡ some row
  pub owner : row.user_id ≡ u

-- `amount` for the user `u`, nothing for the others.
abbrev pub share : ℕ → ℕ → ℤ → ℤ
share u v amount = if u == v then amount else pos 0

-- From `t` to `t'` the usable charges of `u` have lost `paid` and `free`, and nothing else.
pub record IsMoved (u : ℕ) (paid free : ℤ) (t t' : Tables) : Type 0 where
  pub kept : IsKept t'
  pub paid_moved : (v : ℕ) → usable_paid v t'.charges +ℤ share u v paid ≡ usable_paid v t.charges
  pub free_moved : (v : ℕ) → usable_free v t'.charges +ℤ share u v free ≡ usable_free v t.charges
  pub owned : (i : ℕ) → IsOwned u t.charges i → IsOwned u t'.charges i
  pub same_balances : t'.balances ≡ t.balances

share-zero : (u v : ℕ) (a : ℤ) → a +ℤ share u v (pos 0) ≡ a
share-zero u v a = elim (Bool-cases (u == v)) [
  | inl e ↦ rw e (omega int_laws)
  | inr e ↦ rw e (omega int_laws)
]

pub IsMoved-refl : (u : ℕ) {t : Tables} → IsKept t → IsMoved u (pos 0) (pos 0) t t
IsMoved-refl u {t} k = record {
  kept = k;
  paid_moved = λ v. share-zero u v (usable_paid v t.charges);
  free_moved = λ v. share-zero u v (usable_free v t.charges);
  owned = λ i o. o;
  same_balances = refl;
}

share-add :
    (u v : ℕ) (a b c p q : ℤ)
    → b +ℤ share u v p ≡ a
    → c +ℤ share u v q ≡ b
    → c +ℤ share u v (p +ℤ q) ≡ a
share-add u v a b c p q h k = elim (Bool-cases (u == v)) [
  | inl e ↦
      rw e (let h' : b +ℤ p ≡ a = rw e at h in let k' : c +ℤ q ≡ b = rw e at k in omega int_laws)
  | inr e ↦
      rw e (
        let h' : b +ℤ pos 0 ≡ a = rw e at h in
        let k' : c +ℤ pos 0 ≡ b = rw e at k in omega int_laws)
]

pub IsMoved-trans :
    (u : ℕ) (p f q g : ℤ) {a b c : Tables}
    → IsMoved u p f a b
    → IsMoved u q g b c
    → IsMoved u (p +ℤ q) (f +ℤ g) a c
IsMoved-trans u p f q g h k = record {
  kept = k.kept;
  paid_moved = λ v. share-add u v _ _ _ p q (h.paid_moved v) (k.paid_moved v);
  free_moved = λ v. share-add u v _ _ _ f g (h.free_moved v) (k.free_moved v);
  owned = λ i o. k.owned i (h.owned i o);
  same_balances = k.same_balances ∙ h.same_balances;
}

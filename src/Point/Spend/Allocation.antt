-- ===== src/Point/Spend/Allocation.antt =====
-- The FIFO loop of `planSpend` takes exactly what the charges can give.
use ts_graphql_reference.Base.{
  ◌≡◌, inl, inr, true, ◌&&◌, List, [], ◌∷◌, ◌∙◌, Bool-cases, All, &&-true,
}
use ts_graphql_reference.Int.{
  ℤ, pos, ◌+ℤ◌, ◌-ℤ◌, ◌≤ℤ◌, ◌==ℤ◌, min_ℤ, int_laws, ==ℤ→eq, ==ℤ_iff, total_of,
}
use ts_graphql_reference.Point.Data.{ChargeBalance, SpendAllocation}
use ts_graphql_reference.Point.Spend.{allocation, allocate}

-- Neither remainder of the charge is negative.
abbrev pub IsUnspent : ChargeBalance → Type 0
IsUnspent c = (pos 0 ≤ℤ c.unspent_paid) × (pos 0 ≤ℤ c.unspent_free)

abbrev pub unspent_paid : List ChargeBalance → ℤ
unspent_paid [] = pos 0
unspent_paid (c ∷ cs) = c.unspent_paid +ℤ unspent_paid cs

abbrev pub unspent_free : List ChargeBalance → ℤ
unspent_free [] = pos 0
unspent_free (c ∷ cs) = c.unspent_free +ℤ unspent_free cs

abbrev pub paid_of : List SpendAllocation → ℤ
paid_of = total_of (λ a. a.paid)

abbrev pub free_of : List SpendAllocation → ℤ
free_of = total_of (λ a. a.free)

pub unspent_nonneg :
    (cs : List ChargeBalance)
    → All IsUnspent cs
    → (pos 0 ≤ℤ unspent_paid cs) × (pos 0 ≤ℤ unspent_free cs)
unspent_nonneg [] h = omega int_laws
unspent_nonneg (c ∷ cs) h = omega (int_laws, unspent_nonneg cs h.1)

-- What the loop has done with the charges, from what it had to cover.
pub record Covers (cs : List ChargeBalance) (paid free : ℤ) (r : List SpendAllocation × ℤ × ℤ)
    : Type 0 where
  pub paid_sum : paid_of r.0 +ℤ r.1 ≡ paid
  pub free_sum : free_of r.0 +ℤ r.2 ≡ free
  pub paid_left : r.1 ≡ paid -ℤ min_ℤ paid (unspent_paid cs)
  pub free_left : r.2 ≡ free -ℤ min_ℤ free (unspent_free cs)

Covers-done :
    (c : ChargeBalance) (cs : List ChargeBalance) (paid free : ℤ)
    → All IsUnspent (c ∷ cs)
    → (paid ==ℤ pos 0 && free ==ℤ pos 0) ≡ true
    → Covers (c ∷ cs) paid free ([], paid, free)
Covers-done c cs paid free h e =
    let (ep, ef) = &&-true _ _ e in
    let p : paid ≡ pos 0 = (==ℤ_iff paid (pos 0)).0 ep in
    let f : free ≡ pos 0 = (==ℤ_iff free (pos 0)).0 ef in
    let n = unspent_nonneg (c ∷ cs) h in
    record {
      paid_sum = omega int_laws;
      free_sum = omega int_laws;
      paid_left = rw p (omega int_laws);
      free_left = rw f (omega int_laws);
    }

module _ (c : ChargeBalance) (cs : List ChargeBalance) (paid free : ℤ) where
  Covers-skip :
      All IsUnspent (c ∷ cs)
      → pos 0 ≤ℤ paid
      → pos 0 ≤ℤ free
      → (allocation c paid free).paid +ℤ (allocation c paid free).free ==ℤ pos 0 ≡ true
      → Covers cs paid free (allocate cs paid free)
      → Covers (c ∷ cs) paid free (allocate cs paid free)
  unfolding allocation
  Covers-skip h hp hf e ih =
      let n = unspent_nonneg cs h.1 in
      let a = allocation c paid free in
      let z = ==ℤ→eq (a.paid +ℤ a.free) (pos 0) e in
      record {
        paid_sum = ih.paid_sum;
        free_sum = ih.free_sum;
        paid_left = ih.paid_left ∙ omega int_laws;
        free_left = ih.free_left ∙ omega int_laws;
      }

  Covers-take :
      All IsUnspent (c ∷ cs)
      → pos 0 ≤ℤ paid
      → pos 0 ≤ℤ free
      → let a = allocation c paid free in
        let r = allocate cs (paid -ℤ a.paid) (free -ℤ a.free) in
        Covers cs (paid -ℤ a.paid) (free -ℤ a.free) r
        → Covers (c ∷ cs) paid free (a ∷ r.0, r.1, r.2)
  unfolding allocation
  Covers-take h hp hf ih =
      let n = unspent_nonneg cs h.1 in
      record {
        paid_sum = omega (int_laws, ih.paid_sum);
        free_sum = omega (int_laws, ih.free_sum);
        paid_left = ih.paid_left ∙ omega int_laws;
        free_left = ih.free_left ∙ omega int_laws;
      }

-- The parts of an allocation lie between nothing and what is asked for or there.
pub record Within (c : ChargeBalance) (paid free : ℤ) (a : SpendAllocation) : Type 0 where
  pub paid_low : pos 0 ≤ℤ a.paid
  pub free_low : pos 0 ≤ℤ a.free
  pub paid_high : a.paid ≤ℤ paid
  pub free_high : a.free ≤ℤ free
  pub paid_there : a.paid ≤ℤ c.unspent_paid
  pub free_there : a.free ≤ℤ c.unspent_free

pub allocation-Within :
    (c : ChargeBalance) (paid free : ℤ)
    → IsUnspent c
    → pos 0 ≤ℤ paid
    → pos 0 ≤ℤ free
    → Within c paid free (allocation c paid free)
unfolding allocation
allocation-Within c paid free h hp hf = omega int_laws

-- The loop covers `paid` and `free` as far as the charges reach.
pub allocate-Covers :
    (cs : List ChargeBalance) (paid free : ℤ)
    → All IsUnspent cs
    → pos 0 ≤ℤ paid
    → pos 0 ≤ℤ free
    → Covers cs paid free (allocate cs paid free)
unfolding allocate
allocate-Covers [] paid free h hp hf = omega int_laws
allocate-Covers (c ∷ cs) paid free h hp hf =
    let a = allocation c paid free in
    let w = allocation-Within c paid free h.0 hp hf in
    elim (Bool-cases (paid ==ℤ pos 0 && free ==ℤ pos 0)) [
      | inl e ↦ rw e (Covers-done c cs paid free h e)
      | inr e ↦ rw e (elim (Bool-cases (a.paid +ℤ a.free ==ℤ pos 0)) [
        | inl z ↦
            rw z (Covers-skip c cs paid free h hp hf z (allocate-Covers cs paid free h.1 hp hf))
        | inr z ↦ rw z (
            Covers-take c cs paid free h hp hf (
              allocate-Covers cs (paid -ℤ (allocation c paid free).paid)
                (free -ℤ (allocation c paid free).free) h.1 (omega (int_laws, w.paid_high))
                (omega (int_laws, w.free_high))))
      ])
    ]

-- How the allocations stand in the charges: each takes from one charge, in the charges' order,
-- no more than is there, and is marked as depleting exactly when it takes all.
pub data Picks : List ChargeBalance → List SpendAllocation → Type 0 where
  none_left : {cs : List ChargeBalance} → Picks cs []
  skip :
      {c : ChargeBalance} {cs : List ChargeBalance} {l : List SpendAllocation}
      → Picks cs l
      → Picks (c ∷ cs) l
  take :
      {c : ChargeBalance} {cs : List ChargeBalance} {l : List SpendAllocation} (paid free : ℤ)
      → Within c paid free (allocation c paid free)
      → Picks cs l
      → Picks (c ∷ cs) (allocation c paid free ∷ l)

pub allocate-Picks :
    (cs : List ChargeBalance) (paid free : ℤ)
    → All IsUnspent cs
    → pos 0 ≤ℤ paid
    → pos 0 ≤ℤ free
    → Picks cs (allocate cs paid free).0
unfolding allocate
allocate-Picks [] paid free h hp hf = none_left
allocate-Picks (c ∷ cs) paid free h hp hf =
    let a = allocation c paid free in
    let w = allocation-Within c paid free h.0 hp hf in
    elim (Bool-cases (paid ==ℤ pos 0 && free ==ℤ pos 0)) [
      | inl e ↦ rw e none_left
      | inr e ↦ rw e (elim (Bool-cases (a.paid +ℤ a.free ==ℤ pos 0)) [
        | inl z ↦ rw z (skip (allocate-Picks cs paid free h.1 hp hf))
        | inr z ↦ rw z (
            take paid free w (
              allocate-Picks cs (paid -ℤ (allocation c paid free).paid)
                (free -ℤ (allocation c paid free).free) h.1 (omega (int_laws, w.paid_high))
                (omega (int_laws, w.free_high))))
      ])
    ]

-- ===== src/Point/Spend/Fifo.antt =====
-- The order of spending: later charges are asked only for what the earlier ones could not give.
use ts_graphql_reference.Base.{
  ◌≡◌, refl, sym, ap, inl, inr, true, ◌&&◌, List, [], ◌∷◌, ◌++◌, Bool-cases,
}
use ts_graphql_reference.Int.{ℤ, pos, ◌+ℤ◌, ◌-ℤ◌, ◌==ℤ◌}
use ts_graphql_reference.Point.Data.{ChargeBalance, SpendAllocation}
use ts_graphql_reference.Point.Spend.{allocation, allocate}

-- One run of the loop after another, on what the first left.
abbrev pub resume : List SpendAllocation × ℤ × ℤ → List ChargeBalance → List SpendAllocation × ℤ × ℤ
resume r cs = let s = allocate cs r.1 r.2 in (r.0 ++ s.0, s.1, s.2)

resume-covered :
    (cs : List ChargeBalance) (paid free : ℤ)
    → (paid ==ℤ pos 0 && free ==ℤ pos 0) ≡ true
    → resume ([], paid, free) cs ≡ ([], paid, free)
unfolding allocate
resume-covered [] paid free e = refl
resume-covered (c ∷ cs) paid free e = rw e

-- Spending over two runs of charges is spending over the first, then over the second for what
-- the first left uncovered.
pub allocate-append :
    (xs ys : List ChargeBalance) (paid free : ℤ)
    → allocate (xs ++ ys) paid free ≡ resume (allocate xs paid free) ys
unfolding allocate
allocate-append [] ys paid free = refl
allocate-append (c ∷ xs) ys paid free =
    let a = allocation c paid free in
    elim (Bool-cases (paid ==ℤ pos 0 && free ==ℤ pos 0)) [
      | inl e ↦ rw e (sym (resume-covered ys paid free e))
      | inr e ↦ rw e (elim (Bool-cases (a.paid +ℤ a.free ==ℤ pos 0)) [
        | inl z ↦ rw z (allocate-append xs ys paid free)
        | inr z ↦ rw z (
            ap (λ r. (allocation c paid free ∷ r.0, r.1, r.2))
              (allocate-append xs ys (paid -ℤ (allocation c paid free).paid)
                (free -ℤ (allocation c paid free).free)))
      ])
    ]

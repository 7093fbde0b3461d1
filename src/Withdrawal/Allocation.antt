-- ===== src/Withdrawal/Allocation.antt =====
-- A withdrawal takes from its lots what a reservation of the same amount takes.
use ts_graphql_reference.Base.{
  ◌≡◌, refl, sym, ap, ◌∙◌, subst, false, ◌||◌, List, [], ◌∷◌, map, All, Bool-cases, inl, inr,
  ||-false,
}
use ts_graphql_reference.Int.{
  ℤ, pos, ◌-ℤ◌, ◌≤ℤ◌, ◌<ℤ◌, ◌==ℤ◌, ltb_ℤ, leb_ℤ, min_ℤ, int_laws, leb_ℤ→gt, ltb_ℤ→ge, gt→leb_ℤ,
  Number, whole, fractional, max_safe_integer,
}
use ts_graphql_reference.Failure.{ok, >>=-ok, throw_if-ok, insufficient_income}
use ts_graphql_reference.Ledger.{
  FinancialLotBalance, FinancialAllocation, reserve, plan_reservation, assert_financial_amount,
}
use ts_graphql_reference.Ledger.Reservation.{HasFunds, funds, IsReservation, reserve-IsReserve}
use ts_graphql_reference.Withdrawal.{
  IncomeLot, IncomeAllocation, IncomeWithdrawalWorld, IncomeWithdrawalInput, IncomeWithdrawalPlan,
  withdraw, withdrawal_plan, assert_withdrawal_amount, plan_income_withdrawal,
}

-- The lot and the allocation as the ledger has them.
abbrev pub as_lot : IncomeLot → FinancialLotBalance
as_lot lot = record { lot_id = lot.lot_id; remaining_amount = lot.remaining_amount }

abbrev pub as_allocation : IncomeAllocation → FinancialAllocation
as_allocation a = record {
  lot_id = a.lot_id;
  amount = a.amount;
  assumed_remaining_amount = a.assumed_remaining_amount;
}

-- The two loops agree.
pub withdraw-reserve :
    (lots : List IncomeLot) (n : ℤ)
    → (map as_allocation (withdraw lots n).0 ≡ (reserve (map as_lot lots) n).0)
      × ((withdraw lots n).1 ≡ (reserve (map as_lot lots) n).1)
unfolding withdraw reserve
withdraw-reserve [] n = (refl, refl)
withdraw-reserve (lot ∷ lots) n = elim (Bool-cases (n ==ℤ pos 0)) [
  | inl e ↦ rw e (refl, refl)
  | inr e ↦
      let a = min_ℤ lot.remaining_amount n in
      elim (Bool-cases (ltb_ℤ (pos 0) a)) [
        | inl g ↦
            let (p, q) = withdraw-reserve lots (n -ℤ a) in
            rw (e, g)
              (
                ap
                    (λ l.
                      record {
                        lot_id = lot.lot_id;
                        amount = a;
                        assumed_remaining_amount = lot.remaining_amount;
                      }
                      ∷ l)
                    p,
                q,
              )
        | inr g ↦ rw (e, g) (withdraw-reserve lots n)
      ]
]

assert_withdrawal_amount-ok :
    (amount : Number) {n : ℤ}
    → assert_withdrawal_amount amount ≡ ok n
    → (amount ≡ whole n) × (pos 0 <ℤ n) × (n ≤ℤ max_safe_integer)
unfolding assert_withdrawal_amount
assert_withdrawal_amount-ok (whole m) {n} h =
    elim (Bool-cases (leb_ℤ m (pos 0) || ltb_ℤ max_safe_integer m)) [
      | inl e ↦ cc (rw e at h)
      | inr e ↦
          let g : ok m ≡ ok n = rw e at h in
          let q : m ≡ n = cc g in
          let (a, b) = ||-false (leb_ℤ m (pos 0)) (ltb_ℤ max_safe_integer m) e in
          (
            ap whole q,
            subst (λ x. pos 0 <ℤ x) q (leb_ℤ→gt m (pos 0) a),
            subst (λ x. x ≤ℤ max_safe_integer) q (ltb_ℤ→ge max_safe_integer m b),
          )
    ]
assert_withdrawal_amount-ok fractional h = cc

-- What a planned withdrawal says.
pub record IsWithdrawal (world : IncomeWithdrawalWorld) (input : IncomeWithdrawalInput) (n : ℤ)
    (p : IncomeWithdrawalPlan) : Type 0 where
  pub asked : input.amount ≡ whole n
  pub safe : n ≤ℤ max_safe_integer
  pub fits : n ≤ℤ funds (map as_lot world.lots)
  pub reservation :
      IsReservation
        (map as_lot world.lots)
        n
        (map as_allocation p.reservation_request.transfer.allocations)
  pub held : p.reservation_request.amount ≡ n
  pub transferred : p.reservation_request.transfer.amount ≡ n
  pub same_reservation :
      plan_reservation (map as_lot world.lots) input.amount
      ≡ ok (map as_allocation p.reservation_request.transfer.allocations)

plan_reservation-whole :
    (lots : List FinancialLotBalance) (n : ℤ)
    → pos 0 <ℤ n
    → ltb_ℤ (pos 0) (reserve lots n).1 ≡ false
    → plan_reservation lots (whole n) ≡ ok (reserve lots n).0
unfolding plan_reservation assert_financial_amount
plan_reservation-whole lots n p h = rw (gt→leb_ℤ n (pos 0) p, h) refl

-- A withdrawal that is planned, over lots that hold nothing negative, is of a positive safe integer
-- that the lots cover; it holds and transfers exactly that, from the lots in their order; and a
-- reservation of the same amount makes the same allocations.
pub plan_income_withdrawal-IsWithdrawal :
    (world : IncomeWithdrawalWorld) (input : IncomeWithdrawalInput) {p : IncomeWithdrawalPlan}
    → All HasFunds (map as_lot world.lots)
    → plan_income_withdrawal world input ≡ ok p
    → (n : ℤ) × IsWithdrawal world input n p
unfolding plan_income_withdrawal withdrawal_plan
plan_income_withdrawal-IsWithdrawal world input {p} h k =
    let lots = map as_lot world.lots in
    let (n, e, f) = >>=-ok (assert_withdrawal_amount input.amount) _ k in
    let (a, pos_n, safe) = assert_withdrawal_amount-ok input.amount e in
    let (z, g) =
      throw_if-ok (ltb_ℤ (pos 0) (withdraw world.lots n).1)
        (insufficient_income (n -ℤ (withdraw world.lots n).1) n) _ f in
    let (same, same_left) = withdraw-reserve world.lots n in
    let r = reserve-IsReserve lots n h (omega int_laws) in
    let z' : ltb_ℤ (pos 0) (reserve lots n).1 ≡ false =
      ap (λ x. ltb_ℤ (pos 0) x) (sym same_left) ∙ z in
    let nothing_left = ltb_ℤ→ge (pos 0) (reserve lots n).1 z' in
    let s = r.sum in
    let left = r.left in
    let q : withdrawal_plan world input n (withdraw world.lots n).0 ≡ p = cc g in
    (
      n,
      subst (IsWithdrawal world input n) q (record {
        asked = a;
        safe = safe;
        fits = omega (int_laws, left);
        reservation =
            subst (IsReservation lots n) (sym same)
              (record { positive = pos_n; exact = omega (int_laws, s, left); draws = r.draws });
        held = refl;
        transferred = refl;
        same_reservation =
            ap (plan_reservation lots) a
            ∙ plan_reservation-whole lots n pos_n z'
            ∙ ap ok (sym same);
      }),
    )

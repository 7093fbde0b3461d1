-- ===== src/Ledger/Reservation.antt =====
-- What the loop of `planReservation` takes, and when a reservation is planned.
use ts_graphql_reference.Base.{
  ◌≡◌, refl, ap, subst, List, [], ◌∷◌, All, Bool-cases, inl, inr, if◌then◌else◌,
}
use ts_graphql_reference.Int.{
  ℤ, pos, ◌+ℤ◌, ◌-ℤ◌, ◌≤ℤ◌, ◌<ℤ◌, ◌==ℤ◌, ltb_ℤ, leb_ℤ, min_ℤ, int_laws, ==ℤ→eq, ==ℤ→ne, ltb_ℤ→lt,
  ltb_ℤ→ge, leb_ℤ→le, ge→ltb_ℤ, gt→leb_ℤ, leb_ℤ→gt, lt→ltb_ℤ, total_of, Number, whole, fractional,
}
use ts_graphql_reference.Failure.{ok, err, >>=-ok, throw_if-ok, insufficient_financial_funds}
use ts_graphql_reference.Ledger.{
  FinancialLotBalance, FinancialAllocation, assert_financial_amount, reserve, plan_reservation,
}

abbrev pub HasFunds : FinancialLotBalance → Type 0
HasFunds lot = pos 0 ≤ℤ lot.remaining_amount

abbrev pub funds : List FinancialLotBalance → ℤ
funds = total_of (λ lot. lot.remaining_amount)

abbrev pub reserved : List FinancialAllocation → ℤ
reserved = total_of (λ a. a.amount)

-- `a` takes something from `lot`, no more than it has, and assumes what it has.
pub record IsFrom (lot : FinancialLotBalance) (a : FinancialAllocation) : Type 0 where
  pub same_lot : a.lot_id ≡ lot.lot_id
  pub positive : pos 0 <ℤ a.amount
  pub fits : a.amount ≤ℤ lot.remaining_amount
  pub assumes : a.assumed_remaining_amount ≡ lot.remaining_amount

-- Allocations from some of the lots, in the lots' order, at most one from each.
pub data Draws : List FinancialLotBalance → List FinancialAllocation → Type 0 where
  none_left : {lots : List FinancialLotBalance} → Draws lots []
  skip :
      {lot : FinancialLotBalance} {lots : List FinancialLotBalance} {l : List FinancialAllocation}
      → Draws lots l
      → Draws (lot ∷ lots) l
  take :
      {lot : FinancialLotBalance} {lots : List FinancialLotBalance} {a : FinancialAllocation}
      {l : List FinancialAllocation}
      → IsFrom lot a
      → Draws lots l
      → Draws (lot ∷ lots) (a ∷ l)

pub funds_nonneg : (lots : List FinancialLotBalance) → All HasFunds lots → pos 0 ≤ℤ funds lots
funds_nonneg [] h = omega int_laws
funds_nonneg (lot ∷ lots) h = omega (int_laws, funds_nonneg lots h.1)

-- What the loop has done, from what it had to allocate.
pub record IsReserve (lots : List FinancialLotBalance) (n : ℤ) (r : List FinancialAllocation × ℤ)
    : Type 0 where
  pub sum : reserved r.0 +ℤ r.1 ≡ n
  pub left : r.1 ≡ n -ℤ min_ℤ n (funds lots)
  pub draws : Draws lots r.0

pub reserve-IsReserve :
    (lots : List FinancialLotBalance) (n : ℤ)
    → All HasFunds lots
    → pos 0 ≤ℤ n
    → IsReserve lots n (reserve lots n)
unfolding reserve
reserve-IsReserve [] n h p = record {
  sum = omega int_laws;
  left = omega int_laws;
  draws = none_left;
}
reserve-IsReserve (lot ∷ lots) n h p = elim (Bool-cases (n ==ℤ pos 0)) [
  | inl e ↦
      let z = ==ℤ→eq n (pos 0) e in
      let f = funds_nonneg lots h.1 in
      record { sum = rw e (omega int_laws); left = rw e (omega int_laws); draws = rw e none_left }
  | inr e ↦
      let a = min_ℤ lot.remaining_amount n in
      elim (Bool-cases (ltb_ℤ (pos 0) a)) [
        | inl g ↦
            let lt = ltb_ℤ→lt (pos 0) a g in
            let ih = reserve-IsReserve lots (n -ℤ a) h.1 (omega int_laws) in
            let s = ih.sum in
            let l = ih.left in
            let f = funds_nonneg lots h.1 in
            record {
              sum = rw (e, g) (omega (int_laws, s));
              left = rw (e, g) (omega (int_laws, l));
              draws =
                  rw (e, g)
                    (take
                      (record {
                        same_lot = refl;
                        positive = lt;
                        fits = omega int_laws;
                        assumes = refl;
                      })
                      ih.draws);
            }
        | inr g ↦
            let ge = ltb_ℤ→ge (pos 0) a g in
            let ne = ==ℤ→ne n (pos 0) e in
            let ih = reserve-IsReserve lots n h.1 p in
            let s = ih.sum in
            let l = ih.left in
            record {
              sum = rw (e, g) (omega (int_laws, s));
              left = rw (e, g) (omega (int_laws, l));
              draws = rw (e, g) (skip ih.draws);
            }
      ]
]

-- A planned reservation takes exactly the amount.
pub record IsReservation (lots : List FinancialLotBalance) (n : ℤ) (l : List FinancialAllocation)
    : Type 0 where
  pub positive : pos 0 <ℤ n
  pub exact : reserved l ≡ n
  pub draws : Draws lots l

module _ (lots : List FinancialLotBalance) (h : All HasFunds lots) (n : ℤ) (p : pos 0 <ℤ n) where
  -- A positive amount that the lots cover is reserved.
  pub plan_reservation-covered :
      n ≤ℤ funds lots → plan_reservation lots (whole n) ≡ ok (reserve lots n).0
  unfolding plan_reservation
  plan_reservation-covered fits =
      let r = reserve-IsReserve lots n h (omega int_laws) in
      let s = r.left in
      rw (gt→leb_ℤ n (pos 0) p, ge→ltb_ℤ (pos 0) (reserve lots n).1 (omega (int_laws, s))) refl

  -- One that they do not cover is refused, with what there is.
  pub plan_reservation-short :
      funds lots <ℤ n
      → plan_reservation lots (whole n) ≡ err (insufficient_financial_funds (funds lots) n)
  unfolding plan_reservation
  plan_reservation-short short =
      let r = reserve-IsReserve lots n h (omega int_laws) in
      let s = r.left in
      let f = funds_nonneg lots h in
      let have : n -ℤ (reserve lots n).1 ≡ funds lots = omega (int_laws, s) in
      rw (gt→leb_ℤ n (pos 0) p, lt→ltb_ℤ (pos 0) (reserve lots n).1 (omega (int_laws, s)))
        (ap (λ x. err (insufficient_financial_funds x n)) have)

assert_financial_amount-ok :
    (amount : Number) {n : ℤ}
    → assert_financial_amount amount ≡ ok n
    → (amount ≡ whole n) × (pos 0 <ℤ n)
unfolding assert_financial_amount
assert_financial_amount-ok (whole m) {n} h = elim (Bool-cases (leb_ℤ m (pos 0))) [
  | inl e ↦ cc (rw e at h)
  | inr e ↦
      let g : ok m ≡ ok n = rw e at h in
      let q : m ≡ n = cc g in (ap whole q, subst (λ x. pos 0 <ℤ x) q (leb_ℤ→gt m (pos 0) e))
]
assert_financial_amount-ok fractional h = cc

-- A reservation that is planned, over lots that hold nothing negative, is of a positive whole
-- number that the lots cover; it takes exactly that, in the order of the lots, from each at most
-- what it has.
pub plan_reservation-IsReservation :
    (lots : List FinancialLotBalance) (amount : Number) {l : List FinancialAllocation}
    → All HasFunds lots
    → plan_reservation lots amount ≡ ok l
    → (n : ℤ) × (amount ≡ whole n) × (n ≤ℤ funds lots) × IsReservation lots n l
unfolding plan_reservation
plan_reservation-IsReservation lots amount {l} h k =
    let (n, e, f) = >>=-ok (assert_financial_amount amount) _ k in
    let (a, p) = assert_financial_amount-ok amount e in
    let r = reserve-IsReserve lots n h (omega int_laws) in
    let (z, g) =
      throw_if-ok (ltb_ℤ (pos 0) (reserve lots n).1)
        (insufficient_financial_funds (n -ℤ (reserve lots n).1) n) _ f in
    let none_left = ltb_ℤ→ge (pos 0) (reserve lots n).1 z in
    let s = r.sum in
    let left = r.left in
    let q : (reserve lots n).0 ≡ l = cc g in
    (
      n,
      a,
      omega (int_laws, left),
      subst (IsReservation lots n) q
          (record { positive = p; exact = omega (int_laws, s, left); draws = r.draws }),
    )

-- The one decision: lots that cover the positive amount give a reservation, others an error that
-- says what there is.
pub plan_reservation_complete :
    (lots : List FinancialLotBalance) (n : ℤ)
    → All HasFunds lots
    → pos 0 <ℤ n
    → (if leb_ℤ n (funds lots)
        then plan_reservation lots (whole n) ≡ ok (reserve lots n).0
        else plan_reservation lots (whole n) ≡ err (insufficient_financial_funds (funds lots) n))
plan_reservation_complete lots n h p = elim (Bool-cases (leb_ℤ n (funds lots))) [
  | inl e ↦ rw e (plan_reservation-covered lots h n p (leb_ℤ→le n (funds lots) e))
  | inr e ↦ rw e (plan_reservation-short lots h n p (leb_ℤ→gt n (funds lots) e))
]

-- ===== src/Point/Sound/Different.antt =====
-- The charges that a spend loads are different ones, so the allocations of its plan are apart.
use ts_graphql_reference.Base.{
  ℕ, ◌≡◌, Bool, false, List, [], ◌∷◌, map, arith, Bool-cases, inl, inr, ◌==◌,
}
use ts_graphql_reference.Point.Data.{ChargeBalance, SpendAllocation}
use ts_graphql_reference.Point.Spend.{allocation}
use ts_graphql_reference.Point.Spend.Allocation.{Picks, none_left, skip, take}
use ts_graphql_reference.Point.Tables.{ChargeRow, select_where, charged_before, insert_by, order_by}
use ts_graphql_reference.Point.Tables.Charges.{HasNoId, IsDistinct}
use ts_graphql_reference.Point.Repo.{charge_balance}
use ts_graphql_reference.Point.Sound.Applying.{NoneOf, Apart}

-- The loaded charges are different ones.
HasNoId-select :
    (i : ℕ) (matches : ChargeRow → Bool) (rows : List ChargeRow)
    → HasNoId i rows
    → HasNoId i (select_where matches rows)
unfolding select_where
HasNoId-select i matches [] h = tt
HasNoId-select i matches (r ∷ rows) h = elim (Bool-cases (matches r)) [
  | inl e ↦ rw e (h.0, HasNoId-select i matches rows h.1)
  | inr e ↦ rw e (HasNoId-select i matches rows h.1)
]

pub IsDistinct-select :
    (matches : ChargeRow → Bool) (rows : List ChargeRow)
    → IsDistinct rows
    → IsDistinct (select_where matches rows)
unfolding select_where
IsDistinct-select matches [] h = tt
IsDistinct-select matches (r ∷ rows) h = elim (Bool-cases (matches r)) [
  | inl e ↦ rw e (HasNoId-select r.id matches rows h.0, IsDistinct-select matches rows h.1)
  | inr e ↦ rw e (IsDistinct-select matches rows h.1)
]

HasNoId-insert :
    (i : ℕ) (r : ChargeRow) (rows : List ChargeRow)
    → r.id == i ≡ false
    → HasNoId i rows
    → HasNoId i (insert_by r rows)
unfolding insert_by
HasNoId-insert i r [] n h = (n, tt)
HasNoId-insert i r (x ∷ rows) n h = elim (Bool-cases (charged_before r x)) [
  | inl e ↦ rw e (n, h)
  | inr e ↦ rw e (h.0, HasNoId-insert i r rows n h.1)
]

different : (a b : ℕ) → a == b ≡ false → b == a ≡ false
different a b h = ground arith

IsDistinct-insert :
    (r : ChargeRow) (rows : List ChargeRow)
    → HasNoId r.id rows
    → IsDistinct rows
    → IsDistinct (insert_by r rows)
unfolding insert_by
IsDistinct-insert r [] n h = (tt, tt)
IsDistinct-insert r (x ∷ rows) n h = elim (Bool-cases (charged_before r x)) [
  | inl e ↦ rw e (n, h)
  | inr e ↦
      rw e
        (HasNoId-insert x.id r rows (different x.id r.id n.0) h.0, IsDistinct-insert r rows n.1 h.1)
]

HasNoId-order : (i : ℕ) (rows : List ChargeRow) → HasNoId i rows → HasNoId i (order_by rows)
unfolding order_by
HasNoId-order i [] h = tt
HasNoId-order i (r ∷ rows) h = HasNoId-insert i r (order_by rows) h.0 (HasNoId-order i rows h.1)

pub IsDistinct-order : (rows : List ChargeRow) → IsDistinct rows → IsDistinct (order_by rows)
unfolding order_by
IsDistinct-order [] h = tt
IsDistinct-order (r ∷ rows) h =
    IsDistinct-insert r (order_by rows) (HasNoId-order r.id rows h.0) (IsDistinct-order rows h.1)

-- The same of charges as a plan reads them.
abbrev NoCharge : ℕ → List ChargeBalance → Type 0
NoCharge i [] = Unit
NoCharge i (c ∷ cs) = (c.id == i ≡ false) × NoCharge i cs

abbrev pub AreDifferent : List ChargeBalance → Type 0
AreDifferent [] = Unit
AreDifferent (c ∷ cs) = NoCharge c.id cs × AreDifferent cs

NoCharge-map :
    (i : ℕ) (rows : List ChargeRow) → HasNoId i rows → NoCharge i (map charge_balance rows)
NoCharge-map i [] h = tt
NoCharge-map i (r ∷ rows) h = (h.0, NoCharge-map i rows h.1)

pub AreDifferent-map :
    (rows : List ChargeRow) → IsDistinct rows → AreDifferent (map charge_balance rows)
AreDifferent-map [] h = tt
AreDifferent-map (r ∷ rows) h = (NoCharge-map r.id rows h.0, AreDifferent-map rows h.1)

-- Picks from different charges are allocations that are apart.
Picks-none_left :
    (i : ℕ) {cs : List ChargeBalance} {l : List SpendAllocation}
    → NoCharge i cs
    → Picks cs l
    → NoneOf i l
unfolding allocation
Picks-none_left i h none_left = tt
Picks-none_left i h (skip p) = Picks-none_left i h.1 p
Picks-none_left i h (take paid free w p) = (h.0, Picks-none_left i h.1 p)

pub Picks-Apart :
    {cs : List ChargeBalance} {l : List SpendAllocation} → AreDifferent cs → Picks cs l → Apart l
unfolding allocation
Picks-Apart h none_left = tt
Picks-Apart h (skip p) = Picks-Apart h.1 p
Picks-Apart h (take {c} paid free w p) = (Picks-none_left c.id h.0 p, Picks-Apart h.1 p)

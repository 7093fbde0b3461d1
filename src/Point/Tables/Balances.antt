-- ===== src/Point/Tables/Balances.antt =====
-- A guarded write of one balance, on rows of different users.
use ts_graphql_reference.Base.{
  ℕ, ◌≡◌, ◌≢◌, refl, inl, inr, Bool, true, false, none, some, List, [], ◌∷◌, ◌==◌, arith,
  Bool-cases, if◌then◌else◌, ap, ==→eq, subst, suc,
}
use ts_graphql_reference.Point.Data.{PointSnapshot}
use ts_graphql_reference.Point.Balance.{balances_agree, balances_agree_iff}
use ts_graphql_reference.Point.Tables.{BalanceRow, find_balance, update_where, count_where}
use ts_graphql_reference.Point.Repo.{balance_still}

-- No row of the user.
abbrev pub HasNone : ℕ → List BalanceRow → Type 0
HasNone u [] = Unit
HasNone u (r ∷ rows) = (r.user_id == u ≡ false) × HasNone u rows

abbrev pub IsKeyed : List BalanceRow → Type 0
IsKeyed [] = Unit
IsKeyed (r ∷ rows) = HasNone r.user_id rows × IsKeyed rows

-- The row with other amounts.
abbrev pub rewrite_row : (PointSnapshot → PointSnapshot) → BalanceRow → BalanceRow
rewrite_row change r = record r { amounts = change r.amounts }

module _ (matches : BalanceRow → Bool) (change : PointSnapshot → PointSnapshot) where
  HasNone-update :
      (u : ℕ) (rows : List BalanceRow)
      → HasNone u rows
      → HasNone u (update_where matches (rewrite_row change) rows)
  unfolding update_where
  HasNone-update u [] h = tt
  HasNone-update u (r ∷ rows) h = elim (Bool-cases (matches r)) [
    | inl e ↦ rw e (h.0, HasNone-update u rows h.1)
    | inr e ↦ rw e (h.0, HasNone-update u rows h.1)
  ]

  pub IsKeyed-update :
      (rows : List BalanceRow)
      → IsKeyed rows
      → IsKeyed (update_where matches (rewrite_row change) rows)
  unfolding update_where
  IsKeyed-update [] h = tt
  IsKeyed-update (r ∷ rows) h = elim (Bool-cases (matches r)) [
    | inl e ↦ rw e (HasNone-update r.user_id rows h.0, IsKeyed-update rows h.1)
    | inr e ↦ rw e (HasNone-update r.user_id rows h.0, IsKeyed-update rows h.1)
  ]

find_balance-none : (u : ℕ) (rows : List BalanceRow) → HasNone u rows → find_balance u rows ≡ none
unfolding find_balance
find_balance-none u [] h = refl
find_balance-none u (r ∷ rows) h = rw h.0 (find_balance-none u rows h.1)

pub HasNone-find : (u : ℕ) (rows : List BalanceRow) → find_balance u rows ≡ none → HasNone u rows
unfolding find_balance
HasNone-find u [] h = tt
HasNone-find u (r ∷ rows) h = elim (Bool-cases (r.user_id == u)) [
  | inl e ↦ cc (rw e at h)
  | inr e ↦ (e, HasNone-find u rows (rw e at h))
]

-- A write to rows of `u` alone leaves the balances of the others.
pub find_balance-update_ne :
    (u v : ℕ) (matches : BalanceRow → Bool) (change : PointSnapshot → PointSnapshot)
    (rows : List BalanceRow)
    → ((r : BalanceRow) → matches r ≡ true → r.user_id ≡ u)
    → v ≢ u
    → find_balance v (update_where matches (rewrite_row change) rows) ≡ find_balance v rows
unfolding find_balance update_where
find_balance-update_ne u v matches change [] only ne = refl
find_balance-update_ne u v matches change (r ∷ rows) only ne =
    let rest = find_balance-update_ne u v matches change rows only ne in
    elim (Bool-cases (matches r)) [
      | inl e ↦ let id = only r e in let f : r.user_id == v ≡ false = ground arith in rw (e, f) rest
      | inr e ↦ rw e (ap (λ x. if r.user_id == v then some r.amounts else x) rest)
    ]

module _ (u : ℕ) (assumed after : PointSnapshot) where
  no_match :
      (rows : List BalanceRow) → HasNone u rows → count_where (balance_still u assumed) rows ≡ 0
  unfolding count_where
  no_match [] h = refl
  no_match (r ∷ rows) h = rw h.0 (no_match rows h.1)

  -- A write that hits one row has found the assumed balance, and leaves the new one.
  pub find_balance-update_self :
      (rows : List BalanceRow)
      → IsKeyed rows
      → count_where (balance_still u assumed) rows ≡ 1
      → (find_balance u rows ≡ some assumed)
        × (find_balance u (update_where (balance_still u assumed) (rewrite_row (λ _. after)) rows)
            ≡ some after)
  unfolding find_balance update_where count_where
  find_balance-update_self [] k c = absurd (omega arith)
  find_balance-update_self (r ∷ rows) k c = elim (Bool-cases (r.user_id == u)) [
    | inl e ↦ elim (Bool-cases (balances_agree r.amounts assumed)) [
      | inl a ↦ rw (e, a) (rw e (ap some ((balances_agree_iff r.amounts assumed).0 a), refl))
      | inr a ↦
          let z = no_match rows (subst (λ x. HasNone x rows) (==→eq r.user_id u e) k.0) in
          let o : count_where (balance_still u assumed) rows ≡ 1 = rw (e, a) at c in
          absurd (omega arith)
    ]
    | inr e ↦ rw e (rw e (find_balance-update_self rows k.1 (rw e at c)))
  ]

  -- The write hits the row when the balance is as assumed.
  pub count_where-balance :
      (rows : List BalanceRow)
      → IsKeyed rows
      → find_balance u rows ≡ some assumed
      → count_where (balance_still u assumed) rows ≡ 1
  unfolding find_balance count_where
  count_where-balance [] k h = cc
  count_where-balance (r ∷ rows) k h = elim (Bool-cases (r.user_id == u)) [
    | inl e ↦
        let g : some r.amounts ≡ some assumed = rw e at h in
        let f : r.amounts ≡ assumed = cc g in
        let a = (balances_agree_iff r.amounts assumed).1 f in
        rw (e, a) (ap suc (no_match rows (subst (λ x. HasNone x rows) (==→eq r.user_id u e) k.0)))
    | inr e ↦ rw e (count_where-balance rows k.1 (rw e at h))
  ]

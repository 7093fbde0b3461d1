-- ===== src/Point/Sound/Audited.antt =====
-- The audit of every balance: whom it checks, and what it shows when it passes.
use ts_graphql_reference.Base.{
  ℕ, ◌≡◌, ◌↔◌, refl, sym, ap, ap₂, arith, ◌∙◌, Bool, false, ◌||◌, List, [], ◌∷◌, map, ◌==◌, is_some,
  length, Option-cases, Bool-cases, ||-false, inl, inr,
}
use ts_graphql_reference.Int.{pos, ◌+ℤ◌}
use ts_graphql_reference.Failure.{Result, ok, err}
use ts_graphql_reference.Point.Ids.{includes_id, add_ids, sort_ids}
use ts_graphql_reference.Point.Ids.Ordered.{
  IsAscending, includes_id-add_ids, includes_id-sort_ids, IsUnique-add_ids, sort_ids-IsAscending,
  All-includes_id, All_every,
}
use ts_graphql_reference.Point.Balance.{balance}
use ts_graphql_reference.Point.Tables.{
  Tables, ChargeRow, BalanceRow, is_usable, usable_of, find_balance, select_where,
  find_balance_users, find_usable_users,
}
use ts_graphql_reference.Point.Tables.Charges.{usable_paid, usable_free}
use ts_graphql_reference.Point.Client.{memory}
use ts_graphql_reference.Point.Repo.{or_zero, find_user_ids_with_balance_or_usable_charges}
use ts_graphql_reference.Point.Service.{VerifiedBalances, verify_all, verify_balances}
use ts_graphql_reference.Point.Sound.Verifying.{IsBalanced, verify_all_iff}

or_false : (a : Bool) → (a || false) ≡ a
or_false a = ground arith

or_comm : (a b : Bool) → (a || b) ≡ (b || a)
or_comm a b = ground arith

includes_id-new : (u : ℕ) (ids : List ℕ) → includes_id (add_ids ids []) u ≡ includes_id ids u
unfolding includes_id
includes_id-new u ids = includes_id-add_ids u ids [] ∙ or_false (includes_id ids u)

-- Some charge of the user is usable.
abbrev pub has_usable : ℕ → List ChargeRow → Bool
has_usable u [] = false
has_usable u (r ∷ rows) = usable_of u r || has_usable u rows

balance_users :
    (u : ℕ) (rows : List BalanceRow)
    → includes_id (map (λ (r : BalanceRow). r.user_id) rows) u ≡ is_some (find_balance u rows)
unfolding includes_id find_balance
balance_users u [] = refl
balance_users u (r ∷ rows) = elim (Bool-cases (r.user_id == u)) [
  | inl e ↦ rw e refl
  | inr e ↦ rw e (balance_users u rows)
]

usable_users :
    (u : ℕ) (rows : List ChargeRow)
    → includes_id
        (map
          (λ (r : ChargeRow). r.user_id)
          (select_where (λ (r : ChargeRow). is_usable r.state) rows))
        u
      ≡ has_usable u rows
unfolding includes_id select_where
usable_users u [] = refl
usable_users u (r ∷ rows) =
    let ih = usable_users u rows in
    elim (Bool-cases (is_usable r.state)) [
      | inl e ↦ elim (Bool-cases (r.user_id == u)) [ inl f ↦ rw (e, f) refl | inr f ↦ rw (e, f) ih ]
      | inr e ↦ elim (Bool-cases (r.user_id == u)) [ inl f ↦ rw (e, f) ih | inr f ↦ rw (e, f) ih ]
    ]

-- The users whom the audit checks are listed in ascending order, each once, and are exactly those
-- who have a balance or a usable charge; the ledger is only read.
pub find_user_ids_lem :
    (t : Tables)
    → (users : List ℕ) × (find_user_ids_with_balance_or_usable_charges memory t ≡ ok (users, t))
      × IsAscending users
      × ((u : ℕ)
          → includes_id users u ≡ (is_some (find_balance u t.balances) || has_usable u t.charges))
unfolding find_user_ids_with_balance_or_usable_charges find_balance_users find_usable_users
find_user_ids_lem t =
    let charged =
      map (λ (r : ChargeRow). r.user_id)
        (select_where (λ (r : ChargeRow). is_usable r.state) t.charges) in
    let balances = add_ids (map (λ (r : BalanceRow). r.user_id) t.balances) [] in
    let all = add_ids (add_ids charged []) balances in
    (
      sort_ids all,
      refl,
      sort_ids-IsAscending all (
          IsUnique-add_ids (add_ids charged []) balances
            (IsUnique-add_ids (map (λ (r : BalanceRow). r.user_id) t.balances) [] tt)),
      λ u.
          includes_id-sort_ids u all
          ∙ includes_id-add_ids u (add_ids charged []) balances
          ∙ ap₂ (λ a b. a || b) (includes_id-new u charged ∙ usable_users u t.charges)
              (includes_id-new u (map (λ (r : BalanceRow). r.user_id) t.balances)
                ∙ balance_users u t.balances)
          ∙ or_comm (has_usable u t.charges) (is_some (find_balance u t.balances)),
    )

nothing_usable :
    (u : ℕ) (rows : List ChargeRow)
    → has_usable u rows ≡ false
    → (usable_paid u rows ≡ pos 0) × (usable_free u rows ≡ pos 0)
unfolding usable_paid usable_free ◌+ℤ◌
nothing_usable u [] h = (refl, refl)
nothing_usable u (r ∷ rows) h =
    let (e, rest) = ||-false (usable_of u r) (has_usable u rows) h in
    let (p, f) = nothing_usable u rows rest in rw (e, p, f) (refl, refl)

-- A user with neither a balance nor a usable charge has nothing, and charges that sum to nothing.
unlisted :
    (t : Tables) (u : ℕ)
    → (is_some (find_balance u t.balances) || has_usable u t.charges) ≡ false
    → IsBalanced t u
unfolding ◌+ℤ◌
unlisted t u h =
    let (none_stored, unused) =
      ||-false (is_some (find_balance u t.balances)) (has_usable u t.charges) h in
    let (p, f) = nothing_usable u t.charges unused in
    elim (Option-cases (find_balance u t.balances)) [
      | inl e ↦ ap or_zero e ∙ ap₂ balance (sym p) (sym f)
      | inr (b, e) ↦ cc (rw e at none_stored)
    ]

-- What `verifyBalances` returns of its loop.
counted : List ℕ → Result (Unit {0}) × Tables → Result VerifiedBalances × Tables
counted users (ok a, t) = (ok (record { users_checked = length users }), t)
counted users (err e, t) = (err e, t)

verify_balances-run :
    (users : List ℕ) (t : Tables)
    → find_user_ids_with_balance_or_usable_charges memory t ≡ ok (users, t)
    → verify_balances memory t ≡ counted users (verify_all memory users t)
unfolding verify_balances counted
verify_balances-run users t h = rw (h, verify_balances) (by_result (verify_all memory users t))
  where
    by_result :
        (x : Result (Unit {0}) × Tables)
        → elim x.0 [
          | ok _ ↦ (ok (record { users_checked = length users }), x.1)
          | err e ↦ (err e, x.1)
        ]
          ≡ counted users x
    by_result (ok a, u) = refl
    by_result (err e, u) = refl

counted_iff :
    (users : List ℕ) (r : Result (Unit {0}) × Tables) (t : Tables)
    → (counted users r ≡ (ok (record { users_checked = length users }), t)) ↔ (r ≡ (ok tt, t))
unfolding counted
counted_iff users (ok a, u) t = (
  λ h. (λ i. (ok tt, (h i).1)),
  λ h. (λ i. (ok (record { users_checked = length users }), (h i).1)),
)
counted_iff users (err e, u) t =
    (λ h. (let q = ap (λ r. r.0) h in cc q), λ h. (let q = ap (λ r. r.0) h in cc q))

-- The audit counts the users who have a balance or a usable charge, and it passes exactly when the
-- stored balance of every user there may be is the sum of the usable charges.
pub verify_balances_iff :
    (t : Tables)
    → (users : List ℕ) × (find_user_ids_with_balance_or_usable_charges memory t ≡ ok (users, t))
      × ((verify_balances memory t ≡ (ok (record { users_checked = length users }), t))
          ↔ ((u : ℕ) → IsBalanced t u))
verify_balances_iff t =
    let (users, found, _, listed) = find_user_ids_lem t in
    let i = verify_all_iff users t in
    let c = counted_iff users (verify_all memory users t) t in
    let run = verify_balances-run users t found in
    (
      users,
      found,
      (
        λ h u. elim (Bool-cases (includes_id users u)) [
          | inl e ↦ All-includes_id (IsBalanced t) u users (i.0 (c.0 (sym run ∙ h))) e
          | inr e ↦ unlisted t u (sym (listed u) ∙ e)
        ],
        λ every. run ∙ c.1 (i.1 (All_every (IsBalanced t) every users)),
      ),
    )

-- ===== src/User/Interleaved.antt =====
-- Requests of src/modules/user/user.service.ts that interleave: each `changeStatus` reads and
-- decides in one step and writes in a later one, and any steps of others may stand between.
use ts_graphql_reference.Base.{
  ℕ, ◌≡◌, refl, sym, subst, Bool, true, some, List, [], ◌∷◌, ◌++◌, Bool-cases, inl, inr,
  if◌then◌else◌, ◌==◌,
}
use ts_graphql_reference.Int.{ℤ}
use ts_graphql_reference.Failure.{ok}
use ts_graphql_reference.Point.Tables.{update_where}
use ts_graphql_reference.User.{UserStatus, TransitionPlan}
use ts_graphql_reference.User.Table.{
  UserRow, Users, UserWriteData, find_where, has_id, create_user, upsert_by_email, read_and_decide,
  execute,
}

-- A request that has decided and not yet written.
pub record Waiting : Type 0 where
  pub id : ℕ
  pub current : UserRow
  pub plan : TransitionPlan

pub record Server : Type 0 where
  pub table : Users
  pub waiting : List Waiting

-- One waiting request, and the others.
pub data Takes (w : Waiting) : List Waiting → List Waiting → Type 0 where
  first : {rest : List Waiting} → Takes w (w ∷ rest) rest
  later : {x : Waiting} {ws rest : List Waiting} → Takes w ws rest → Takes w (x ∷ ws) (x ∷ rest)

-- What the server does next, whichever request it is for.
pub data Serves : Server → Server → Type 0 where
  decides :
      {t : Users} {ws : List Waiting} {w : Waiting} (to_status : UserStatus)
      → read_and_decide w.id to_status t ≡ ok (w.current, w.plan)
      → Serves (record { table = t; waiting = ws }) (record { table = t; waiting = w ∷ ws })
  writes :
      {t t' : Users} {ws rest : List Waiting} {w : Waiting} {r : UserRow}
      → Takes w ws rest
      → execute w.id w.current w.plan t ≡ ok (r, t')
      → Serves (record { table = t; waiting = ws }) (record { table = t'; waiting = rest })
  leaves :
      {t : Users} {ws rest : List Waiting} {w : Waiting}
      → Takes w ws rest
      → Serves (record { table = t; waiting = ws }) (record { table = t; waiting = rest })
  creates :
      {t t' : Users} {ws : List Waiting} {r : UserRow} (input : UserWriteData)
      → create_user input t ≡ ok (r, t')
      → Serves (record { table = t; waiting = ws }) (record { table = t'; waiting = ws })
  logs_in :
      {t : Users} {ws : List Waiting} (input : UserWriteData)
      → Serves
          (record { table = t; waiting = ws })
          (record { table = (upsert_by_email input t).1; waiting = ws })
  passes :
      {t : Users} {ws : List Waiting} (to_instant : ℤ)
      → Serves
          (record { table = t; waiting = ws })
          (record { table = record t { now = to_instant }; waiting = ws })

pub data Run : Server → Server → Type 0 where
  done : {s : Server} → Run s s
  next : {a b c : Server} → Serves a b → Run b c → Run a c

-- A rewrite of rows that keeps the identifiers changes the first row of an identifier in its place.
module _ (matches : UserRow → Bool) (change : UserRow → UserRow)
    (keeps : (r : UserRow) → (change r).id ≡ r.id) where
  found_first :
      (i : ℕ) (r : UserRow) (rows : List UserRow)
      → r.id == i ≡ true
      → find_where (has_id i) (r ∷ rows) ≡ some r
  unfolding find_where
  found_first i r rows h = rw h refl

  pub find-update :
      (i : ℕ) (rows : List UserRow) {r : UserRow}
      → find_where (has_id i) rows ≡ some r
      → find_where (has_id i) (update_where matches change rows)
        ≡ some (if matches r then change r else r)
  unfolding find_where update_where
  find-update i [] h = cc h
  find-update i (x ∷ rows) {r} h = elim (Bool-cases (x.id == i)) [
    | inl f ↦
        let g : some x ≡ some r = rw f at h in
        let q : x ≡ r = cc g in
        subst
          (λ y.
            find_where (has_id i) (update_where matches change (x ∷ rows))
            ≡ some (if matches y then change y else y))
          q
          (elim (Bool-cases (matches x)) [
            | inl e ↦ rw e (
                found_first i (change x) (update_where matches change rows)
                  (subst (λ k. k == i ≡ true) (sym (keeps x)) f))
            | inr e ↦ rw e (found_first i x (update_where matches change rows) f)
          ])
    | inr f ↦
        let rest = find-update i rows (rw f at h) in
        elim (Bool-cases (matches x)) [ inl e ↦ rw (e, keeps x, f) rest | inr e ↦ rw (e, f) rest ]
  ]

pub find-append :
    (i : ℕ) (rows more : List UserRow) {r : UserRow}
    → find_where (has_id i) rows ≡ some r
    → find_where (has_id i) (rows ++ more) ≡ some r
unfolding find_where
find-append i [] more h = cc h
find-append i (x ∷ rows) more h = elim (Bool-cases (x.id == i)) [
  | inl f ↦ rw f (rw f at h)
  | inr f ↦ rw f (find-append i rows more (rw f at h))
]

-- ===== src/Uow/Attempted.antt =====
-- What the outcome of `trySerialized` says of the locks.
use ts_graphql_reference.Base.{
  ◌≡◌, refl, sym, ap, ◌∙◌, subst, ◌⊎◌, Bool, true, false, List, [], ◌∷◌, Bool-cases, inl, inr,
  if◌then◌else◌, second_true,
}
use ts_graphql_reference.Failure.{Result, ok, err}
use ts_graphql_reference.Locks.{LockKey, same_key, has, order_locks}
use ts_graphql_reference.Locks.Order.{has-order_locks, same_key-eq, same_key_refl}
use ts_graphql_reference.Tx.{Tx, pure, ◌>>=◌, >>=-ok}
use ts_graphql_reference.Uow.{
  Database, TryResult, acquired, not_acquired, snapshot_if, try_all, try_acquire, try_body,
  try_serialized,
}
use ts_graphql_reference.Uow.Atomic.{
  IsAtomic, IsQuiet, pair_or, run_tx-ok, snapshot_if-quiet, try_all-quiet,
}

abbrev pair_of : {A S : Type 0} → A × S → Result (A × S) → A × S
pair_of p (ok q) = q
pair_of p (err e) = p

-- The database gives every key of the list, in the state; and it refuses one of them.
abbrev pub AllGiven : (db : Database) → List LockKey → db.State → Type 0
AllGiven db keys s = (k : LockKey) → has keys k ≡ true → db.try_advisory_lock k s ≡ ok (true, s)

abbrev pub SomeRefused : (db : Database) → List LockKey → db.State → Type 0
SomeRefused db keys s =
    (k : LockKey) × (has keys k ≡ true) × (db.try_advisory_lock k s ≡ ok (false, s))

-- What the outcome of an attempt on `keys` says.
abbrev pub Outcome :
    (db : Database)
    → List LockKey
    → {A : Type 0} → Tx db.State A
    → db.State
    → db.State
    → TryResult A
    → Type 0
Outcome db keys body s t (acquired a) = AllGiven db keys s × (body s ≡ ok (a, t))
Outcome db keys body s t not_acquired = SomeRefused db keys s × (t ≡ s)

module _ {db : Database} (atomic : IsAtomic db) (quiet : IsQuiet db) where
  -- What one attempt on one key said, on the state that it left alone.
  told :
      (k : LockKey) (s : db.State) {b : Bool} {s' : db.State}
      → db.try_advisory_lock k s ≡ ok (b, s')
      → db.try_advisory_lock k s ≡ ok (b, s)
  told k s {b} e = e ∙ ap (λ x. ok (b, x)) (quiet.try_quiet e)

  -- The first key is given and the others are tried, or it is refused.
  try_all-step :
      (key : LockKey) (keys : List LockKey) (s : db.State) {b : Bool} {t : db.State}
      → try_all db (key ∷ keys) s ≡ ok (b, t)
      → ((db.try_advisory_lock key s ≡ ok (true, s)) × (try_all db keys s ≡ ok (b, t)))
        ⊎ ((db.try_advisory_lock key s ≡ ok (false, s)) × (b ≡ false))
  unfolding try_all
  try_all-step key keys s {b} {t} h =
      let rest = try_all db keys in
      let (locked, s₁, e, f) =
        >>=-ok (db.try_advisory_lock key) (λ l. if l then rest else pure false) s h in
      let said = told key s e in
      let k =
        subst (λ x. (if locked then rest else pure false) x ≡ ok (b, t)) (quiet.try_quiet e) f in
      elim (Bool-cases locked) [
        | inl l ↦ inl (
          said ∙ ap (λ x. ok (x, s)) l,
          subst (λ x. (if x then rest else pure false) s ≡ ok (b, t)) l k,
        )
        | inr l ↦
            let g : ok (false, s) ≡ ok (b, t) =
              subst (λ x. (if x then rest else pure false) s ≡ ok (b, t)) l k in
            inr (said ∙ ap (λ x. ok (x, s)) l, sym (ap (λ p. p.0) (ap (pair_of (b, t)) g)))
      ]

  try_all-AllGiven :
      (keys : List LockKey) (s : db.State) {t : db.State}
      → try_all db keys s ≡ ok (true, t)
      → AllGiven db keys s
  unfolding has
  try_all-AllGiven [] s h k m = cc m
  try_all-AllGiven (key ∷ keys) s {t} h k m = elim (try_all-step key keys s h) [
    | inr (e, f) ↦ cc f
    | inl (e, f) ↦ elim (Bool-cases (same_key key k)) [
      | inl q ↦ subst (λ x. db.try_advisory_lock x s ≡ ok (true, s)) (same_key-eq key k q) e
      | inr q ↦ try_all-AllGiven keys s f k (rw q at m)
    ]
  ]

  try_all-SomeRefused :
      (keys : List LockKey) (s : db.State) {t : db.State}
      → try_all db keys s ≡ ok (false, t)
      → SomeRefused db keys s
  unfolding has try_all
  try_all-SomeRefused [] s {t} h =
      let g : ok (true, s) ≡ ok (false, t) = h in
      let q = ap (λ p. p.0) (ap (pair_of (true, s)) g) in cc q
  try_all-SomeRefused (key ∷ keys) s {t} h = elim (try_all-step key keys s h) [
    | inr (e, f) ↦ (key, rw (same_key_refl key) refl, e)
    | inl (e, f) ↦
        let (k, m, refused) = try_all-SomeRefused keys s f in
        (k, second_true (same_key key k) (has keys k) m, refused)
  ]

  -- An attempt that has acquired its locks was given every key that was asked for, in any order and
  -- however often, and has run its body once, on the state that it started in; one that has not was
  -- refused a key that was asked for, and has changed nothing.
  pub try_serialized-Outcome :
      {A : Type 0} (keys : List LockKey) (body : Tx db.State A) (b : Bool) (s : db.State)
      {r : TryResult A} {t : db.State}
      → try_serialized db keys body b s ≡ (ok r, t)
      → Outcome db keys body s t r
  unfolding try_serialized try_acquire try_body
  try_serialized-Outcome {A} keys body b s {r} {t} h =
      let (u, s₁, e, f) =
        >>=-ok (snapshot_if db b) _ s (run_tx-ok atomic (try_body db keys body b) s h) in
      let (locked, s₂, g, k) = >>=-ok (try_all db (order_locks keys)) _ s₁ f in
      let same = snapshot_if-quiet atomic quiet b s e in
      let g' = subst (λ x. try_all db (order_locks keys) x ≡ ok (locked, s₂)) same g in
      subst (λ x. Outcome db keys body x t r) (try_all-quiet atomic quiet (order_locks keys) s g')
        (after locked s₂ k (
          subst (λ x. try_all db (order_locks keys) x ≡ ok (locked, s₂))
            (sym (try_all-quiet atomic quiet (order_locks keys) s g')) g'))
    where
      after :
          (l : Bool) (s₂ : db.State)
          → (if l then (do result ← body; pure (acquired result)) else pure not_acquired) s₂
            ≡ ok (r, t)
          → try_all db (order_locks keys) s₂ ≡ ok (l, s₂)
          → Outcome db keys body s₂ t r
      after true s₂ k g =
          let (a, s₃, e, f) = >>=-ok body (λ x. pure (acquired x)) s₂ k in
          let given = try_all-AllGiven (order_locks keys) s₂ g in
          subst (λ p. Outcome db keys body s₂ p.1 p.0) (ap (pair_or (r, t)) f)
            (λ x m. given x (has-order_locks keys x ∙ m), e)
      after false s₂ k g =
          let (x, m, refused) = try_all-SomeRefused (order_locks keys) s₂ g in
          subst (λ p. Outcome db keys body s₂ p.1 p.0) (ap (pair_or (r, t)) k)
            ((x, sym (has-order_locks keys x) ∙ m, refused), refl)

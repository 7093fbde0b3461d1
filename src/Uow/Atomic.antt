-- ===== src/Uow/Atomic.antt =====
-- What every way of opening a transaction keeps of the database's own atomicity.
use ts_graphql_reference.Base.{
  ◌≡◌, ◌≢◌, sym, ap, ◌∙◌, subst, Bool, true, false, List, [], ◌∷◌, Bool-cases, inl, inr,
  if◌then◌else◌,
}
use ts_graphql_reference.Failure.{Error, Result, ok, err, serialization_conflict}
use ts_graphql_reference.Locks.{LockKey, order_locks}
use ts_graphql_reference.Tx.{Tx, pure, ◌>>◌, for_each, >>=-ok, snd_or}
use ts_graphql_reference.Uow.{
  Database, translated, rethrow, run_tx, snapshot_if, acquire, try_all, run, snapshot, serialized,
}

-- `$transaction`: a body that returned is committed; one that threw is rolled back, and its error is
-- thrown on; and where the commit itself throws, nothing has changed either.
pub record IsAtomic (db : Database) : Type 1 where
  pub committed :
      {A : Type 0} (body : Tx db.State A) (s : db.State) {a : A} {t : db.State}
      → db.transaction A body s ≡ (ok a, t)
      → body s ≡ ok (a, t)
  pub thrown :
      {A : Type 0} (body : Tx db.State A) (s : db.State) {e : Error}
      → body s ≡ err e
      → db.transaction A body s ≡ (err e, s)
  pub rolled_back :
      {A : Type 0} (body : Tx db.State A) (s : db.State) {e : Error} {t : db.State}
      → db.transaction A body s ≡ (err e, t)
      → t ≡ s

-- The raw SQL on isolation and locks leaves the data alone, whether or not a lock is given.
pub record IsQuiet (db : Database) : Type 0 where
  pub begin_quiet : {s : db.State} {t : db.State} → db.set_snapshot s ≡ ok (tt, t) → t ≡ s
  pub lock_quiet :
      {key : LockKey} {s : db.State} {t : db.State} → db.advisory_lock key s ≡ ok (tt, t) → t ≡ s
  pub try_quiet :
      {key : LockKey} {b : Bool} {s : db.State} {t : db.State}
      → db.try_advisory_lock key s ≡ ok (b, t)
      → t ≡ s

module _ {A S : Type 0} where
  abbrev pub pair_or : A × S → Result (A × S) → A × S
  pair_or p (ok q) = q
  pair_or p (err e) = p

  rethrow-ok : (r : Result A × S) {a : A} {t : S} → rethrow r ≡ (ok a, t) → r ≡ (ok a, t)
  rethrow-ok (ok b, s) h = h
  rethrow-ok (err e, s) h = cc

  rethrow-state :
      (r : Result A × S) {e : Error} {t : S}
      → rethrow r ≡ (err e, t)
      → (x : Error) × (r ≡ (err x, t)) × (translated x ≡ e)
  rethrow-state (ok b, s) h = cc
  rethrow-state (err x, s) h = (x, cc, cc)

never_conflict : (x : Error) → translated x ≢ serialization_conflict
unfolding translated
never_conflict serialization_conflict h = cc
never_conflict _ h = cc

module _ {db : Database} (atomic : IsAtomic db) where
  pub run_tx-ok :
      {A : Type 0} (body : Tx db.State A) (s : db.State) {a : A} {t : db.State}
      → run_tx db body s ≡ (ok a, t)
      → body s ≡ ok (a, t)
  unfolding run_tx
  run_tx-ok {A} body s h = atomic.committed body s (rethrow-ok (db.transaction A body s) h)

  -- An error of `run_tx` has changed nothing, and is no serialization failure any more.
  pub run_tx-rolls_back :
      {A : Type 0} (body : Tx db.State A) (s : db.State) {e : Error} {t : db.State}
      → run_tx db body s ≡ (err e, t)
      → (t ≡ s) × (e ≢ serialization_conflict)
  unfolding run_tx
  run_tx-rolls_back {A} body s h =
      let (x, q, w) = rethrow-state (db.transaction A body s) h in
      (atomic.rolled_back body s q, λ q. never_conflict x (w ∙ q))

  pub run-ok :
      {A : Type 0} (body : Tx db.State A) (s : db.State) {a : A} {t : db.State}
      → run db body s ≡ (ok a, t)
      → body s ≡ ok (a, t)
  unfolding run
  run-ok body s h = run_tx-ok body s h

  module _ (quiet : IsQuiet db) where
    pub snapshot-ok :
        {A : Type 0} (body : Tx db.State A) (s : db.State) {a : A} {t : db.State}
        → snapshot db body s ≡ (ok a, t)
        → body s ≡ ok (a, t)
    unfolding snapshot
    snapshot-ok body s {a} {t} h =
        let (u, s₁, e, f) =
          >>=-ok db.set_snapshot (λ _. body) s (run_tx-ok (do db.set_snapshot; body) s h) in
        subst (λ x. body x ≡ ok (a, t)) (quiet.begin_quiet e) f

    pub snapshot_if-quiet :
        (b : Bool) (s : db.State) {u : Unit} {t : db.State} → snapshot_if db b s ≡ ok (u, t) → t ≡ s
    unfolding snapshot_if
    snapshot_if-quiet true s h = quiet.begin_quiet h
    snapshot_if-quiet false s h = sym (ap (snd_or s) h)

    for_each-quiet :
        (keys : List LockKey) (s : db.State) {t : db.State}
        → for_each db.advisory_lock keys s ≡ ok (tt, t)
        → t ≡ s
    unfolding for_each
    for_each-quiet [] s h = sym (ap (snd_or s) h)
    for_each-quiet (k ∷ keys) s h =
        let (u, s₁, e, f) = >>=-ok (db.advisory_lock k) (λ _. for_each db.advisory_lock keys) s h in
        for_each-quiet keys s₁ f ∙ quiet.lock_quiet e

    pub try_all-quiet :
        (keys : List LockKey) (s : db.State) {b : Bool} {t : db.State}
        → try_all db keys s ≡ ok (b, t)
        → t ≡ s
    unfolding try_all
    try_all-quiet [] s h = sym (ap (snd_or s) h)
    try_all-quiet (k ∷ keys) s {b} {t} h =
        let rest = try_all db keys in
        let (locked, s₁, e, f) =
          >>=-ok (db.try_advisory_lock k) (λ l. if l then rest else pure false) s h in
        elim (Bool-cases locked) [
          | inl l ↦
              try_all-quiet keys s₁
                (subst (λ x. (if x then rest else pure false) s₁ ≡ ok (b, t)) l f)
              ∙ quiet.try_quiet e
          | inr l ↦
              sym
                (ap (snd_or s₁) (subst (λ x. (if x then rest else pure false) s₁ ≡ ok (b, t)) l f))
              ∙ quiet.try_quiet e
        ]

    -- A serialized use-case that returned has run its body once, on the state it started in.
    pub serialized-ok :
        {A : Type 0} (keys : List LockKey) (body : Tx db.State A) (b : Bool) (s : db.State) {a : A}
        {t : db.State}
        → serialized db keys body b s ≡ (ok a, t)
        → body s ≡ ok (a, t)
    unfolding serialized acquire
    serialized-ok keys body b s {a} {t} h =
        let locked = λ (_ : Unit). (do acquire db keys; body) in
        let (u, s₁, e, f) =
          >>=-ok (snapshot_if db b) locked s
            (run_tx-ok (do snapshot_if db b; acquire db keys; body) s h) in
        let (v, s₂, g, k) =
          >>=-ok (for_each db.advisory_lock (order_locks keys)) (λ _. body) s₁ f in
        subst (λ x. body x ≡ ok (a, t))
          (for_each-quiet (order_locks keys) s₁ g ∙ snapshot_if-quiet b s e) k

-- ===== src/Uow.antt =====
-- src/db/uow.ts: the ways to open a transaction. The database itself is a parameter: how Prisma
-- commits and rolls back, and the raw SQL of isolation levels and advisory locks.
pub mod Atomic
pub mod Alone
pub mod Attempted
pub mod Thrown
use ts_graphql_reference.Base.{ℕ, Bool, true, false, List, [], ◌∷◌, if◌then◌else◌}
use ts_graphql_reference.Failure.{
  Error, Result, ok, err, the_transaction, concurrent_update, serialization_conflict,
}
use ts_graphql_reference.Locks.{LockKey, order_locks}
use ts_graphql_reference.Tx.{Tx, pure, ◌>>=◌, ◌>>◌, for_each}

-- What is used of `db.rw`: `$transaction`, and the statements of this file's raw SQL.
pub record Database : Type 1 where
  pub State : Type 0
  pub transaction : (A : Type 0) → Tx State A → State → Result A × State
  pub set_snapshot : Tx State Unit
  pub advisory_lock : LockKey → Tx State Unit
  pub try_advisory_lock : LockKey → Tx State Bool

pub data TryResult (A : Type 0) : Type 0 where
  acquired : A → TryResult A
  not_acquired : TryResult A

-- `isSerializationConflict`, and the error that it is translated to.
unfoldable pub translated : Error → Error
translated serialization_conflict = concurrent_update the_transaction
translated e = e

abbrev pub rethrow : {A S : Type 0} → Result A × S → Result A × S
rethrow (ok a, s) = (ok a, s)
rethrow (err e, s) = (err (translated e), s)

module _ (db : Database) where
  open db use {State, transaction, set_snapshot, advisory_lock, try_advisory_lock}

  unfoldable pub run_tx : {A : Type 0} → Tx State A → State → Result A × State
  run_tx {A} body s = rethrow (transaction A body s)

  -- `beginSnapshot` when the options ask for it.
  unfoldable pub snapshot_if : Bool → Tx State Unit
  snapshot_if as_snapshot = if as_snapshot then set_snapshot else pure tt

  unfoldable pub acquire : List LockKey → Tx State Unit
  acquire keys = for_each advisory_lock (order_locks keys)

  -- The loop of `tryAcquire`, over the ordered keys.
  unfoldable pub try_all : List LockKey → Tx State Bool
  try_all [] = pure true
  try_all (key ∷ keys) = do
    locked ← try_advisory_lock key
    let rest = try_all keys
    if locked then rest else pure false

  unfoldable pub try_acquire : List LockKey → Tx State Bool
  unfolding try_all
  try_acquire keys = try_all (order_locks keys)

  unfoldable pub run : {A : Type 0} → Tx State A → State → Result A × State
  unfolding run_tx
  run body = run_tx body

  unfoldable pub snapshot : {A : Type 0} → Tx State A → State → Result A × State
  unfolding run_tx
  snapshot body = run_tx (do set_snapshot; body)

  unfoldable pub serialized :
      {A : Type 0} → List LockKey → Tx State A → Bool → State → Result A × State
  unfolding run_tx snapshot_if acquire
  serialized keys body as_snapshot = run_tx (do snapshot_if as_snapshot; acquire keys; body)

  -- The body of `trySerialized`.
  unfoldable pub try_body : {A : Type 0} → List LockKey → Tx State A → Bool → Tx State (TryResult A)
  try_body keys body as_snapshot = do
    snapshot_if as_snapshot
    locked ← try_acquire keys
    if locked then (do result ← body; pure (acquired result)) else pure not_acquired

  unfoldable pub try_serialized :
      {A : Type 0} → List LockKey → Tx State A → Bool → State → Result (TryResult A) × State
  unfolding run_tx try_body
  try_serialized keys body as_snapshot = run_tx (try_body keys body as_snapshot)

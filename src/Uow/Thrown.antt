-- ===== src/Uow/Thrown.antt =====
-- What a use-case that throws behind its locks reports.
use ts_graphql_reference.Base.{◌≡◌, ◌≢◌, ◌⊎◌, Bool, true, false, List}
use ts_graphql_reference.Failure.{
  Error, ok, err, serialization_conflict, concurrent_update, the_transaction,
}
use ts_graphql_reference.Locks.{LockKey, same_key, has}
use ts_graphql_reference.Tx.{Tx, ◌>>◌}
use ts_graphql_reference.Uow.{Database}

-- What a caller is told of an error: of a serialization failure, that another transaction was faster;
-- of any other, that error.
abbrev pub IsReported : Error → Error → Type 0
IsReported thrown told =
    ((thrown ≡ serialization_conflict) × (told ≡ concurrent_update the_transaction))
    ⊎ ((thrown ≢ serialization_conflict) × (told ≡ thrown))

-- What it is that a serialized use-case throws: the error of the statement on isolation where it is
-- asked for; of the one lock that fails; or, once all its locks are given, of its body.
pub data IsThrown (db : Database) {A : Type 0} (keys : List LockKey) (body : Tx db.State A)
    (b : Bool) (s : db.State) (x : Error) : Type 0 where
  at_begin : b ≡ true → db.set_snapshot s ≡ err x → IsThrown db keys body b s x
  at_lock :
      (k : LockKey)
      → (b ≡ true → db.set_snapshot s ≡ ok (tt, s))
      → has keys k ≡ true
      → db.advisory_lock k s ≡ err x
      → ((j : LockKey) → same_key j k ≡ false → db.advisory_lock j s ≡ ok (tt, s))
      → IsThrown db keys body b s x
  in_body :
      (b ≡ true → db.set_snapshot s ≡ ok (tt, s))
      → ((k : LockKey) → has keys k ≡ true → db.advisory_lock k s ≡ ok (tt, s))
      → body s ≡ err x
      → IsThrown db keys body b s x

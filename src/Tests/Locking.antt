-- ===== src/Tests/Locking.antt =====
-- Locks and units of work at concrete keys and bodies.
use ts_graphql_reference.Base.{
  Option, ℕ, ◌^◌, ◌-◌, ◌≡◌, refl, sym, ap, not, some, false, List, [], ◌∷◌, ◌++◌, arith,
}
use ts_graphql_reference.Int.{pos, negsuc, ◌≤ℤ◌, ◌<ℤ◌}
use ts_graphql_reference.Failure.{ok, err, serialization_conflict}
use ts_graphql_reference.Locks.{LockKey, same_key, has, order_locks, to_sorted, insert, unique_from}
use ts_graphql_reference.Locks.Order.{order_locks-canonical}
use ts_graphql_reference.Locks.Deadlock.{Blocked, WaitsFor, no_deadlock}
use ts_graphql_reference.Locks.Registry.{point_balance, string_lock_id-int4}
use ts_graphql_reference.Locks.Hash.{string_lock_id, hash_from, to_int32}
use ts_graphql_reference.Locks.Registry.Separate.{lock_key-separates}
use ts_graphql_reference.Tx.{Tx, snd_or}
use ts_graphql_reference.Uow.{
  Database, acquired, not_acquired, run_tx, try_serialized, try_body, try_acquire, try_all,
  snapshot_if,
}
use ts_graphql_reference.Uow.Atomic.{IsAtomic, IsQuiet}
use ts_graphql_reference.Uow.Attempted.{Outcome, try_serialized-Outcome}
use ts_graphql_reference.Point.Tables.{Tables}
use ts_graphql_reference.Point.Client.{memory_base, memory-IsAtomic, memory-IsQuiet}

abbrev key : ℕ → ℕ → LockKey
key n i = record { ns = n; obj = pos i }

abbrev transfer_keys : List LockKey
transfer_keys = key 1 9 ∷ key 1 2 ∷ key 1 9 ∷ []

same_requests : (x : LockKey) → has (key 1 2 ∷ []) x ≡ has (key 1 2 ∷ key 1 2 ∷ []) x
unfolding has
same_requests x = ground arith

order_locks-canonical_example : order_locks (key 1 2 ∷ []) ≡ order_locks (key 1 2 ∷ key 1 2 ∷ [])
order_locks-canonical_example =
    order_locks-canonical (key 1 2 ∷ []) (key 1 2 ∷ key 1 2 ∷ []) same_requests

sorted_keys : order_locks transfer_keys ≡ (key 1 2 ∷ []) ++ key 1 9 ∷ []
unfolding order_locks to_sorted insert unique_from has
sorted_keys = refl

-- It holds the first key of a transfer and waits for the second.
abbrev blocked : Blocked
blocked = record {
  keys = transfer_keys;
  held = key 1 2 ∷ [];
  wanted = key 1 9;
  rest = [];
  progress = sorted_keys;
}

no_deadlock_example : ¬ WaitsFor blocked blocked
no_deadlock_example = no_deadlock blocked

string_lock_id-int4_example :
    (negsuc (2 ^ 31 - 1) ≤ℤ string_lock_id "7:PAY:k") × (string_lock_id "7:PAY:k" <ℤ pos (2 ^ 31))
string_lock_id-int4_example = string_lock_id-int4 "7:PAY:k"

-- The published FNV-1a hash of "a" is 0xe40c292c.
fnv_a : string_lock_id "a" ≡ negsuc 468965075
unfolding string_lock_id hash_from to_int32
fnv_a = refl

abbrev user_1 : Option ℕ
user_1 = some 1

lock_key-separates_example : (point_balance ≡ point_balance) × (user_1 ≡ user_1)
lock_key-separates_example = lock_key-separates point_balance point_balance 1 1 refl

abbrev empty_tables : Tables
empty_tables = record { charges = []; balances = []; spends = []; next_charge = 1; next_spend = 1 }

-- A body that writes, and then loses a race.
abbrev loses : Tx Tables Unit
loses t = err serialization_conflict

-- A body that takes an identifier and returns it.
abbrev counts : Tx Tables ℕ
counts t = ok (t.next_spend, record t { next_spend = 2 })

abbrev counted : Tables
counted = record empty_tables { next_spend = 2 }

-- A database on which another transaction holds the key of the ninth user.
abbrev held_9 : Database
held_9 = record memory_base { try_advisory_lock = λ k t. ok (not (same_key k (key 1 9)), t) }

held_9-IsAtomic : IsAtomic held_9
held_9-IsAtomic = record {
  committed = memory-IsAtomic.committed;
  thrown = memory-IsAtomic.thrown;
  rolled_back = memory-IsAtomic.rolled_back;
}

held_9-IsQuiet : IsQuiet held_9
held_9-IsQuiet = record {
  begin_quiet = memory-IsQuiet.begin_quiet;
  lock_quiet = λ {key} {s} h. sym (ap (snd_or s) h);
  try_quiet = λ {key} {b} {s} h. sym (ap (snd_or s) h);
}

not_tried :
    try_serialized held_9 transfer_keys counts false empty_tables ≡ (ok not_acquired, empty_tables)
unfolding try_serialized run_tx try_body try_acquire try_all snapshot_if order_locks to_sorted
    insert unique_from has
not_tried = refl

tried_count :
    try_serialized held_9 (key 1 2 ∷ []) counts false empty_tables ≡ (ok (acquired 1), counted)
unfolding try_serialized run_tx try_body try_acquire try_all snapshot_if order_locks to_sorted
    insert unique_from has
tried_count = refl

try_serialized-Outcome_example :
    Outcome held_9 (key 1 2 ∷ []) counts empty_tables counted (acquired 1)
try_serialized-Outcome_example =
    try_serialized-Outcome held_9-IsAtomic held_9-IsQuiet (key 1 2 ∷ []) counts false empty_tables
      tried_count

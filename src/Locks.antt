-- ===== src/Locks.antt =====
-- src/db/locks.ts: advisory lock keys and the global order in which they are acquired. The label
-- of a key, which only names it in messages, is left out; two keys are the same when namespace
-- and identifier are.
pub mod Order
pub mod Deadlock
pub mod Hash
pub mod Registry
use ts_graphql_reference.Base.{
  ℕ, suc, Bool, true, false, ◌&&◌, ◌||◌, List, [], ◌∷◌, ◌==◌, ltb, if◌then◌else◌,
}
use ts_graphql_reference.Int.{ℤ, ◌==ℤ◌, ltb_ℤ}

pub record LockKey : Type 0 where
  pub ns : ℕ
  pub obj : ℤ

-- `seen.has(id)` for the identity `${key.ns}:${key.obj}`
abbrev pub same_key : LockKey → LockKey → Bool
same_key a b = a.ns == b.ns && a.obj ==ℤ b.obj

unfoldable pub has : List LockKey → LockKey → Bool
has [] key = false
has (k ∷ seen) key = same_key k key || has seen key

-- The loop of `orderLocks`: the keys not seen before, in their order.
unfoldable pub unique_from : List LockKey → List LockKey → List LockKey
unfolding has
unique_from seen [] = []
unique_from seen (key ∷ keys) =
    let skipped = unique_from seen keys in
    let kept = key ∷ unique_from (key ∷ seen) keys in if has seen key then skipped else kept

-- `a.ns - b.ns || a.obj - b.obj` is negative.
abbrev pub before : LockKey → LockKey → Bool
before a b = ltb a.ns b.ns || (a.ns == b.ns && ltb_ℤ a.obj b.obj)

-- `toSorted`, which is stable: an item goes behind those that it does not precede.
unfoldable pub insert : LockKey → List LockKey → List LockKey
insert key [] = key ∷ []
insert key (k ∷ keys) = if before key k then key ∷ k ∷ keys else k ∷ insert key keys

unfoldable pub to_sorted : List LockKey → List LockKey → List LockKey
unfolding insert
to_sorted sorted [] = sorted
to_sorted sorted (key ∷ keys) = to_sorted (insert key sorted) keys

unfoldable pub order_locks : List LockKey → List LockKey
unfolding unique_from to_sorted
order_locks keys = to_sorted [] (unique_from [] keys)

-- The loop of `defineLocks` over the entries in the order of their declaration: each with its
-- `classid`, which is its position and one more.
unfoldable pub define_from : {N : Type 0} → ℕ → List N → List (N × ℕ)
define_from index [] = []
define_from index (namespace ∷ entities) = (namespace, suc index) ∷ define_from (suc index) entities

unfoldable pub define_locks : {N : Type 0} → List N → List (N × ℕ)
unfolding define_from
define_locks entities = define_from 0 entities

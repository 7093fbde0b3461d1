-- ===== src/Locks/Deadlock.antt =====
-- Transactions that acquire their keys by `orderLocks` never wait for one another in a cycle.
use ts_graphql_reference.Base.{◌≡◌, true, List, [], ◌∷◌, ◌++◌, inl, inr, subst, Bool-cases}
use ts_graphql_reference.Locks.{LockKey, same_key, has, order_locks}
use ts_graphql_reference.Locks.Order.{
  Before, Before-trans, Before-irreflexive, IsAscending, order_locks-IsAscending, All-has,
  same_key-eq, same_key_refl, or_true,
}

-- A transaction in the middle of acquiring `keys`: it holds the keys before `wanted`, for which
-- it waits, and has still to ask for the rest.
pub record Blocked : Type 0 where
  pub keys : List LockKey
  pub held : List LockKey
  pub wanted : LockKey
  pub rest : List LockKey
  pub progress : order_locks keys ≡ held ++ wanted ∷ rest

-- `a` waits for a key that `b` holds, or for one that waits so, and so on.
pub data WaitsFor : Blocked → Blocked → Type 0 where
  directly : {a b : Blocked} → has b.held a.wanted ≡ true → WaitsFor a b
  through : {a b c : Blocked} → has b.held a.wanted ≡ true → WaitsFor b c → WaitsFor a c

has-append : (held rest : List LockKey) (w : LockKey) → has (held ++ w ∷ rest) w ≡ true
unfolding has
has-append [] rest w = rw (same_key_refl w)
has-append (k ∷ held) rest w = rw (has-append held rest w) (or_true (same_key k w))

held-Before :
    (held rest : List LockKey) (w x : LockKey)
    → IsAscending (held ++ w ∷ rest)
    → has held x ≡ true
    → Before x w
unfolding has
held-Before [] rest w x h m = cc
held-Before (k ∷ held) rest w x h m = elim (Bool-cases (same_key k x)) [
  | inl e ↦
      subst (λ y. Before y w) (same_key-eq k x e)
        (All-has (Before k) (held ++ w ∷ rest) w h.0 (has-append held rest w))
  | inr e ↦ held-Before held rest w x h.1 (rw e at m)
]

-- Along a chain of waits the wanted keys strictly ascend.
WaitsFor-Before : {a b : Blocked} → WaitsFor a b → Before a.wanted b.wanted
WaitsFor-Before (directly {a} {b} m) =
    held-Before b.held b.rest b.wanted a.wanted
      (subst IsAscending b.progress (order_locks-IsAscending b.keys)) m
WaitsFor-Before (through {a} {b} {c} m w) =
    Before-trans a.wanted b.wanted c.wanted
      (held-Before b.held b.rest b.wanted a.wanted
        (subst IsAscending b.progress (order_locks-IsAscending b.keys)) m)
      (WaitsFor-Before w)

-- Among transactions that take advisory locks one after the other, each in the order that `order_locks`
-- gives of its own keys, none waits, through however many others, for itself.
pub no_deadlock : (a : Blocked) → ¬ WaitsFor a a
no_deadlock a w = Before-irreflexive a.wanted (WaitsFor-Before w)

-- ===== src/Locks/Hash.antt =====
-- src/db/lock-registry.ts: the int4 that stands for a text.
use Prim.Native.Nat.{bit_xor}
use Prim.Native.Char.{code}
use Prim.Native.String.{[], ◌∷◌}
use ts_graphql_reference.Base.{ℕ, ◌-◌, ◌*◌, ◌%◌, ◌^◌, String, ltb, if◌then◌else◌}
use ts_graphql_reference.Int.{ℤ, pos, negsuc}

-- The loop of `stringLockId` on the 32 bits of its hash: `^=` and `Math.imul`.
unfoldable pub hash_from : ℕ → String → ℕ
hash_from hash [] = hash
hash_from hash (c ∷ s) = hash_from (bit_xor hash (code c) * 16777619 % 2 ^ 32) s

-- `hash | 0`: the 32 bits as an int4.
unfoldable pub to_int32 : ℕ → ℤ
to_int32 bits =
    if ltb (bits % 2 ^ 32) (2 ^ 31)
    then pos (bits % 2 ^ 32)
    else negsuc (2 ^ 32 - bits % 2 ^ 32 - 1)

unfoldable pub string_lock_id : String → ℤ
unfolding hash_from to_int32
string_lock_id value = to_int32 (hash_from 2166136261 value)

-- ===== src/Locks/Registry.antt =====
-- src/db/lock-registry.ts: what can be locked, and under which pair of int4.
pub mod Separate
use ts_graphql_reference.Base.{
  ℕ, ◌-◌, ◌*◌, ◌%◌, ◌^◌, arith, String, List, [], ◌∷◌, ltb, str_eq, if◌then◌else◌,
}
use ts_graphql_reference.Int.{ℤ, pos, negsuc, ◌≤ℤ◌, ◌<ℤ◌}
use ts_graphql_reference.Locks.Hash.{hash_from, to_int32, string_lock_id}
use ts_graphql_reference.Locks.{LockKey, define_locks}

pub data LockNamespace : Type 0 where
  point_balance order_payment financial_holder commission_slot : LockNamespace
  commission_checkout_command commission_contract income_withdrawal_command : LockNamespace
  commission_settlement_command point_charge_payment point_charge_command : LockNamespace

-- The property of the registry that an entry is.
unfoldable pub namespace_text : LockNamespace → String
namespace_text point_balance = "pointBalance"
namespace_text order_payment = "orderPayment"
namespace_text financial_holder = "financialHolder"
namespace_text commission_slot = "commissionSlot"
namespace_text commission_checkout_command = "commissionCheckoutCommand"
namespace_text commission_contract = "commissionContract"
namespace_text income_withdrawal_command = "incomeWithdrawalCommand"
namespace_text commission_settlement_command = "commissionSettlementCommand"
namespace_text point_charge_payment = "pointChargePayment"
namespace_text point_charge_command = "pointChargeCommand"

-- The entries of `lockKey`, in the order of their declaration.
abbrev pub entities : List LockNamespace
entities =
    point_balance ∷ order_payment ∷ financial_holder ∷ commission_slot ∷ commission_checkout_command
    ∷ commission_contract ∷ income_withdrawal_command ∷ commission_settlement_command
    ∷ point_charge_payment ∷ point_charge_command ∷ []

-- What an entry is asked with: an identifier or a text.
pub data Parameter : Type 0 where
  number text : Parameter

abbrev pub ValueOf : Parameter → Type 0
ValueOf number = ℕ
ValueOf text = String

abbrev pub parameter_of : LockNamespace → Parameter
parameter_of point_balance = number
parameter_of order_payment = number
parameter_of financial_holder = number
parameter_of commission_slot = number
parameter_of commission_checkout_command = text
parameter_of commission_contract = number
parameter_of income_withdrawal_command = text
parameter_of commission_settlement_command = text
parameter_of point_charge_payment = text
parameter_of point_charge_command = text

-- The mapper of an entry: the identifier as it is, or the hash of the text.
unfoldable pub to_obj_id : (p : Parameter) → ValueOf p → ℤ
unfolding string_lock_id
to_obj_id number id = pos id
to_obj_id text value = string_lock_id value

-- `registry[namespace]`
unfoldable pub find_ordinal : String → List (LockNamespace × ℕ) → ℕ
unfolding namespace_text
find_ordinal name [] = 0
find_ordinal name (entry ∷ registry) =
    let rest = find_ordinal name registry in
    if str_eq (namespace_text entry.0) name then entry.1 else rest

unfoldable pub ordinal : LockNamespace → ℕ
unfolding find_ordinal define_locks namespace_text
ordinal namespace = find_ordinal (namespace_text namespace) (define_locks entities)

unfoldable pub lock_key : (namespace : LockNamespace) → ValueOf (parameter_of namespace) → LockKey
unfolding ordinal to_obj_id
lock_key namespace value = record {
  ns = ordinal namespace;
  obj = to_obj_id (parameter_of namespace) value;
}

-- The hash of any text fits the int4 that the lock takes.
pub string_lock_id-int4 :
    (value : String)
    → (negsuc (2 ^ 31 - 1) ≤ℤ string_lock_id value) × (string_lock_id value <ℤ pos (2 ^ 31))
unfolding string_lock_id to_int32
string_lock_id-int4 value = bounds (hash_from 2166136261 value)
  where
    bounds : (n : ℕ) → (negsuc (2 ^ 31 - 1) ≤ℤ to_int32 n) × (to_int32 n <ℤ pos (2 ^ 31))
    bounds n = ground arith

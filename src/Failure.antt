-- ===== src/Failure.antt =====
-- src/foundation/errors.ts and the error classes of the modules: what a use-case may throw.
-- A constructor keeps the fields of its class; the text of the message is left out.
use ts_graphql_reference.Base.{
  ℕ, String, Bool, true, false, Option, none, some, if◌then◌else◌, ◌≡◌, refl, ◌⊎◌, inl, inr,
}
use ts_graphql_reference.Int.{ℤ, Number}
use ts_graphql_reference.Point.Data.{PointSnapshot}

-- What a lost race was about: the argument of `ConcurrentUpdateError`.
pub data Contended : Type 0 where
  the_transaction : Contended
  point_charge : ℕ → Contended
  point_balance : ℕ → Contended
  user_status : ℕ → Contended
  checkout_lock_targets : Contended
  financial_lot : ℕ → Contended
  financial_reservation : ℕ → Contended
  the_order_payment : ℕ → Contended
  the_order : ℕ → Contended
  the_commission_slot : ℕ → Contended

pub data Error : Type 0 where
  concurrent_update : Contended → Error
  feature_disabled : String → Error
  point_amount_not_positive : Number → Error
  insufficient_point : ℤ → ℤ → Error
  point_ledger_inconsistency : PointSnapshot → ℤ → ℤ → Error
  unknown_point_charge_state : String → Error
  point_balance_drift : ℕ → PointSnapshot → PointSnapshot → Error
  point_transfer_to_self : ℕ → Error
  invalid_financial_amount : Number → Error
  insufficient_financial_funds : ℤ → ℤ → Error
  income_withdrawal : String → Error
  insufficient_income : ℤ → ℤ → Error
  commission_checkout_actor : Error
  commission_checkout_state : String → Error
  commission_checkout_idempotency : Error
  commission_settlement_state : String → Error
  point_charge_state : String → Error
  point_charge_source : ℕ → Error
  invalid_status_transition : String → String → Error
  unknown_user_status : String → Error
  invalid_email : String → Error
  email_already_registered : String → Error
  unknown_flag_stage : String → Error
  invalid_flag_window : Error
  financial_holder_not_found : String → String → Error
  available_account_not_found : ℕ → String → Error
  commission_settlement_funding_not_found : ℕ → Error
  financial_account_not_found : ℕ → String → String → Error
  invalid_income_source : Error
  order_payment_not_found : ℕ → Error
  paid_order_not_found : ℕ → Error
  commission_contract_not_found : ℕ → Error
  commission_slot_not_found : ℕ → Error
  commission_type_not_found : ℕ → Error
  plain_error : String → Error
  record_not_found : Error
  unique_violation : Error
  foreign_key_violation : Error
  check_violation : Error
  serialization_conflict : Error

-- `code` of a `DomainError`; an error that is none has no code and is masked.
unfoldable pub code : Error → Option String
code (concurrent_update c) = some "CONFLICT"
code (feature_disabled f) = some "UNAVAILABLE"
code (point_amount_not_positive n) = some "INVALID_POINT_AMOUNT"
code (insufficient_point a r) = some "INSUFFICIENT_POINT"
code (point_ledger_inconsistency s p f) = none
code (unknown_point_charge_state v) = none
code (point_balance_drift u s c) = none
code (point_transfer_to_self u) = some "POINT_TRANSFER_TO_SELF"
code (invalid_financial_amount n) = some "INVALID_FINANCIAL_AMOUNT"
code (insufficient_financial_funds a r) = some "INSUFFICIENT_FINANCIAL_FUNDS"
code (income_withdrawal m) = some "INVALID_INCOME_WITHDRAWAL"
code (insufficient_income a r) = some "INVALID_INCOME_WITHDRAWAL"
code commission_checkout_actor = some "COMMISSION_CHECKOUT_ACTOR_MISMATCH"
code (commission_checkout_state m) = some "ORDER_NOT_PAYABLE"
code commission_checkout_idempotency = some "IDEMPOTENCY_MISMATCH"
code (commission_settlement_state m) = some "COMMISSION_NOT_SETTLEABLE"
code (point_charge_state m) = some "POINT_CHARGE_INVALID"
code (point_charge_source l) = some "POINT_CHARGE_INVALID"
code (invalid_status_transition f t) = some "INVALID_STATUS_TRANSITION"
code (unknown_user_status v) = none
code (invalid_email v) = some "INVALID_EMAIL"
code (email_already_registered e) = some "EMAIL_TAKEN"
code (unknown_flag_stage v) = some "UNKNOWN_FLAG_STAGE"
code invalid_flag_window = some "INVALID_FLAG_WINDOW"
code (financial_holder_not_found n k) = some "FINANCIAL_HOLDER_NOT_FOUND"
code (available_account_not_found h c) = some "AVAILABLE_ACCOUNT_NOT_FOUND"
code (commission_settlement_funding_not_found r) = some "COMMISSION_SETTLEMENT_FUNDING_NOT_FOUND"
code (financial_account_not_found h c p) = some "FINANCIAL_ACCOUNT_NOT_FOUND"
code invalid_income_source = some "INVALID_INCOME_SOURCE"
code (order_payment_not_found i) = some "ORDER_PAYMENT_NOT_FOUND"
code (paid_order_not_found i) = some "PAID_ORDER_NOT_FOUND"
code (commission_contract_not_found i) = some "COMMISSION_CONTRACT_NOT_FOUND"
code (commission_slot_not_found i) = some "COMMISSION_SLOT_NOT_FOUND"
code (commission_type_not_found i) = some "COMMISSION_TYPE_NOT_FOUND"
code (plain_error m) = none
code record_not_found = none
code unique_violation = none
code foreign_key_violation = none
code check_violation = none
code serialization_conflict = none

unfoldable pub is_domain_error : Error → Bool
unfolding code
is_domain_error e = elim (code e) [ none ↦ false | some c ↦ true ]

-- A function that may throw.
pub data Result {ℓ} (A : Type ℓ) : Type ℓ where
  ok : A → Result A
  err : Error → Result A

module _ {ℓ κ} {A : Type ℓ} {B : Type κ} where
  -- What follows runs on a value, and a thrown error skips it.
  infixl 5 ◌>>=◌
  abbrev pub ◌>>=◌ : Result A → (A → Result B) → Result B
  ok value >>= next = next value
  err thrown >>= next = err thrown

  -- Inversion of what has not thrown.
  pub >>=-ok :
      (first : Result A) (next : A → Result B) {b : B}
      → (first >>= next) ≡ ok b
      → (value : A) × (first ≡ ok value) × (next value ≡ ok b)
  >>=-ok (ok value) next returned = (value, refl, returned)
  >>=-ok (err thrown) next returned = cc

infixl 5 ◌>>◌
abbrev pub ◌>>◌ {ℓ} : {B : Type ℓ} → Result (Unit {0}) → Result B → Result B
check >> rest = check >>= λ _. rest

-- `if (test) throw e;`
abbrev pub throw_if : Bool → Error → Result (Unit {0})
throw_if b e = if b then err e else ok tt

-- To split on a call and keep the equation.
pub Result-cases {ℓ} :
    {A : Type ℓ} (call : Result A)
    → ((value : A) × (call ≡ ok value)) ⊎ ((thrown : Error) × (call ≡ err thrown))
Result-cases (ok value) = inl (value, refl)
Result-cases (err thrown) = inr (thrown, refl)

pub throw_if-ok {ℓ} :
    {B : Type ℓ} (t : Bool) (e : Error) (k : Result B) {b : B}
    → (throw_if t e >> k) ≡ ok b
    → (t ≡ false) × (k ≡ ok b)
throw_if-ok true e k h = cc
throw_if-ok false e k h = (refl, h)

-- ===== src/Withdrawal.antt =====
-- src/modules/income-withdrawal/income-withdrawal.core.ts: the replay of a withdrawal command, and
-- the plan of a new one.
pub mod Allocation
pub mod Replay
pub mod Service
pub mod Posted
pub mod Once
use ts_graphql_reference.Base.{
  ℕ, Bool, true, false, ◌&&◌, ◌||◌, not, Option, none, some, List, [], ◌∷◌, String, if◌then◌else◌,
  ◌-◌, ◌^◌, present, str_ne,
}
use ts_graphql_reference.Int.{
  ℤ, pos, ◌+ℤ◌, ◌-ℤ◌, ◌==ℤ◌, ltb_ℤ, leb_ℤ, min_ℤ, Number, whole, fractional, max_safe_integer,
}
use ts_graphql_reference.Failure.{
  Result, ok, err, ◌>>=◌, ◌>>◌, throw_if, income_withdrawal, insufficient_income,
}

abbrev pub income_withdrawal_namespace : String
income_withdrawal_namespace = "income-withdrawal"

pub record IncomeWithdrawalInput : Type 0 where
  pub actor_id : ℕ
  pub amount : Number
  pub command_key : String

pub record IncomeLot : Type 0 where
  pub lot_id : ℕ
  pub remaining_amount : ℤ

pub record IncomeWithdrawalWorld : Type 0 where
  pub holder_id : ℕ
  pub available_account_id : ℕ
  pub lots : List IncomeLot

pub record WithdrawalReplayIdentity : Type 0 where
  pub flow_id : String
  pub flow_kind : String
  pub kind : String
  pub payload_hash : String
  pub subject_namespace : String
  pub subject_key : String
  pub operation_db_id : Option String
  pub reference_id : String
  pub command_id : String
  pub operation_id : Option String

unfoldable pub assert_income_withdrawal_replay :
    WithdrawalReplayIdentity → String → Result WithdrawalReplayIdentity
assert_income_withdrawal_replay stored requested_payload_hash = do
  throw_if
      (str_ne stored.flow_kind "WITHDRAWAL"
        || str_ne stored.kind "WITHDRAW"
        || str_ne stored.payload_hash requested_payload_hash
        || str_ne stored.subject_namespace income_withdrawal_namespace
        || str_ne stored.subject_key stored.flow_id)
      (income_withdrawal "Withdrawal command key identity mismatch")
  throw_if (not (present stored.operation_db_id) || not (present stored.operation_id))
      (income_withdrawal "Withdrawal command has no completed operation")
  ok stored

pub record IncomeAllocation : Type 0 where
  pub lot_id : ℕ
  pub assumed_remaining_amount : ℤ
  pub amount : ℤ

-- The loop of `planIncomeWithdrawal`.
unfoldable pub withdraw : List IncomeLot → ℤ → List IncomeAllocation × ℤ
withdraw [] remaining = ([], remaining)
withdraw (lot ∷ lots) remaining =
    let amount = min_ℤ lot.remaining_amount remaining in
    let skipped = withdraw lots remaining in
    let taken : List IncomeAllocation × ℤ =
      let (rest, left) = withdraw lots (remaining -ℤ amount) in
      (
        record {
          lot_id = lot.lot_id;
          assumed_remaining_amount = lot.remaining_amount;
          amount = amount;
        }
            ∷ rest,
        left,
      ) in
    if remaining ==ℤ pos 0 then ([], remaining) else if ltb_ℤ (pos 0) amount then taken else skipped

-- The key of the flow that the plan is about to create.
pub data KeySource : Type 0 where
  flow_id_source : KeySource

pub record FlowRequest : Type 0 where
  pub kind : String
  pub allowed_commands : List String

pub record WithdrawalCommandRequest : Type 0 where
  pub flow_kind : String
  pub kind : String
  pub principal_id : ℕ
  pub idempotency_key : String
  pub subject_namespace : String
  pub subject_key : KeySource

pub record OperationRequest : Type 0 where
  pub kind : String
  pub action_kind : String

pub record EscrowAccount : Type 0 where
  pub purpose : String
  pub currency : String

pub record WithdrawalTransfer : Type 0 where
  pub currency : String
  pub amount : ℤ
  pub from_account_id : ℕ
  pub allocations : List IncomeAllocation

pub record WithdrawalReservation : Type 0 where
  pub binding_namespace : String
  pub binding_key : KeySource
  pub holder_id : ℕ
  pub purpose : String
  pub currency : String
  pub amount : ℤ
  pub escrow_account : EscrowAccount
  pub transfer : WithdrawalTransfer

pub record IncomeWithdrawalPlan : Type 0 where
  pub flow_request : FlowRequest
  pub command_request : WithdrawalCommandRequest
  pub operation_request : OperationRequest
  pub reservation_request : WithdrawalReservation
  pub withdrawal_flow_kind : String

-- `!Number.isSafeInteger(amount) || amount <= 0` throws; what passed is a whole number.
unfoldable pub assert_withdrawal_amount : Number → Result ℤ
assert_withdrawal_amount (whole n) =
    if leb_ℤ n (pos 0) || ltb_ℤ max_safe_integer n
    then err (income_withdrawal "Withdrawal amount must be a positive integer")
    else ok n
assert_withdrawal_amount fractional =
    err (income_withdrawal "Withdrawal amount must be a positive integer")

-- The requests of the plan, from the allocations.
unfoldable pub withdrawal_plan :
    IncomeWithdrawalWorld → IncomeWithdrawalInput → ℤ → List IncomeAllocation → IncomeWithdrawalPlan
withdrawal_plan world input amount allocations = record {
  flow_request = record { kind = "WITHDRAWAL"; allowed_commands = "WITHDRAW" ∷ [] };
  command_request = record {
    flow_kind = "WITHDRAWAL";
    kind = "WITHDRAW";
    principal_id = input.actor_id;
    idempotency_key = input.command_key;
    subject_namespace = income_withdrawal_namespace;
    subject_key = flow_id_source;
  };
  operation_request = record { kind = "WITHDRAW"; action_kind = "TRANSFER" };
  reservation_request = record {
    binding_namespace = income_withdrawal_namespace;
    binding_key = flow_id_source;
    holder_id = world.holder_id;
    purpose = "INCOME_WITHDRAWAL";
    currency = "INCOME";
    amount = amount;
    escrow_account = record { purpose = "ESCROW"; currency = "INCOME" };
    transfer = record {
      currency = "INCOME";
      amount = amount;
      from_account_id = world.available_account_id;
      allocations = allocations;
    };
  };
  withdrawal_flow_kind = "WITHDRAWAL";
}

unfoldable pub plan_income_withdrawal :
    IncomeWithdrawalWorld → IncomeWithdrawalInput → Result IncomeWithdrawalPlan
unfolding assert_withdrawal_amount withdraw withdrawal_plan
plan_income_withdrawal world input = do
  n ← assert_withdrawal_amount input.amount
  let (allocations, remaining) = withdraw world.lots n
  throw_if (ltb_ℤ (pos 0) remaining) (insufficient_income (n -ℤ remaining) n)
  ok (withdrawal_plan world input n allocations)

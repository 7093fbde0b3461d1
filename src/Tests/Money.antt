-- ===== src/Tests/Money.antt =====
-- Reservations, withdrawals, checkouts and settlements of concrete worlds.
use ts_graphql_reference.Base.{
  ◌≡◌, ◌↔◌, refl, true, none, some, List, [], ◌∷◌, All, arith, if◌then◌else◌,
}
use ts_graphql_reference.Int.{ℤ, pos, ◌-ℤ◌, ◌≤ℤ◌, min_ℤ, leb_ℤ, whole}
use ts_graphql_reference.Failure.{ok, err, insufficient_financial_funds}
use ts_graphql_reference.Ledger.{
  FinancialLotBalance, FinancialAllocation, assert_financial_amount, reserve, plan_reservation,
}
use ts_graphql_reference.Ledger.Reservation.{
  HasFunds, funds, IsReservation, plan_reservation-IsReservation, plan_reservation_complete,
}
use ts_graphql_reference.Withdrawal.{
  IncomeWithdrawalWorld, IncomeWithdrawalInput, WithdrawalReplayIdentity, withdraw, withdrawal_plan,
  assert_withdrawal_amount, plan_income_withdrawal,
}
use ts_graphql_reference.Withdrawal.Allocation.{IsWithdrawal, plan_income_withdrawal-IsWithdrawal}
use ts_graphql_reference.Checkout
use ts_graphql_reference.Checkout.{
  CommissionCheckoutWorld, CommissionCheckoutInput, ReplayIdentity, checkout_plan,
  plan_commission_checkout, assert_commission_checkout_actor, plan_commission_checkout_command,
  plan_commission_checkout_start, assert_commission_checkout_replay_identity,
}
use ts_graphql_reference.Checkout.Plan.{
  IsPayable, plan_commission_checkout_iff, IsCoherent, plan_commission_checkout-IsCoherent,
}
use ts_graphql_reference.Checkout.Start.{IsStart, plan_commission_checkout_start_iff}

abbrev lots : List FinancialLotBalance
lots =
    record { lot_id = 1; remaining_amount = pos 30 }
    ∷ record { lot_id = 2; remaining_amount = pos 0 }
    ∷ record { lot_id = 3; remaining_amount = pos 20 }
    ∷ []

lots-HasFunds : All HasFunds lots
lots-HasFunds = (omega arith, (omega arith, (omega arith, tt)))

abbrev allocations : List FinancialAllocation
allocations =
    record { lot_id = 1; amount = pos 30; assumed_remaining_amount = pos 30 }
    ∷ record { lot_id = 3; amount = pos 10; assumed_remaining_amount = pos 20 }
    ∷ []

reserve_40 : plan_reservation lots (whole (pos 40)) ≡ ok allocations
unfolding plan_reservation assert_financial_amount reserve min_ℤ ◌-ℤ◌
reserve_40 = refl

plan_reservation-IsReservation_example :
    (n : ℤ) × (whole (pos 40) ≡ whole n) × (n ≤ℤ funds lots) × IsReservation lots n allocations
plan_reservation-IsReservation_example =
    plan_reservation-IsReservation lots (whole (pos 40)) lots-HasFunds reserve_40

plan_reservation_complete_example :
    if leb_ℤ (pos 60) (funds lots)
    then plan_reservation lots (whole (pos 60)) ≡ ok (reserve lots (pos 60)).0
    else plan_reservation lots (whole (pos 60))
      ≡ err (insufficient_financial_funds (funds lots) (pos 60))
plan_reservation_complete_example =
    plan_reservation_complete lots (pos 60) lots-HasFunds (omega arith)

abbrev income_world : IncomeWithdrawalWorld
income_world = record {
  holder_id = 4;
  available_account_id = 8;
  lots =
      record { lot_id = 1; remaining_amount = pos 30 }
      ∷ record { lot_id = 3; remaining_amount = pos 20 }
      ∷ [];
}

abbrev withdrawal_input : IncomeWithdrawalInput
withdrawal_input = record { actor_id = 7; amount = whole (pos 40); command_key = "k" }

withdraw_40 :
    plan_income_withdrawal income_world withdrawal_input
    ≡ ok (
        withdrawal_plan income_world withdrawal_input
          (pos 40)
          (withdraw income_world.lots (pos 40)).0)
unfolding plan_income_withdrawal assert_withdrawal_amount withdraw min_ℤ ◌-ℤ◌
withdraw_40 = refl

plan_income_withdrawal-IsWithdrawal_example :
    (n : ℤ) × IsWithdrawal income_world withdrawal_input n (
      withdrawal_plan income_world withdrawal_input
        (pos 40)
        (withdraw income_world.lots (pos 40)).0)
plan_income_withdrawal-IsWithdrawal_example =
    plan_income_withdrawal-IsWithdrawal income_world withdrawal_input
      (omega arith, (omega arith, tt)) withdraw_40

abbrev stored_withdrawal : WithdrawalReplayIdentity
stored_withdrawal = record {
  flow_id = "f";
  flow_kind = "WITHDRAWAL";
  kind = "WITHDRAW";
  payload_hash = "h";
  subject_namespace = "income-withdrawal";
  subject_key = "f";
  operation_db_id = some "o";
  reference_id = "WITHDRAWAL-f";
  command_id = "CMD-WITHDRAW-c";
  operation_id = some "OP-WITHDRAW-o";
}

abbrev checkout_world : CommissionCheckoutWorld
checkout_world = record {
  order = record {
    id = 5;
    buyer_id = 7;
    flow_id = "f";
    amount = pos 40;
    currency = "POINT";
    state = "REQUESTED";
  };
  payment = record {
    id = 6;
    flow_id = "f";
    amount = pos 40;
    currency = "POINT";
    state = "PENDING";
  };
  terms = record { worker_id = 2; price = pos 40 };
  slot = record { id = 3; worker_id = 2; state = "AVAILABLE" };
  funding_holder_id = 4;
}

abbrev checkout_input : CommissionCheckoutInput
checkout_input = record { order_payment_id = 6; actor_id = 7; command_key = "k" }

checkout_6 :
    plan_commission_checkout checkout_world checkout_input
    ≡ ok (checkout_plan checkout_world checkout_input)
unfolding plan_commission_checkout assert_commission_checkout_actor
checkout_6 = refl

plan_commission_checkout_iff_example :
    (plan_commission_checkout checkout_world checkout_input
      ≡ ok (checkout_plan checkout_world checkout_input))
    ↔ IsPayable checkout_world checkout_input
plan_commission_checkout_iff_example = plan_commission_checkout_iff checkout_world checkout_input

plan_commission_checkout-IsCoherent_example :
    IsCoherent checkout_world checkout_input (checkout_plan checkout_world checkout_input)
plan_commission_checkout-IsCoherent_example =
    plan_commission_checkout-IsCoherent checkout_world checkout_input checkout_6

abbrev paid_before : Checkout.ExistingCommissionCheckout
paid_before = record {
  payload_hash = "h";
  buyer_id = 7;
  economic_result = record {
    order_id = 5;
    order_payment_id = 6;
    contract_id = 1;
    reservation_id = 1;
    reference_id = "COMMISSION-f";
    command_id = "CMD-PAY-c";
    operation_id = "OP-PAY-o";
  };
}

plan_commission_checkout_start_iff_example :
    (plan_commission_checkout_start none (some paid_before) "h" 7
      ≡ ok (Checkout.replay paid_before.economic_result true))
    ↔ IsStart none (some paid_before) "h" 7 (Checkout.replay paid_before.economic_result true)
plan_commission_checkout_start_iff_example =
    plan_commission_checkout_start_iff none (some paid_before) "h" 7
      (Checkout.replay paid_before.economic_result true)

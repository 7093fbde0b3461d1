-- ===== src/Ledger/Writes.antt =====
-- src/modules/financial-ledger/financial-ledger.repo.ts: what it writes.
use ts_graphql_reference.Base.{
  ℕ, Bool, ◌&&◌, not, none, some, List, [], ◌∷◌, map, String, ◌==◌, str_eq,
}
use ts_graphql_reference.Int.{ℤ, ◌-ℤ◌, ◌==ℤ◌}
use ts_graphql_reference.Failure.{concurrent_update, financial_lot, financial_reservation}
use ts_graphql_reference.Tx.{Tx, pure, throw_if, for_each, ◌>>=◌, ◌>>◌}
use ts_graphql_reference.Flow.{FinancialCommandKind, settle, charge, commission, point_charge}
use ts_graphql_reference.Runtime.{Runtime, set_constraints}
use ts_graphql_reference.Store.{
  Store, ReservationRow, AccountRow, LotRow, TransferRow, TransferAllocationRow, TransferActionRow,
  SwapActionRow, SwapLegRow,
}
use ts_graphql_reference.Store.Tables.{
  reservation_table, account_table, lot_table, transfer_table, transfer_allocation_table,
  transfer_action_table, swap_action_table, swap_leg_table,
}
use ts_graphql_reference.Store.Client.{create, create_many, update_many}
use ts_graphql_reference.Ledger.{FinancialAllocation}
use ts_graphql_reference.Checkout.{CommissionPaymentReservationRequest}
use ts_graphql_reference.Withdrawal.{IncomeAllocation, EscrowAccount, WithdrawalTransfer}
use ts_graphql_reference.PointCharge.{LotRequest}
use ts_graphql_reference.Settlement.Data.{SwapLeg, SwapRequest}

abbrev pub charge_lot : String → String → LotRequest → ℤ → ℕ → LotRow
charge_lot flow_id operation_id request now i = record {
  id = i;
  account_id = request.account_id;
  currency = request.currency;
  source_kind = request.source_kind;
  source_operation_id = some operation_id;
  source_swap_action_id = none;
  source_flow_id = some flow_id;
  source_flow_kind = some point_charge;
  source_operation_kind = some charge;
  issuance_reason = some request.issuance_reason;
  accounting_category = some request.accounting_category;
  accounting_policy_version = some request.accounting_policy_version;
  original_amount = request.amount;
  remaining_amount = request.amount;
  created_at = now;
}

unfoldable pub apply_point_charge_lot : String → String → LotRequest → Tx Store LotRow
unfolding create
apply_point_charge_lot flow_id operation_id request s =
    create lot_table (charge_lot flow_id operation_id request s.now) s

-- The guard of a lot's UPDATE: its account, and what the plan assumed to remain.
abbrev pub remains : ℕ → FinancialAllocation → LotRow → Bool
remains account_id a r =
    r.id == a.lot_id
    && r.account_id == account_id
    && r.remaining_amount ==ℤ a.assumed_remaining_amount

abbrev pub decrement : ℤ → LotRow → LotRow
decrement n r = record r { remaining_amount = r.remaining_amount -ℤ n }

unfoldable pub reserve_lot : ℕ → FinancialAllocation → Tx Store (Unit {0})
unfolding update_many
reserve_lot account_id a = do
  count ← update_many lot_table (remains account_id a) (decrement a.amount)
  throw_if (not (count == 1)) (concurrent_update (financial_lot a.lot_id))

abbrev pub escrow_row : String → ℕ → ℕ → AccountRow
escrow_row currency reservation_id i = record {
  id = i;
  currency = currency;
  purpose = "ESCROW";
  holder_id = none;
  reservation_id = some reservation_id;
}

abbrev pub payment_reservation : CommissionPaymentReservationRequest → ℕ → ReservationRow
payment_reservation request i = record {
  id = i;
  flow_id = request.flow_id;
  binding_namespace = request.binding_namespace;
  binding_key = request.binding_key;
  holder_id = request.holder_id;
  purpose = request.purpose;
  currency = request.currency;
  target_amount = request.amount;
  state = "HELD";
}

abbrev pub transfer_row : ℕ → String → String → ℕ → ℕ → ℤ → String → ℕ → TransferRow
transfer_row reservation_id flow_id currency from_account to_account amount action_id i = record {
  id = i;
  reservation_id = reservation_id;
  flow_id = flow_id;
  currency = currency;
  from_account_id = from_account;
  to_account_id = to_account;
  amount = amount;
  action_id = action_id;
}

abbrev pub allocation_row : ℕ → ℕ → String → (lot_id : ℕ) → ℤ → TransferAllocationRow
allocation_row transfer_id account_id currency lot_id amount = record {
  transfer_id = transfer_id;
  from_account_id = account_id;
  currency = currency;
  lot_id = lot_id;
  amount = amount;
}

unfoldable pub apply_commission_payment_reservation :
    CommissionPaymentReservationRequest
    → ℕ
    → List FinancialAllocation
    → String
    → Tx Store ReservationRow
unfolding reserve_lot create create_many
apply_commission_payment_reservation request account_id allocations action_id = do
  for_each (reserve_lot account_id) allocations
  reservation ← create reservation_table (payment_reservation request)
  escrow ← create account_table (escrow_row request.currency reservation.id)
  transfer ← create transfer_table (
      transfer_row reservation.id request.flow_id request.currency account_id escrow.id
        request.amount action_id)
  create_many transfer_allocation_table (
      map
        (λ (a : FinancialAllocation).
          allocation_row transfer.id account_id request.currency a.lot_id a.amount)
        allocations)
  pure reservation

module _ (runtime : Runtime) where
  unfoldable pub create_transfer_action :
      String → String → FinancialCommandKind → Tx Store TransferActionRow
  unfolding create
  create_transfer_action operation_id flow_id kind = create transfer_action_table λ i. record {
    id = runtime.uuid i;
    flow_id = flow_id;
    operation_id = operation_id;
    operation_kind = kind;
  }

  abbrev pub swap_action_row : SwapRequest → String → ℕ → SwapActionRow
  swap_action_row input operation_id i = record {
    id = runtime.uuid i;
    flow_id = input.flow_id;
    operation_id = operation_id;
    operation_kind = settle;
    reservation_id = input.reservation_id;
    beneficiary_holder_id = input.beneficiary_holder_id;
  }

  abbrev pub swap_leg_row : SwapRequest → String → SwapLeg → SwapLegRow
  swap_leg_row input action_id leg = record {
    action_id = action_id;
    flow_id = input.flow_id;
    currency = leg.currency;
    from_account_id = leg.from_account_id;
    to_account_id = leg.to_account_id;
    amount = input.amount;
  }

  abbrev pub income_lot_row : SwapRequest → String → String → ℤ → ℕ → LotRow
  income_lot_row input operation_id action_id now i = record {
    id = i;
    account_id = input.income_lot.account_id;
    currency = input.income_lot.currency;
    source_kind = input.income_lot.source_kind;
    source_operation_id = some operation_id;
    source_swap_action_id = some action_id;
    source_flow_id = some input.flow_id;
    source_flow_kind = some commission;
    source_operation_kind = some settle;
    issuance_reason = none;
    accounting_category = none;
    accounting_policy_version = none;
    original_amount = input.income_lot.original_amount;
    remaining_amount = input.income_lot.original_amount;
    created_at = now;
  }

  abbrev pub create_income_lot : SwapRequest → String → String → Tx Store LotRow
  create_income_lot input operation_id action_id s =
      create lot_table (income_lot_row input operation_id action_id s.now) s

  -- The guard of the reservation's UPDATE.
  abbrev pub is_held : SwapRequest → ReservationRow → Bool
  is_held input r =
      r.id == input.reservation_id && str_eq r.flow_id input.flow_id && str_eq r.state "HELD"

  abbrev pub as_settled : ReservationRow → ReservationRow
  as_settled r = record r { state = "SETTLED" }

  unfoldable pub apply_commission_income_settlement :
      SwapRequest → String → Tx Store (SwapActionRow × LotRow)
  unfolding create create_many update_many
  apply_commission_income_settlement input operation_id = do
    action ← create swap_action_table (swap_action_row input operation_id)
    create_many swap_leg_table
        (map (swap_leg_row input action.id) (input.point_leg ∷ input.income_leg ∷ []))
    lot ← create_income_lot input operation_id action.id
    count ← update_many reservation_table (is_held input) as_settled
    throw_if (not (count == 1)) (concurrent_update (financial_reservation input.reservation_id))
    pure (action, lot)

  unfoldable pub assert_commission_settlement_shape : Tx Store (Unit {0})
  assert_commission_settlement_shape = set_constraints runtime (
      "FinancialSwap_shape_check" ∷ "FinancialReservation_settlement_shape_check"
      ∷ "FinancialCommand_effect_completeness_check" ∷ [])

-- The guard of an INCOME lot's UPDATE has the currency too.
abbrev pub income_remains : WithdrawalTransfer → IncomeAllocation → LotRow → Bool
income_remains transfer a r =
    r.id == a.lot_id
    && r.account_id == transfer.from_account_id
    && str_eq r.currency transfer.currency
    && r.remaining_amount ==ℤ a.assumed_remaining_amount

unfoldable pub withdraw_lot : WithdrawalTransfer → IncomeAllocation → Tx Store (Unit {0})
unfolding update_many
withdraw_lot transfer a = do
  count ← update_many lot_table (income_remains transfer a) (decrement a.amount)
  throw_if (not (count == 1)) (concurrent_update (financial_lot a.lot_id))

-- A reservation request whose binding key is known.
pub record IncomeReservationRequest : Type 0 where
  pub binding_namespace : String
  pub binding_key : String
  pub holder_id : ℕ
  pub purpose : String
  pub currency : String
  pub amount : ℤ
  pub escrow_account : EscrowAccount
  pub transfer : WithdrawalTransfer

abbrev pub income_reservation : String → IncomeReservationRequest → ℕ → ReservationRow
income_reservation flow_id request i = record {
  id = i;
  flow_id = flow_id;
  binding_namespace = request.binding_namespace;
  binding_key = request.binding_key;
  holder_id = request.holder_id;
  purpose = request.purpose;
  currency = request.currency;
  target_amount = request.amount;
  state = "HELD";
}

abbrev pub income_escrow : EscrowAccount → ℕ → ℕ → AccountRow
income_escrow account reservation_id i = record {
  id = i;
  currency = account.currency;
  purpose = account.purpose;
  holder_id = none;
  reservation_id = some reservation_id;
}

unfoldable pub apply_income_withdrawal_reservation :
    String → IncomeReservationRequest → String → Tx Store ReservationRow
unfolding withdraw_lot create create_many
apply_income_withdrawal_reservation flow_id request action_id = do
  let transfer_request = request.transfer
  for_each (withdraw_lot transfer_request) transfer_request.allocations
  reservation ← create reservation_table (income_reservation flow_id request)
  escrow ← create account_table (income_escrow request.escrow_account reservation.id)
  transfer ← create transfer_table (
      transfer_row reservation.id flow_id transfer_request.currency transfer_request.from_account_id
        escrow.id transfer_request.amount action_id)
  create_many transfer_allocation_table (
      map
        (λ (a : IncomeAllocation).
          allocation_row transfer.id transfer_request.from_account_id transfer_request.currency
            a.lot_id a.amount)
        transfer_request.allocations)
  pure reservation

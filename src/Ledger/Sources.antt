-- ===== src/Ledger/Sources.antt =====
-- src/modules/financial-ledger/financial-ledger.repo.ts: where the money of a reservation came from.
use ts_graphql_reference.Base.{
  ℕ, Bool, ◌||◌, not, Option, none, some, List, [], ◌∷◌, map, String, if◌then◌else◌, ◌==◌, ltb,
  str_eq,
}
use ts_graphql_reference.Int.{ℤ, ◌+ℤ◌}
use ts_graphql_reference.Failure.{Result, ok, err, ◌>>=◌, invalid_income_source}
use ts_graphql_reference.Tx.{Tx, pure, lift, ◌>>=◌ as then_}
use ts_graphql_reference.Flow.{
  TransactionFlowKind, commission, FinancialCommandKind, flow_kind_text, command_kind_text,
}
use ts_graphql_reference.Store.{Store, LotRow, TransferRow, TransferAllocationRow}
use ts_graphql_reference.Store.Tables.{
  same_flow_kind, lot_table, reservation_table, transfer_allocation_table,
}
use ts_graphql_reference.Store.Client.{find_unique_or_throw, find_many}
use ts_graphql_reference.PointCharge.{CommissionPointFundingAllocation}
use ts_graphql_reference.Ledger.Loads.{transfer_of}

abbrev pub FundedAllocation : Type 0
FundedAllocation = TransferAllocationRow × LotRow

-- The relation `lot` of each allocation.
unfoldable pub join_lots : List TransferAllocationRow → Tx Store (List FundedAllocation)
unfolding find_unique_or_throw
join_lots [] s = ok ([], s)
join_lots (a ∷ rows) s = elim (find_unique_or_throw lot_table (λ l. l.id == a.lot_id) s) [
  | err e ↦ err e
  | ok (lot, t) ↦ elim (join_lots rows t) [ err e ↦ err e | ok (rest, u) ↦ ok ((a, lot) ∷ rest, u) ]
]

-- `orderBy: { lotId: 'asc' }`
abbrev pub lot_before : TransferAllocationRow → TransferAllocationRow → Bool
lot_before a b = ltb a.lot_id b.lot_id

unfoldable pub allocations_of : Option TransferRow → Tx Store (List FundedAllocation)
unfolding find_many join_lots
allocations_of none s = ok ([], s)
allocations_of (some transfer) s =
    then_ (find_many transfer_allocation_table (λ a. a.transfer_id == transfer.id) lot_before)
      join_lots s

-- The allocations of the reservation's transfer, none when it has no transfer.
unfoldable pub load_allocations : ℕ → Tx Store (List FundedAllocation)
unfolding find_unique_or_throw transfer_of allocations_of
load_allocations reservation_id =
    then_ (find_unique_or_throw reservation_table (λ r. r.id == reservation_id))
      λ reservation. then_ (transfer_of reservation.id) λ transfer. allocations_of transfer

abbrev pub kind_text : Option TransactionFlowKind → Option String
kind_text none = none
kind_text (some k) = some (flow_kind_text k)

abbrev pub operation_kind_text : Option FinancialCommandKind → Option String
operation_kind_text none = none
operation_kind_text (some k) = some (command_kind_text k)

abbrev pub funding_allocation : FundedAllocation → CommissionPointFundingAllocation
funding_allocation (a, lot) = record {
  lot_id = a.lot_id;
  amount = a.amount;
  source_flow_id = lot.source_flow_id;
  source_flow_kind = kind_text lot.source_flow_kind;
  source_operation_id = lot.source_operation_id;
  source_operation_kind = operation_kind_text lot.source_operation_kind;
  issuance_reason = lot.issuance_reason;
  accounting_category = lot.accounting_category;
  accounting_policy_version = lot.accounting_policy_version;
}

unfoldable pub load_commission_point_funding_allocations :
    ℕ → Tx Store (List CommissionPointFundingAllocation)
unfolding load_allocations
load_commission_point_funding_allocations reservation_id =
    then_ (load_allocations reservation_id) λ l. pure (map funding_allocation l)

-- An entry of the map, whose flow is a commission's.
pub record WithdrawalSource : Type 0 where
  pub flow_id : String
  pub amount : ℤ

-- `amounts.set(flowId, … + amount)`: a new key comes last, a known one stays in its place.
unfoldable pub add_source : String → ℤ → List WithdrawalSource → List WithdrawalSource
add_source flow_id n [] = record { flow_id = flow_id; amount = n } ∷ []
add_source flow_id n (x ∷ l) =
    let rest = x ∷ add_source flow_id n l in
    if str_eq x.flow_id flow_id then record x { amount = x.amount +ℤ n } ∷ l else rest

-- The commission that a lot came from.
unfoldable pub commission_source : LotRow → Result String
commission_source lot = elim lot.source_flow_id [
  | none ↦ err invalid_income_source
  | some flow_id ↦ elim lot.source_flow_kind [
    | none ↦ err invalid_income_source
    | some kind ↦
        if str_eq flow_id "" || not (same_flow_kind kind commission)
        then err invalid_income_source
        else ok flow_id
  ]
]

-- The loop over the allocations.
unfoldable pub group_sources :
    List FundedAllocation → List WithdrawalSource → Result (List WithdrawalSource)
unfolding commission_source add_source
group_sources [] amounts = ok amounts
group_sources ((a, lot) ∷ l) amounts = do
  flow_id ← commission_source lot
  group_sources l (add_source flow_id a.amount amounts)

unfoldable pub load_income_withdrawal_sources : ℕ → Tx Store (List WithdrawalSource)
unfolding load_allocations group_sources
load_income_withdrawal_sources reservation_id =
    then_ (load_allocations reservation_id) λ l. lift (group_sources l [])

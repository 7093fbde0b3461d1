-- ===== src/Flow/Aliased.antt =====
-- A second command for an operation that another has completed.
use ts_graphql_reference.Base.{
  ◌≡◌, sym, subst, refl, Bool, true, false, Option, none, some, Option-cases, inl, inr, not-true,
  present, str_eq, eq_iff, str_eq_refl, ==_refl, List, [], ◌∷◌, String, All, Bool-cases, &&-true,
  ◌&&◌, is_some,
}
use ts_graphql_reference.Flow.{
  TransactionFlowKind, FinancialCommandKind, flow_kind_text, command_kind_text,
}
use ts_graphql_reference.Runtime.{Runtime}
use ts_graphql_reference.Point.Tables.{select_where}
use ts_graphql_reference.Store.{Store, CommandRow, OperationRow}
use ts_graphql_reference.Store.Tables.{same_flow_kind, same_command_kind, has_key, command_table}
use ts_graphql_reference.Store.Client.{find_first, added, insert_sorted, sort_by}
use ts_graphql_reference.Store.Client.Calls.{find_first-append, find_first-matches}
use ts_graphql_reference.Flow.Repo.{
  FinancialCommandRequest, command_row, map_stored_command, result_operation, operation_db_id_of,
  completes, created_before, first_of,
}
use ts_graphql_reference.Flow.Commands.{stored_at, completed_rows}

-- The operation that a command is completed by is found by its own identifier.
pub found_again :
    (row : CommandRow) (s : Store) {operation : OperationRow}
    → result_operation row s ≡ some operation
    → find_first (λ o. str_eq o.id operation.id) s.operations ≡ some operation
unfolding result_operation
found_again row s {operation} h = elim (Option-cases row.result_operation_id) [
  | inl e ↦ cc (rw (e, result_operation) at h)
  | inr (i, e) ↦
      let found : find_first (λ (o : OperationRow). str_eq o.id i) s.operations ≡ some operation =
        rw (e, result_operation) at h in
      let same =
        (eq_iff operation.id i).0
          (find_first-matches (λ (o : OperationRow). str_eq o.id i) s.operations found) in
      subst (λ k. find_first (λ (o : OperationRow). str_eq o.id k) s.operations ≡ some operation)
        (sym same) found
]

-- What is completed has an operation.
pub recorded :
    (o : Option OperationRow)
    → present (operation_db_id_of o) ≡ true
    → (x : OperationRow) × (o ≡ some x) × (str_eq x.id "" ≡ false)
recorded none h = cc h
recorded (some x) h = (x, refl, not-true (str_eq x.id "") h)

-- The second command is found by its key, with the operation.
pub stored_at-kept :
    (runtime : Runtime) (request : FinancialCommandRequest) (s : Store) (operation : OperationRow)
    {row : CommandRow}
    → find_first (has_key request.principal_id request.kind request.idempotency_key) s.commands
      ≡ none
    → find_first (λ o. str_eq o.id operation.id) s.operations ≡ some operation
    → command_row runtime request (some operation.id) s.now s.next_id ≡ row
    → stored_at
        (find_first
          (has_key request.principal_id request.kind request.idempotency_key)
          (added command_table row s).commands)
        (added command_table row s)
      ≡ some (
          map_stored_command
            (command_row runtime request (some operation.id) s.now s.next_id)
            (some operation))
unfolding result_operation
stored_at-kept runtime request s operation {row} none_before found made =
    let own_key = has_key request.principal_id request.kind request.idempotency_key in
    let new = command_row runtime request (some operation.id) s.now s.next_id in
    let is_own : own_key new ≡ true =
      rw
        (
          ==_refl request.principal_id,
          str_eq_refl (command_kind_text request.kind),
          str_eq_refl request.idempotency_key,
        )
        refl in
    let appended = find_first-append own_key s.commands new none_before is_own in
    subst
      (λ x.
        stored_at (find_first own_key (added command_table x s).commands) (added command_table x s)
        ≡ some (map_stored_command new (some operation)))
      made (rw (appended, found) refl)

-- The rows that a look-up of many returns all match.
module _ {R : Type 0} (P : R → Type 0) (before : R → R → Bool) where
  All-insert_sorted : (r : R) (l : List R) → P r → All P l → All P (insert_sorted before r l)
  unfolding insert_sorted
  All-insert_sorted r [] p h = (p, tt)
  All-insert_sorted r (x ∷ l) p h = elim (Bool-cases (before r x)) [
    | inl e ↦ rw e (p, h)
    | inr e ↦ rw e (h.0, All-insert_sorted r l p h.1)
  ]

  All-sort_by : (l : List R) → All P l → All P (sort_by before l)
  unfolding sort_by
  All-sort_by [] h = tt
  All-sort_by (r ∷ l) h = All-insert_sorted r (sort_by before l) h.0 (All-sort_by l h.1)

All-select_where :
    {R : Type 0} (matches : R → Bool) (l : List R)
    → All (λ r. matches r ≡ true) (select_where matches l)
unfolding select_where
All-select_where matches [] = tt
All-select_where matches (r ∷ l) = elim (Bool-cases (matches r)) [
  | inl e ↦ rw e (e, All-select_where matches l)
  | inr e ↦ rw e (All-select_where matches l)
]

All-first_of :
    {R : Type 0} (P : R → Type 0) (l : List R) {r : R} → All P l → first_of l ≡ some r → P r
All-first_of P [] h e = cc e
All-first_of P (x ∷ l) {r} h e = let same : x ≡ r = cc e in subst P same h.0

-- A command that a subject is found by is one of that subject, of the flow kind asked for.
pub completed_rows-completes :
    (flow_kind : TransactionFlowKind) (kind : FinancialCommandKind) (namespace key : String)
    (s : Store) {row : CommandRow}
    → completed_rows flow_kind kind namespace key s ≡ some row
    → (row.subject_key ≡ key) × (flow_kind_text row.flow_kind ≡ flow_kind_text flow_kind)
unfolding completed_rows
completed_rows-completes flow_kind kind namespace key s {row} h =
    let matches = completes flow_kind kind namespace key in
    let all =
      All-sort_by (λ r. matches r ≡ true) created_before (select_where matches s.commands)
        (All-select_where matches s.commands) in
    let here =
      All-first_of (λ r. matches r ≡ true)
        (sort_by created_before (select_where matches s.commands)) all h in
    let a = str_eq row.subject_namespace namespace in
    let b = str_eq row.subject_key key in
    let c = same_flow_kind row.flow_kind flow_kind in
    let d = same_command_kind row.kind kind in
    let (abcd, _) = &&-true (a && b && c && d) (is_some row.result_operation_id) here in
    let (abc, _) = &&-true (a && b && c) d abcd in
    let (ab, is_kind) = &&-true (a && b) c abc in
    (
      (eq_iff row.subject_key key).0 (&&-true a b ab).1,
      (eq_iff (flow_kind_text row.flow_kind) (flow_kind_text flow_kind)).0 is_kind,
    )

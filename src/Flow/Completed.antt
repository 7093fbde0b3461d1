-- ===== src/Flow/Completed.antt =====
-- A command that has been completed is found by its key.
use ts_graphql_reference.Base.{
  ℕ, ◌≡◌, refl, Bool, true, none, some, [], ◌∷◌, ◌++◌, ==_refl, str_eq, str_eq_refl,
}
use ts_graphql_reference.Int.{ℤ}
use ts_graphql_reference.Flow.{command_kind_text}
use ts_graphql_reference.Runtime.{Runtime}
use ts_graphql_reference.Store.{Store, CommandRow, OperationRow}
use ts_graphql_reference.Store.Tables.{has_key, operation_table}
use ts_graphql_reference.Point.Tables.{update_where}
use ts_graphql_reference.Store.Client.{find_first}
use ts_graphql_reference.Store.Client.Calls.{find_first-append, find_first-none, find_first-update}
use ts_graphql_reference.Flow.Repo.{
  FinancialCommandRequest, command_row, completed_by, map_stored_command, result_operation,
}
use ts_graphql_reference.Flow.Commands.{stored_at}

module _ (runtime : Runtime) (request : FinancialCommandRequest) (now : ℤ) (i : ℕ)
    (operation : OperationRow) where
  abbrev own_key : CommandRow → Bool
  own_key = has_key request.principal_id request.kind request.idempotency_key

  abbrev row : CommandRow
  row = command_row runtime request none now i

  -- `t` has the command, completed by the operation, after the commands of `s`; no command of `s`
  -- has its key, and no operation of `s` clashes with the operation.
  pub stored_at-completed :
      (s t : Store)
      → find_first own_key s.commands ≡ none
      → find_first (λ x. operation_table.clashes x operation) s.operations ≡ none
      → t.commands
        ≡ update_where
            (λ r. str_eq r.id row.id)
            (completed_by runtime operation.id)
            (s.commands ++ row ∷ [])
      → t.operations ≡ s.operations ++ operation ∷ []
      → stored_at (find_first own_key t.commands) t
        ≡ some (map_stored_command (completed_by runtime operation.id row) (some operation))
  unfolding result_operation
  stored_at-completed s t none_before fresh commands operations =
      let is_own : own_key row ≡ true =
        rw
          (
            ==_refl request.principal_id,
            str_eq_refl (command_kind_text request.kind),
            str_eq_refl request.idempotency_key,
          )
          refl in
      let appended = find_first-append own_key s.commands row none_before is_own in
      let written =
        find_first-update own_key (λ r. str_eq r.id row.id) (completed_by runtime operation.id)
          (s.commands ++ row ∷ []) (λ x. refl) appended in
      let found : find_first own_key t.commands ≡ some (completed_by runtime operation.id row) =
        rw commands (rw (str_eq_refl (runtime.uuid i)) at written) in
      let matches = λ (x : OperationRow). str_eq x.id operation.id in
      let is_new =
        find_first-none matches (λ x. operation_table.clashes x operation) s.operations
          (λ x e. rw e refl) fresh in
      let op : result_operation (completed_by runtime operation.id row) t ≡ some operation =
        rw operations
          (find_first-append matches s.operations operation is_new (str_eq_refl operation.id)) in
      rw (found, op) refl

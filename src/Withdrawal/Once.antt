-- ===== src/Withdrawal/Once.antt =====
-- A withdrawal is made once: a repeat of its command finds it.
use ts_graphql_reference.Base.{
  ℕ, suc, ◌≡◌, refl, sym, ap, ap₂, ◌∙◌, subst, Bool, true, false, none, some, [], ◌∷◌, ◌++◌, String,
  inl, inr, Option-cases, str_eq,
}
use ts_graphql_reference.Int.{ℤ}
use ts_graphql_reference.Failure.{ok}
use ts_graphql_reference.Tx.{>>=-run}
use ts_graphql_reference.Flow.{FinancialCommandKind, withdrawal, flow_kind_text, command_kind_text}
use ts_graphql_reference.Flow.Reference.{operation_reference}
use ts_graphql_reference.Runtime.{Runtime}
use ts_graphql_reference.Point.Tables.{update_where}
use ts_graphql_reference.Store.{Store, FlowRow, CommandRow, OperationRow}
use ts_graphql_reference.Store.Tables.{has_key}
use ts_graphql_reference.Store.Client.{find_first}
use ts_graphql_reference.Store.Client.Steps.{after_lift}
use ts_graphql_reference.Flow.Repo.{
  StoredCommand, command_row, map_stored_command, result_operation, find_command, completed_by,
}
use ts_graphql_reference.Flow.Commands.{stored_at, find_command-run}
use ts_graphql_reference.Flow.Completed.{stored_at-completed}
use ts_graphql_reference.Withdrawal.{
  IncomeWithdrawalInput, WithdrawalCommandRequest, assert_income_withdrawal_replay,
  income_withdrawal_namespace,
}
use ts_graphql_reference.Withdrawal.Replay.{assert_income_withdrawal_replay_iff}
use ts_graphql_reference.Withdrawal.Service.{
  IncomeWithdrawalResult, replay_of, load_result, replayed_identity, withdrawal_request,
  hash_payload, post_withdrawal, continue_withdrawal, execute_withdrawal,
}
use ts_graphql_reference.Withdrawal.Posted.{
  load_result-replayed, new_identity, IsPosted, post_withdrawal-IsPosted,
}

module _ (runtime : Runtime) (input : IncomeWithdrawalInput) where
  abbrev own_key : CommandRow → Bool
  own_key = has_key input.actor_id FinancialCommandKind.withdraw input.command_key

  -- A completed command of the input is its replay, with the references of the new withdrawal.
  abbrev own_row : WithdrawalCommandRequest → String → ℤ → ℕ → CommandRow
  own_row request flow now i =
      command_row runtime (withdrawal_request request (hash_payload runtime input) flow) none now i

  abbrev stored_own : CommandRow → OperationRow → StoredCommand
  stored_own row operation =
      map_stored_command (completed_by runtime operation.id row) (some operation)

  own_replay :
      (request : WithdrawalCommandRequest) (flow : String) (now : ℤ) (i : ℕ)
      (operation : OperationRow)
      → request.subject_namespace ≡ income_withdrawal_namespace
      → str_eq operation.id "" ≡ false
      → assert_income_withdrawal_replay
          (replay_of (stored_own (own_row request flow now i) operation))
          (hash_payload runtime input)
        ≡ ok (replay_of (stored_own (own_row request flow now i) operation))
  unfolding map_stored_command flow_kind_text command_kind_text
  own_replay request flow now i operation namespace named =
      let iff =
        assert_income_withdrawal_replay_iff
          (replay_of (stored_own (own_row request flow now i) operation))
          (hash_payload runtime input) in
      iff.1 (record {
        flow_kind = refl;
        kind = refl;
        payload = refl;
        namespace = namespace;
        own_flow = refl;
        recorded = rw named refl;
        completed = rw (operation_reference operation.kind operation.id) refl;
      })

  same_identity :
      (request : WithdrawalCommandRequest) (flow : FlowRow) (now : ℤ) (i : ℕ)
      (operation : OperationRow)
      → withdrawal ≡ flow.kind
      → replayed_identity (replay_of (stored_own (own_row request flow.id now i) operation))
        ≡ new_identity flow (own_row request flow.id now i) operation
  unfolding map_stored_command
  same_identity request flow now i operation kind = rw (← kind) refl

  execute_withdrawal-run :
      (holder : ℕ) (s : Store)
      → execute_withdrawal runtime input holder s
        ≡ continue_withdrawal runtime input holder (stored_at (find_first own_key s.commands) s) s
  unfolding execute_withdrawal
  execute_withdrawal-run holder s =
      >>=-run (find_command input.actor_id FinancialCommandKind.withdraw input.command_key) _ s
        (find_command-run input.actor_id FinancialCommandKind.withdraw input.command_key s)

  -- A stored command that is replayed is loaded.
  continue-replay :
      (holder : ℕ) (t : Store) (stored : StoredCommand)
      → assert_income_withdrawal_replay (replay_of stored) (hash_payload runtime input)
        ≡ ok (replay_of stored)
      → continue_withdrawal runtime input holder (some stored) t
        ≡ load_result stored.flow_id (replayed_identity (replay_of stored)) true t
  unfolding continue_withdrawal
  continue-replay holder t stored q = rw q refl

  posted-again :
      (holder : ℕ) {s : Store} {r : IncomeWithdrawalResult} {t : Store}
      → ((n : ℕ) → str_eq (runtime.uuid n) "" ≡ false)
      → find_first own_key s.commands ≡ none
      → IsPosted runtime input s r t
      → execute_withdrawal runtime input holder t ≡ ok (record r { replayed = true }, t)
  unfolding map_stored_command
  posted-again holder {s} {r} {t} named none_before p =
      let request = p.plan.command_request in
      let i = suc (suc s.next_id) in
      let row = own_row request p.flow.id s.now i in
      let stored = stored_own row p.operation in
      let is_named =
        ap (λ (x : OperationRow). str_eq x.id "") (sym p.operation_is)
        ∙ named (suc (suc (suc s.next_id))) in
      let replays = own_replay request p.flow.id s.now i p.operation p.planned.namespace is_named in
      let commands : t.commands
          ≡ update_where (λ r. str_eq r.id row.id) (completed_by runtime p.operation.id)
              (s.commands ++ row ∷ []) =
        subst
          (λ (c : CommandRow).
            t.commands
            ≡ update_where (λ r. str_eq r.id c.id) (completed_by runtime p.operation.id)
                (s.commands ++ c ∷ []))
          (sym p.command_is) p.commands in
      let same_key : has_key request.principal_id FinancialCommandKind.withdraw
            request.idempotency_key
          ≡ own_key =
        ap₂ (λ n k. has_key n FinancialCommandKind.withdraw k) p.planned.principal p.planned.key in
      let found : stored_at (find_first own_key t.commands) t ≡ some stored =
        ap (λ (k : CommandRow → Bool). stored_at (find_first k t.commands) t) (sym same_key)
        ∙ stored_at-completed runtime
            (withdrawal_request request (hash_payload runtime input) p.flow.id) s.now i p.operation
            s t (ap (λ (k : CommandRow → Bool). find_first k s.commands) same_key ∙ none_before)
            p.fresh commands p.operations in
      execute_withdrawal-run holder t
      ∙ ap (λ o. continue_withdrawal runtime input holder o t) found
      ∙ continue-replay holder t stored replays
      ∙ ap (λ x. load_result p.flow.id x true t)
          (same_identity request p.flow s.now i p.operation p.flow_is
            ∙ ap (λ c. new_identity p.flow c p.operation) p.command_is)
      ∙ p.loaded

  stored-again :
      (holder holder' : ℕ) (s : Store) (stored : StoredCommand) {r : IncomeWithdrawalResult}
      {t : Store}
      → continue_withdrawal runtime input holder (some stored) s ≡ ok (r, t)
      → (s ≡ t)
        × (continue_withdrawal runtime input holder' (some stored) s
            ≡ ok (record r { replayed = true }, s))
  unfolding continue_withdrawal
  stored-again holder holder' s stored h =
      after_lift (assert_income_withdrawal_replay (replay_of stored) (hash_payload runtime input)) _
        s h
        λ identity q g.
          let (same, again) =
            load_result-replayed identity.flow_id (replayed_identity identity) true s g in
          (same, rw q again)

-- A command key withdraws once: whatever the store, a second execution of the same input on the
-- store that the first has left returns the first one's result, with its sources, marked as
-- replayed, and writes nothing. The database's identifiers are no empty texts.
pub execute_withdrawal-again :
    (runtime : Runtime) (input : IncomeWithdrawalInput) (h h' : ℕ) (s : Store)
    {r : IncomeWithdrawalResult} {t : Store}
    → ((n : ℕ) → str_eq (runtime.uuid n) "" ≡ false)
    → execute_withdrawal runtime input h s ≡ ok (r, t)
    → execute_withdrawal runtime input h' t ≡ ok (record r { replayed = true }, t)
unfolding continue_withdrawal
execute_withdrawal-again runtime input h h' s {r} {t} named e =
    elim (Option-cases (find_first (own_key runtime input) s.commands)) [
      | inl q ↦
          let run = execute_withdrawal-run runtime input h s in
          let posted : post_withdrawal runtime input h s ≡ ok (r, t) =
            sym (ap (λ o. continue_withdrawal runtime input h (stored_at o s) s) q) ∙ sym run ∙ e in
          posted-again runtime input h' named q (post_withdrawal-IsPosted runtime input h s posted)
      | inr (row, q) ↦
          let stored = map_stored_command row (result_operation row s) in
          let run = λ (x : ℕ).
            execute_withdrawal-run runtime input x s
            ∙ ap (λ o. continue_withdrawal runtime input x (stored_at o s) s) q in
          let (same, again) = stored-again runtime input h h' s stored (sym (run h) ∙ e) in
          subst (λ x. execute_withdrawal runtime input h' x ≡ ok (record r { replayed = true }, x))
            same (run h' ∙ again)
    ]

-- ===== src/Settlement/Once.antt =====
-- A settlement is made once: a repeat of its command finds it.
use ts_graphql_reference.Base.{ℕ, suc, ◌≡◌, sym, ap, ◌∙◌, subst, true, false, [], ◌∷◌, ◌++◌, str_eq}
use ts_graphql_reference.Failure.{ok}
use ts_graphql_reference.Tx.{lift, ◌>>=◌}
use ts_graphql_reference.Runtime.{Runtime}
use ts_graphql_reference.Point.Tables.{update_where}
use ts_graphql_reference.Store.{Store, CommandRow}
use ts_graphql_reference.Store.Client.{find_first}
use ts_graphql_reference.Store.Client.Steps.{after_lift}
use ts_graphql_reference.Flow.Repo.{map_stored_command, completed_by}
use ts_graphql_reference.Flow.Completed.{stored_at-completed}
use ts_graphql_reference.Settlement.{SettlementStart, proceed, replay, alias}
use ts_graphql_reference.Settlement.Data.{CommissionSettlementInput}
use ts_graphql_reference.Settlement.Service.{
  CommissionSettlementResult, stored_if, settlement_request, hash_payload, save_alias,
  continue_settlement, execute_settlement,
}
use ts_graphql_reference.Settlement.Loaded.{settlement_result, load_result-ok, load_result-run}
use ts_graphql_reference.Settlement.Posted.{stored_own, IsPosted, post_settlement-IsPosted}
use ts_graphql_reference.Settlement.Decided.{
  own_key, own_command, start_of, done-again, none_stored, start-proceed, execute-run,
}
use ts_graphql_reference.Settlement.Aliased.{alias-IsCompletedBy, alias-again}

module _ (runtime : Runtime) (input : CommissionSettlementInput) where
  -- On the store after a new settlement, an execution returns what the settlement has returned.
  posted-again :
      (h : ℕ) (s : Store) {r : CommissionSettlementResult} {t : Store}
      → ((n : ℕ) → str_eq (runtime.uuid n) "" ≡ false)
      → start_of runtime input s ≡ ok proceed
      → IsPosted runtime input s r t
      → execute_settlement runtime input h t ≡ ok (record r { replayed = true }, t)
  unfolding start_of map_stored_command
  posted-again h s {r} {t} named q p =
      let none_before =
        none_stored runtime input (find_first (own_key runtime input) s.commands) s
          (start-proceed runtime input (stored_if (own_command runtime input s)) _ q) in
      let is_named = ap (λ i. str_eq i "") p.operation_id ∙ named (suc s.next_id) in
      let commands =
        subst
          (λ (c : CommandRow).
            t.commands
            ≡ update_where (λ r. str_eq r.id c.id) (completed_by runtime p.operation.id)
                (s.commands ++ c ∷ []))
          (sym p.command_is) p.commands in
      let own =
        stored_at-completed runtime (settlement_request input (hash_payload runtime input) p.flow)
          s.now s.next_id p.operation s t none_before p.fresh commands p.operations in
      done-again runtime input h t p.flow s.now s.next_id p.operation is_named own p.rows
      ∙ ap
          (λ c. ok (
            settlement_result (stored_own runtime input c p.operation) input.contract_id
                p.rows.action p.rows.lot true,
            t,
          ))
          p.command_is
      ∙ ap (λ (x : CommissionSettlementResult). ok (record x { replayed = true }, t)) p.result

-- A command key settles once: whatever the store, a second execution of the same input on the store
-- that the first has left returns the first one's result, marked as replayed, and writes nothing,
-- also where the first has only added a key to a settlement of the contract. The database's
-- identifiers are no empty texts.
pub execute_settlement-again :
    (runtime : Runtime) (input : CommissionSettlementInput) (h h' : ℕ) (s : Store)
    {r : CommissionSettlementResult} {t : Store}
    → ((n : ℕ) → str_eq (runtime.uuid n) "" ≡ false)
    → execute_settlement runtime input h s ≡ ok (r, t)
    → execute_settlement runtime input h' t ≡ ok (record r { replayed = true }, t)
unfolding continue_settlement
execute_settlement-again runtime input h h' s {r} {t} named e =
    after_lift (start_of runtime input s) (continue_settlement runtime input h) s
      (sym (execute-run runtime input h s) ∙ e) λ start q g. by_start start q g
  where
    by_start :
        (start : SettlementStart)
        → start_of runtime input s ≡ ok start
        → continue_settlement runtime input h start s ≡ ok (r, t)
        → execute_settlement runtime input h' t ≡ ok (record r { replayed = true }, t)
    by_start (replay identity) q g =
        let (same, rows, result) = load_result-ok identity input.contract_id true s g in
        let again =
          execute-run runtime input h' s
          ∙ ap (λ x. (lift x >>= continue_settlement runtime input h') s) q
          ∙ load_result-run identity input.contract_id true s rows
          ∙ ap (λ (x : CommissionSettlementResult). ok (record x { replayed = true }, s)) result in
        subst (λ x. execute_settlement runtime input h' x ≡ ok (record r { replayed = true }, x))
          same again
    by_start (alias identity) q g =
        let (row, operation, stored, completed) = alias-IsCompletedBy runtime input s q in
        alias-again runtime input h' s row operation completed
          (subst (λ x. save_alias runtime input x s ≡ ok (r, t)) (sym stored) g)
    by_start proceed q g =
        posted-again runtime input h' s named q (post_settlement-IsPosted runtime input h s g)

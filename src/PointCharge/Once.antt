-- ===== src/PointCharge/Once.antt =====
-- A charge is posted once: a repeat of its command finds it.
use ts_graphql_reference.Base.{
  ℕ, suc, ◌≡◌, refl, sym, ap, ◌∙◌, subst, Bool, true, false, Option, none, some, String, ◌⊎◌, inl,
  inr, ==_refl, str_eq, str_eq_refl,
}
use ts_graphql_reference.Failure.{Result, ok, >>=-ok}
use ts_graphql_reference.Tx.{lift, ◌>>=◌, >>=-run}
use ts_graphql_reference.Flow.{
  FinancialCommandKind, point_charge, command_kind_text, flow_kind_text,
}
use ts_graphql_reference.Flow.Reference.{operation_reference}
use ts_graphql_reference.Runtime.{Runtime}
use ts_graphql_reference.Int.{ℤ}
use ts_graphql_reference.Store.{Store, FlowRow, CommandRow, OperationRow, LotRow}
use ts_graphql_reference.Store.Tables.{has_key, operation_table}
use ts_graphql_reference.Store.Client.{find_first, find_unique_or_throw}
use ts_graphql_reference.Store.Client.Steps.{after_lift}
use ts_graphql_reference.Flow.Repo.{StoredCommand, command_row, map_stored_command, find_command}
use ts_graphql_reference.Flow.Commands.{
  stored_at, find_command-run, find_completed-run, completed_rows,
}
use ts_graphql_reference.Flow.Completed.{stored_at-completed}
use ts_graphql_reference.Ledger.Loads.{sourced_by, load_point_charge_ledger_result}
use ts_graphql_reference.PointCharge.{
  PointChargeInput, PointChargeStart, StoredPointCharge, proceed, replay, plan_point_charge_command,
  plan_point_charge_start, assert_point_charge_identity,
}
use ts_graphql_reference.PointCharge.Start.{plan_point_charge-IsPointCharge}
use ts_graphql_reference.PointCharge.Service.{
  PointChargeResult, CompletedIdentity, stored_if, stored_point_charge, charge_request,
  replay_identity, load_result, hash_payload, completed_payment, continue_charge, requested_charge,
  execute_point_charge,
}
use ts_graphql_reference.PointCharge.Posted.{
  charge_result, IsLoaded, load_result-ok, IsPosted, charged_store, post_charge-IsPosted,
  new_identity,
}

module _ (runtime : Runtime) (input : PointChargeInput) where
  abbrev own_key : CommandRow → Bool
  own_key = has_key input.actor_id FinancialCommandKind.charge input.command_key

  abbrev own_command : Store → Option StoredCommand
  own_command s = stored_at (find_first own_key s.commands) s

  abbrev payment_command : Store → Option StoredCommand → Option StoredCommand
  payment_command s (some c) = none
  payment_command s none =
      stored_at
        (completed_rows point_charge FinancialCommandKind.charge
          (plan_point_charge_command input).subject_namespace
          (plan_point_charge_command input).subject_key s)
        s

  completed_payment-run :
      (o : Option StoredCommand) (s : Store)
      → completed_payment (plan_point_charge_command input) o s ≡ ok (payment_command s o, s)
  unfolding completed_payment
  completed_payment-run (some c) s = refl
  completed_payment-run none s = find_completed-run point_charge FinancialCommandKind.charge _ _ s

  -- The decision on the store.
  start_of : Store → Result PointChargeStart
  start_of s =
      plan_point_charge_start (stored_if (own_command s))
        (stored_if (payment_command s (own_command s))) (requested_charge runtime input)

  execute-run :
      (h : ℕ) (s : Store)
      → execute_point_charge runtime input h s
        ≡ (lift (start_of s) >>= continue_charge runtime input h) s
  unfolding execute_point_charge start_of plan_point_charge_command
  execute-run h s =
      >>=-run (find_command input.actor_id FinancialCommandKind.charge input.command_key) _ s
        (find_command-run input.actor_id FinancialCommandKind.charge input.command_key s)
      ∙ >>=-run (completed_payment (plan_point_charge_command input) (own_command s)) _ s
          (completed_payment-run (own_command s) s)

  -- The command that a charge starts, once it is completed by an operation.
  abbrev own_row : String → ℤ → ℕ → CommandRow
  own_row flow_id now i =
      command_row runtime
        (charge_request (plan_point_charge_command input) (hash_payload runtime input) flow_id) none
        now i

  abbrev done : CommandRow → OperationRow → CommandRow
  done r operation = record r { result_operation_id = some operation.id }

  -- A completed command of the input is its replay.
  own_replay :
      (flow_id : String) (now : ℤ) (i : ℕ) (operation : OperationRow)
      → str_eq operation.id "" ≡ false
      → plan_point_charge_start
          (some (
            stored_point_charge
              (map_stored_command (done (own_row flow_id now i) operation) (some operation))))
          none
          (requested_charge runtime input)
        ≡ ok (
            replay (
              stored_point_charge
                (map_stored_command (done (own_row flow_id now i) operation) (some operation))))
  unfolding plan_point_charge_start assert_point_charge_identity map_stored_command
      plan_point_charge_command flow_kind_text command_kind_text
  own_replay flow_id now i operation named =
      rw
        (
          ==_refl input.actor_id,
          str_eq_refl (hash_payload runtime input),
          str_eq_refl input.external_payment_id,
          named,
          operation_reference operation.kind operation.id,
        )
        refl

  -- The command of a new charge is found by its key, with its operation.
  own_found :
      (s : Store) (flow : FlowRow) (now : ℤ) (i : ℕ) (operation : OperationRow) (lot : LotRow)
      → find_first own_key s.commands ≡ none
      → find_first (λ x. operation_table.clashes x operation) s.operations ≡ none
      → own_command (charged_store s flow (own_row flow.id now i) operation lot)
        ≡ some (map_stored_command (done (own_row flow.id now i) operation) (some operation))
  unfolding plan_point_charge_command
  own_found s flow now i operation lot none_before fresh =
      stored_at-completed runtime
        (charge_request (plan_point_charge_command input) (hash_payload runtime input) flow.id) now
        i operation s (charged_store s flow (own_row flow.id now i) operation lot) none_before fresh
        refl refl

  -- What an execution that returned has done: it has loaded a stored charge, or posted a new one.
  execute_cases :
      (h : ℕ) (s : Store) {r : PointChargeResult} {t : Store}
      → execute_point_charge runtime input h s ≡ ok (r, t)
      → ((identity : StoredPointCharge) × (start_of s ≡ ok (replay identity))
          × IsLoaded (replay_identity identity) true s r t)
        ⊎ ((start_of s ≡ ok proceed) × IsPosted runtime input h s r t)
  unfolding continue_charge
  execute_cases h s {r} {t} e =
      after_lift (start_of s) (continue_charge runtime input h) s (sym (execute-run h s) ∙ e)
        λ start q g. by_start start q g
    where
      by_start :
          (start : PointChargeStart)
          → start_of s ≡ ok start
          → continue_charge runtime input h start s ≡ ok (r, t)
          → ((identity : StoredPointCharge) × (start_of s ≡ ok (replay identity))
              × IsLoaded (replay_identity identity) true s r t)
            ⊎ ((start_of s ≡ ok proceed) × IsPosted runtime input h s r t)
      by_start (replay identity) q g =
          inl (identity, q, load_result-ok (replay_identity identity) true s g)
      by_start proceed q g = inr (q, post_charge-IsPosted runtime input h s g)

  -- A start that proceeds has found no command of its key.
  proceeds :
      (o p : Option StoredPointCharge)
      → plan_point_charge_start o p (requested_charge runtime input) ≡ ok proceed
      → o ≡ none
  unfolding plan_point_charge_start
  proceeds none p e = refl
  proceeds (some c) p e =
      let (u, a, b) =
        >>=-ok (assert_point_charge_identity c (requested_charge runtime input)) _ e in
      cc b

  load_result-run :
      (identity : CompletedIdentity) (s : Store) {lot : LotRow}
      → find_first (sourced_by identity.operation_db_id) s.lots ≡ some lot
      → load_result identity true s ≡ ok (charge_result identity lot true, s)
  unfolding load_result load_point_charge_ledger_result find_unique_or_throw
  load_result-run identity s found = rw (found, find_unique_or_throw) refl

  none_stored : (o : Option CommandRow) (s : Store) → stored_if (stored_at o s) ≡ none → o ≡ none
  none_stored none s e = refl
  none_stored (some row) s e = cc e

  -- The decision on the store after a new charge is to replay it.
  posted-replay :
      (s : Store) (flow : FlowRow) (now : ℤ) (i : ℕ) (operation : OperationRow) (lot : LotRow)
      → find_first own_key s.commands ≡ none
      → find_first (λ x. operation_table.clashes x operation) s.operations ≡ none
      → str_eq operation.id "" ≡ false
      → start_of (charged_store s flow (own_row flow.id now i) operation lot)
        ≡ ok (
            replay (
              stored_point_charge
                (map_stored_command (done (own_row flow.id now i) operation) (some operation))))
  unfolding start_of
  posted-replay s flow now i operation lot none_before fresh named =
      rw (own_found s flow now i operation lot none_before fresh)
        (own_replay flow.id now i operation named)

  abbrev replayed_row : CommandRow → OperationRow → StoredPointCharge
  replayed_row r operation =
      stored_point_charge (map_stored_command (done r operation) (some operation))

  -- A replay has the references that the new charge was given.
  same_identity :
      (flow : FlowRow) (now : ℤ) (i : ℕ) (operation : OperationRow)
      → point_charge ≡ flow.kind
      → replay_identity (replayed_row (own_row flow.id now i) operation)
        ≡ new_identity flow (own_row flow.id now i) operation
  unfolding map_stored_command
  same_identity flow now i operation kind = rw (← kind) refl

  -- On the store after a new charge, an execution returns what the charge has returned.
  posted-again :
      (h : ℕ) (s : Store) {r : PointChargeResult} {t : Store} (h' : ℕ)
      → ((n : ℕ) → str_eq (runtime.uuid n) "" ≡ false)
      → start_of s ≡ ok proceed
      → IsPosted runtime input h s r t
      → execute_point_charge runtime input h' t ≡ ok (record r { replayed = true }, t)
  unfolding start_of continue_charge map_stored_command
  posted-again h s {r} {t} h' named q posted =
      let flow = posted.flow in
      let operation = posted.operation in
      let i = suc (suc s.next_id) in
      let command = (plan_point_charge-IsPointCharge _ input posted.planned).command in
      let own : own_row flow.id s.now i ≡ posted.started =
        ap
          (λ c.
            command_row runtime (charge_request c (hash_payload runtime input) flow.id) none s.now
              i)
          (sym command)
        ∙ posted.started_row in
      let none_before =
        none_stored (find_first own_key s.commands) s (proceeds (stored_if (own_command s)) _ q) in
      let is_named =
        ap (λ (x : OperationRow). str_eq x.id "") (sym posted.operation_is)
        ∙ named (suc (suc (suc s.next_id))) in
      let u = charged_store s flow (own_row flow.id s.now i) operation posted.lot in
      let decided =
        posted-replay s flow s.now i operation posted.lot none_before posted.operation_fresh
          is_named in
      let loaded = posted.loaded in
      let found : find_first (sourced_by operation.id) u.lots ≡ some loaded.lot = loaded.found in
      let kind = ap (λ (x : FlowRow). x.kind) posted.flow_row in
      let again =
        execute-run h' u
        ∙ ap (λ x. (lift x >>= continue_charge runtime input h') u) decided
        ∙ load_result-run (replay_identity (replayed_row (own_row flow.id s.now i) operation)) u
            found
        ∙ ap (λ x. ok (charge_result x loaded.lot true, u))
            (same_identity flow s.now i operation kind
              ∙ ap (λ x. new_identity flow x operation) own)
        ∙ ap (λ x. ok (record x { replayed = true }, u)) loaded.result in
      subst (λ x. execute_point_charge runtime input h' x ≡ ok (record r { replayed = true }, x))
        (ap (λ x. charged_store s flow x operation posted.lot) own ∙ loaded.same) again

-- A command key charges once: whatever the store, a second execution of the same input on the store
-- that the first has left returns the first one's result, marked as replayed, and writes nothing.
-- The database's identifiers are no empty texts.
pub execute_point_charge-again :
    (runtime : Runtime) (input : PointChargeInput) (h h' : ℕ) (s : Store) {r : PointChargeResult}
    {t : Store}
    → ((n : ℕ) → str_eq (runtime.uuid n) "" ≡ false)
    → execute_point_charge runtime input h s ≡ ok (r, t)
    → execute_point_charge runtime input h' t ≡ ok (record r { replayed = true }, t)
unfolding continue_charge
execute_point_charge-again runtime input h h' s {r} {t} named e =
    elim (execute_cases runtime input h s e) [
      | inl (identity, q, loaded) ↦
          let again =
            execute-run runtime input h' s
            ∙ ap (λ x. (lift x >>= continue_charge runtime input h') s) q
            ∙ load_result-run runtime input (replay_identity identity) s loaded.found
            ∙ ap (λ x. ok (record x { replayed = true }, s)) loaded.result in
          subst
            (λ x. execute_point_charge runtime input h' x ≡ ok (record r { replayed = true }, x))
            loaded.same again
      | inr (q, posted) ↦ posted-again runtime input h s h' named q posted
    ]

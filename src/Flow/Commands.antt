-- ===== src/Flow/Commands.antt =====
-- What the calls of the transaction-flow repository have done when they have not failed.
use ts_graphql_reference.Base.{
  ℕ, ◌≡◌, refl, sym, ap, ◌∙◌, subst, Option, none, some, List, [], ◌∷◌, String, Bool-cases,
  Option-cases, inl, inr,
}
use ts_graphql_reference.Failure.{ok}
use ts_graphql_reference.Tx.{Tx, ◌>>=◌, >>=-ok}
use ts_graphql_reference.Flow.{TransactionFlowKind, FinancialCommandKind}
use ts_graphql_reference.Runtime.{Runtime, set_constraints}
use ts_graphql_reference.Point.Tables.{select_where}
use ts_graphql_reference.Store.{Store, FlowRow, PolicyRow, CommandRow}
use ts_graphql_reference.Store.Tables.{has_key, flow_table, policy_table, command_table}
use ts_graphql_reference.Store.Client.{find_first, sort_by, added, create, create_many}
use ts_graphql_reference.Store.Client.Steps.{after, after_read}
use ts_graphql_reference.Store.Client.Calls.{
  same_value, same_state, IsCreated, create-ok, added_all, create_many-ok,
}
use ts_graphql_reference.Flow.Repo.{
  StoredCommand, FinancialCommandRequest, result_operation, map_stored_command, map_found,
  find_command, find_completed_command_by_subject, completes, created_before, first_of, command_row,
  allows, create_command, flow_row, create_flow, assert_command_effect_completeness,
}

abbrev pub stored_at : Option CommandRow → Store → Option StoredCommand
stored_at none s = none
stored_at (some row) s = some (map_stored_command row (result_operation row s))

map_found-run : (o : Option CommandRow) (s : Store) → map_found o s ≡ ok (stored_at o s, s)
unfolding map_found
map_found-run none s = refl
map_found-run (some row) s = refl

-- A look-up never fails and changes nothing.
pub find_command-run :
    (principal : ℕ) (kind : FinancialCommandKind) (key : String) (s : Store)
    → find_command principal kind key s
      ≡ ok (stored_at (find_first (has_key principal kind key) s.commands) s, s)
unfolding find_command
find_command-run principal kind key s =
    map_found-run (find_first (has_key principal kind key) s.commands) s

unfoldable pub completed_rows :
    TransactionFlowKind → FinancialCommandKind → String → String → Store → Option CommandRow
unfolding sort_by select_where
completed_rows flow_kind kind namespace key s =
    first_of
      (sort_by created_before (select_where (completes flow_kind kind namespace key) s.commands))

pub find_completed-run :
    (flow_kind : TransactionFlowKind) (kind : FinancialCommandKind) (namespace key : String)
    (s : Store)
    → find_completed_command_by_subject flow_kind kind namespace key s
      ≡ ok (stored_at (completed_rows flow_kind kind namespace key s) s, s)
unfolding find_completed_command_by_subject completed_rows
find_completed-run flow_kind kind namespace key s =
    map_found-run (completed_rows flow_kind kind namespace key s) s

module _ (runtime : Runtime) where
  pub create_command-ok :
      (input : FinancialCommandRequest) (result : Option String) (s : Store) {r : CommandRow}
      {t : Store}
      → create_command runtime input result s ≡ ok (r, t)
      → IsCreated command_table (command_row runtime input result s.now) s r t
  unfolding create_command
  create_command-ok input result s h =
      elim (Option-cases (find_first (allows runtime input) s.policies)) [
        | inl e ↦ cc (rw (e, create_command) at h)
        | inr (p, e) ↦
            create-ok command_table (command_row runtime input result s.now) s
              (rw (e, create_command) at h)
      ]

  pub set_constraints-ok :
      (names : List String) (s : Store) {u : Unit {0}} {t : Store}
      → set_constraints runtime names s ≡ ok (u, t)
      → s ≡ t
  unfolding set_constraints
  set_constraints-ok names s h = elim (Bool-cases (runtime.constraints_hold names s)) [
    | inl e ↦ same_state (rw e at h)
    | inr e ↦ cc (rw e at h)
  ]

  pub completeness-ok :
      (s : Store) {u : Unit {0}} {t : Store}
      → assert_command_effect_completeness runtime s ≡ ok (u, t)
      → s ≡ t
  unfolding assert_command_effect_completeness
  completeness-ok s h = set_constraints-ok _ s h

  -- A flow with the one command that it allows.
  pub record IsFlow (kind : TransactionFlowKind) (command : FinancialCommandKind) (s : Store)
      (r : FlowRow) (t : Store) : Type 0 where
    pub row : flow_row runtime kind s.next_id ≡ r
    pub state :
        added policy_table
          (record { flow_id = r.id; command_kind = command })
          (added flow_table r s)
        ≡ t

  pub create_flow-ok :
      (kind : TransactionFlowKind) (command : FinancialCommandKind) (s : Store) {r : FlowRow}
      {t : Store}
      → create_flow runtime kind (command ∷ []) s ≡ ok (r, t)
      → IsFlow kind command s r t
  unfolding create_flow
  create_flow-ok kind command s {r} {t} h =
      let (flow, s1, e1, h1) = >>=-ok (create flow_table (flow_row runtime kind)) _ s h in
      let policies : List PolicyRow = record { flow_id = flow.id; command_kind = command } ∷ [] in
      let (u, s2, e2, h2) = >>=-ok (create_many policy_table policies) _ s1 h1 in
      let c1 = create-ok flow_table (flow_row runtime kind) s e1 in
      let c2 = create_many-ok policy_table policies s1 e2 in
      let q : flow ≡ r = same_value h2 in
      let k : s2 ≡ t = same_state h2 in
      record {
        row = c1.row ∙ q;
        state = rw (← q) (ap (added_all policy_table policies) c1.state ∙ c2 ∙ k);
      }

  module _ {B : Type 0} {C : Type 0} {b : B} {t : Store} where
    pub after_flow :
        (kind : TransactionFlowKind) (command : FinancialCommandKind) (f : FlowRow → Tx Store B)
        (s : Store)
        → (create_flow runtime kind (command ∷ []) >>= f) s ≡ ok (b, t)
        → ((r : FlowRow)
            → flow_row runtime kind s.next_id ≡ r
            → f r (
                added policy_table
                  (record { flow_id = r.id; command_kind = command })
                  (added flow_table r s))
              ≡ ok (b, t)
            → C)
        → C
    after_flow kind command f s h k =
        after (create_flow runtime kind (command ∷ [])) f s h λ r u e g.
          let c = create_flow-ok kind command s e in
          k r c.row (subst (λ x. f r x ≡ ok (b, t)) (sym c.state) g)

    pub after_command :
        (input : FinancialCommandRequest) (result : Option String) (f : CommandRow → Tx Store B)
        (s : Store)
        → (create_command runtime input result >>= f) s ≡ ok (b, t)
        → ((r : CommandRow)
            → IsCreated command_table
                (command_row runtime input result s.now)
                s
                r
                (added command_table r s)
            → f r (added command_table r s) ≡ ok (b, t)
            → C)
        → C
    after_command input result f s h k =
        after (create_command runtime input result) f s h λ r u e g.
          let c = create_command-ok input result s e in
          let q = sym c.state in
          k r (subst (IsCreated command_table (command_row runtime input result s.now) s r) q c)
            (subst (λ x. f r x ≡ ok (b, t)) q g)

    pub after_constraints :
        (names : List String) (f : Unit {0} → Tx Store B) (s : Store)
        → (set_constraints runtime names >>= f) s ≡ ok (b, t)
        → (f tt s ≡ ok (b, t) → C)
        → C
    after_constraints names f s h k =
        after_read (set_constraints runtime names) f s (λ a u e. set_constraints-ok names s e) h
          λ a e g. k g

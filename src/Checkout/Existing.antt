-- ===== src/Checkout/Existing.antt =====
-- A completed payment that is found by its subject, as it is loaded.
use ts_graphql_reference.Base.{
  ℕ, ◌≡◌, refl, sym, ap, ◌∙◌, subst, false, Option, none, some, String, str_eq, Bool-cases, inl,
  inr,
}
use ts_graphql_reference.Failure.{ok}
use ts_graphql_reference.Flow.{format_operation_id}
use ts_graphql_reference.Runtime.{Runtime}
use ts_graphql_reference.Store.{Store, CommandRow, OperationRow}
use ts_graphql_reference.Store.Client.Calls.{same_value, same_state}
use ts_graphql_reference.Store.Client.Steps.{after, after_lift}
use ts_graphql_reference.Flow.Repo.{map_stored_command}
use ts_graphql_reference.Checkout.{ExistingCommissionCheckout}
use ts_graphql_reference.Checkout.Loaded.{HasRows, completed_checkout, load_completed-ok}
use ts_graphql_reference.Checkout.Stored.{
  CompletedCommand, CompletedCheckout, require_completed_command,
  load_completed_commission_checkout_result, load_completed,
}
use ts_graphql_reference.Checkout.Decided.{done}

-- What is required of a completed command is that its operation is there.
pub require_completed-ok :
    (row : CommandRow) (o : Option OperationRow) {c : CompletedCommand}
    → require_completed_command (map_stored_command row o) ≡ ok c
    → (operation : OperationRow) × (o ≡ some operation)
      × (str_eq operation.id "" ≡ false)
      × (done row operation ≡ c)
unfolding require_completed_command map_stored_command
require_completed-ok row none h = cc h
require_completed-ok row (some operation) {c} h = elim (Bool-cases (str_eq operation.id "")) [
  | inl e ↦ cc (rw e at h)
  | inr e ↦ elim (Bool-cases (str_eq (format_operation_id operation.kind operation.id) "")) [
    | inl f ↦ cc (rw (e, f) at h)
    | inr f ↦ (operation, refl, e, cc (rw (e, f) at h))
  ]
]

abbrev pub existing :
    CommandRow
    → OperationRow
    → {n : ℕ} → {flow : String} → {s : Store} → HasRows flow n s
    → ExistingCommissionCheckout
existing row operation rows = record {
  payload_hash = row.payload_hash;
  buyer_id = rows.order.buyer_id;
  economic_result = (completed_checkout (done row operation) rows).result;
}

module _ (runtime : Runtime) where
  -- A command that is completed is loaded with its operation and its rows.
  pub record IsExisting (row : CommandRow) (o : Option OperationRow) (s : Store)
      (c : Option ExistingCommissionCheckout) (t : Store) : Type 0 where
    pub same : s ≡ t
    pub operation : OperationRow
    pub recorded : o ≡ some operation
    pub named : str_eq operation.id "" ≡ false
    pub n : ℕ
    pub number : runtime.number_of row.subject_key ≡ some n
    pub rows : HasRows row.flow_id n s
    pub loaded : some (existing row operation rows) ≡ c

  pub load_completed-IsExisting :
      (row : CommandRow) (o : Option OperationRow) (s : Store)
      {c : Option ExistingCommissionCheckout} {t : Store}
      → load_completed runtime (some (map_stored_command row o)) s ≡ ok (c, t)
      → IsExisting row o s c t
  unfolding load_completed map_stored_command
  load_completed-IsExisting row o s h =
      after_lift (require_completed_command (map_stored_command row o)) _ s h λ completed e1 h1.
        let (operation, recorded, named, is_done) = require_completed-ok row o e1 in
        after (load_completed_commission_checkout_result runtime completed) _ s h1 λ stored u e2 h2.
          let (same, n, number, rows, value) = load_completed-ok runtime (done row operation) s (
            subst (λ x. load_completed_commission_checkout_result runtime x s ≡ ok (stored, u))
              (sym is_done) e2) in
          record {
            same = same ∙ same_state h2;
            operation = operation;
            recorded = recorded;
            named = named;
            n = n;
            number = number;
            rows = rows;
            loaded =
                ap
                  (λ (x : CompletedCheckout). some (record {
                    payload_hash = row.payload_hash;
                    buyer_id = x.buyer_id;
                    economic_result = x.result;
                  }))
                  value
                ∙ same_value h2;
          }

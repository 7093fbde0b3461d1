-- ===== src/Books/Charge.antt =====
-- The books through a purchase of points.
use ts_graphql_reference.Base.{ℕ, ◌≡◌, refl, subst, Option, none, some, String}
use ts_graphql_reference.Tx.Keeps.{Keeps}
use ts_graphql_reference.Store.Tables.{lot_table}
use ts_graphql_reference.Store.Client.Calls.{create-ok}
use ts_graphql_reference.Flow.Repo.{StoredCommand}
use ts_graphql_reference.PointCharge.{
  LotRequest, PointChargeCommand, PointChargeInput, PointChargeStart, proceed, replay,
}
use ts_graphql_reference.PointCharge.Service.{
  CompletedIdentity, load_result, completed_payment, post_charge, continue_charge,
  execute_point_charge,
}
use ts_graphql_reference.Runtime.{Runtime}
use ts_graphql_reference.Ledger.Conserved.{IsConserved}
use ts_graphql_reference.Ledger.Writes.{charge_lot, apply_point_charge_lot}
use ts_graphql_reference.Books.{reads, new_lot-IsConserved}
use ts_graphql_reference.Books.Reads.{
  Keeps-load_point_charge_world, Keeps-load_point_charge_ledger_result,
}
use ts_graphql_reference.Books.Writes.{writes}

Keeps-apply_point_charge_lot :
    (flow operation : String) (request : LotRequest)
    → Keeps IsConserved (apply_point_charge_lot flow operation request)
unfolding apply_point_charge_lot
Keeps-apply_point_charge_lot flow operation request = record {
  at = λ {s} e c.
      let made = create-ok lot_table (charge_lot flow operation request s.now) s e in
      subst IsConserved made.state (
        new_lot-IsConserved _ s (subst (λ r. r.original_amount ≡ r.remaining_amount) made.row refl)
          c);
}

Keeps-load_result :
    (identity : CompletedIdentity) (replayed : _)
    → Keeps IsConserved (load_result identity replayed)
unfolding load_result
Keeps-load_result identity replayed = search (reads, Keeps-load_point_charge_ledger_result)

Keeps-completed_payment :
    (requested : PointChargeCommand) (command : Option StoredCommand)
    → Keeps IsConserved (completed_payment requested command)
unfolding completed_payment
Keeps-completed_payment requested none = search writes
Keeps-completed_payment requested (some command) = search reads

module _ (runtime : Runtime) where
  Keeps-post_charge :
      (input : PointChargeInput) (holder : ℕ) → Keeps IsConserved (post_charge runtime input holder)
  unfolding post_charge
  Keeps-post_charge input holder =
      search
        (writes, Keeps-load_point_charge_world, Keeps-apply_point_charge_lot, Keeps-load_result)
        depth 40 fits 4000

  Keeps-continue_charge :
      (input : PointChargeInput) (holder : ℕ) (start : PointChargeStart)
      → Keeps IsConserved (continue_charge runtime input holder start)
  unfolding continue_charge
  Keeps-continue_charge input holder proceed = Keeps-post_charge input holder
  Keeps-continue_charge input holder (replay identity) = Keeps-load_result _ _

  pub Keeps-execute_point_charge :
      (input : PointChargeInput) (holder : ℕ)
      → Keeps IsConserved (execute_point_charge runtime input holder)
  unfolding execute_point_charge
  Keeps-execute_point_charge input holder =
      search (writes, Keeps-completed_payment, Keeps-continue_charge) depth 20 fits 2000

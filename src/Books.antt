-- ===== src/Books.antt =====
-- The books through the calls of the database client: one rule for each call.
pub mod Writes
pub mod Reads
pub mod Reached
pub mod Checkout
pub mod Withdrawal
pub mod Settlement
pub mod Charge
use ts_graphql_reference.Base.{◌≡◌, refl, sym, ap, subst, Bool, Option, List, [], ◌∷◌, ◌++◌}
use ts_graphql_reference.Int.{ℤ, pos, ◌+ℤ◌, int_laws, total_of}
use ts_graphql_reference.Failure.{Error, Result, ok, err}
use ts_graphql_reference.Tx.{Tx, lift, throw_if, pure, ◌>>=◌}
use ts_graphql_reference.Tx.Keeps.{
  Keeps, Returned, Keeps-read, Keeps-pure, Keeps-lift, Keeps-throw_if, Keeps-bind, Keeps-then,
}
use ts_graphql_reference.Runtime.{Runtime, set_constraints}
use ts_graphql_reference.Store.{Store, LotRow}
use ts_graphql_reference.Store.Tables.{Table, lot_table}
use ts_graphql_reference.Store.Client.{
  find_unique, find_unique_or_throw, find_many, added, create, create_many, update_many, update,
}
use ts_graphql_reference.Store.Client.Calls.{
  find_unique-ok, find_unique_or_throw-ok, find_many-ok, create-ok, added_all, create_many-ok,
  update_many-ok, update-ok,
}
use ts_graphql_reference.Flow.Commands.{set_constraints-ok}
use ts_graphql_reference.Ledger.Conserved.{IsConserved, if_ℤ, issued_row, unspent_row, total-append}

-- The reads.
module _ {P : Store → Type 0} {R : Type 0} (table : Table R) where
  pub Keeps-find_unique : (matches : R → Bool) → Keeps P (find_unique table matches)
  Keeps-find_unique matches = Keeps-read _ (λ s t a e. (find_unique-ok table matches s e).1)

  pub Keeps-find_unique_or_throw :
      (matches : R → Bool) → Keeps P (find_unique_or_throw table matches)
  Keeps-find_unique_or_throw matches =
      Keeps-read _ (λ s t a e. (find_unique_or_throw-ok table matches s e).1)

  pub Keeps-find_many :
      (matches : R → Bool) (before : R → R → Bool) → Keeps P (find_many table matches before)
  Keeps-find_many matches before =
      Keeps-read _ (λ s t a e. (find_many-ok table matches before s e).1)

pub Keeps-set_constraints :
    {P : Store → Type 0} (runtime : Runtime) (names : List _)
    → Keeps P (set_constraints runtime names)
Keeps-set_constraints runtime names = Keeps-read _ (λ s t a e. set_constraints-ok runtime names s e)

-- A block of reads and decisions.
pub ruleset reads = (
  Keeps-bind, Keeps-then, Keeps-pure, Keeps-lift, Keeps-throw_if, Keeps-find_unique,
  Keeps-find_unique_or_throw, Keeps-find_many, Keeps-set_constraints,
)

-- A table that the books do not read.
pub record IsAside {R : Type 0} (table : Table R) : Type 0 where
  pub books : (rows : List R) (s : Store) → IsConserved s → IsConserved (table.with_rows rows s)

-- The writes of such a table.
module _ {R : Type 0} {table : Table R} (aside : IsAside table) where
  pub add-IsConserved : (r : R) (s : Store) → IsConserved s → IsConserved (added table r s)
  add-IsConserved r s c = aside.books _ _ (record { accounted = c.accounted; moved = c.moved })

  add_all-IsConserved :
      (rows : List R) (s : Store) → IsConserved s → IsConserved (added_all table rows s)
  add_all-IsConserved [] s c = c
  add_all-IsConserved (r ∷ rows) s c =
      add_all-IsConserved rows (added table r s) (add-IsConserved r s c)

  pub Keeps-create : (make : _ → R) → Keeps IsConserved (create table make)
  Keeps-create make = record {
    at = λ {s} e c.
        let made = create-ok table make s e in subst IsConserved made.state (add-IsConserved _ s c);
  }

  pub Keeps-create_many : (rows : List R) → Keeps IsConserved (create_many table rows)
  Keeps-create_many rows = record {
    at =
        λ {s} e c. subst IsConserved (create_many-ok table rows s e) (add_all-IsConserved rows s c);
  }

  pub Keeps-update_many :
      (matches : R → Bool) (change : R → R) → Keeps IsConserved (update_many table matches change)
  Keeps-update_many matches change = record {
    at = λ {s} e c.
        subst IsConserved (update_many-ok table matches change s e).2 (aside.books _ s c);
  }

  pub Keeps-update :
      (matches : R → Bool) (change : R → R) → Keeps IsConserved (update table matches change)
  Keeps-update matches change = record {
    at =
        λ {s} e c. subst IsConserved (update-ok table matches change s e).state (aside.books _ s c);
  }

-- A lot that nothing has been taken from.
pub new_lot-IsConserved :
    (r : LotRow) (s : Store)
    → r.original_amount ≡ r.remaining_amount
    → IsConserved s
    → IsConserved (added lot_table r s)
new_lot-IsConserved r s whole_lot c = record {
  accounted = λ a.
      let before = c.accounted a in
      let issued_more = total-append (issued_row a) s.lots (r ∷ []) in
      let left_more = total-append (unspent_row a) s.lots (r ∷ []) in
      let same : issued_row a r ≡ unspent_row a r = ap (if_ℤ _) whole_lot in
      omega (int_laws, before, issued_more, left_more, same);
  moved = c.moved;
}

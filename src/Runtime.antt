-- ===== src/Runtime.antt =====
-- What the services use of the database and of node that is no table. It is a parameter of them.
use ts_graphql_reference.Base.{ℕ, Bool, Option, List, String, if◌then◌else◌}
use ts_graphql_reference.Int.{Number}
use ts_graphql_reference.Failure.{ok, err, check_violation}
use ts_graphql_reference.Tx.{Tx}
use ts_graphql_reference.Store.{Store}

-- The default of a UUID column for the n-th row, the deferred constraints that
-- `SET CONSTRAINTS … IMMEDIATE` checks, the hex digest of SHA-256, and JSON.stringify of a text and
-- of a number, and `Number` of a text, if that is a safe integer that is not negative.
pub record Runtime : Type 0 where
  pub uuid : ℕ → String
  pub constraints_hold : List String → Store → Bool
  pub sha256 : String → String
  pub json_text : String → String
  pub json_number : Number → String
  pub number_of : String → Option ℕ

-- Throws when a deferred constraint does not hold, and changes nothing.
unfoldable pub set_constraints : Runtime → List String → Tx Store (Unit {0})
set_constraints runtime names s =
    if runtime.constraints_hold names s then ok (tt, s) else err check_violation

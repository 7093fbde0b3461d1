-- ===== src/Decimal.antt =====
-- `String(n)` of a whole number that is not negative.
use Prim.Native.String.{[], ◌∷◌, ◌++◌, char_at}
use ts_graphql_reference.Base.{ℕ, zero, suc, ◌/◌, ◌%◌, String, ltb, if◌then◌else◌}

abbrev digit : ℕ → String
digit d = char_at "0123456789" d ∷ []

-- A number has at most as many digits as itself and one more.
unfoldable pub digits : ℕ → ℕ → String
digits zero n = ""
digits (suc fuel) n =
    let rest = digits fuel (n / 10) in if ltb n 10 then digit n else rest ++ digit (n % 10)

unfoldable pub decimal : ℕ → String
unfolding digits
decimal n = digits (suc n) n

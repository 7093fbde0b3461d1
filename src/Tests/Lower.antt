-- ===== src/Tests/Lower.antt =====
-- A stand-in for `toLowerCase`.
use Prim.Native.Char.{Char, code}
use Prim.Native.String.{[], ◌∷◌}
use ts_graphql_reference.Base.{◌≡◌, refl, ap, String, Bool-cases, inl, inr, if◌then◌else◌, ◌==◌}

-- Lower case, where `A` is the one capital.
abbrev lower_char : Char → Char
lower_char c = if code c == 65 then "a" else c

abbrev pub lower : String → String
lower [] = []
lower (c ∷ s) = lower_char c ∷ lower s

pub lower_twice : (s : String) → lower (lower s) ≡ lower s
lower_twice [] = refl
lower_twice (c ∷ s) = elim (Bool-cases (code c == 65)) [
  | inl e ↦ rw e (ap (λ x. "a" ∷ x) (lower_twice s))
  | inr e ↦ rw (e, e) (ap (λ x. c ∷ x) (lower_twice s))
]

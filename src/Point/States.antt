-- ===== src/Point/States.antt =====
-- src/modules/point/point.core.ts: the states of a charge and their texts in the column.
use ts_graphql_reference.Base.{
  ◌≡◌, ◌↔◌, refl, ap, ◌∙◌, subst, Option, none, some, List, [], ◌∷◌, String, str_eq, eq_iff,
  if◌then◌else◌, Bool-cases, Option-cases, inl, inr,
}
use ts_graphql_reference.Failure.{Result, ok, err, unknown_point_charge_state}
use ts_graphql_reference.Point.Data.{PointChargeState, usable, consumed, expired}

unfoldable charge_state_text : PointChargeState → String
charge_state_text usable = "USABLE"
charge_state_text consumed = "CONSUMED"
charge_state_text expired = "EXPIRED"

abbrev point_charge_states : List PointChargeState
point_charge_states = usable ∷ consumed ∷ expired ∷ []

-- The state of a text, the test of `isPointChargeState` and the value in one.
unfoldable find_charge_state : List PointChargeState → String → Option PointChargeState
unfolding charge_state_text
find_charge_state [] value = none
find_charge_state (s ∷ states) value =
    let rest = find_charge_state states value in
    if str_eq (charge_state_text s) value then some s else rest

unfoldable parse_point_charge_state : String → Result PointChargeState
unfolding find_charge_state
parse_point_charge_state value = elim (find_charge_state point_charge_states value) [
  | some s ↦ ok s
  | none ↦ err (unknown_point_charge_state value)
]

parse-text : (s : PointChargeState) → parse_point_charge_state (charge_state_text s) ≡ ok s
unfolding parse_point_charge_state charge_state_text
parse-text usable = refl
parse-text consumed = refl
parse-text expired = refl

found_text :
    (l : List PointChargeState) (value : String) {s : PointChargeState}
    → find_charge_state l value ≡ some s
    → charge_state_text s ≡ value
unfolding find_charge_state
found_text [] value h = cc h
found_text (x ∷ l) value {s} h = elim (Bool-cases (str_eq (charge_state_text x) value)) [
  | inl e ↦
      let g : some x ≡ some s = rw e at h in
      let q : x ≡ s = cc g in
      subst (λ y. charge_state_text y ≡ value) q ((eq_iff (charge_state_text x) value).0 e)
  | inr e ↦ found_text l value (rw e at h)
]

text-parse :
    (value : String) {s : PointChargeState}
    → parse_point_charge_state value ≡ ok s
    → charge_state_text s ≡ value
unfolding parse_point_charge_state
text-parse value {s} h = elim (Option-cases (find_charge_state point_charge_states value)) [
  | inl e ↦ cc (rw (e, parse_point_charge_state) at h)
  | inr (x, e) ↦
      found_text point_charge_states value
        (e ∙ ap some (cc (rw (e, parse_point_charge_state) at h)))
]

-- A text parses to a state exactly when it is that state's text in the column.
parse_point_charge_state_iff :
    (value : String) (s : PointChargeState)
    → (parse_point_charge_state value ≡ ok s) ↔ (charge_state_text s ≡ value)
parse_point_charge_state_iff value s =
    (text-parse value, λ e. subst (λ v. parse_point_charge_state v ≡ ok s) e (parse-text s))

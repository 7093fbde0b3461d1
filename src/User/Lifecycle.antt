-- ===== src/User/Lifecycle.antt =====
-- The status machine as a relation: which lives a user can have.
use ts_graphql_reference.Base.{
  ◌≡◌, ◌↔◌, ◌⊎◌, inl, inr, refl, ap, ◌∙◌, subst, true, false, Option, none, some, List, [], ◌∷◌,
  String, Bool-cases, str_eq, eq_iff,
}
use ts_graphql_reference.Failure.{Result, ok, err, unknown_user_status, invalid_status_transition}
use ts_graphql_reference.User.{
  UserStatus, active, suspended, deactivated, user_statuses, status_text, find_status,
  parse_user_status, can_transition, TransitionPlan, noop, transition, plan_transition,
}

-- One change of status that the plan writes.
pub data Step : UserStatus → UserStatus → Type 0 where
  step : {a b x y : UserStatus} → plan_transition a b ≡ ok (transition x y) → Step a b

pub data Life : UserStatus → UserStatus → Type 0 where
  stay : {a : UserStatus} → Life a a
  move : {a b c : UserStatus} → Step a b → Life b c → Life a c

ends :
    (b : UserStatus) {x y : UserStatus}
    → plan_transition deactivated b ≡ ok (transition x y)
    → b ≡ deactivated
unfolding plan_transition
ends active h = cc h
ends suspended h = cc h
ends deactivated h = refl

-- Deactivation is final: no sequence of planned changes leaves it.
pub deactivated-final : {a b : UserStatus} → a ≡ deactivated → Life a b → b ≡ deactivated
deactivated-final e stay = e
deactivated-final {a} {b} e (move {b = c} (step {x = x} {y = y} h) life) =
    deactivated-final (ends c (subst (λ s. plan_transition s c ≡ ok (transition x y)) e h)) life

-- What a plan may be: nothing for the same status, one write for an allowed move, and an error that
-- names both statuses for any other.
abbrev pub IsPlan : UserStatus → UserStatus → Result TransitionPlan → Type 0
IsPlan a b r =
    ((a ≡ b) × (r ≡ ok noop))
    ⊎ ((can_transition a b ≡ true) × (r ≡ ok (transition a b)))
    ⊎ ((can_transition a b ≡ false)
        × (r ≡ err (invalid_status_transition (status_text a) (status_text b))))

-- Every pair of statuses has a plan: none to write for a repeat, one write for an allowed move, and
-- for any other an error that names both.
pub plan_transition-IsPlan : (a b : UserStatus) → IsPlan a b (plan_transition a b)
unfolding plan_transition can_transition
plan_transition-IsPlan active active = inl (refl, refl)
plan_transition-IsPlan active suspended = inr (inl (refl, refl))
plan_transition-IsPlan active deactivated = inr (inl (refl, refl))
plan_transition-IsPlan suspended active = inr (inl (refl, refl))
plan_transition-IsPlan suspended suspended = inl (refl, refl)
plan_transition-IsPlan suspended deactivated = inr (inl (refl, refl))
plan_transition-IsPlan deactivated active = inr (inr (refl, refl))
plan_transition-IsPlan deactivated suspended = inr (inr (refl, refl))
plan_transition-IsPlan deactivated deactivated = inl (refl, refl)

parse-text : (s : UserStatus) → parse_user_status (status_text s) ≡ ok s
unfolding parse_user_status status_text
parse-text active = refl
parse-text suspended = refl
parse-text deactivated = refl

found_text :
    (l : List UserStatus) (value : String) {s : UserStatus}
    → find_status l value ≡ some s
    → status_text s ≡ value
unfolding find_status
found_text [] value h = cc h
found_text (x ∷ l) value {s} h = elim (Bool-cases (str_eq (status_text x) value)) [
  | inl e ↦
      let g : some x ≡ some s = rw e at h in
      let q : x ≡ s = cc g in
      subst (λ y. status_text y ≡ value) q ((eq_iff (status_text x) value).0 e)
  | inr e ↦ found_text l value (rw e at h)
]

text-parse :
    (value : String) {s : UserStatus} → parse_user_status value ≡ ok s → status_text s ≡ value
unfolding parse_user_status
text-parse value {s} h = go (find_status user_statuses value) refl h
  where
    go :
        (o : Option UserStatus)
        → find_status user_statuses value ≡ o
        → elim o [ some s ↦ ok s | none ↦ err (unknown_user_status value) ] ≡ ok s
        → status_text s ≡ value
    go (some x) e k = found_text user_statuses value (e ∙ ap some (cc k))
    go none e k = cc k

-- The statuses and their texts in the column are one to one: a text parses to a status exactly when
-- it is that status's text.
pub parse_user_status_iff :
    (value : String) (s : UserStatus) → (parse_user_status value ≡ ok s) ↔ (status_text s ≡ value)
parse_user_status_iff value s =
    (text-parse value, λ e. subst (λ v. parse_user_status v ≡ ok s) e (parse-text s))

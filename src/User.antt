-- ===== src/User.antt =====
-- src/modules/user/user.state.ts: the statuses of a user and the moves between them.
pub mod Lifecycle
pub mod Email
pub mod Table
pub mod Registered
pub mod Interleaved
pub mod Guarded
use ts_graphql_reference.Base.{
  Bool, true, false, ◌&&◌, ◌||◌, not, Option, none, some, List, [], ◌∷◌, String, if◌then◌else◌,
  str_eq,
}
use ts_graphql_reference.Failure.{
  Result, ok, err, ◌>>=◌, ◌>>◌, throw_if, unknown_user_status, invalid_status_transition,
}

pub data UserStatus : Type 0 where
  active suspended deactivated : UserStatus

-- The text of a status, as the column has it.
unfoldable pub status_text : UserStatus → String
status_text active = "ACTIVE"
status_text suspended = "SUSPENDED"
status_text deactivated = "DEACTIVATED"

abbrev pub user_statuses : List UserStatus
user_statuses = active ∷ suspended ∷ deactivated ∷ []

-- The status of a text, the test of `isUserStatus` and the value in one.
unfoldable pub find_status : List UserStatus → String → Option UserStatus
unfolding status_text
find_status [] value = none
find_status (s ∷ statuses) value =
    let rest = find_status statuses value in if str_eq (status_text s) value then some s else rest

unfoldable pub parse_user_status : String → Result UserStatus
unfolding find_status
parse_user_status value = elim (find_status user_statuses value) [
  | some s ↦ ok s
  | none ↦ err (unknown_user_status value)
]

abbrev pub same_status : UserStatus → UserStatus → Bool
same_status active active = true
same_status suspended suspended = true
same_status deactivated deactivated = true
same_status _ _ = false

abbrev pub has_status : UserStatus → List UserStatus → Bool
has_status s [] = false
has_status s (x ∷ statuses) = same_status x s || has_status s statuses

abbrev pub allowed_transitions : UserStatus → List UserStatus
allowed_transitions active = suspended ∷ deactivated ∷ []
allowed_transitions suspended = active ∷ deactivated ∷ []
allowed_transitions deactivated = []

unfoldable pub can_transition : UserStatus → UserStatus → Bool
can_transition from_status to_status = has_status to_status (allowed_transitions from_status)

unfoldable pub assert_transition : UserStatus → UserStatus → Result (Unit {0})
unfolding can_transition status_text
assert_transition from_status to_status =
    if same_status from_status to_status
    then ok tt
    else throw_if (not (can_transition from_status to_status))
        (invalid_status_transition (status_text from_status) (status_text to_status))

pub data TransitionPlan : Type 0 where
  noop : TransitionPlan
  transition : UserStatus → UserStatus → TransitionPlan

unfoldable pub plan_transition : UserStatus → UserStatus → Result TransitionPlan
unfolding assert_transition
plan_transition from_status to_status = do
  assert_transition from_status to_status
  ok (if same_status from_status to_status then noop else transition from_status to_status)

-- ===== src/User/Table.antt =====
-- src/modules/user/user.repo.ts and user.service.ts: the users' table, and the change of a status
-- that reads, decides and then writes on the condition that the status is still what was read.
use ts_graphql_reference.Base.{
  ℕ, suc, Bool, ◌&&◌, Option, none, some, List, [], ◌∷◌, ◌++◌, String, if◌then◌else◌, ◌==◌, str_eq,
}
use ts_graphql_reference.Int.{ℤ}
use ts_graphql_reference.Failure.{
  Result, ok, err, ◌>>=◌, record_not_found, concurrent_update, user_status,
  email_already_registered,
}
use ts_graphql_reference.Point.Tables.{update_where}
use ts_graphql_reference.User.{
  UserStatus, active, status_text, parse_user_status, TransitionPlan, noop, transition,
  plan_transition,
}

-- The columns of a user that the module reads and writes.
pub record UserRow : Type 0 where
  pub id : ℕ
  pub email : String
  pub name : Option String
  pub status : String
  pub created_at : ℤ
  pub updated_at : ℤ

-- The rows, and the instant at which the next statement runs: every write of a row stamps it
-- (`@default(now())` and `@updatedAt`).
pub record Users : Type 0 where
  pub now : ℤ
  pub rows : List UserRow
  pub next_id : ℕ

pub record UserWriteData : Type 0 where
  pub email : String
  pub name : Option String

-- The first row that a condition holds of.
unfoldable pub find_where : (UserRow → Bool) → List UserRow → Option UserRow
find_where matches [] = none
find_where matches (r ∷ rows) =
    let rest = find_where matches rows in if matches r then some r else rest

abbrev pub has_id : ℕ → UserRow → Bool
has_id i r = r.id == i

abbrev pub has_email : String → UserRow → Bool
has_email email r = str_eq r.email email

abbrev pub holds : ℕ → UserStatus → UserRow → Bool
holds i from_status r = r.id == i && str_eq r.status (status_text from_status)

unfoldable pub find_by_id : ℕ → Users → Option UserRow
unfolding find_where
find_by_id i t = find_where (has_id i) t.rows

unfoldable pub get_by_id : ℕ → Users → Result UserRow
unfolding find_by_id
get_by_id i t = elim (find_by_id i t) [ none ↦ err record_not_found | some r ↦ ok r ]

-- A row with the defaults of the columns that the write does not give.
abbrev pub new_user : ℤ → UserWriteData → ℕ → UserRow
new_user now input i = record {
  id = i;
  email = input.email;
  name = input.name;
  status = status_text active;
  created_at = now;
  updated_at = now;
}

abbrev pub inserted : UserWriteData → Users → UserRow × Users
inserted input t =
    let r = new_user t.now input t.next_id in
    (r, record t { rows = t.rows ++ r ∷ []; next_id = suc t.next_id })

-- The unique index on the email refuses a second row, and the violation is translated.
unfoldable pub create_user : UserWriteData → Users → Result (UserRow × Users)
unfolding find_where status_text
create_user input t = elim (find_where (has_email input.email) t.rows) [
  | some r ↦ err (email_already_registered input.email)
  | none ↦ ok (inserted input t)
]

abbrev pub with_email : ℤ → String → UserRow → UserRow
with_email now email r = record r { email = email; updated_at = now }

-- One statement: the update branch writes the same email again, and `@updatedAt` with it.
unfoldable pub upsert_by_email : UserWriteData → Users → UserRow × Users
unfolding find_where status_text
upsert_by_email input t = elim (find_where (has_email input.email) t.rows) [
  | some r ↦ (
    with_email t.now input.email r,
    record t { rows = update_where (has_email input.email) (with_email t.now input.email) t.rows },
  )
  | none ↦ inserted input t
]

abbrev pub with_status : ℤ → UserStatus → UserRow → UserRow
with_status now to_status r = record r { status = status_text to_status; updated_at = now }

-- The guarded UPDATE: the row it wrote, or nothing when no row holds the status any more.
unfoldable pub transition_status : ℕ → UserStatus → UserStatus → Users → Option UserRow × Users
unfolding find_where status_text
transition_status i from_status to_status t = elim (find_where (holds i from_status) t.rows) [
  | some r ↦ (
    some (with_status t.now to_status r),
    record t { rows = update_where (holds i from_status) (with_status t.now to_status) t.rows },
  )
  | none ↦ (none, t)
]

-- `read` and `decide` of `changeStatus`: the current row, and the plan that was made for it.
unfoldable pub read_and_decide : ℕ → UserStatus → Users → Result (UserRow × TransitionPlan)
unfolding get_by_id parse_user_status plan_transition
read_and_decide i to_status t = do
  current ← get_by_id i t
  from_status ← parse_user_status current.status
  plan ← plan_transition from_status to_status
  ok (current, plan)

-- A guard that missed is a conflict.
abbrev pub or_conflict : ℕ → Option UserRow × Users → Result (UserRow × Users)
or_conflict i (some r, t) = ok (r, t)
or_conflict i (none, t) = err (concurrent_update (user_status i))

unfoldable pub execute : ℕ → UserRow → TransitionPlan → Users → Result (UserRow × Users)
unfolding transition_status
execute i current noop t = ok (current, t)
execute i current (transition from_status to_status) t =
    or_conflict i (transition_status i from_status to_status t)

-- Between its two statements the others' may run: they are what `others` makes of the table.
unfoldable pub change_status : (Users → Users) → ℕ → UserStatus → Users → Result (UserRow × Users)
unfolding read_and_decide execute
change_status others i to_status t = do
  (current, plan) ← read_and_decide i to_status t
  execute i current plan (others t)

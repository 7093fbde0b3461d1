-- ===== src/Tests/Users.antt =====
-- Two changes of one user's status, decided for the same status and written one after the other.
use ts_graphql_reference.Base.{◌≡◌, refl, none, [], ◌∷◌}
use ts_graphql_reference.Int.{pos}
use ts_graphql_reference.Failure.{ok, err, concurrent_update, user_status, email_already_registered}
use ts_graphql_reference.User.{
  active, suspended, deactivated, transition, status_text, parse_user_status, find_status,
  plan_transition, assert_transition, can_transition,
}
use ts_graphql_reference.User.Table.{
  UserRow, Users, find_where, find_by_id, get_by_id, transition_status, read_and_decide, execute,
  change_status, create_user, upsert_by_email,
}
use ts_graphql_reference.Point.Tables.{update_where}
use ts_graphql_reference.User.Interleaved.{Waiting, first, decides, writes, leaves, Run, done, next}
use ts_graphql_reference.User.Guarded.{HasLived, Run-HasLived}

abbrev ann : UserRow
ann = record {
  id = 1;
  email = "ann@example.com";
  name = none;
  status = "ACTIVE";
  created_at = pos 100;
  updated_at = pos 100;
}

abbrev one_user : Users
one_user = record { now = pos 200; rows = ann ∷ []; next_id = 2 }

abbrev gone : Users
gone = record {
  now = pos 200;
  rows = record ann { status = "DEACTIVATED"; updated_at = pos 200 } ∷ [];
  next_id = 2;
}

abbrev suspends : Waiting
suspends = record { id = 1; current = ann; plan = transition active suspended }

abbrev deactivates : Waiting
deactivates = record { id = 1; current = ann; plan = transition active deactivated }

-- The request that comes second finds that its guard misses.
misses_race :
    change_status (λ t. gone) 1 suspended one_user ≡ err (concurrent_update (user_status 1))
unfolding change_status read_and_decide get_by_id find_by_id find_where parse_user_status
    find_status plan_transition assert_transition can_transition status_text execute
    transition_status
misses_race = refl

repeated : change_status (λ t. t) 1 active one_user ≡ ok (ann, one_user)
unfolding change_status read_and_decide get_by_id find_by_id find_where parse_user_status
    find_status plan_transition assert_transition can_transition status_text execute
    transition_status
repeated = refl

taken_email :
    create_user (record { email = "ann@example.com"; name = none }) one_user
    ≡ err (email_already_registered "ann@example.com")
unfolding create_user find_where
taken_email = refl

logged_in :
    (upsert_by_email (record { email = "ann@example.com"; name = none }) one_user).0
    ≡ record ann { updated_at = pos 200 }
unfolding upsert_by_email find_where
logged_in = refl

decides_both :
    (read_and_decide 1 suspended one_user ≡ ok (ann, transition active suspended))
    × (read_and_decide 1 deactivated one_user ≡ ok (ann, transition active deactivated))
unfolding read_and_decide get_by_id find_by_id find_where parse_user_status find_status
    plan_transition assert_transition can_transition status_text
decides_both = (refl, refl)

written :
    execute 1 ann (transition active deactivated) one_user
    ≡ ok (record ann { status = "DEACTIVATED"; updated_at = pos 200 }, gone)
unfolding execute transition_status find_where update_where status_text
written = refl

race : Run (record { table = one_user; waiting = [] }) (record { table = gone; waiting = [] })
race = next (decides {w = suspends} suspended decides_both.0) (
    next (decides {w = deactivates} deactivated decides_both.1)
      (next (writes {w = deactivates} first written) (next (leaves {w = suspends} first) done)))

Run-HasLived_example : HasLived 1 active gone
unfolding find_by_id find_where status_text
Run-HasLived_example =
    Run-HasLived 1 active race tt (record { row = ann; is_there = refl; is_status = refl })

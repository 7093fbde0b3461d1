-- ===== src/Tests/Emails.antt =====
-- Emails, and the users that are made of them.
use ts_graphql_reference.Base.{◌≡◌, ◌↔◌, refl, true, none, some, [], ◌∷◌}
use ts_graphql_reference.Int.{pos}
use ts_graphql_reference.Failure.{ok, err, invalid_email}
use ts_graphql_reference.User.Email.{
  is_space, is_plain, all_plain, matches_end, matches_then, matches_some_then, matches_domain,
  is_email, trim_start, keep_end, trim_end, trim, parse_email,
}
use ts_graphql_reference.User.Email.Parts.{IsEmail, is_email_iff}
use ts_graphql_reference.User.Email.Parsed.{parse_email-again}
use ts_graphql_reference.Tests.Lower.{lower, lower_twice}
use ts_graphql_reference.User.{status_text}
use ts_graphql_reference.User.Table.{Users, UserRow, find_where, upsert_by_email}
use ts_graphql_reference.User.Registered.{CreateUserInput, to_write_data, find_or_create_by_email}
use ts_graphql_reference.User.Registered.Once.{stamped, touched, find_or_create_by_email-again}

parsed : parse_email lower " Ann@example.com " ≡ ok "ann@example.com"
unfolding parse_email is_email matches_domain matches_some_then matches_then matches_end all_plain
    is_plain is_space trim trim_start trim_end keep_end
parsed = refl

two_at : parse_email lower "ann@b@c.d" ≡ err (invalid_email "ann@b@c.d")
unfolding parse_email is_email matches_domain matches_some_then matches_then matches_end all_plain
    is_plain is_space trim trim_start trim_end keep_end
two_at = refl

parse_email-again_example : parse_email lower "ann@example.com" ≡ ok "ann@example.com"
parse_email-again_example = parse_email-again lower " Ann@example.com " lower_twice parsed

is_email_iff_example : (is_email "ann@b.c.d" ≡ true) ↔ IsEmail "ann@b.c.d"
is_email_iff_example = is_email_iff "ann@b.c.d"

abbrev ann_spaced : CreateUserInput
ann_spaced = record { email = " Ann@example.com "; name = some "Ann" }

abbrev ann_plain : CreateUserInput
ann_plain = record { email = "ann@example.com"; name = none }

abbrev made : UserRow
made = record {
  id = 1;
  email = "ann@example.com";
  name = some "Ann";
  status = "ACTIVE";
  created_at = pos 100;
  updated_at = pos 100;
}

abbrev no_users : Users
no_users = record { now = pos 100; rows = []; next_id = 1 }

abbrev users : Users
users = record { now = pos 100; rows = made ∷ []; next_id = 2 }

first_login : find_or_create_by_email lower ann_spaced no_users ≡ ok (made, users)
unfolding find_or_create_by_email to_write_data upsert_by_email find_where status_text parse_email
    is_email matches_domain matches_some_then matches_then matches_end all_plain is_plain is_space
    trim trim_start trim_end keep_end
first_login = refl

parsed_plain : parse_email lower "ann@example.com" ≡ ok "ann@example.com"
unfolding parse_email is_email matches_domain matches_some_then matches_then matches_end all_plain
    is_plain is_space trim trim_start trim_end keep_end
parsed_plain = refl

find_or_create_by_email-again_example :
    find_or_create_by_email lower ann_plain (record users { now = pos 300 })
    ≡ ok (stamped (pos 300) made, touched (pos 300) "ann@example.com" users)
find_or_create_by_email-again_example =
    find_or_create_by_email-again lower ann_spaced ann_plain no_users (pos 300) parsed parsed_plain
      first_login

-- ===== src/User/Registered.antt =====
-- src/modules/user/user.service.ts: the making of a user from what a caller gives.
pub mod Once
use ts_graphql_reference.Base.{
  ℕ, ◌≡◌, refl, sym, ap, ◌∙◌, subst, Bool, true, false, Option, none, some, List, [], ◌∷◌, ◌++◌,
  String, str_eq, str_eq_refl, Option-cases, Bool-cases, inl, inr, if◌then◌else◌,
}
use ts_graphql_reference.Failure.{Result, ok, err, ◌>>=◌}
use ts_graphql_reference.Point.Tables.{update_where}
use ts_graphql_reference.User.Email.{parse_email}
use ts_graphql_reference.User.Table.{
  UserRow, Users, UserWriteData, find_where, has_email, with_email, new_user, inserted, create_user,
  upsert_by_email,
}

pub record CreateUserInput : Type 0 where
  pub email : String
  pub name : Option String

module _ (lower : String → String) where
  unfoldable pub to_write_data : CreateUserInput → Result UserWriteData
  unfolding parse_email
  to_write_data input = do
    email ← parse_email lower input.email
    ok (record { email = email; name = input.name })

  unfoldable pub create : CreateUserInput → Users → Result (UserRow × Users)
  unfolding to_write_data create_user
  create input t = do written ← to_write_data input; create_user written t

  unfoldable pub find_or_create_by_email : CreateUserInput → Users → Result (UserRow × Users)
  unfolding to_write_data upsert_by_email
  find_or_create_by_email input t = do written ← to_write_data input; ok (upsert_by_email written t)

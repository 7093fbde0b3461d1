-- ===== src/User/Registered/Once.antt =====
-- A login that is repeated.
use ts_graphql_reference.Base.{
  ◌≡◌, refl, sym, ap, ap₂, ◌∙◌, subst, true, Option, none, some, List, [], ◌∷◌, ◌++◌, String,
  str_eq, eq_iff, str_eq_refl, Option-cases, Bool-cases, inl, inr,
}
use ts_graphql_reference.Int.{ℤ}
use ts_graphql_reference.Failure.{ok}
use ts_graphql_reference.Point.Tables.{update_where}
use ts_graphql_reference.User.Email.{parse_email}
use ts_graphql_reference.User.Table.{
  UserRow, Users, UserWriteData, find_where, has_email, with_email, inserted, upsert_by_email,
}
use ts_graphql_reference.User.Registered.{CreateUserInput, to_write_data, find_or_create_by_email}

-- A row, written again at an instant without any other change.
abbrev pub stamped : ℤ → UserRow → UserRow
stamped later r = record r { updated_at = later }

-- The table at a later instant, in which the row of an email has been written without any other
-- change.
abbrev pub touched : ℤ → String → Users → Users
touched later email t = record {
  now = later;
  rows = update_where (has_email email) (stamped later) t.rows;
  next_id = t.next_id;
}

module _ (email : String) where
  -- Writing its own email again is no other change.
  same_email :
      (now : ℤ) (rows : List UserRow)
      → update_where (has_email email) (with_email now email) rows
        ≡ update_where (has_email email) (stamped now) rows
  unfolding update_where
  same_email now [] = refl
  same_email now (r ∷ rows) = elim (Bool-cases (str_eq r.email email)) [
    | inl e ↦
        let own = (eq_iff r.email email).0 e in
        rw e (
          ap₂ (λ x l. record r { email = x; updated_at = now } ∷ l) (sym own) (same_email now rows))
    | inr e ↦ rw e (ap (λ l. r ∷ l) (same_email now rows))
  ]

  found_again :
      (now : ℤ) (rows : List UserRow) {r : UserRow}
      → find_where (has_email email) rows ≡ some r
      → find_where (has_email email) (update_where (has_email email) (with_email now email) rows)
        ≡ some (with_email now email r)
  unfolding find_where update_where
  found_again now [] h = cc h
  found_again now (x ∷ rows) {r} h = elim (Bool-cases (str_eq x.email email)) [
    | inl e ↦
        let g : some x ≡ some r = rw e at h in
        rw (e, str_eq_refl email)
          (ap (λ o. elim o [ none ↦ none | some y ↦ some (with_email now email y) ]) g)
    | inr e ↦ rw (e, e) (found_again now rows (rw e at h))
  ]

  -- The new row, behind rows of other emails.
  found_new :
      (rows : List UserRow) (r : UserRow)
      → str_eq r.email email ≡ true
      → find_where (has_email email) rows ≡ none
      → find_where (has_email email) (rows ++ r ∷ []) ≡ some r
  unfolding find_where
  found_new [] r own h = rw own refl
  found_new (x ∷ rows) r own h = elim (Bool-cases (str_eq x.email email)) [
    | inl e ↦ cc (rw e at h)
    | inr e ↦ rw e (found_new rows r own (rw e at h))
  ]

upsert-found :
    (input : UserWriteData) (t : Users) {r : UserRow}
    → find_where (has_email input.email) t.rows ≡ some r
    → upsert_by_email input t ≡ (
      with_email t.now input.email r,
      record t {
        rows = update_where (has_email input.email) (with_email t.now input.email) t.rows;
      },
    )
unfolding upsert_by_email
upsert-found input t h = rw (h, upsert_by_email) refl

upsert-new :
    (input : UserWriteData) (t : Users)
    → find_where (has_email input.email) t.rows ≡ none
    → upsert_by_email input t ≡ inserted input t
unfolding upsert_by_email
upsert-new input t h = rw (h, upsert_by_email) refl

-- The row that was written is found by its email.
upsert-finds :
    (input : UserWriteData) (t : Users) {x : UserRow × Users}
    → upsert_by_email input t ≡ x
    → (find_where (has_email input.email) x.1.rows ≡ some x.0) × (x.0.email ≡ input.email)
upsert-finds input t h = elim (Option-cases (find_where (has_email input.email) t.rows)) [
  | inl e ↦
      let r = (inserted input t).0 in
      subst
        (λ (x : UserRow × Users).
          (find_where (has_email input.email) x.1.rows ≡ some x.0) × (x.0.email ≡ input.email))
        (sym (upsert-new input t e) ∙ h)
        (found_new input.email t.rows r (str_eq_refl input.email) e, refl)
  | inr (r, e) ↦
      subst
        (λ (x : UserRow × Users).
          (find_where (has_email input.email) x.1.rows ≡ some x.0) × (x.0.email ≡ input.email))
        (sym (upsert-found input t e) ∙ h) (found_again input.email t.now t.rows e, refl)
]

-- Whatever name it comes with, a later write of an email only stamps the row of the first.
upsert-again :
    (input : UserWriteData) (name : Option String) (t : Users) (later : ℤ) {r : UserRow} {u : Users}
    → upsert_by_email input t ≡ (r, u)
    → upsert_by_email (record input { name = name }) (record u { now = later })
      ≡ (stamped later r, touched later input.email u)
upsert-again input name t later {r} {u} h =
    let (found, own) = upsert-finds input t h in
    upsert-found (record input { name = name }) (record u { now = later }) found
    ∙ ap₂
        (λ e l. (
          record r { email = e; updated_at = later },
          record { now = later; rows = l; next_id = u.next_id },
        ))
        (sym own) (same_email input.email later u.rows)

-- A repeated login finds the user of the first: whatever names the two come with, when their texts
-- parse to the same email, the second returns the user that the first has returned, with a new
-- `updatedAt`, and changes nothing else of that user and nothing of the others.
pub find_or_create_by_email-again :
    (lower : String → String) (first second : CreateUserInput) (t : Users) (later : ℤ) {r : UserRow}
    {u : Users} {email : String}
    → parse_email lower first.email ≡ ok email
    → parse_email lower second.email ≡ ok email
    → find_or_create_by_email lower first t ≡ ok (r, u)
    → find_or_create_by_email lower second (record u { now = later })
      ≡ ok (stamped later r, touched later email u)
unfolding find_or_create_by_email to_write_data
find_or_create_by_email-again lower first second t later {r} {u} {email} e e' h =
    let input : UserWriteData = record { email = email; name = first.name } in
    let g : ok (upsert_by_email input t) ≡ ok (r, u) = rw e at h in
    let q : upsert_by_email input t ≡ (r, u) = cc g in
    rw e' (ap ok (upsert-again input second.name t later q))

-- ===== src/Store/Client/Calls.antt =====
-- What a call of the client that has not failed has returned and left.
use ts_graphql_reference.Base.{
  ℕ, ◌≡◌, refl, sym, ap, ◌∙◌, Bool, true, false, Option, none, some, List, [], ◌∷◌, ◌++◌,
  Bool-cases, Option-cases, inl, inr, if◌then◌else◌,
}
use ts_graphql_reference.Failure.{Result, ok, err, check_violation, Result-cases}
use ts_graphql_reference.Tx.{snd_or}
use ts_graphql_reference.Point.Tables.{update_where, count_where, all_checked, select_where}
use ts_graphql_reference.Store.{Store}
use ts_graphql_reference.Store.Tables.{Table}
use ts_graphql_reference.Store.Client.{
  find_first, sort_by, find_unique, find_unique_or_throw, find_many, added, create, create_many,
  update_many, update,
}

-- The parts of an equation of results.
abbrev pub value_or : {A S : Type 0} → A → Result (A × S) → A
value_or a (ok r) = r.0
value_or a (err e) = a

module _ {A S : Type 0} {a b : A} {s t : S} where
  pub same_value : ◌≡◌ {A = Result (A × S)} (ok (a, s)) (ok (b, t)) → a ≡ b
  same_value h = ap (value_or a) h

  pub same_state : ◌≡◌ {A = Result (A × S)} (ok (a, s)) (ok (b, t)) → s ≡ t
  same_state h = ap (snd_or s) h

-- The look-ups.
module _ {R : Type 0} where
  pub find_first-matches :
      (matches : R → Bool) (rows : List R) {r : R}
      → find_first matches rows ≡ some r
      → matches r ≡ true
  unfolding find_first
  find_first-matches matches [] h = cc h
  find_first-matches matches (x ∷ rows) {r} h = elim (Bool-cases (matches x)) [
    | inl e ↦ let k : some x ≡ some r = rw e at h in let q : x ≡ r = cc k in ap matches (sym q) ∙ e
    | inr e ↦ find_first-matches matches rows (rw e at h)
  ]

  -- A row that is appended is found when none was there before it.
  pub find_first-append :
      (matches : R → Bool) (rows : List R) (r : R)
      → find_first matches rows ≡ none
      → matches r ≡ true
      → find_first matches (rows ++ r ∷ []) ≡ some r
  unfolding find_first
  find_first-append matches [] r n h = rw h refl
  find_first-append matches (x ∷ rows) r n h = elim (Bool-cases (matches x)) [
    | inl e ↦ cc (rw e at n)
    | inr e ↦ rw e (find_first-append matches rows r (rw e at n) h)
  ]

  -- A row that is there is found whatever is appended.
  pub find_first-append_some :
      (matches : R → Bool) (rows more : List R) {r : R}
      → find_first matches rows ≡ some r
      → find_first matches (rows ++ more) ≡ some r
  unfolding find_first
  find_first-append_some matches [] more h = cc h
  find_first-append_some matches (x ∷ rows) more h = elim (Bool-cases (matches x)) [
    | inl e ↦ rw e (rw e at h)
    | inr e ↦ rw e (find_first-append_some matches rows more (rw e at h))
  ]

  -- A unique index that a row does not clash with has none of its keys.
  pub find_first-none :
      (key clash : R → Bool) (rows : List R)
      → ((r : R) → key r ≡ true → clash r ≡ true)
      → find_first clash rows ≡ none
      → find_first key rows ≡ none
  unfolding find_first
  find_first-none key clash [] i h = refl
  find_first-none key clash (x ∷ rows) i h = elim (Bool-cases (key x)) [
    | inl e ↦ cc (rw (i x e) at h)
    | inr e ↦ elim (Bool-cases (clash x)) [
      | inl f ↦ cc (rw f at h)
      | inr f ↦ rw e (find_first-none key clash rows i (rw f at h))
    ]
  ]

  -- A write that keeps the keys changes the row that is found in its place.
  pub find_first-update :
      (matches : R → Bool) (written : R → Bool) (change : R → R) (rows : List R) {r : R}
      → ((x : R) → matches (change x) ≡ matches x)
      → find_first matches rows ≡ some r
      → find_first matches (update_where written change rows)
        ≡ some (if written r then change r else r)
  unfolding find_first update_where
  find_first-update matches written change [] k h = cc h
  find_first-update matches written change (x ∷ rows) {r} k h = elim (Bool-cases (matches x)) [
    | inl e ↦
        let g : some x ≡ some r = rw e at h in
        let q : x ≡ r = cc g in
        rw (← q)
          (elim (Bool-cases (written x)) [ inl f ↦ rw (f, k x, e) refl | inr f ↦ rw (f, e) refl ])
    | inr e ↦
        let rest = find_first-update matches written change rows k (rw e at h) in
        elim (Bool-cases (written x)) [ inl f ↦ rw (f, k x, e) rest | inr f ↦ rw (f, e) rest ]
  ]

module _ {R : Type 0} (table : Table R) where
  pub find_unique-ok :
      (matches : R → Bool) (s : Store) {o : Option R} {t : Store}
      → find_unique table matches s ≡ ok (o, t)
      → (find_first matches (table.rows s) ≡ o) × (s ≡ t)
  unfolding find_unique
  find_unique-ok matches s h = (same_value h, same_state h)

  pub find_unique_or_throw-ok :
      (matches : R → Bool) (s : Store) {r : R} {t : Store}
      → find_unique_or_throw table matches s ≡ ok (r, t)
      → (find_first matches (table.rows s) ≡ some r) × (s ≡ t)
  unfolding find_unique_or_throw
  find_unique_or_throw-ok matches s {r} {t} h =
      elim (Option-cases (find_first matches (table.rows s))) [
        | inl e ↦ cc (rw (e, find_unique_or_throw) at h)
        | inr (x, e) ↦
            let k : ok (x, s) ≡ ok (r, t) = rw (e, find_unique_or_throw) at h in
            (e ∙ ap some (same_value k), same_state k)
      ]

  pub find_many-ok :
      (matches : R → Bool) (before : R → R → Bool) (s : Store) {l : List R} {t : Store}
      → find_many table matches before s ≡ ok (l, t)
      → (sort_by before (select_where matches (table.rows s)) ≡ l) × (s ≡ t)
  unfolding find_many
  find_many-ok matches before s h = (same_value h, same_state h)

  -- A row that was created: no row clashes with it, and it stands last.
  pub record IsCreated (make : ℕ → R) (s : Store) (r : R) (t : Store) : Type 0 where
    pub row : make s.next_id ≡ r
    pub fresh : find_first (λ x. table.clashes x r) (table.rows s) ≡ none
    pub checked : table.is_checked r ≡ true
    pub state : added table r s ≡ t

  created :
      (r : R) (s : Store) (c : Bool) {x : R} {t : Store}
      → if◌then◌else◌ {A = Result (R × Store)} c (ok (r, added table r s)) (err check_violation)
        ≡ ok (x, t)
      → (c ≡ true) × (r ≡ x) × (added table r s ≡ t)
  created r s true h = (refl, same_value h, same_state h)
  created r s false h = cc h

  pub create-ok :
      (make : ℕ → R) (s : Store) {r : R} {t : Store}
      → create table make s ≡ ok (r, t)
      → IsCreated make s r t
  unfolding create
  create-ok make s {r} {t} h =
      let new = make s.next_id in
      elim (Option-cases (find_first (λ x. table.clashes x new) (table.rows s))) [
        | inr (x, e) ↦ cc (rw (e, create) at h)
        | inl e ↦
            let (c, q, k) = created new s (table.is_checked new) (rw (e, create) at h) in
            record { row = q; fresh = rw (← q) e; checked = rw (← q) c; state = rw (← q) k }
      ]

  pub update_many-ok :
      (matches : R → Bool) (change : R → R) (s : Store) {n : ℕ} {t : Store}
      → update_many table matches change s ≡ ok (n, t)
      → (all_checked matches change table.is_checked (table.rows s) ≡ true)
        × (count_where matches (table.rows s) ≡ n)
        × (table.with_rows (update_where matches change (table.rows s)) s ≡ t)
  unfolding update_many
  update_many-ok matches change s {n} {t} h =
      elim (Bool-cases (all_checked matches change table.is_checked (table.rows s))) [
        | inl e ↦
            let k : ok (
              count_where matches (table.rows s),
              table.with_rows (update_where matches change (table.rows s)) s,
            )
                ≡ ok (n, t) =
              rw e at h in
            (e, same_value k, same_state k)
        | inr e ↦ cc (rw e at h)
      ]

  pub record IsUpdated (matches : R → Bool) (change : R → R) (s : Store) (r : R) (t : Store)
      : Type 0 where
    pub old : R
    pub found : find_first matches (table.rows s) ≡ some old
    pub row : change old ≡ r
    pub state : table.with_rows (update_where matches change (table.rows s)) s ≡ t

  written :
      (r : R) (u : Store) (c : Bool) {x : R} {t : Store}
      → if◌then◌else◌ {A = Result (R × Store)} c (ok (r, u)) (err check_violation) ≡ ok (x, t)
      → (r ≡ x) × (u ≡ t)
  written r u true h = (same_value h, same_state h)
  written r u false h = cc h

  pub update-ok :
      (matches : R → Bool) (change : R → R) (s : Store) {r : R} {t : Store}
      → update table matches change s ≡ ok (r, t)
      → IsUpdated matches change s r t
  unfolding update
  update-ok matches change s h = elim (Option-cases (find_first matches (table.rows s))) [
    | inl e ↦ cc (rw (e, update) at h)
    | inr (x, e) ↦
        let (q, k) =
          written (change x) (table.with_rows (update_where matches change (table.rows s)) s)
            (table.is_checked (change x)) (rw (e, update) at h) in
        record { old = x; found = e; row = q; state = k }
  ]

  -- The store with more rows, one by one.
  abbrev pub added_all : List R → Store → Store
  added_all [] s = s
  added_all (r ∷ rows) s = added_all rows (added table r s)

  pub create_many-ok :
      (rows : List R) (s : Store) {u : Unit {0}} {t : Store}
      → create_many table rows s ≡ ok (u, t)
      → added_all rows s ≡ t
  unfolding create_many
  create_many-ok [] s h = same_state h
  create_many-ok (r ∷ rows) s {u} {t} h = elim (Result-cases (create table (λ _. r) s)) [
    | inl ((y, v), e) ↦
        let c = create-ok (λ _. r) s e in
        let rest : create_many table rows v ≡ ok (u, t) = rw (e, create_many) at h in
        ap (added_all rows) (ap (λ z. added table z s) c.row ∙ c.state) ∙ create_many-ok rows v rest
    | inr (x, e) ↦ cc (rw (e, create_many) at h)
  ]

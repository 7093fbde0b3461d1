-- ===== src/Store/Client/Steps.antt =====
-- One rule for each call that a block of calls may begin with: if the block has returned, so has the
-- rest of it, from a store that is written out.
use ts_graphql_reference.Base.{ℕ, ◌≡◌, sym, subst, Bool, true, false, some, List}
use ts_graphql_reference.Failure.{Error, Result, ok}
use ts_graphql_reference.Tx.{Tx, ◌>>=◌, lift, throw_if, >>=-ok, lift-ok, throw_if-ok}
use ts_graphql_reference.Point.Tables.{update_where, count_where, all_checked}
use ts_graphql_reference.Store.{Store}
use ts_graphql_reference.Store.Tables.{Table}
use ts_graphql_reference.Store.Client.{
  find_first, find_unique_or_throw, added, create, create_many, update_many, update,
}
use ts_graphql_reference.Store.Client.Calls.{
  IsCreated, create-ok, IsUpdated, update-ok, update_many-ok, added_all, create_many-ok,
  find_unique_or_throw-ok,
}

module _ {A B : Type 0} {C : Type 0} {b : B} {t : Store} where
  pub after :
      (m : Tx Store A) (f : A → Tx Store B) (s : Store)
      → (m >>= f) s ≡ ok (b, t)
      → ((a : A) (u : Store) → m s ≡ ok (a, u) → f a u ≡ ok (b, t) → C)
      → C
  after m f s h k = let (a, u, e, g) = >>=-ok m f s h in k a u e g

  pub after_lift :
      (r : Result A) (f : A → Tx Store B) (s : Store)
      → (lift r >>= f) s ≡ ok (b, t)
      → ((a : A) → r ≡ ok a → f a s ≡ ok (b, t) → C)
      → C
  after_lift r f s h k = after (lift r) f s h λ a u e g.
      let (q, same) = lift-ok r s e in k a q (subst (λ x. f a x ≡ ok (b, t)) (sym same) g)

  -- A call that changes nothing.
  pub after_read :
      (m : Tx Store A) (f : A → Tx Store B) (s : Store)
      → ((a : A) (u : Store) → m s ≡ ok (a, u) → s ≡ u)
      → (m >>= f) s ≡ ok (b, t)
      → ((a : A) → m s ≡ ok (a, s) → f a s ≡ ok (b, t) → C)
      → C
  after_read m f s quiet h k = after m f s h λ a u e g.
      let q = sym (quiet a u e) in
      k a (subst (λ x. m s ≡ ok (a, x)) q e) (subst (λ x. f a x ≡ ok (b, t)) q g)

module _ {B : Type 0} {C : Type 0} {b : B} {t : Store} where
  pub after_throw_if :
      (c : Bool) (e : Error) (f : Unit {0} → Tx Store B) (s : Store)
      → (throw_if c e >>= f) s ≡ ok (b, t)
      → (c ≡ false → f tt s ≡ ok (b, t) → C)
      → C
  after_throw_if c e f s h k = after (throw_if c e) f s h λ u v d g.
      let (q, same) = throw_if-ok c e s d in k q (subst (λ x. f tt x ≡ ok (b, t)) (sym same) g)

-- The store after the rows that match are changed.
abbrev pub changed : {R : Type 0} → Table R → (R → Bool) → (R → R) → Store → Store
changed table matches change s = table.with_rows (update_where matches change (table.rows s)) s

module _ {R B : Type 0} {C : Type 0} (table : Table R) {b : B} {t : Store} where
  pub after_create :
      (make : ℕ → R) (f : R → Tx Store B) (s : Store)
      → (create table make >>= f) s ≡ ok (b, t)
      → ((r : R)
          → IsCreated table make s r (added table r s)
          → f r (added table r s) ≡ ok (b, t)
          → C)
      → C
  after_create make f s h k = after (create table make) f s h λ r u e g.
      let c = create-ok table make s e in
      let q = sym c.state in
      k r (subst (IsCreated table make s r) q c) (subst (λ x. f r x ≡ ok (b, t)) q g)

  pub after_create_many :
      (rows : List R) (f : Unit {0} → Tx Store B) (s : Store)
      → (create_many table rows >>= f) s ≡ ok (b, t)
      → (f tt (added_all table rows s) ≡ ok (b, t) → C)
      → C
  after_create_many rows f s h k =
      after (create_many table rows) f s h
        λ r u e g. k (subst (λ x. f tt x ≡ ok (b, t)) (sym (create_many-ok table rows s e)) g)

  pub after_find :
      (matches : R → Bool) (f : R → Tx Store B) (s : Store)
      → (find_unique_or_throw table matches >>= f) s ≡ ok (b, t)
      → ((r : R) → find_first matches (table.rows s) ≡ some r → f r s ≡ ok (b, t) → C)
      → C
  after_find matches f s h k = after (find_unique_or_throw table matches) f s h λ r u e g.
      let (found, same) = find_unique_or_throw-ok table matches s e in
      k r found (subst (λ x. f r x ≡ ok (b, t)) (sym same) g)

  pub after_update :
      (matches : R → Bool) (change : R → R) (f : R → Tx Store B) (s : Store)
      → (update table matches change >>= f) s ≡ ok (b, t)
      → ((r : R)
          → IsUpdated table matches change s r (changed table matches change s)
          → f r (changed table matches change s) ≡ ok (b, t)
          → C)
      → C
  after_update matches change f s h k = after (update table matches change) f s h λ r u e g.
      let c = update-ok table matches change s e in
      let q = sym c.state in
      k r (subst (IsUpdated table matches change s r) q c) (subst (λ x. f r x ≡ ok (b, t)) q g)

  pub after_update_many :
      (matches : R → Bool) (change : R → R) (f : ℕ → Tx Store B) (s : Store)
      → (update_many table matches change >>= f) s ≡ ok (b, t)
      → (all_checked matches change table.is_checked (table.rows s) ≡ true
          → f (count_where matches (table.rows s)) (changed table matches change s) ≡ ok (b, t)
          → C)
      → C
  after_update_many matches change f s h k =
      after (update_many table matches change) f s h λ n u e g.
        let (checked, count, same) = update_many-ok table matches change s e in
        k checked (
          subst (λ y. f y (changed table matches change s) ≡ ok (b, t)) (sym count)
            (subst (λ x. f n x ≡ ok (b, t)) (sym same) g))

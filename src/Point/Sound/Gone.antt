-- ===== src/Point/Sound/Gone.antt =====
-- Which rows the writes of an expiry plan change, and into what.
use ts_graphql_reference.Base.{
  ℕ, ◌≡◌, refl, sym, ap, ◌∙◌, subst, Bool, true, false, ◌||◌, Option, none, some, List, [], ◌∷◌,
  map, ◌==◌, if◌then◌else◌, Bool-cases, inl, inr, ==→eq, All, All-map,
}
use ts_graphql_reference.Int.{ℤ, pos}
use ts_graphql_reference.Failure.{ok}
use ts_graphql_reference.Tx.{for_each, >>=-ok, snd_or}
use ts_graphql_reference.Point.Data.{ExpirableCharge, expired}
use ts_graphql_reference.Point.Expiry.{expiration}
use ts_graphql_reference.Point.Tables.{ChargeRow, Tables, find_charge, update_where}
use ts_graphql_reference.Point.Tables.Charges.{hit, KeepsKeys, find_charge-update}
use ts_graphql_reference.Point.Client.{memory}
use ts_graphql_reference.Point.Repo.{still, expire_charge, apply_expiration}
use ts_graphql_reference.Point.Sound.{IsKept, IsOwned}
use ts_graphql_reference.Point.Sound.Steps.{
  still-IsStill, guarded-ok, expiration-IsMoved, expire_charge-KeepsKeys,
}

-- The list has the charge of the identifier.
abbrev pub is_in : ℕ → List ExpirableCharge → Bool
is_in j [] = false
is_in j (c ∷ l) = c.id == j || is_in j l

-- A charge that has expired at an instant: nothing is left of it, and it says when.
abbrev pub emptied : ℤ → ChargeRow → ChargeRow
emptied now r = record {
  id = r.id;
  user_id = r.user_id;
  state = expired;
  paid_amount = r.paid_amount;
  free_amount = r.free_amount;
  unspent_paid = pos 0;
  unspent_free = pos 0;
  charged_at = r.charged_at;
  expired_at = some now;
}

abbrev pub emptied_row : ℤ → Option ChargeRow → Option ChargeRow
emptied_row now none = none
emptied_row now (some r) = some (emptied now r)

-- The rows of the charges have been emptied, and no others have changed.
abbrev pub OnlyEmptied : ℤ → List ExpirableCharge → List ChargeRow → List ChargeRow → Type 0
OnlyEmptied now gone rows rows' =
    (j : ℕ)
    → find_charge j rows'
      ≡ (if is_in j gone then emptied_row now (find_charge j rows) else find_charge j rows)

emptied_twice :
    (now : ℤ) (o : Option ChargeRow) → emptied_row now (emptied_row now o) ≡ emptied_row now o
emptied_twice now none = refl
emptied_twice now (some r) = refl

module _ (i : ℕ) (matches : ChargeRow → Bool) (only : (r : ChargeRow) → matches r ≡ true → r.id ≡ i)
    (change : ChargeRow → ChargeRow) (keeps : KeepsKeys change) where
  find_charge-others :
      (j : ℕ)
      → i == j ≡ false
      → (rows : List ChargeRow)
      → find_charge j (update_where matches change rows) ≡ find_charge j rows
  unfolding find_charge update_where
  find_charge-others j ne [] = refl
  find_charge-others j ne (x ∷ rows) =
      let ih = find_charge-others j ne rows in
      elim (Bool-cases (matches x)) [
        | inl e ↦
            let q = only x e in
            let other : x.id == j ≡ false = ap (λ k. k == j) q ∙ ne in rw (e, keeps.id x, other) ih
        | inr e ↦ elim (Bool-cases (x.id == j)) [ inl f ↦ rw (e, f) refl | inr f ↦ rw (e, f) ih ]
      ]

-- One write has emptied the row of its charge, and no other.
step-OnlyEmptied :
    (now : ℤ) (c : ExpirableCharge) (t : Tables) {s : Tables}
    → IsKept t
    → apply_expiration memory now (expiration c) t ≡ ok (tt, s)
    → OnlyEmptied now (c ∷ []) t.charges s.charges
unfolding apply_expiration
step-OnlyEmptied now c t k h j =
    let a = (expiration c).assumed in
    let (_, n, e) = guarded-ok c.id a (expire_charge now) t h in
    let only = λ (r : ChargeRow) (m : still c.id a r ≡ true). (still-IsStill c.id a r m).id in
    let (r, there, m) = hit c.id (still c.id a) only t.charges k.distinct n in
    let keeps = expire_charge-KeepsKeys now in
    subst
      (λ (x : Tables). find_charge j x.charges ≡ (
        if is_in j (c ∷ [])
        then emptied_row now (find_charge j t.charges)
        else find_charge j t.charges))
      e
      (elim (Bool-cases (c.id == j)) [
        | inl f ↦
            let found = subst (λ x. find_charge x t.charges ≡ some r) (==→eq c.id j f) there in
            let after =
              find_charge-update (still c.id a) (expire_charge now) keeps j t.charges found in
            rw (f, found) (after ∙ ap (λ b. some (if b then expire_charge now r else r)) m)
        | inr f ↦
            rw f
              (find_charge-others c.id (still c.id a) only (expire_charge now) keeps j f t.charges)
      ])

-- The writes of the plan, one after the other.
pub expirations-OnlyEmptied :
    (u : ℕ) (now : ℤ) (gone : List ExpirableCharge) (t : Tables) {t' : Tables}
    → All (λ c. IsOwned u t.charges c.id) gone
    → IsKept t
    → for_each (apply_expiration memory now) (map expiration gone) t ≡ ok (tt, t')
    → OnlyEmptied now gone t.charges t'.charges
unfolding for_each
expirations-OnlyEmptied u now [] t owned k h j =
    ap (λ (x : Tables). find_charge j x.charges) (sym (ap (snd_or t) h))
expirations-OnlyEmptied u now (c ∷ gone) t {t'} owned k h j =
    let write = apply_expiration memory now in
    let (_, s, e, rest) =
      >>=-ok (write (expiration c)) (λ _. for_each write (map expiration gone)) t h in
    let moved = expiration-IsMoved u now (expiration c) t s k owned.0 e in
    let first = step-OnlyEmptied now c t k e j in
    let others =
      expirations-OnlyEmptied u now gone s
        (All-map (λ (x : ExpirableCharge) o. moved.owned x.id o) gone owned.1) moved.kept rest j in
    elim (Bool-cases (c.id == j)) [
      | inl f ↦
          let emptied_first : find_charge j s.charges ≡ emptied_row now (find_charge j t.charges) =
            rw f at first in
          rw f (elim (Bool-cases (is_in j gone)) [
            | inl g ↦
                let later : find_charge j t'.charges ≡ emptied_row now (find_charge j s.charges) =
                  rw g at others in
                later
                ∙ ap (emptied_row now) emptied_first
                ∙ emptied_twice now (find_charge j t.charges)
            | inr g ↦
                let later : find_charge j t'.charges ≡ find_charge j s.charges = rw g at others in
                later ∙ emptied_first
          ])
      | inr f ↦
          let same : find_charge j s.charges ≡ find_charge j t.charges = rw f at first in
          rw f (others ∙ ap (λ o. if is_in j gone then emptied_row now o else o) same)
    ]

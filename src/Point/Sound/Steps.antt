-- ===== src/Point/Sound/Steps.antt =====
-- The guarded writes of a plan, on the tables themselves.
use ts_graphql_reference.Base.{
  ℕ, ◌≡◌, refl, sym, ap, ◌∙◌, Bool, true, false, ◌&&◌, not, some, List, [], ◌∷◌, ◌==◌,
  if◌then◌else◌, All, Bool-cases, inl, inr, &&-true, ==→eq, subst, not-false, All-map,
}
use ts_graphql_reference.Int.{ℤ, pos, ◌+ℤ◌, ◌-ℤ◌, ◌==ℤ◌, int_laws, ==ℤ_iff, total_of}
use ts_graphql_reference.Failure.{Result, ok, err, concurrent_update, point_charge}
use ts_graphql_reference.Tx.{Tx, ◌>>=◌, throw_if, >>=-ok, throw_if-ok, snd_or, for_each}
use ts_graphql_reference.Point.Data.{
  Assumed, SpendAllocation, ChargeExpiration, PointChargeState, consumed,
}
use ts_graphql_reference.Point.Tables.{
  ChargeRow, Tables, charge_check, is_usable, update_charges, update_where, count_where,
  all_checked,
}
use ts_graphql_reference.Point.Tables.Charges.{
  paid_in, free_in, KeepsKeys, IsDistinct-update, below-update, checked-update, find_charge-update,
  hit, sums-update,
}
use ts_graphql_reference.Point.Client.{memory}
use ts_graphql_reference.Point.Repo.{
  still, consume, expire_charge, apply_allocation, apply_expiration,
}
use ts_graphql_reference.Point.Sound.{IsKept, IsOwned, IsMoved, share, IsMoved-refl, IsMoved-trans}

abbrev count_or : ℕ → Result (ℕ × Tables) → ℕ
count_or n (ok r) = r.0
count_or n (err e) = n

-- What a matching row says.
pub record IsStill (i : ℕ) (a : Assumed) (r : ChargeRow) : Type 0 where
  pub id : r.id ≡ i
  pub usable : is_usable r.state ≡ true
  pub paid : r.unspent_paid ≡ a.unspent_paid
  pub free : r.unspent_free ≡ a.unspent_free

pub still-IsStill : (i : ℕ) (a : Assumed) (r : ChargeRow) → still i a r ≡ true → IsStill i a r
still-IsStill i a r h =
    let (h₃, f) =
      &&-true (r.id == i && is_usable r.state && r.unspent_paid ==ℤ a.unspent_paid)
        (r.unspent_free ==ℤ a.unspent_free) h in
    let (h₂, p) = &&-true (r.id == i && is_usable r.state) (r.unspent_paid ==ℤ a.unspent_paid) h₃ in
    let (e, s) = &&-true (r.id == i) (is_usable r.state) h₂ in
    record {
      id = ==→eq r.id i e;
      usable = s;
      paid = (==ℤ_iff r.unspent_paid a.unspent_paid).0 p;
      free = (==ℤ_iff r.unspent_free a.unspent_free).0 f;
    }

-- A write that takes `paid` and `free` from a usable charge of `u` whose guard holds.
pub record Takes (u i : ℕ) (a : Assumed) (paid free : ℤ) (change : ChargeRow → ChargeRow)
    : Type 0 where
  pub keeps : KeepsKeys change
  pub takes_paid :
      (r : ChargeRow)
      → r.user_id ≡ u
      → IsStill i a r
      → (v : ℕ) → paid_in v (change r) +ℤ share u v paid ≡ paid_in v r
  pub takes_free :
      (r : ChargeRow)
      → r.user_id ≡ u
      → IsStill i a r
      → (v : ℕ) → free_in v (change r) +ℤ share u v free ≡ free_in v r

-- The update and the test of its count, as both executors write them.
abbrev pub guarded : ℕ → Assumed → (ChargeRow → ChargeRow) → Tx Tables Unit
guarded i a change = update_charges (still i a) change >>= λ count.
    throw_if (not (count == 1)) (concurrent_update (point_charge i))

update_charges-ok :
    (matches : ChargeRow → Bool) (change : ChargeRow → ChargeRow) (t : Tables) {n : ℕ} {s : Tables}
    → update_charges matches change t ≡ ok (n, s)
    → (all_checked matches change charge_check t.charges ≡ true)
      × (count_where matches t.charges ≡ n)
      × (record t { charges = update_where matches change t.charges } ≡ s)
unfolding update_charges
update_charges-ok matches change t {n} {s} h =
    elim (Bool-cases (all_checked matches change charge_check t.charges)) [
      | inl c ↦
          let g : ok (
            count_where matches t.charges,
            record t { charges = update_where matches change t.charges },
          )
              ≡ ok (n, s) =
            rw c at h in
          (c, ap (count_or n) g, ap (snd_or s) g)
      | inr c ↦ cc (rw c at h)
    ]

module _ (i : ℕ) (a : Assumed) (change : ChargeRow → ChargeRow) where
  -- A write that has not thrown has hit one row, and all written rows satisfy their constraints.
  pub guarded-ok :
      (t : Tables) {t' : Tables}
      → guarded i a change t ≡ ok (tt, t')
      → (all_checked (still i a) change charge_check t.charges ≡ true)
        × (count_where (still i a) t.charges ≡ 1)
        × (record t { charges = update_where (still i a) change t.charges } ≡ t')
  unfolding update_charges
  guarded-ok t h =
      let test = λ (count : ℕ). throw_if (not (count == 1)) (concurrent_update (point_charge i)) in
      let (n, s, e, f) = >>=-ok (update_charges (still i a) change) test t h in
      let (c, m, w) = update_charges-ok (still i a) change t e in
      let (b, q) = throw_if-ok (not (n == 1)) (concurrent_update (point_charge i)) s f in
      (c, m ∙ ==→eq n 1 (not-false _ b), w ∙ q)

if_owner :
    (b : Bool) (x y : ChargeRow) → x.user_id ≡ y.user_id → (if b then x else y).user_id ≡ y.user_id
if_owner true x y h = h
if_owner false x y h = refl

moved_sum : (new old p q s : ℤ) → new +ℤ p ≡ old +ℤ q → q +ℤ s ≡ p → new +ℤ s ≡ old
moved_sum new old p q s h k = omega int_laws

module _ (u i : ℕ) (a : Assumed) (paid free : ℤ) (change : ChargeRow → ChargeRow)
    (takes : Takes u i a paid free change) where
  pub guarded-IsMoved :
      (t : Tables) {t' : Tables}
      → IsKept t
      → IsOwned u t.charges i
      → guarded i a change t ≡ ok (tt, t')
      → IsMoved u paid free t t'
  guarded-IsMoved t k o h =
      let (c, n, e) = guarded-ok i a change t h in
      let only = λ (r : ChargeRow) (m : still i a r ≡ true). (still-IsStill i a r m).id in
      let (r, there, m) = hit i (still i a) only t.charges k.distinct n in
      let s = still-IsStill i a r m in
      let same : some r ≡ some o.row = sym there ∙ o.is_there in
      let q : r ≡ o.row = cc same in
      let owner : r.user_id ≡ u = ap (λ x. x.user_id) q ∙ o.owner in
      let sums = λ (v : ℕ). sums-update i (still i a) only change v t.charges k.distinct there m in
      let keeps = takes.keeps in
      subst (IsMoved u paid free t) e (record {
        kept = record {
          distinct = IsDistinct-update (still i a) change keeps t.charges k.distinct;
          below = below-update (still i a) change keeps t.next_charge t.charges k.below;
          checked = checked-update (still i a) change keeps t.charges k.checked c;
        };
        paid_moved = λ v. moved_sum _ _ _ _ _ (sums v).0 (takes.takes_paid r owner s v);
        free_moved = λ v. moved_sum _ _ _ _ _ (sums v).1 (takes.takes_free r owner s v);
        owned = λ j p. record {
          row = if still i a p.row then change p.row else p.row;
          is_there = find_charge-update (still i a) change keeps j t.charges p.is_there;
          owner = if_owner (still i a p.row) (change p.row) p.row (keeps.user_id p.row) ∙ p.owner;
        };
        same_balances = refl;
      })

-- One side of a charge under `consume`, for its owner (`mine`) and for the others.
side_consumed :
    (mine depleted : Bool) (state : PointChargeState) (held taken : ℤ)
    → is_usable state ≡ true
    → (depleted ≡ true → held -ℤ taken ≡ pos 0)
    → (if mine && is_usable (if depleted then consumed else state) then held -ℤ taken else pos 0)
        +ℤ (if mine then taken else pos 0)
      ≡ (if mine && is_usable state then held else pos 0)
side_consumed false depleted state held taken s d = omega int_laws
side_consumed true true state held taken s d = rw s (let z = d refl in omega int_laws)
side_consumed true false state held taken s d = rw s (omega int_laws)

side_expired :
    (mine : Bool) (state : PointChargeState) (held : ℤ)
    → is_usable state ≡ true
    → (if mine && false then pos 0 else pos 0) +ℤ (if mine then held else pos 0)
      ≡ (if mine && is_usable state then held else pos 0)
side_expired false state held s = omega int_laws
side_expired true state held s = rw s (omega int_laws)

consume-KeepsKeys : (a : SpendAllocation) → KeepsKeys (consume a)
consume-KeepsKeys a = record { id = λ r. refl; user_id = λ r. refl }

pub expire_charge-KeepsKeys : (now : ℤ) → KeepsKeys (expire_charge now)
expire_charge-KeepsKeys now = record { id = λ r. refl; user_id = λ r. refl }

-- An allocation that is marked as depleting takes all that it assumed.
pub record IsExact (a : SpendAllocation) : Type 0 where
  pub paid_end : a.depleted ≡ true → a.assumed.unspent_paid -ℤ a.paid ≡ pos 0
  pub free_end : a.depleted ≡ true → a.assumed.unspent_free -ℤ a.free ≡ pos 0

consume-Takes :
    (u : ℕ) (a : SpendAllocation)
    → IsExact a
    → Takes u a.charge_id a.assumed a.paid a.free (consume a)
consume-Takes u a x = record {
  keeps = consume-KeepsKeys a;
  takes_paid = λ r owner s v.
      subst (λ w. paid_in v (consume a r) +ℤ share w v a.paid ≡ paid_in v r) owner
        (side_consumed (r.user_id == v) a.depleted r.state r.unspent_paid a.paid s.usable
          (λ d. subst (λ y. y -ℤ a.paid ≡ pos 0) (sym s.paid) (x.paid_end d)));
  takes_free = λ r owner s v.
      subst (λ w. free_in v (consume a r) +ℤ share w v a.free ≡ free_in v r) owner
        (side_consumed (r.user_id == v) a.depleted r.state r.unspent_free a.free s.usable
          (λ d. subst (λ y. y -ℤ a.free ≡ pos 0) (sym s.free) (x.free_end d)));
}

expire_charge-Takes :
    (u i : ℕ) (a : Assumed) (now : ℤ)
    → Takes u i a a.unspent_paid a.unspent_free (expire_charge now)
expire_charge-Takes u i a now = record {
  keeps = expire_charge-KeepsKeys now;
  takes_paid = λ r owner s v.
      subst (λ w. paid_in v (expire_charge now r) +ℤ share w v a.unspent_paid ≡ paid_in v r) owner
        (subst (λ y. paid_in v (expire_charge now r) +ℤ share r.user_id v y ≡ paid_in v r) s.paid
          (side_expired (r.user_id == v) r.state r.unspent_paid s.usable));
  takes_free = λ r owner s v.
      subst (λ w. free_in v (expire_charge now r) +ℤ share w v a.unspent_free ≡ free_in v r) owner
        (subst (λ y. free_in v (expire_charge now r) +ℤ share r.user_id v y ≡ free_in v r) s.free
          (side_expired (r.user_id == v) r.state r.unspent_free s.usable));
}

-- A list of writes moves the sum of what they take.
module _ {A : Type 0} (u : ℕ) (write : A → Tx Tables Unit) (key : A → ℕ) (paid free : A → ℤ)
    (Good : A → Type 0)
    (step : (a : A) (t t' : Tables)
      → Good a
      → IsKept t
      → IsOwned u t.charges (key a)
      → write a t ≡ ok (tt, t')
      → IsMoved u (paid a) (free a) t t') where
  for_each-IsMoved :
      (l : List A) (t : Tables) {t' : Tables}
      → All (λ a. Good a × IsOwned u t.charges (key a)) l
      → IsKept t
      → for_each write l t ≡ ok (tt, t')
      → IsMoved u (total_of paid l) (total_of free l) t t'
  unfolding for_each
  for_each-IsMoved [] t {t'} g k h =
      subst (IsMoved u (pos 0) (pos 0) t) (ap (snd_or t) h) (IsMoved-refl u k)
  for_each-IsMoved (a ∷ l) t {t'} g k h =
      let (x, s, e, rest) = >>=-ok (write a) (λ _. for_each write l) t h in
      let first = step a t s g.0.0 k g.0.1 e in
      IsMoved-trans u (paid a) (free a) (total_of paid l) (total_of free l) first (
        for_each-IsMoved l s (All-map (λ b p. (p.0, first.owned (key b) p.1)) l g.1) first.kept
          rest)

-- The writes of a spend plan on charges of `u`.
pub allocations-IsMoved :
    (u : ℕ) (l : List SpendAllocation) (t : Tables) {t' : Tables}
    → All (λ a. IsExact a × IsOwned u t.charges a.charge_id) l
    → IsKept t
    → for_each (apply_allocation memory) l t ≡ ok (tt, t')
    → IsMoved u (total_of (λ a. a.paid) l) (total_of (λ a. a.free) l) t t'
unfolding apply_allocation
allocations-IsMoved u =
    for_each-IsMoved u (apply_allocation memory) (λ a. a.charge_id) (λ a. a.paid) (λ a. a.free)
      IsExact
      (λ a t t' x k o h.
        guarded-IsMoved u a.charge_id a.assumed a.paid a.free (consume a) (consume-Takes u a x) t k
          o h)

-- One write of an expiry plan.
pub expiration-IsMoved :
    (u : ℕ) (now : ℤ) (e : ChargeExpiration) (t t' : Tables)
    → IsKept t
    → IsOwned u t.charges e.charge_id
    → apply_expiration memory now e t ≡ ok (tt, t')
    → IsMoved u e.assumed.unspent_paid e.assumed.unspent_free t t'
unfolding apply_expiration
expiration-IsMoved u now e t t' k o h =
    guarded-IsMoved u e.charge_id e.assumed e.assumed.unspent_paid e.assumed.unspent_free
      (expire_charge now) (expire_charge-Takes u e.charge_id e.assumed now) t k o h

-- The writes of an expiry plan on charges of `u`.
pub expirations-IsMoved :
    (u : ℕ) (now : ℤ) (l : List ChargeExpiration) (t : Tables) {t' : Tables}
    → All (λ e. Unit {0} × IsOwned u t.charges e.charge_id) l
    → IsKept t
    → for_each (apply_expiration memory now) l t ≡ ok (tt, t')
    → IsMoved u
        (total_of (λ e. e.assumed.unspent_paid) l)
        (total_of (λ e. e.assumed.unspent_free) l)
        t
        t'
expirations-IsMoved u now =
    for_each-IsMoved u (apply_expiration memory now) (λ e. e.charge_id)
      (λ e. e.assumed.unspent_paid) (λ e. e.assumed.unspent_free) (λ e. Unit)
      (λ e t t' x k o h. expiration-IsMoved u now e t t' k o h)

-- ===== src/Point/Sound/Applying.antt =====
-- The guarded writes of a plan in the ledger that it was made for: none of them misses.
use ts_graphql_reference.Base.{
  ℕ, ◌≡◌, refl, ap, ◌∙◌, Bool, true, false, ◌&&◌, not, some, List, [], ◌∷◌, All, Bool-cases, inl,
  inr, ◌==◌, &&-true,
}
use ts_graphql_reference.Int.{pos, ◌-ℤ◌, ◌≤ℤ◌, leb_ℤ, leb_ℤ→le, le→leb_ℤ, int_laws}
use ts_graphql_reference.Failure.{Error, ok, concurrent_update, point_charge}
use ts_graphql_reference.Tx.{>>=-run, throw_if, for_each}
use ts_graphql_reference.Point.Data.{SpendAllocation}
use ts_graphql_reference.Point.Tables.{
  Tables, ChargeRow, charge_check, find_charge, update_where, count_where, all_checked,
  update_charges,
}
use ts_graphql_reference.Point.Tables.Charges.{
  IsDistinct, KeepsKeys, IsDistinct-update, checked-update, find_charge-update, count_where-found,
}
use ts_graphql_reference.Point.Client.{memory}
use ts_graphql_reference.Point.Repo.{still, consume, apply_allocation}
use ts_graphql_reference.Point.Sound.Steps.{still-IsStill}

-- The charge of an allocation is there as assumed, and holds what the allocation takes.
pub record IsReady (rows : List ChargeRow) (a : SpendAllocation) : Type 0 where
  pub row : ChargeRow
  pub is_there : find_charge a.charge_id rows ≡ some row
  pub matches : still a.charge_id a.assumed row ≡ true
  pub paid_low : pos 0 ≤ℤ a.paid
  pub free_low : pos 0 ≤ℤ a.free
  pub paid_there : a.paid ≤ℤ a.assumed.unspent_paid
  pub free_there : a.free ≤ℤ a.assumed.unspent_free

-- Allocations of different charges.
abbrev pub NoneOf : ℕ → List SpendAllocation → Type 0
NoneOf i [] = Unit
NoneOf i (a ∷ l) = (a.charge_id == i ≡ false) × NoneOf i l

abbrev pub Apart : List SpendAllocation → Type 0
Apart [] = Unit
Apart (a ∷ l) = NoneOf a.charge_id l × Apart l

all_checked-true :
    (matches : ChargeRow → Bool) (change : ChargeRow → ChargeRow) (rows : List ChargeRow)
    → All (λ r. charge_check r ≡ true) rows
    → ((r : ChargeRow) → charge_check r ≡ true → matches r ≡ true → charge_check (change r) ≡ true)
    → all_checked matches change charge_check rows ≡ true
unfolding all_checked
all_checked-true matches change [] h f = refl
all_checked-true matches change (r ∷ rows) h f =
    let rest = all_checked-true matches change rows h.1 f in
    elim (Bool-cases (matches r)) [ inl e ↦ rw (e, f r h.0 e) rest | inr e ↦ rw e rest ]

-- The parts of a charge's CHECK constraints.
record IsChecked (r : ChargeRow) : Type 0 where
  paid : leb_ℤ (pos 0) r.paid_amount ≡ true
  free : leb_ℤ (pos 0) r.free_amount ≡ true
  paid_low : leb_ℤ (pos 0) r.unspent_paid ≡ true
  paid_high : leb_ℤ r.unspent_paid r.paid_amount ≡ true
  free_low : leb_ℤ (pos 0) r.unspent_free ≡ true
  free_high : leb_ℤ r.unspent_free r.free_amount ≡ true

charge_check-IsChecked : (r : ChargeRow) → charge_check r ≡ true → IsChecked r
unfolding charge_check
charge_check-IsChecked r h =
    let a = leb_ℤ (pos 0) r.paid_amount in
    let b = leb_ℤ (pos 0) r.free_amount in
    let c = leb_ℤ (pos 0) r.unspent_paid in
    let d = leb_ℤ r.unspent_paid r.paid_amount in
    let e = leb_ℤ (pos 0) r.unspent_free in
    let f = leb_ℤ r.unspent_free r.free_amount in
    let (abcd, ef) = &&-true (a && b && (c && d)) (e && f) h in
    let (ab, cd) = &&-true (a && b) (c && d) abcd in
    let (a', b') = &&-true a b ab in
    let (c', d') = &&-true c d cd in
    let (e', f') = &&-true e f ef in
    record { paid = a'; free = b'; paid_low = c'; paid_high = d'; free_low = e'; free_high = f' }

module _ (rows : List ChargeRow) (a : SpendAllocation) (ready : IsReady rows a) where
  consume-check :
      (r : ChargeRow)
      → charge_check r ≡ true
      → still a.charge_id a.assumed r ≡ true
      → charge_check (consume a r) ≡ true
  unfolding charge_check
  consume-check r c m =
      let k = charge_check-IsChecked r c in
      let s = still-IsStill a.charge_id a.assumed r m in
      let p = leb_ℤ→le r.unspent_paid r.paid_amount k.paid_high in
      let f = leb_ℤ→le r.unspent_free r.free_amount k.free_high in
      let sp = s.paid in
      let sf = s.free in
      let pl = ready.paid_low in
      let fl = ready.free_low in
      let pt = ready.paid_there in
      let ft = ready.free_there in
      rw
        (
          k.paid,
          k.free,
          le→leb_ℤ (pos 0) (r.unspent_paid -ℤ a.paid) (omega int_laws),
          le→leb_ℤ (r.unspent_paid -ℤ a.paid) r.paid_amount (omega int_laws),
          le→leb_ℤ (pos 0) (r.unspent_free -ℤ a.free) (omega int_laws),
          le→leb_ℤ (r.unspent_free -ℤ a.free) r.free_amount (omega int_laws),
        )
        refl

keeps : (a : SpendAllocation) → KeepsKeys (consume a)
keeps a = record { id = λ r. refl; user_id = λ r. refl }

abbrev after : SpendAllocation → Tables → Tables
after a t = record t { charges = update_where (still a.charge_id a.assumed) (consume a) t.charges }

update_charges-run :
    (matches : ChargeRow → Bool) (change : ChargeRow → ChargeRow) (t : Tables)
    → all_checked matches change charge_check t.charges ≡ true
    → update_charges matches change t
      ≡ ok (
        count_where matches t.charges,
        record t { charges = update_where matches change t.charges },
      )
unfolding update_charges
update_charges-run matches change t h = rw h refl

passes : (n : ℕ) (e : Error) (t : Tables) → n ≡ 1 → throw_if (not (n == 1)) e t ≡ ok (tt, t)
passes n e t h = rw h refl

apply_allocation-run :
    (a : SpendAllocation) (t : Tables)
    → IsDistinct t.charges
    → All (λ r. charge_check r ≡ true) t.charges
    → IsReady t.charges a
    → apply_allocation memory a t ≡ ok (tt, after a t)
unfolding apply_allocation
apply_allocation-run a t d c ready =
    let matches = still a.charge_id a.assumed in
    let only =
      λ (r : ChargeRow) (m : matches r ≡ true). (still-IsStill a.charge_id a.assumed r m).id in
    let lost = concurrent_update (point_charge a.charge_id) in
    let checks =
      all_checked-true matches (consume a) t.charges c (consume-check t.charges a ready) in
    >>=-run (update_charges matches (consume a)) (λ count. throw_if (not (count == 1)) lost) t
      (update_charges-run matches (consume a) t checks)
    ∙ passes (count_where matches t.charges) lost (after a t)
        (count_where-found a.charge_id matches only t.charges d ready.is_there ready.matches)

-- The write of one charge leaves another as it was.
IsReady-after :
    (a b : SpendAllocation) (t : Tables)
    → b.charge_id == a.charge_id ≡ false
    → IsReady t.charges b
    → IsReady (after a t).charges b
IsReady-after a b t ne ready =
    let id = (still-IsStill b.charge_id b.assumed ready.row ready.matches).id in
    let miss : ready.row.id == a.charge_id ≡ false = ap (λ i. i == a.charge_id) id ∙ ne in
    let found =
      find_charge-update (still a.charge_id a.assumed) (consume a) (keeps a) b.charge_id t.charges
        ready.is_there in
    record {
      row = ready.row;
      is_there = found ∙ rw miss refl;
      matches = ready.matches;
      paid_low = ready.paid_low;
      free_low = ready.free_low;
      paid_there = ready.paid_there;
      free_there = ready.free_there;
    }

still-IsReady :
    (a : SpendAllocation) (t : Tables) (l : List SpendAllocation)
    → NoneOf a.charge_id l
    → All (IsReady t.charges) l
    → All (IsReady (after a t).charges) l
still-IsReady a t [] n h = tt
still-IsReady a t (b ∷ l) n h = (IsReady-after a b t n.0 h.0, still-IsReady a t l n.1 h.1)

-- All writes of allocations of different charges that are ready go through.
pub applies :
    (l : List SpendAllocation) (t : Tables)
    → IsDistinct t.charges
    → All (λ r. charge_check r ≡ true) t.charges
    → All (IsReady t.charges) l
    → Apart l
    → (t' : Tables) × (for_each (apply_allocation memory) l t ≡ ok (tt, t'))
      × (t'.balances ≡ t.balances)
unfolding for_each
applies [] t d c r p = (t, refl, refl)
applies (a ∷ l) t d c r p =
    let matches = still a.charge_id a.assumed in
    let s = after a t in
    let one = apply_allocation-run a t d c r.0 in
    let checks = all_checked-true matches (consume a) t.charges c (consume-check t.charges a r.0) in
    let (t', rest, same) =
      applies l s (IsDistinct-update matches (consume a) (keeps a) t.charges d)
        (checked-update matches (consume a) (keeps a) t.charges c checks)
        (still-IsReady a t l p.0 r.1) p.1 in
    (
      t',
      >>=-run (apply_allocation memory a) (λ _. for_each (apply_allocation memory) l) t one ∙ rest,
      same,
    )

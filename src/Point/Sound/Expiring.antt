-- ===== src/Point/Sound/Expiring.antt =====
-- An expiry sweep in a sound ledger: what it removes, and that the ledger stays sound.
use ts_graphql_reference.Base.{
  ℕ, ◌≡◌, ◌≢◌, refl, sym, ap, ◌∙◌, subst, Option, List, [], ◌∷◌, map, length, ◌==◌, Bool-cases, inl,
  inr, ==→eq, arith, All,
}
use ts_graphql_reference.Int.{ℤ, ◌+ℤ◌, ◌-ℤ◌, int_laws, total_of}
use ts_graphql_reference.Failure.{Result, ok, err}
use ts_graphql_reference.Time.{Dayjs}
use ts_graphql_reference.Tx.{Tx, ◌>>=◌, >>=-ok, for_each, pure, snd_or}
use ts_graphql_reference.Uow.Atomic.{snapshot-ok}
use ts_graphql_reference.Point.Data.{ExpirableCharge, ExpiryWorld, ExpiryPlan}
use ts_graphql_reference.Point.Expiry.{expiration, plan_expiry}
use ts_graphql_reference.Point.Expiry.Sweep.{
  due, All-due, held_paid, held_free, plan_expiry-IsExpiryPlan,
}
use ts_graphql_reference.Point.Tables.{
  Tables, ChargeRow, find_balance, find_charge, find_unique_balance, find_usable_charges,
}
use ts_graphql_reference.Point.Client.{memory, memory-IsAtomic, memory-IsQuiet}
use ts_graphql_reference.Point.Repo.{
  or_zero, expirable_charge, load_expiry_world, apply_expiration, apply_balance, apply_expiry_plan,
}
use ts_graphql_reference.Point.Service.{expire, expire_body, now_or}
use ts_graphql_reference.Point.Sound.{IsSound, IsOwned, IsMoved}
use ts_graphql_reference.Point.Sound.Steps.{expirations-IsMoved}
use ts_graphql_reference.Point.Sound.Gone.{OnlyEmptied, expirations-OnlyEmptied}
use ts_graphql_reference.Point.Sound.World.{IsLoaded, loaded, loaded-IsLoaded}
use ts_graphql_reference.Point.Sound.Settle.{apply_balance-IsRebalanced, settled}
use ts_graphql_reference.Point.Sound.Spending.{snapshot_of}

abbrev pub expirable_of : ℕ → Tables → List ExpirableCharge
expirable_of u t = map expirable_charge (loaded u t)

-- From `t` to `t'` the charges `gone` of `u`, and no others, have expired at `now`.
pub record IsExpired (u : ℕ) (now : ℤ) (gone : List ExpirableCharge) (t t' : Tables) : Type 0 where
  pub sound : IsSound t'
  pub emptied : OnlyEmptied now gone t.charges t'.charges
  pub lower :
      (snapshot_of u t').total_amount
      ≡ (snapshot_of u t).total_amount -ℤ (held_paid gone +ℤ held_free gone)
  pub others : (v : ℕ) → v ≢ u → find_balance v t'.balances ≡ find_balance v t.balances

nothing_gone : (l : List ExpirableCharge) → length (map expiration l) ≡ 0 → l ≡ []
nothing_gone [] h = refl
nothing_gone (c ∷ l) h = absurd (omega arith)

length-map : (l : List ExpirableCharge) → length (map expiration l) ≡ length l
length-map [] = refl
length-map (c ∷ l) = omega (arith, length-map l)

held_totals :
    (l : List ExpirableCharge)
    → (total_of (λ e. e.assumed.unspent_paid) (map expiration l) ≡ held_paid l)
      × (total_of (λ e. e.assumed.unspent_free) (map expiration l) ≡ held_free l)
held_totals [] = (refl, refl)
held_totals (c ∷ l) =
    let (p, f) = held_totals l in (ap (λ x. c.unspent_paid +ℤ x) p, ap (λ x. c.unspent_free +ℤ x) f)

IsExpired-none : (u : ℕ) (now : ℤ) {t : Tables} → IsSound t → IsExpired u now [] t t
IsExpired-none u now s = record {
  sound = s;
  emptied = λ j. refl;
  lower = omega int_laws;
  others = λ v ne. refl;
}

IsOwned-expirations :
    (u : ℕ) (rows : List ChargeRow) (l : List ExpirableCharge)
    → All (λ c. IsOwned u rows c.id) l
    → All (λ e. Unit {0} × IsOwned u rows e.charge_id) (map expiration l)
IsOwned-expirations u rows [] h = tt
IsOwned-expirations u rows (c ∷ l) h = ((tt, h.0), IsOwned-expirations u rows l h.1)

IsOwned-loaded :
    (u : ℕ) (rows l : List ChargeRow)
    → All (IsLoaded u rows) l
    → All (λ c. IsOwned u rows c.id) (map expirable_charge l)
IsOwned-loaded u rows [] h = tt
IsOwned-loaded u rows (r ∷ l) h =
    (record { row = r; is_there = h.0.is_there; owner = h.0.owner }, IsOwned-loaded u rows l h.1)

count_of : ℕ → Result (ℕ × Tables) → ℕ
count_of n (ok r) = r.0
count_of n (err e) = n

module _ (u : ℕ) (gone : List ExpirableCharge) (plan : ExpiryPlan) (t : Tables) (s : IsSound t)
    (owned : All (λ c. IsOwned u t.charges c.id) gone)
    (expires : plan.expirations ≡ map expiration gone)
    (assumed : plan.assumed_balance ≡ snapshot_of u t)
    (paid_after : plan.balance_after.paid_amount ≡ (snapshot_of u t).paid_amount -ℤ held_paid gone)
    (free_after : plan.balance_after.free_amount ≡ (snapshot_of u t).free_amount -ℤ held_free gone)
    (total_after : plan.balance_after.total_amount
      ≡ (snapshot_of u t).total_amount -ℤ (held_paid gone +ℤ held_free gone)) where
  IsExpired-writes :
      {s₁ s₂ : Tables}
      → for_each (apply_expiration memory plan.expired_at) plan.expirations t ≡ ok (tt, s₁)
      → apply_balance memory u plan.assumed_balance plan.balance_after s₁ ≡ ok (tt, s₂)
      → IsExpired u plan.expired_at gone t s₂
  IsExpired-writes {s₁} {s₂} h k =
      let (p, f) = held_totals gone in
      let written =
        subst (λ l. for_each (apply_expiration memory plan.expired_at) l t ≡ ok (tt, s₁)) expires
          h in
      let raw =
        expirations-IsMoved u plan.expired_at (map expiration gone) t
          (IsOwned-expirations u t.charges gone owned) s.kept written in
      let moved : IsMoved u (held_paid gone) (held_free gone) t s₁ =
        subst (λ y. IsMoved u (held_paid gone) y t s₁) f
          (subst
            (λ x. IsMoved u x (total_of (λ e. e.assumed.unspent_free) (map expiration gone)) t s₁) p
            raw) in
      let r =
        apply_balance-IsRebalanced u plan.assumed_balance plan.balance_after s₁
          (rw moved.same_balances s.keyed) k in
      record {
        sound =
            settled u (held_paid gone) (held_free gone) plan.assumed_balance plan.balance_after s
              moved r (paid_after ∙ ap (λ x. x.paid_amount -ℤ held_paid gone) (sym assumed))
              (free_after ∙ ap (λ x. x.free_amount -ℤ held_free gone) (sym assumed))
              (total_after
                ∙ ap (λ x. x.total_amount -ℤ (held_paid gone +ℤ held_free gone)) (sym assumed));
        emptied = λ j.
            ap (λ l. find_charge j l) r.same_charges
            ∙ expirations-OnlyEmptied u plan.expired_at gone t owned s.kept written j;
        lower = ap (λ o. (or_zero o).total_amount) r.is ∙ total_after;
        others = λ v ne. r.others v ne ∙ ap (λ l. find_balance v l) moved.same_balances;
      }

  apply_expiry_plan-IsExpired :
      {n : ℕ} {t' : Tables}
      → apply_expiry_plan memory u plan t ≡ ok (n, t')
      → (n ≡ length gone) × IsExpired u plan.expired_at gone t t'
  unfolding apply_expiry_plan count_of
  apply_expiry_plan-IsExpired {n} {t'} h =
      let size = ap (λ l. length l) expires in
      elim (Bool-cases (length plan.expirations == 0)) [
        | inl e ↦
            let g : ok (0, t) ≡ ok (n, t') = rw e at h in
            let none_gone = nothing_gone gone (sym size ∙ ==→eq (length plan.expirations) 0 e) in
            (
              sym (ap (count_of 0) g) ∙ ap (λ l. length l) (sym none_gone),
              subst (λ x. IsExpired u plan.expired_at gone t x) (ap (snd_or t) g)
                  (subst (λ l. IsExpired u plan.expired_at l t t) (sym none_gone)
                    (IsExpired-none u plan.expired_at s)),
            )
        | inr e ↦
            let expire_all = for_each (apply_expiration memory plan.expired_at) plan.expirations in
            let rebalance = apply_balance memory u plan.assumed_balance plan.balance_after in
            let count : Unit → Tx Tables ℕ = λ _. pure (length plan.expirations) in
            let (a, s₁, h₁, k₁) = >>=-ok expire_all (λ _. rebalance >>= count) t (rw e at h) in
            let (b, s₂, h₂, k₂) = >>=-ok rebalance count s₁ k₁ in
            (
              sym (ap (count_of 0) k₂) ∙ size ∙ length-map gone,
              subst (IsExpired u plan.expired_at gone t) (ap (snd_or s₂) k₂)
                  (IsExpired-writes h₁ h₂),
            )
      ]

-- A sweep that returns in a sound ledger has expired exactly the user's usable charges whose deadline
-- has come and returns their number: each of these is EXPIRED at the sweep's instant and holds nothing,
-- and every other charge is as it was; the balance is lower by what they held, the others' balances are
-- the same, and the ledger is sound.
pub expire-IsExpired :
    (dayjs : Dayjs) (u : ℕ) (at_instant : Option ℤ) (clock : ℤ) (t : Tables) {n : ℕ} {t' : Tables}
    → IsSound t
    → expire memory dayjs u at_instant clock t ≡ (ok n, t')
    → let gone = due dayjs (now_or at_instant clock) (expirable_of u t) in
      (n ≡ length gone) × IsExpired u (now_or at_instant clock) gone t t'
unfolding expire expire_body load_expiry_world find_unique_balance find_usable_charges
expire-IsExpired dayjs u at_instant clock t {n} {t'} s h =
    let now = now_or at_instant clock in
    let world : ExpiryWorld = record { snapshot = snapshot_of u t; charges = expirable_of u t } in
    let p = plan_expiry-IsExpiryPlan dayjs now world in
    let owned =
      All-due dayjs now (λ c. IsOwned u t.charges c.id) (expirable_of u t)
        (IsOwned-loaded u t.charges (loaded u t) (loaded-IsLoaded u t s.kept)) in
    let gone = due dayjs now (expirable_of u t) in
    subst (λ x. (n ≡ length gone) × IsExpired u x gone t t') p.stamped
      (apply_expiry_plan-IsExpired u gone (plan_expiry dayjs world now) t s owned p.expires
        p.assumed p.paid_after p.free_after p.total_after
        (snapshot-ok memory-IsAtomic memory-IsQuiet (expire_body memory dayjs u now) t h))

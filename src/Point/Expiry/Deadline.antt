-- ===== src/Point/Expiry/Deadline.antt =====
-- When a charge is due: between a year and a year and a day after it was made.
use ts_graphql_reference.Base.{◌*◌, ◌≡◌, ◌⊎◌, inl, inr, Bool-cases, true, false}
use ts_graphql_reference.Int.{ℤ, pos, ◌+ℤ◌, ◌≤ℤ◌, ◌<ℤ◌, int_laws, ltb_ℤ, ltb_ℤ→lt, ltb_ℤ→ge}
use ts_graphql_reference.Time.{Dayjs, add_days, kst_end_of_day}
use ts_graphql_reference.Time.Kst.{day, DayjsLaws, kst_end_of_day-IsBoundary}
use ts_graphql_reference.Point.Data.{ExpirableCharge}
use ts_graphql_reference.Point.Expiry.{deadline, not_due}

-- A charge that is not due was made less than 366 days ago, and one that is due was made at least
-- 365 days ago, whatever the hour it was made at.
pub not_due-IsYear :
    (dayjs : Dayjs)
    → DayjsLaws dayjs
    → (c : ExpirableCharge) (now : ℤ)
    → ((not_due dayjs now c ≡ true) × (now <ℤ c.charged_at +ℤ pos (366 * day)))
      ⊎ ((not_due dayjs now c ≡ false) × (c.charged_at +ℤ pos (365 * day) ≤ℤ now))
unfolding not_due deadline add_days
not_due-IsYear dayjs laws c now =
    let year = laws.adds_days c.charged_at 365 in
    let made = dayjs.add_days c.charged_at (pos 365) in
    let end = kst_end_of_day dayjs made in
    let low = laws-low made in
    let high = laws-high made in
    elim (Bool-cases (ltb_ℤ now end)) [
      | inl e ↦ (let lt = ltb_ℤ→lt now end e in inl (e, omega int_laws))
      | inr e ↦ (let ge = ltb_ℤ→ge now end e in inr (e, omega int_laws))
    ]
  where
    laws-low : (t : ℤ) → t ≤ℤ kst_end_of_day dayjs t
    laws-low t = (kst_end_of_day-IsBoundary dayjs laws t).0

    laws-high : (t : ℤ) → kst_end_of_day dayjs t <ℤ t +ℤ pos day
    laws-high t = (kst_end_of_day-IsBoundary dayjs laws t).1

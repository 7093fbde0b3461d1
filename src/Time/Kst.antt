-- ===== src/Time/Kst.antt =====
-- What the date library documents, and what the end of a day in KST then is.
use ts_graphql_reference.Base.{ℕ, ◌*◌, ◌≡◌}
use ts_graphql_reference.Int.{ℤ, pos, ◌+ℤ◌, ◌-ℤ◌, ◌≤ℤ◌, ◌<ℤ◌, int_laws}
use ts_graphql_reference.Time.{Dayjs, kst_end_of_day}

abbrev pub hour : ℕ
hour = 3600000

abbrev pub day : ℕ
day = 86400000

-- `dayjs.utc`: a day has 86,400,000 milliseconds, an hour has 3,600,000 milliseconds, and the end of a day is the last millisecond of
-- the day that holds the instant.
pub record DayjsLaws (dayjs : Dayjs) : Type 0 where
  pub adds_days : (t : ℤ) (n : ℕ) → dayjs.add_days t (pos n) ≡ t +ℤ pos (n * day)
  pub adds : (t : ℤ) (h : ℕ) → dayjs.add_hours t h ≡ t +ℤ pos (h * hour)
  pub subtracts : (t : ℤ) (h : ℕ) → dayjs.subtract_hours t h ≡ t -ℤ pos (h * hour)
  pub not_over : (t : ℤ) → t ≤ℤ dayjs.end_of_day t
  pub within : (t : ℤ) → dayjs.end_of_day t <ℤ t +ℤ pos day

-- The end of an instant's day in KST is not before the instant and less than a day after it.
pub kst_end_of_day-IsBoundary :
    (dayjs : Dayjs)
    → DayjsLaws dayjs
    → (t : ℤ) → (t ≤ℤ kst_end_of_day dayjs t) × (kst_end_of_day dayjs t <ℤ t +ℤ pos day)
unfolding kst_end_of_day
kst_end_of_day-IsBoundary dayjs laws t =
    let up = laws.adds t 9 in
    let down = laws.subtracts (dayjs.end_of_day (dayjs.add_hours t 9)) 9 in
    let low = laws.not_over (dayjs.add_hours t 9) in
    let high = laws.within (dayjs.add_hours t 9) in (omega int_laws, omega int_laws)

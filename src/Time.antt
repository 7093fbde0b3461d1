-- ===== src/Time.antt =====
-- src/foundation/time.ts: calendar arithmetic over instants, in milliseconds since the epoch. The
-- date library is a parameter, of which the UTC mode is used.
pub mod Kst
use ts_graphql_reference.Base.{ℕ, ◌*◌, String}
use ts_graphql_reference.Int.{ℤ, pos}

-- What is used of `dayjs.utc(instant)`.
pub record Dayjs : Type 0 where
  pub add_days : ℤ → ℤ → ℤ
  pub add_hours : ℤ → ℕ → ℤ
  pub subtract_hours : ℤ → ℕ → ℤ
  pub end_of_day : ℤ → ℤ
  pub format : String → ℤ → String

abbrev pub kst_utc_offset_hours : ℕ
kst_utc_offset_hours = 9

module _ (dayjs : Dayjs) where
  open dayjs use {add_hours, subtract_hours, end_of_day, format}

  unfoldable pub add_days : ℤ → ℤ → ℤ
  add_days instant days = dayjs.add_days instant days

  unfoldable kst_calendar_date : ℤ → String
  kst_calendar_date instant = format "YYYY-MM-DD" (add_hours instant kst_utc_offset_hours)

  unfoldable pub kst_end_of_day : ℤ → ℤ
  kst_end_of_day instant =
      subtract_hours (end_of_day (add_hours instant kst_utc_offset_hours)) kst_utc_offset_hours

-- ===== src/Flag.antt =====
-- src/modules/feature-flag/feature-flag.core.ts: when a stored flag is on, and what an admin may
-- store.
pub mod Window
pub mod Drift
pub mod Reconciled
use ts_graphql_reference.Base.{
  Bool, true, false, ◌&&◌, ◌||◌, not, Option, none, some, List, [], ◌∷◌, String, if◌then◌else◌,
  str_eq, is_some,
}
use ts_graphql_reference.Int.{ℤ, pos, ◌-ℤ◌, leb_ℤ, ltb_ℤ}
use ts_graphql_reference.Failure.{
  Result, ok, err, ◌>>=◌, ◌>>◌, throw_if, unknown_flag_stage, invalid_flag_window,
}
use ts_graphql_reference.Time.{Dayjs, add_days}

pub data Stage : Type 0 where
  local dev qa stg prod : Stage

unfoldable pub stage_text : Stage → String
stage_text local = "LOCAL"
stage_text dev = "DEV"
stage_text qa = "QA"
stage_text stg = "STG"
stage_text prod = "PROD"

abbrev pub stages : List Stage
stages = local ∷ dev ∷ qa ∷ stg ∷ prod ∷ []

-- `isStage`, and the stage found.
unfoldable pub find_stage : List Stage → String → Option Stage
unfolding stage_text
find_stage [] value = none
find_stage (s ∷ l) value =
    let rest = find_stage l value in if str_eq (stage_text s) value then some s else rest

unfoldable pub parse_stage : Option String → Option Stage
unfolding find_stage
parse_stage none = none
parse_stage (some value) = find_stage stages value

abbrev pub same_stage : Stage → Stage → Bool
same_stage local local = true
same_stage dev dev = true
same_stage qa qa = true
same_stage stg stg = true
same_stage prod prod = true
same_stage _ _ = false

abbrev pub is_stage_of : Option Stage → Stage → Bool
is_stage_of none s = false
is_stage_of (some x) s = same_stage x s

pub record FlagRow : Type 0 where
  pub stage : Option String
  pub enable_after : Option ℤ
  pub disable_after : Option ℤ
  pub deleted_at : Option ℤ

-- `row.enableAfter !== null && row.enableAfter.getTime() <= now.getTime()`
abbrev pub enabled : Option ℤ → ℤ → Bool
enabled none now = false
enabled (some t) now = leb_ℤ t now

-- `row.disableAfter === null || row.disableAfter.getTime() >= now.getTime()`
abbrev pub not_disabled : Option ℤ → ℤ → Bool
not_disabled none now = true
not_disabled (some t) now = leb_ℤ now t

unfoldable pub is_active : FlagRow → Stage → ℤ → Bool
unfolding parse_stage
is_active row stage now =
    not (is_some row.deleted_at)
    && is_stage_of (parse_stage row.stage) stage
    && enabled row.enable_after now
    && not_disabled row.disable_after now

pub record FlagUpsert : Type 0 where
  pub name : String
  pub description : Option String
  pub stage : Option String
  pub value : Option String
  pub enable_after : Option ℤ
  pub disable_after : Option ℤ

-- `input.disableAfter.getTime() < input.enableAfter.getTime()`, where both are there.
abbrev pub ends_early : Option ℤ → Option ℤ → Bool
ends_early (some enable) (some disable) = ltb_ℤ disable enable
ends_early none disable = false
ends_early (some enable) none = false

-- `input.stage !== null && parseStage(input.stage) === null` throws.
unfoldable pub assert_stage : Option String → Result (Unit {0})
unfolding parse_stage
assert_stage none = ok tt
assert_stage (some value) =
    throw_if (not (is_some (parse_stage (some value)))) (unknown_flag_stage value)

unfoldable pub plan_flag_upsert : FlagUpsert → Result FlagUpsert
unfolding assert_stage
plan_flag_upsert input = do
  assert_stage input.stage
  throw_if (ends_early input.enable_after input.disable_after) invalid_flag_window
  ok input

abbrev pub purge_retention_days : ℤ
purge_retention_days = pos 30

unfoldable pub purge_cutoff : Dayjs → ℤ → ℤ → ℤ
purge_cutoff dayjs now retention_days = add_days dayjs now (pos 0 -ℤ retention_days)

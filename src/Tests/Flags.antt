-- ===== src/Tests/Flags.antt =====
-- Feature flags at concrete data.
use ts_graphql_reference.Base.{
  ◌↔◌, ◌≡◌, ◌&&◌, refl, Bool, true, false, not, List, none, some, [], ◌∷◌, String,
}
use ts_graphql_reference.Int.{pos}
use ts_graphql_reference.Failure.{ok}
use ts_graphql_reference.Flag.{
  Stage, dev, FlagUpsert, is_active, parse_stage, find_stage, stage_text, plan_flag_upsert,
  assert_stage,
}
use Prim.Native.String.{compare}
use Prim.Native.Nat.{Ordering}
use ts_graphql_reference.Flag.Drift.{FlagNameRow, includes, reconcile_flag_names}
use ts_graphql_reference.Flag.Reconciled.{times, bit, has_live, has_row, reconcile_flag_names_lem}
use ts_graphql_reference.Flag.Window.{IsOn, is_active_iff, row_of, at_stage, plan_flag_upsert-opens}

abbrev upsert : FlagUpsert
upsert = record {
  name = "pointTransfer";
  description = none;
  stage = some "DEV";
  value = none;
  enable_after = some (pos 100);
  disable_after = some (pos 300);
}

is_active_iff_example :
    (is_active (row_of upsert) dev (pos 200) ≡ true) ↔ IsOn (row_of upsert) dev (pos 200)
is_active_iff_example = is_active_iff (row_of upsert) dev (pos 200)

on_at_200 : is_active (row_of upsert) dev (pos 200) ≡ true
unfolding is_active parse_stage find_stage stage_text
on_at_200 = refl

accepted : plan_flag_upsert (at_stage upsert "DEV" (pos 100)) ≡ ok upsert
unfolding plan_flag_upsert assert_stage parse_stage find_stage stage_text
accepted = refl

plan_flag_upsert-opens_example : (s : Stage) × (is_active (row_of upsert) s (pos 100) ≡ true)
plan_flag_upsert-opens_example = plan_flag_upsert-opens upsert "DEV" (pos 100) accepted

abbrev text_before : String → String → Bool
text_before a b = elim (compare a b) [ Ordering.lt ↦ true | _ ↦ false ]

abbrev live_row : String → FlagNameRow
live_row name = record { name = name; deleted_at = none }

abbrev dead_row : String → FlagNameRow
dead_row name = record { name = name; deleted_at = some (pos 5) }

abbrev flag_rows : List FlagNameRow
flag_rows =
    live_row "z" ∷ dead_row "killed" ∷ live_row "orphan" ∷ dead_row "z" ∷ dead_row "killed" ∷ []

abbrev declared_flags : List String
declared_flags = "killed" ∷ "unused" ∷ []

drift_report :
    reconcile_flag_names text_before flag_rows declared_flags
    ≡ record { orphan_live = "orphan" ∷ "z" ∷ []; killed_but_declared = "killed" ∷ [] }
unfolding reconcile_flag_names
drift_report = refl

reconcile_flag_names_lem_example :
    (times "killed" (reconcile_flag_names text_before flag_rows declared_flags).orphan_live
      ≡ bit (has_live "killed" flag_rows && not (includes declared_flags "killed")))
    × (times "killed"
          (reconcile_flag_names text_before flag_rows declared_flags).killed_but_declared
        ≡ bit (
            has_row "killed" flag_rows
            && (not (has_live "killed" flag_rows) && includes declared_flags "killed")))
reconcile_flag_names_lem_example =
    reconcile_flag_names_lem text_before flag_rows declared_flags "killed"

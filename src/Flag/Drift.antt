-- ===== src/Flag/Drift.antt =====
-- src/modules/feature-flag/feature-flag.core.ts: the drift between the stored flags and the declared
-- ones.
use ts_graphql_reference.Base.{
  Bool, false, ◌&&◌, ◌||◌, not, Option, List, [], ◌∷◌, ◌++◌, String, str_eq, if◌then◌else◌, is_some,
}
use ts_graphql_reference.Int.{ℤ}

pub record FlagNameRow : Type 0 where
  pub name : String
  pub deleted_at : Option ℤ

pub record FlagDriftReport : Type 0 where
  pub orphan_live : List String
  pub killed_but_declared : List String

-- `set.has(name)`
unfoldable pub includes : List String → String → Bool
includes [] name = false
includes (x ∷ l) name = str_eq x name || includes l name

-- `set.add(name)`: a new name comes last.
unfoldable pub add_name : String → List String → List String
unfolding includes
add_name name l = if includes l name then l else l ++ (name ∷ [])

-- `if (row.deletedAt === null) live.add(row.name)`
unfoldable pub add_live : FlagNameRow → List String → List String
unfolding add_name
add_live row live = if is_some row.deleted_at then live else add_name row.name live

-- The loop over the rows: the live names and the stored ones.
unfoldable pub collect_names :
    List FlagNameRow → List String → List String → List String × List String
unfolding add_name add_live
collect_names [] live stored = (live, stored)
collect_names (row ∷ rows) live stored =
    collect_names rows (add_live row live) (add_name row.name stored)

unfoldable pub filter_names : (String → Bool) → List String → List String
filter_names p [] = []
filter_names p (x ∷ l) = let rest = filter_names p l in if p x then x ∷ rest else rest

-- `toSorted()`, stable, by the order of texts `before`.
unfoldable pub insert_name : (String → String → Bool) → String → List String → List String
insert_name before name [] = name ∷ []
insert_name before name (x ∷ l) =
    let rest = insert_name before name l in if before x name then x ∷ rest else name ∷ x ∷ l

unfoldable pub sort_names : (String → String → Bool) → List String → List String
unfolding insert_name
sort_names before [] = []
sort_names before (x ∷ l) = insert_name before x (sort_names before l)

unfoldable pub reconcile_flag_names :
    (String → String → Bool) → List FlagNameRow → List String → FlagDriftReport
unfolding collect_names filter_names sort_names includes
reconcile_flag_names before rows declared =
    let (live, stored) = collect_names rows [] [] in
    record {
      orphan_live = sort_names before (filter_names (λ name. not (includes declared name)) live);
      killed_but_declared =
          sort_names before
            (filter_names (λ name. not (includes live name) && includes declared name) stored);
    }

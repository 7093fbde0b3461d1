-- ===== src/Point/Ids.antt =====
-- The sets of user identifiers in src/modules/point/point.write.repo.ts: a JavaScript `Set` lists its
-- members in the order in which they came.
pub mod Ordered
use ts_graphql_reference.Base.{ℕ, Bool, false, ◌||◌, List, [], ◌∷◌, ◌++◌, ◌==◌, ltb, if◌then◌else◌}

-- `set.has(id)`
unfoldable pub includes_id : List ℕ → ℕ → Bool
includes_id [] i = false
includes_id (x ∷ ids) i = x == i || includes_id ids i

-- `set.add(id)`
unfoldable pub add_id : ℕ → List ℕ → List ℕ
unfolding includes_id
add_id i ids = if includes_id ids i then ids else ids ++ (i ∷ [])

-- `for (const x of xs) set.add(x)`
unfoldable pub add_ids : List ℕ → List ℕ → List ℕ
unfolding add_id
add_ids [] ids = ids
add_ids (i ∷ more) ids = add_ids more (add_id i ids)

-- `toSorted((a, b) => a - b)`
unfoldable pub insert_id : ℕ → List ℕ → List ℕ
insert_id i [] = i ∷ []
insert_id i (x ∷ ids) = let rest = insert_id i ids in if ltb x i then x ∷ rest else i ∷ x ∷ ids

unfoldable pub sort_ids : List ℕ → List ℕ
unfolding insert_id
sort_ids [] = []
sort_ids (i ∷ ids) = insert_id i (sort_ids ids)

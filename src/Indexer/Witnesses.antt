-- ===== src/Indexer/Witnesses.antt =====
-- Concrete object roots for the theorems on listing and on synchronising them.
use ocfl_index.Base.{◌≡◌, refl, false, none, some, List, [], ◌∷◌, map, arith, ok, length}
use ocfl_index.Text.{Str, bytes, str_eq, str_lt, trim_prefix}
use ocfl_index.Paging.{sort_by, above}
use ocfl_index.Paging.Order.{DistinctKeys}
use ocfl_index.Sqlite.{ObjectRootRow, Db, empty_db}
use ocfl_index.Sqlite.Roots.{root_path}
use ocfl_index.Sqlite.Roots.Upsert.{has_root, has_root_since}
use ocfl_index.Indexer.{FoundRoot, sync_object_roots, add_all_objects_paths}
use ocfl_index.Indexer.Sync.{was_found, IsScan, sync_exact}
use ocfl_index.Indexer.AllPaths.{IsRootTable, add_all_objects_paths_lem}

abbrev rows : List ObjectRootRow
rows =
    record { id = 1; path = bytes "b"; indexed_at = 2 }
    ∷ record { id = 2; path = bytes "a/c"; indexed_at = 3 }
    ∷ record { id = 3; path = bytes "c"; indexed_at = 3 }
    ∷ []

abbrev db : Db
db = record empty_db { roots = rows }

abbrev scan : List FoundRoot
scan = record { path = bytes "root/a/c"; now = 7 } ∷ record { path = bytes "root/d"; now = 8 } ∷ []

rows-DistinctKeys : DistinctKeys root_path rows
unfolding str_eq
rows-DistinctKeys = ((refl, (refl, tt)), ((refl, tt), (tt, tt)))

rows-IsRootTable : IsRootTable rows
unfolding str_lt
rows-IsRootTable = record { distinct = rows-DistinctKeys; named = (refl, (refl, (refl, tt))) }

above_b : length (above root_path (bytes "a") (sort_by root_path rows)) ≡ 3
unfolding above sort_by str_lt
above_b = refl

scan-IsScan : IsScan 5 (bytes "root") scan
unfolding trim_prefix
scan-IsScan = ((λ h. cc, omega arith), ((λ h. cc, omega arith), tt))

old : (q : Str) → has_root_since 5 q rows ≡ false
unfolding has_root_since
old q = ground arith

add_all_objects_paths_example :
    add_all_objects_paths 4 [] db ≡ some (map root_path (sort_by root_path rows))
add_all_objects_paths_example = add_all_objects_paths_lem 4 db rows-IsRootTable (omega arith)

sync_example :
    let s = sync_object_roots 5 (bytes "root") scan none db in
    (s.result ≡ ok 2) × ((q : Str) → has_root q s.db.roots ≡ was_found (bytes "root") q scan)
sync_example = sync_exact 5 (bytes "root") scan db scan-IsScan old

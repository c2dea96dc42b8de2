-- ===== src/Indexer/AllPaths.antt =====
-- The paths that indexing everything goes through.
use ocfl_index.Base.{
  ℕ, zero, suc, ◌<◌, ◌≡◌, refl, sym, ap, ◌∙◌, true, Option, none, some, List, [], ◌∷◌, ◌++◌, map,
  arith, length, All,
}
use mathlib.Core.Option
use mathlib.Core.List.{map-append}
use ocfl_index.Text.{Str, str_lt}
use ocfl_index.Paging.{Page, sort_by, query, page_of}
use ocfl_index.Paging.Order.{DistinctKeys, above_whole, All-sort_by, length-above-sort_by}
use ocfl_index.Paging.Pages.{read_all, read_all_lem}
use ocfl_index.Sqlite.{ObjectRootRow, Db}
use ocfl_index.Sqlite.Roots.{root_path, list_object_roots, query_object_roots}
use ocfl_index.Indexer.{add_all_objects_paths}

map-map_append :
    (xs : List ObjectRootRow) (o : Option (List ObjectRootRow))
    → Option.map (λ r. map root_path xs ++ r) (Option.map (map root_path) o)
      ≡ Option.map (map root_path) (Option.map (λ r. xs ++ r) o)
map-map_append xs none = refl
map-map_append xs (some ys) = ap some (sym (map-append root_path xs ys))

add_step :
    (fuel : ℕ) (db : Db) (p : Page ObjectRootRow)
    → ((c : Str)
        → add_all_objects_paths fuel c db
          ≡ Option.map (map root_path) (read_all root_path fuel 1000 c db.roots))
    → elim p.next_cursor [
      | [] ↦ some (map root_path p.items)
      | c ∷ cs ↦
          Option.map (λ r. map root_path p.items ++ r) (add_all_objects_paths fuel (c ∷ cs) db)
    ]
      ≡ Option.map (map root_path) (elim p.next_cursor [
        | [] ↦ some p.items
        | c ∷ cs ↦ Option.map (λ r. p.items ++ r) (read_all root_path fuel 1000 (c ∷ cs) db.roots)
      ])
add_step fuel db p ih = go p.items p.next_cursor
  where
    go :
        (xs : List ObjectRootRow) (c : Str)
        → elim c [
          | [] ↦ some (map root_path xs)
          | b ∷ cs ↦
              Option.map (λ r. map root_path xs ++ r) (add_all_objects_paths fuel (b ∷ cs) db)
        ]
          ≡ Option.map (map root_path) (elim c [
            | [] ↦ some xs
            | b ∷ cs ↦ Option.map (λ r. xs ++ r) (read_all root_path fuel 1000 (b ∷ cs) db.roots)
          ])
    go xs [] = refl
    go xs (b ∷ cs) =
        ap (Option.map (λ r. map root_path xs ++ r)) (ih (b ∷ cs)) ∙ map-map_append xs _

add_all-read_all :
    (fuel : ℕ) (cursor : Str) (db : Db)
    → add_all_objects_paths fuel cursor db
      ≡ Option.map (map root_path) (read_all root_path fuel 1000 cursor db.roots)
unfolding add_all_objects_paths read_all list_object_roots query_object_roots
add_all-read_all zero cursor db = refl
add_all-read_all (suc fuel) cursor db =
    add_step fuel db (page_of root_path 1000 (query root_path 1001 cursor db.roots))
      (λ c. add_all-read_all fuel c db)

-- The table's constraints: UNIQUE(path), and no empty path, which `indexObjectRootTx` refuses.
pub record IsRootTable (rs : List ObjectRootRow) : Type 0 where
  pub distinct : DistinctKeys root_path rs
  pub named : All (λ r. str_lt [] (root_path r) ≡ true) rs

-- In a table of distinct and non-empty paths, indexing everything goes through the path of every
-- object root once, in ascending order, and ends within as many pages as there are roots and one.
pub add_all_objects_paths_lem :
    (fuel : ℕ) (db : Db)
    → IsRootTable db.roots
    → length db.roots < fuel
    → add_all_objects_paths fuel [] db ≡ some (map root_path (sort_by root_path db.roots))
add_all_objects_paths_lem fuel db t h =
    add_all-read_all fuel [] db
    ∙ ap (Option.map (map root_path)) (
        read_all_lem root_path fuel 999 [] db.roots t.distinct
          (omega (arith, length-above-sort_by root_path [] db.roots))
        ∙ ap some (
            above_whole root_path [] (sort_by root_path db.roots)
              (All-sort_by root_path (λ r. str_lt [] (root_path r) ≡ true) db.roots t.named)))

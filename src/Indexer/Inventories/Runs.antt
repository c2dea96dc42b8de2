-- ===== src/Indexer/Inventories/Runs.antt =====
-- Runs over one inventory with a version, which the hash of its directories lets read back.
use ocfl_index.Base.{◌≡◌, refl, true, false, none, some, [], ◌∷◌, ok, pos}
use ocfl_index.Text.{Str, bytes}
use ocfl_index.Text.Paths.{clean}
use ocfl_index.PathTree.{Node, get}
use ocfl_index.IndexTree.{IndexingVal}
use ocfl_index.IndexTree.Build.{path_tree}
use ocfl_index.IndexTree.Listing.{read_with}
use ocfl_index.Sqlite.{empty_db}
use ocfl_index.Sqlite.Objects.{Parsers}
use ocfl_index.Sqlite.State.{get_object_state}
use ocfl_index.Sqlite.Content.Indexed.{Keeps, empty_db-IsIndex}
use ocfl_index.Sqlite.Content.States.{state_key, wanted_key}
use ocfl_index.Sqlite.Content.Answers.{readable_listed}
use ocfl_index.Sqlite.Content.Example.{
  digits, same_text, state, inventory, after, like_start, like_start-MatchesBelow, indexed,
  readable, numbered, new_here, dir_path,
}
use ocfl_index.Indexer.Inventories.{
  Entry, goes, is_unchanged, index_checked, wanted_inv, index_one, index_result, index_results,
  index_inventories, index,
}
use ocfl_index.Indexer.Inventories.Applied.{wanted}
use ocfl_index.Indexer.Inventories.Content.{index-Keeps}
use ocfl_index.Indexer.Inventories.Served.{run_then_state}

abbrev as_text : Parsers
as_text = record { VNum = Str; Spec = Str; parse_vnum = some; parse_spec = some }

abbrev one_object : Entry as_text digits same_text
one_object = record {
  root = bytes "o";
  now = 7;
  job = ok (record { sidecar = bytes "ab"; inv = some inventory; prev = none; error = none });
}

index-Keeps_example :
    Keeps
      (read_with same_text)
      empty_db
      (index as_text digits same_text 5
        (bytes "s")
        (record { path = bytes "s/o"; now = 6 } ∷ [])
        none
        true
        (λ d. (none, one_object ∷ []))
        empty_db).db
index-Keeps_example =
    index-Keeps as_text digits same_text (read_with same_text) 5 (bytes "s")
      (record { path = bytes "s/o"; now = 6 } ∷ []) none true (λ d. (none, one_object ∷ []))
      empty_db (λ d. (readable_listed digits same_text same_text inventory.versions readable, tt))
      (empty_db-IsIndex (read_with same_text))

one_here :
    index_one as_text digits same_text
      (bytes "o")
      7
      (some inventory)
      (record { committed = empty_db; tx = empty_db; num_objs = 0 })
    ≡ goes (record { committed = empty_db; tx = after; num_objs = 1 })
unfolding index_one
one_here = rw (indexed, index_one) refl

run_here :
    index_inventories as_text digits same_text false none (one_object ∷ []) empty_db
    ≡ record { db = after; result = ok 1 }
unfolding index_inventories index_results index_result index_checked wanted_inv is_unchanged
run_here = rw (one_here, index_results) refl

run_then_state_example :
    (t : Node IndexingVal) × (path_tree same_text (λ q. []) [] (some state) ≡ ok t)
    × (state_key (
          get_object_state digits like_start
            (bytes "obj")
            (some 1)
            (bytes "a")
            true
            (pos 2)
            []
            (index_inventories as_text digits same_text false none (one_object ∷ []) empty_db).db)
        ≡ wanted_key (get (clean (bytes "a")) t))
unfolding wanted wanted_inv
run_then_state_example =
    run_then_state as_text digits same_text same_text like_start false none (one_object ∷ [])
      empty_db like_start-MatchesBelow ((readable, numbered), tt) (tt, tt) (new_here, tt)
      (empty_db-IsIndex (read_with same_text)) tt 1 0 0
      (record { root = bytes "o"; now = 7; inv = inventory })
      (1, (record { message = bytes "first"; created = 5; user = none }, state)) (bytes "a") true 2
      [] (rw run_here refl) refl refl dir_path

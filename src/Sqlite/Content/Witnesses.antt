-- ===== src/Sqlite/Content/Witnesses.antt =====
-- The theorems on the tables and their digests, at an inventory of one version.
use ocfl_index.Base.{ℕ, ◌≡◌, refl, true, false, none, some, List, [], ◌∷◌, ok, pos, All}
use ocfl_index.Text.{Str, bytes}
use ocfl_index.Sqlite.{empty_db}
use ocfl_index.PathTree.{Node, file, end, entry}
use ocfl_index.Text.Paths.{clean}
use ocfl_index.PathTree.{get}
use ocfl_index.IndexTree.{IndexingVal, hex}
use ocfl_index.IndexTree.Build.{decode_string, path_tree}
use ocfl_index.IndexTree.Listing.Built.{file_of}
use ocfl_index.Sqlite.State.{get_object_state}
use ocfl_index.IndexTree.Listing.{read_with}
use ocfl_index.Sqlite.Content.Indexed.{empty_db-IsIndex}
use ocfl_index.Sqlite.Content.States.{state_key, wanted_key}
use mathlib.Core.Option
use ocfl_index.Paging.{page_of, query}
use ocfl_index.PathTree.{find}
use ocfl_index.IndexTree.Listing.{HasListing, node_key}
use ocfl_index.IndexTree.Listing.Built.{path_tree-HasListing}
use ocfl_index.IndexTree.Listing.Contents.{HasFile, path_tree-get}
use ocfl_index.Sqlite.{NodeRow}
use ocfl_index.Sqlite.State.{item_name, node_info}
use ocfl_index.Sqlite.State.Pages.{all_children}
use ocfl_index.Sqlite.Content.Indexed.{Keeps, index_object_inventory-Keeps}
use ocfl_index.Sqlite.Content.Walked.{row_key, shown}
use ocfl_index.Sqlite.Content.Children.{find_item}
use ocfl_index.Sqlite.Content.States.{get_object_state_children}
use ocfl_index.Sqlite.Content.Answers.{readable_listed, index_then_state, index_then_file}
use ocfl_index.Sqlite.Content.Example.{
  digits, same_text, state, inventory, dir_sum, after, like_start, like_start-MatchesBelow, tree,
  tree_lem, indexed, readable, numbered, new_here, dir_path, paths_apart, root_here, version_here,
  dir_there, content_of, sizes, sized_tree, sized_tree_lem, sized_readable,
}

index_then_state_example :
    (t : Node IndexingVal) × (path_tree same_text (λ q. []) [] (some state) ≡ ok t)
    × (state_key (
          get_object_state digits like_start
            (bytes "obj")
            (some 1)
            (bytes "a")
            true
            (pos 2)
            []
            after)
        ≡ wanted_key (get (clean (bytes "a")) t))
index_then_state_example =
    index_then_state digits same_text same_text like_start 7 7 (bytes "o") inventory empty_db after
      like_start-MatchesBelow readable (empty_db-IsIndex (read_with same_text)) tt new_here numbered
      indexed 0 (1, (record { message = bytes "first"; created = 5; user = none }, state))
      (bytes "a") true 2 [] refl dir_path

index_then_file_example :
    (sum : List ℕ) × (decode_string (bytes "0a") ≡ some sum)
    × (state_key (
          get_object_state digits like_start
            (bytes "obj")
            (some 1)
            (bytes "a/b")
            false
            (pos 0)
            []
            after)
        ≡ ok (false, hex sum))
index_then_file_example =
    index_then_file digits same_text same_text like_start 7 7 (bytes "o") inventory empty_db after
      like_start-MatchesBelow readable (empty_db-IsIndex (read_with same_text)) tt new_here numbered
      indexed 0 0 (1, (record { message = bytes "first"; created = 5; user = none }, state))
      (bytes "a/b", bytes "0a") false 0 [] refl refl paths_apart

after-Keeps : Keeps (read_with same_text) empty_db after
after-Keeps =
    index_object_inventory-Keeps digits same_text (read_with same_text) 7 7 (bytes "o") inventory
      empty_db after (readable_listed digits same_text same_text inventory.versions readable)
      (empty_db-IsIndex (read_with same_text)) indexed

path_tree-get_example : All (HasFile content_of sizes sized_tree) state
path_tree-get_example =
    path_tree-get same_text content_of sizes state sized_tree paths_apart sized_tree_lem

path_tree-HasListing_example : HasListing (read_with same_text) sized_tree
path_tree-HasListing_example =
    path_tree-HasListing same_text content_of sizes same_text state sized_tree readable.0.0
      sized_readable sized_tree_lem

tree-HasListing : HasListing (read_with same_text) tree
tree-HasListing =
    path_tree-HasListing same_text (λ q. []) [] same_text state tree readable.0.0 readable.0.1
      tree_lem

get_object_state_children_example :
    (n : NodeRow) × (get_object_state digits like_start
        (bytes "obj")
        (some 1)
        (bytes "a")
        false
        (pos 2)
        []
        after
      ≡ ok (
          node_info n (page_of item_name 2 (query item_name 3 [] (all_children n.id false after)))))
    × (row_key n ≡ (true, dir_sum))
    × ((c : Str)
        → find_item c (all_children n.id false after)
          ≡ Option.map
              (λ t. shown (node_key t))
              (find c (entry (bytes "b") (file 1 (file_of (10 ∷ []))) end)))
get_object_state_children_example =
    get_object_state_children (read_with same_text) digits like_start after tree 1 (bytes "obj")
      (some 1) like_start-MatchesBelow after-Keeps.index tree-HasListing root_here version_here
      (bytes "a") false 2 [] 2 (file_of dir_sum)
      (entry (bytes "b") (file 1 (file_of (10 ∷ []))) end) dir_path dir_there

-- ===== src/PathTree/Witnesses.antt =====
-- Concrete trees and paths for the theorems on pathtree.go.
use ocfl_index.Base.{ℕ, ◌≡◌, refl, ◌≢◌, false, ok, err, panic, ◌==◌, [], ◌∷◌}
use ocfl_index.Text.{Str, bytes, str_eq, valid_utf8}
use ocfl_index.Text.Paths.{
  split, valid_elem, valid_elems, valid_path, path_dir, path_base, path_join, clean,
}
use ocfl_index.Text.Paths.Laws.{init}
use ocfl_index.Text.Paths.Valid.{IsPlain}
use ocfl_index.PathTree.{
  not_dir, not_found, Node, file, dir, end, entry, find, put, del, child, at, is_dir, get_loop, get,
  is_parent_of, remove_empty_dirs,
}
use ocfl_index.PathTree.Update.{
  set, remove, rename, remove_in, set_in, mkdir_all, mkdir_loop, enter, below, under, assign,
  update_at, put_child, del_child, moved, restored, overwrite,
}
use ocfl_index.PathTree.Walk.{visited, calls, walk, joined, all_paths, copy}
use ocfl_index.PathTree.EmptyDirs.{has_empty_below, count_files, remove_empty_dirs_lem}
use ocfl_index.Paging.{insert_by, sort_by}
use ocfl_index.PathTree.RenameGet.{get-rename, get-rename_failed}
use ocfl_index.PathTree.Located.{Unrelated}
use ocfl_index.PathTree.Pointers.{Apart}
use ocfl_index.PathTree.SetGet.{get-set, get-set-Apart}
use ocfl_index.PathTree.SetResult.{reach, set_outcome, set-result, node-set_failed}
use ocfl_index.PathTree.RemoveGet.{remove-get, get-remove}

abbrev new_path : Str
new_path = bytes "a/b.txt"

abbrev old_path : Str
old_path = bytes "docs/old.txt"

abbrev below_file : Str
below_file = bytes "docs/old.txt/x"

abbrev docs : Node ℕ
docs = dir 2 0 (entry (bytes "old.txt") (file 3 7) end)

abbrev tree : Node ℕ
tree = dir 1 0 (entry (bytes "docs") docs end)

abbrev added : Node ℕ
added = file 9 5

new_path-IsPlain : IsPlain new_path
unfolding valid_path valid_utf8 valid_elems valid_elem split str_eq
new_path-IsPlain = record { valid = refl; plain = refl }

old_path-IsPlain : IsPlain old_path
unfolding valid_path valid_utf8 valid_elems valid_elem split str_eq
old_path-IsPlain = record { valid = refl; plain = refl }

below_file-IsPlain : IsPlain below_file
unfolding valid_path valid_utf8 valid_elems valid_elem split str_eq
below_file-IsPlain = record { valid = refl; plain = refl }

unrelated : Unrelated tree added
unfolding is_parent_of
unrelated = record { below = refl; above = refl }

apart : Apart (split new_path) (split old_path)
unfolding split str_eq
apart = record { not_above = refl; not_below = refl }

set_succeeds : (set 0 10 new_path added tree).result ≡ ok tt
unfolding set valid_path valid_utf8 valid_elems valid_elem split str_eq is_parent_of set_in
    path_base path_dir mkdir_all mkdir_loop enter below under find put assign at child is_dir
set_succeeds = refl

hindered : set_outcome (init (split below_file)) tree ≡ panic
unfolding set_outcome split find str_eq reach
hindered = refl

set_fails : (set 0 10 below_file added tree).result ≢ ok tt
set_fails h = cc (set-result 0 10 below_file added tree below_file-IsPlain unrelated, h, hindered)

get_docs : (remove 0 10 old_path tree).result ≡ ok (file 3 7)
unfolding get get_loop valid_path valid_utf8 valid_elems valid_elem split str_eq child find
get_docs = rw (remove-get 0 10 old_path tree old_path-IsPlain) refl

renamed-Unrelated : Unrelated (remove 0 10 old_path tree).node (file 3 7)
unfolding remove remove_in get get_loop path_base path_dir valid_path valid_utf8 valid_elems
    valid_elem split str_eq child find update_at del_child del put is_parent_of
renamed-Unrelated = record { below = refl; above = refl }

old_found : get old_path tree ≡ ok (file 3 7)
unfolding get get_loop valid_path valid_utf8 valid_elems valid_elem split str_eq child find
old_found = refl

rename_succeeds : (rename 0 10 old_path new_path tree).result ≡ ok tt
unfolding rename moved set set_in mkdir_all mkdir_loop enter below under assign at is_dir remove
    remove_in get get_loop path_base path_dir valid_path valid_utf8 valid_elems valid_elem split
    str_eq child find update_at del_child del put is_parent_of
rename_succeeds = refl

-- The new path leads through the file a.
abbrev occupied : Node ℕ
occupied = dir 1 0 (entry (bytes "a") (file 4 8) (entry (bytes "docs") docs end))

abbrev hindered_path : Str
hindered_path = bytes "a/x/y"

occupied_found : get old_path occupied ≡ ok (file 3 7)
unfolding get get_loop valid_path valid_utf8 valid_elems valid_elem split str_eq child find
occupied_found = refl

occupied-Unrelated : Unrelated (remove 0 10 old_path occupied).node (file 3 7)
unfolding remove remove_in get get_loop path_base path_dir valid_path valid_utf8 valid_elems
    valid_elem split str_eq child find update_at del_child del put is_parent_of
occupied-Unrelated = record { below = refl; above = refl }

rename_fails : (rename 0 10 old_path hindered_path occupied).result ≡ err not_dir
unfolding rename moved restored set set_in mkdir_all mkdir_loop enter below under assign at is_dir
    remove remove_in get get_loop path_base path_dir valid_path valid_utf8 valid_elems valid_elem
    split str_eq child find update_at del_child del put put_child is_parent_of
rename_fails = refl

get-set_example : get new_path (set 0 10 new_path added tree).node ≡ ok added
get-set_example = get-set 0 10 new_path added tree new_path-IsPlain unrelated set_succeeds

get-set-Apart_example : get old_path (set 0 10 new_path added tree).node ≡ get old_path tree
get-set-Apart_example =
    get-set-Apart 0 10 new_path old_path added tree new_path-IsPlain old_path-IsPlain unrelated
      apart

set-result_example :
    (set 0 10 below_file added tree).result ≡ set_outcome (init (split below_file)) tree
set-result_example = set-result 0 10 below_file added tree below_file-IsPlain unrelated

node-set_failed_example : (set 0 10 below_file added tree).node ≡ tree
node-set_failed_example = node-set_failed 0 10 below_file added tree set_fails

remove-get_example : (remove 0 10 old_path tree).result ≡ get old_path tree
remove-get_example = remove-get 0 10 old_path tree old_path-IsPlain

get-remove_example : get old_path (remove 0 10 old_path tree).node ≡ err not_found
unfolding split str_eq
get-remove_example =
    get-remove 0 10 old_path old_path tree (file 3 7) old_path-IsPlain old_path-IsPlain refl
      get_docs

get-rename_example : get new_path (rename 0 10 old_path new_path tree).node ≡ ok (file 3 7)
get-rename_example =
    get-rename 0 10 old_path new_path tree (file 3 7) old_path-IsPlain new_path-IsPlain old_found
      renamed-Unrelated rename_succeeds

get-rename_failed_example :
    get old_path (rename 0 10 old_path hindered_path occupied).node ≡ ok (file 3 7)
get-rename_failed_example =
    get-rename_failed 0 10 old_path hindered_path occupied (file 3 7) not_dir old_path-IsPlain
      occupied_found occupied-Unrelated rename_fails

with_empty : Node ℕ
with_empty = dir 1 0 (
    entry (bytes "e") (dir 5 0 (entry (bytes "f") (dir 6 0 end) end))
      (entry (bytes "docs") docs end))

remove_empty_dirs_example :
    (has_empty_below (remove_empty_dirs with_empty) ≡ false)
    × (count_files (λ n. n == 7) (remove_empty_dirs with_empty)
        ≡ count_files (λ n. n == 7) with_empty)
remove_empty_dirs_example = remove_empty_dirs_lem (λ n. n == 7) with_empty

all_paths_run : all_paths tree ≡ ok (bytes "docs" ∷ bytes "docs/old.txt" ∷ [])
unfolding all_paths visited calls sort_by insert_by joined str_eq path_join clean
all_paths_run = refl

copy_run :
    copy 0 20 tree
    ≡ ok (record {
      root =
          dir 20 0 (entry (bytes "docs") (dir 22 0 (entry (bytes "old.txt") (file 23 7) end)) end);
      next = 24;
    })
unfolding copy visited calls sort_by insert_by joined str_eq path_join clean set set_in mkdir_all
    mkdir_loop enter below under assign at is_dir path_base path_dir valid_path valid_utf8
    valid_elems valid_elem split child find update_at put put_child is_parent_of overwrite walk
copy_run = refl

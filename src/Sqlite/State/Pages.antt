-- ===== src/Sqlite/State/Pages.antt =====
-- What GetObjectState answers for a directory, for every limit.
use ocfl_index.Base.{
  ℕ, zero, suc, ◌+◌, ◌≤◌, ◌≡◌, refl, ap, ◌∙◌, Bool, true, false, not, Option, some, List, [], map,
  ◌==◌, arith, if◌then◌else◌, length, Bool-cases, inl, inr, Result, ok, err, panic, ℤ, pos, negsuc,
  suc_int, limited,
}
use native.Mathlib.Numerals.{add-one}
use ocfl_index.Text.{Str}
use ocfl_index.Text.Paths.{clean, valid_path}
use ocfl_index.Paging.{Page, page_of, query, above, sort_by}
use ocfl_index.Paging.Maps.{map-query, map-listing}
use ocfl_index.Sqlite.{IndexErr, NodeRow, Db}
use ocfl_index.Sqlite.Versions.{VNumbers}
use ocfl_index.Sqlite.Roots.{page_limit}
use ocfl_index.Sqlite.Details.{
  PathItem, child_name, child_rows, node_dir_children, path_item, get_node_children,
}
use ocfl_index.Sqlite.Lookup.{node_by_path, all_files, file_path, node_children}
use ocfl_index.Sqlite.State.{
  PathInfo, no_page, file_item, get_node_children_all, item_name, state_limit, close_page,
  node_info, state_children, state_of_node, version_string, get_object_state,
}

-- All that a listing of a directory covers, in no order: the files below it, or its children.
unfoldable pub all_children : ℕ → Bool → Db → List PathItem
unfolding all_files child_rows file_item path_item
all_children i recursive db =
    if recursive then map file_item (all_files i db) else map path_item (child_rows i db.names db)

state_children-query :
    (i n : ℕ) (recursive : Bool) (cursor : Str) (db : Db)
    → state_children i recursive (pos n) cursor db
      ≡ query item_name n cursor (all_children i recursive db)
unfolding state_children all_children get_node_children_all node_children get_node_children
    node_dir_children limited query file_item path_item
state_children-query i n true cursor db =
    map-query file_item file_path item_name (λ r. refl) n cursor (all_files i db)
state_children-query i n false cursor db =
    map-query path_item child_name item_name (λ r. refl) n cursor (child_rows i db.names db)

close_page_lem :
    (n : ℕ) (xs : List PathItem) → 1 ≤ n → close_page (pos n) xs ≡ ok (page_of item_name n xs)
unfolding close_page page_of
close_page_lem zero xs h = absurd (omega arith)
close_page_lem (suc n) xs h =
    rw (add-one (suc n))
      (elim (Bool-cases (length xs == suc (suc n))) [ inl e ↦ rw e refl | inr e ↦ rw e refl ])

page_limit_pos : (limit : ℕ) → 1 ≤ page_limit limit
page_limit_pos limit = ground arith

state_limit_pos : (limit : ℕ) → state_limit (pos limit) ≡ pos (page_limit limit)
state_limit_pos limit = ground arith

abbrev answer : NodeRow → Result IndexErr (Page PathItem) → Result IndexErr PathInfo
answer n (ok p) = ok (node_info n p)
answer n (err e) = err e
answer n panic = panic

state_of_directory :
    (n : NodeRow) (recursive : Bool) (lim : ℤ) (cursor : Str) (db : Db)
    → n.dir ≡ true
    → state_of_node n recursive lim cursor db
      ≡ answer n (close_page lim (state_children n.id recursive (suc_int lim) cursor db))
unfolding state_of_node
state_of_directory n recursive lim cursor db d = directory n.dir (ok (node_info n no_page)) _ d
  where
    directory :
        (b : Bool) (x y : Result IndexErr PathInfo) → b ≡ true → (if not b then x else y) ≡ y
    directory true x y h = refl
    directory false x y h = cc

-- The listing of a directory.
pub state_of_node_directory :
    (n : NodeRow) (recursive : Bool) (limit : ℕ) (cursor : Str) (db : Db)
    → n.dir ≡ true
    → let m = page_limit limit in
      state_of_node n recursive (state_limit (pos limit)) cursor db
      ≡ ok (
          node_info n
            (page_of item_name m (query item_name (m + 1) cursor (all_children n.id recursive db))))
state_of_node_directory n recursive limit cursor db d =
    let m = page_limit limit in
    state_of_directory n recursive (state_limit (pos limit)) cursor db d
    ∙ rw (state_limit_pos limit, state_children-query n.id (suc m) recursive cursor db, add-one m)
        (ap (answer n) (
          close_page_lem m (query item_name (suc m) cursor (all_children n.id recursive db))
            (page_limit_pos limit)))

none_asked :
    (i : ℕ) (recursive : Bool) (cursor : Str) (db : Db)
    → state_children i recursive (pos 0) cursor db ≡ []
unfolding query
none_asked i recursive cursor db = state_children-query i 0 recursive cursor db

unlimited :
    (i k : ℕ) (recursive : Bool) (cursor : Str) (db : Db)
    → state_children i recursive (negsuc k) cursor db
      ≡ above item_name cursor (sort_by item_name (all_children i recursive db))
unfolding state_children all_children get_node_children_all node_children get_node_children
    node_dir_children limited file_item path_item
unlimited i k true cursor db =
    map-listing file_item file_path item_name (λ r. refl) cursor (all_files i db)
unlimited i k false cursor db =
    map-listing path_item child_name item_name (λ r. refl) cursor (child_rows i db.names db)

-- For a path that is valid once cleaned and at which the query finds a directory, GetObjectState
-- answers, for every cursor and every limit that is not negative, with the directory's own
-- details and the page that the reference paging gives of its children, or of all files below it
-- if it is recursive, and with the cursor of that page. A limit of 0 or above 1000 stands for
-- 1000.
pub get_object_state_lem :
    (V : VNumbers) (like : Str → Str → Bool) (id p : Str) (v : Option (VNumbers.VNum V))
    (recursive : Bool) (limit : ℕ) (cursor : Str) (db : Db) (n : NodeRow)
    → valid_path (clean p) ≡ true
    → node_by_path like id (version_string V v) (clean p) db ≡ some n
    → n.dir ≡ true
    → let m = page_limit limit in
      get_object_state V like id v p recursive (pos limit) cursor db
      ≡ ok (
          node_info n
            (page_of item_name m (query item_name (m + 1) cursor (all_children n.id recursive db))))
unfolding get_object_state
get_object_state_lem V like id p v recursive limit cursor db n h f d =
    rw (h, f) (state_of_node_directory n recursive limit cursor db d)

-- With limit -1, GetObjectState of a directory panics; with a limit below -1 it answers with all
-- children above the cursor, in ascending order, and no cursor.
pub state_of_node_negative :
    (n : NodeRow) (recursive : Bool) (cursor : Str) (db : Db)
    → n.dir ≡ true
    → (state_of_node n recursive (state_limit (negsuc 0)) cursor db ≡ panic)
      × ((k : ℕ)
          → state_of_node n recursive (state_limit (negsuc (suc k))) cursor db
            ≡ ok (
                node_info n (record {
                  items =
                      above item_name cursor (sort_by item_name (all_children n.id recursive db));
                  next_cursor = [];
                })))
unfolding close_page
state_of_node_negative n recursive cursor db d = (
  state_of_directory n recursive (negsuc 0) cursor db d
      ∙ rw (none_asked n.id recursive cursor db) refl,
  λ k.
      state_of_directory n recursive (negsuc (suc k)) cursor db d
      ∙ rw (unlimited n.id k recursive cursor db) refl,
)

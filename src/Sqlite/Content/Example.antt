-- ===== src/Sqlite/Content/Example.antt =====
-- An inventory of one version, indexed into an empty database. The hash gives back its text.
use ocfl_index.Base.{
  ℕ, ◌+◌, ◌≡◌, refl, sym, ◌∙◌, Bool, true, false, none, some, List, [], ◌∷◌, ◌++◌, arith, ok,
  Result, ◌==◌, ◌&&◌, if◌then◌else◌,
}
use ocfl_index.Text.{Str, bytes, str_eq, str_lt, valid_utf8}
use ocfl_index.Sqlite.{Db, empty_db}
use ocfl_index.Sqlite.Versions.{
  VNumbers, version_num, get_version, insert_version, insert_version_row, version_row,
  has_version_name, add_version,
}
use ocfl_index.Sqlite.Inventories.{
  Inventory, inventory_row, find_inventory, root_is_taken, update_inventory, upsert_inventory,
  index_version, index_versions, insert_content, index_inventory_tx, index_object_inventory,
}
use ocfl_index.PathTree.{Node, file, dir, end, entry}
use ocfl_index.Text.Paths.{clean, valid_path, valid_elems, split, path_dir, path_base}
use ocfl_index.PathTree.{put, is_dir, is_parent_of, get}
use ocfl_index.PathTree.Update.{set_file, set, set_in, mkdir_all, mkdir_loop}
use ocfl_index.Paging.{sort_by, insert_by}
use ocfl_index.IndexTree.{
  IndexingVal, no_val, sized, dir_sizes, digest_line, concat_lines, dir_digests, digest_lines, hex,
  hex_digit,
}
use ocfl_index.IndexTree.Build.{add_paths, file_val, size_of, complete, path_tree}
use ocfl_index.IndexTree.Listing.Built.{file_of, raw_tree}
use ocfl_index.Sqlite.Roots.{index_object_root_tx, upsert_object_root}
use ocfl_index.Sqlite.Nodes.{add_pathtree_child, add_pathtree_nodes}
use ocfl_index.Sqlite.Lookup.Find.{MatchesBelow}
use ocfl_index.IndexTree.Listing.{Reads, no_break}
use ocfl_index.IndexTree.Listing.Contents.{AreApart}
use ocfl_index.Sqlite.Content.Versions.{AreNumbered}
use ocfl_index.Text.Paths.{dot}
use ocfl_index.PathTree.{get_loop}
use ocfl_index.Sqlite.Objects.{inventory_with}
use ocfl_index.Sqlite.Nodes.Rows.{node_id}
use ocfl_index.Sqlite.Lookup.{version_roots}
use ocfl_index.Sqlite.Content.Answers.{AreReadable}

abbrev pub digits : VNumbers
digits = record { VNum = ℕ; num = λ n. n; string = λ n. b'v' ∷ (48 + n) ∷ [] }

abbrev pub same_text : List ℕ → List ℕ
same_text s = s

abbrev pub state : List (Str × Str)
state = (bytes "a/b", bytes "0a") ∷ (bytes "c", bytes "0b") ∷ []

abbrev pub inventory : Inventory digits same_text
inventory = record {
  id = bytes "obj";
  spec = bytes "1.0";
  digest_algorithm = bytes "sha512";
  digest = bytes "ab";
  head = 1;
  versions = (1, (record { message = bytes "first"; created = 5; user = none }, state)) ∷ [];
  manifest = (bytes "v1/content/a/b", bytes "0a") ∷ (bytes "v1/content/c", bytes "0b") ∷ [];
}

abbrev pub dir_sum : List ℕ
dir_sum = 48 ∷ 97 ∷ 32 ∷ 98 ∷ 10 ∷ []

abbrev pub root_sum : List ℕ
root_sum =
    51 ∷ 48 ∷ 54 ∷ 49 ∷ 50 ∷ 48 ∷ 54 ∷ 50 ∷ 48 ∷ 97 ∷ 32 ∷ 97 ∷ 47 ∷ 10 ∷ 48 ∷ 98 ∷ 32 ∷ 99 ∷ 10
    ∷ []

abbrev pub after : Db
after = record {
  roots = record { id = 1; path = bytes "o"; indexed_at = 7 } ∷ [];
  inventories = record (inventory_row digits same_text 1 inventory) { id = 1 } ∷ [];
  versions =
      version_row digits 1 (record { message = bytes "first"; created = 5; user = none }) 1 1 ∷ [];
  nodes =
      record { id = 1; dir = true; sum = root_sum; size = none }
      ∷ record { id = 2; dir = true; sum = dir_sum; size = none }
      ∷ record { id = 3; dir = false; sum = 10 ∷ []; size = none }
      ∷ record { id = 4; dir = false; sum = 11 ∷ []; size = none }
      ∷ [];
  names =
      record { name = bytes "a"; node_id = 2; parent_id = 1 }
      ∷ record { name = bytes "b"; node_id = 3; parent_id = 2 }
      ∷ record { name = bytes "c"; node_id = 4; parent_id = 1 }
      ∷ [];
  content_paths =
      record { inventory_id = 1; node_id = 3; file_path = bytes "v1/content/a/b" }
      ∷ record { inventory_id = 1; node_id = 4; file_path = bytes "v1/content/c" }
      ∷ [];
}

-- LIKE with the percent sign alone.
abbrev pub like_start : Str → Str → Bool
like_start [] [] = true
like_start [] (d ∷ t) = false
like_start (c ∷ p) [] = c == b'%'
like_start (c ∷ p) (d ∷ t) = if c == b'%' then true else (c == d) && like_start p t

pub like_start-MatchesBelow : MatchesBelow like_start
like_start-MatchesBelow [] [] = refl
like_start-MatchesBelow [] (d ∷ t) = refl
like_start-MatchesBelow (c ∷ q) t = ground (arith, like_start-MatchesBelow q t)

abbrev pub raw : Node IndexingVal
raw = dir 0 no_val (
    entry (bytes "a") (dir 2 no_val (entry (bytes "b") (file 1 (file_of (10 ∷ []))) end))
      (entry (bytes "c") (file 3 (file_of (11 ∷ []))) end))

pub raw_lem : raw_tree same_text (λ q. []) [] state ≡ ok raw
unfolding add_paths file_val size_of set_file set valid_path valid_utf8 str_eq valid_elems split
    is_parent_of set_in mkdir_all path_dir mkdir_loop put is_dir path_base
raw_lem = refl

abbrev pub tree : Node IndexingVal
tree = dir 0 (file_of root_sum) (
    entry (bytes "a") (dir 2 (file_of dir_sum) (entry (bytes "b") (file 1 (file_of (10 ∷ []))) end))
      (entry (bytes "c") (file 3 (file_of (11 ∷ []))) end))

pub tree_lem : path_tree same_text (λ q. []) [] (some state) ≡ ok tree
unfolding path_tree complete dir_digests sort_by insert_by concat_lines digest_line hex hex_digit
    str_lt is_dir
tree_lem = rw (raw_lem, path_tree) refl

pub indexed : index_object_inventory digits same_text 7 7 (bytes "o") inventory empty_db ≡ ok after
unfolding index_object_inventory index_object_root_tx index_inventory_tx upsert_object_root
    upsert_inventory find_inventory root_is_taken update_inventory index_versions index_version
    insert_version insert_version_row get_version has_version_name add_version version_num
    insert_content path_tree add_paths file_val size_of add_pathtree_nodes add_pathtree_child
    set_file set valid_path valid_utf8 str_eq valid_elems split is_parent_of set_in mkdir_all
    path_dir mkdir_loop put is_dir path_base complete dir_digests sort_by insert_by concat_lines
    digest_line hex hex_digit str_lt
indexed = refl

pub ok_inj : {E A : Type 0} (x y : A) → ◌≡◌ {A = Result E A} (ok x) (ok y) → x ≡ y
ok_inj x y h = ground arith

pub raw-Reads : Reads same_text same_text raw
unfolding Reads sort_by insert_by concat_lines digest_line digest_lines dir_digests hex hex_digit
    str_lt is_dir
raw-Reads = (refl, omega arith, ((refl, omega arith, (tt, tt)), (tt, tt)))

pub readable : AreReadable digits same_text same_text inventory.versions
unfolding no_break
readable = (
  (
    (refl, (refl, tt)),
    λ root e. let same : raw ≡ root = ok_inj raw root (sym raw_lem ∙ e) in rw (← same) raw-Reads,
  ),
  tt,
)

pub numbered : AreNumbered digits same_text inventory.versions
unfolding version_num
numbered = (refl, λ e. cc, tt, tt)

pub new_here : find_inventory (bytes "obj") [] ≡ none
unfolding find_inventory
new_here = refl

pub dir_path : valid_path (clean (bytes "a")) ≡ true
unfolding valid_path clean split valid_utf8 valid_elems str_eq
dir_path = refl

pub paths_apart : AreApart state
unfolding valid_path split valid_utf8 valid_elems str_eq
paths_apart = (
  record { valid = refl; plain = refl },
  ((record { valid = refl; plain = refl }, record { not_above = refl; not_below = refl }), tt),
  (record { valid = refl; plain = refl }, tt, tt),
)

pub root_here : node_id root_sum true after.nodes ≡ some 1
unfolding node_id str_eq
root_here = refl

pub version_here :
    version_roots (bytes "obj") (bytes "v1") after.versions after.inventories
    ≡ record { id = 1; path = dot } ∷ []
unfolding version_roots inventory_with str_eq
version_here = refl

pub dir_there :
    get (clean (bytes "a")) tree
    ≡ ok (dir 2 (file_of dir_sum) (entry (bytes "b") (file 1 (file_of (10 ∷ []))) end))
unfolding get get_loop clean split valid_path valid_utf8 valid_elems str_eq
dir_there = refl

-- The same state with the sizes of its content.
abbrev pub content_of : Str → Str
content_of q = bytes "v1/content/" ++ q

abbrev pub sizes : List (Str × ℕ)
sizes = (bytes "v1/content/a/b", 5) ∷ (bytes "v1/content/c", 7) ∷ []

abbrev pub with_size : List ℕ → ℕ → IndexingVal
with_size sum n = record { sum = sum; size = n; has_size = true }

abbrev pub sized_raw : Node IndexingVal
sized_raw = dir 0 no_val (
    entry (bytes "a") (dir 2 no_val (entry (bytes "b") (file 1 (with_size (10 ∷ []) 5)) end))
      (entry (bytes "c") (file 3 (with_size (11 ∷ []) 7)) end))

sized_raw_lem : raw_tree same_text content_of sizes state ≡ ok sized_raw
unfolding add_paths file_val size_of set_file set valid_path valid_utf8 str_eq valid_elems split
    is_parent_of set_in mkdir_all path_dir mkdir_loop put is_dir path_base
sized_raw_lem = refl

abbrev pub sized_tree : Node IndexingVal
sized_tree = dir 0 (with_size root_sum 12) (
    entry (bytes "a")
      (dir 2 (with_size dir_sum 5) (entry (bytes "b") (file 1 (with_size (10 ∷ []) 5)) end))
      (entry (bytes "c") (file 3 (with_size (11 ∷ []) 7)) end))

pub sized_tree_lem : path_tree same_text content_of sizes (some state) ≡ ok sized_tree
unfolding path_tree complete dir_digests dir_sizes sized sort_by insert_by concat_lines digest_line
    hex hex_digit str_lt is_dir
sized_tree_lem = rw (sized_raw_lem, path_tree) refl

sized_raw-Reads : Reads same_text same_text sized_raw
unfolding Reads sort_by insert_by concat_lines digest_line digest_lines dir_digests hex hex_digit
    str_lt is_dir
sized_raw-Reads = (refl, omega arith, ((refl, omega arith, (tt, tt)), (tt, tt)))

pub sized_readable :
    (root : Node IndexingVal)
    → raw_tree same_text content_of sizes state ≡ ok root
    → Reads same_text same_text root
sized_readable root e =
    let same : sized_raw ≡ root = ok_inj sized_raw root (sym sized_raw_lem ∙ e) in
    rw (← same) sized_raw-Reads

-- ===== src/Sqlite/Witnesses.antt =====
-- A concrete tree and version for the theorems on the tables of nodes and versions.
use ocfl_index.Base.{
  ℕ, ◌+◌, ◌≡◌, refl, Bool, true, false, ◌&&◌, ◌==◌, some, [], ◌∷◌, arith, ok, err,
}
use ocfl_index.Text.{Str, bytes, str_eq}
use ocfl_index.Paging.{query, page_of}
use ocfl_index.PathTree.{Node, file, dir, end, entry}
use ocfl_index.IndexTree.{IndexingVal, no_val}
use ocfl_index.Sqlite.{index_value, InventoryRow, Db, empty_db}
use ocfl_index.Sqlite.Nodes.{add_pathtree_nodes}
use ocfl_index.Sqlite.Nodes.Unique.{add_pathtree_nodes_again}
use ocfl_index.Sqlite.Versions.{
  Version, VNumbers, version_num, get_version, insert_version, insert_version_row, version_row,
  has_version_name, add_version,
}
use ocfl_index.Sqlite.Versions.Again.{insert_version_conflict}
use ocfl_index.Sqlite.Inventories.{
  find_inventory, root_is_taken, update_inventory, upsert_inventory,
}
use ocfl_index.Sqlite.Inventories.Upsert.{with_id, find-upsert_inventory}
use ocfl_index.Sqlite.Objects.{
  listed_id, listed_rows, Parsers, list_items, object_list, list_objects,
}
use ocfl_index.Sqlite.Objects.Pages.{list_objects_lem}

abbrev tree : Node IndexingVal
tree =
    dir 1 (record no_val { sum = 170 ∷ [] })
      (entry (bytes "a.txt") (file 2 (record { sum = 187 ∷ []; size = 3; has_size = true })) end)

-- Version numbers up to v9, without padding.
abbrev digits : VNumbers
digits = record {
  VNum = ℕ;
  num = λ n. version_num (b'v' ∷ (48 + n) ∷ []);
  string = λ n. b'v' ∷ (48 + n) ∷ [];
}

abbrev first : Version
first = record {
  message = bytes "first";
  created = 1000;
  user = some (record { name = bytes "ann"; address = [] });
}

abbrev changed : Version
changed = record first { message = bytes "changed" }

abbrev indexed : Db
indexed = record empty_db { versions = version_row digits 1 first 4 9 ∷ [] }

law : version_num (b'v' ∷ 49 ∷ []) ≡ 1
unfolding version_num
law = refl

first_inserted : insert_version digits 1 first 4 9 empty_db ≡ ok indexed
unfolding insert_version insert_version_row get_version has_version_name add_version
first_inserted = refl

add_pathtree_nodes_again_example :
    let done = add_pathtree_nodes tree empty_db in add_pathtree_nodes tree done.0 ≡ (done.0, done.1)
add_pathtree_nodes_again_example = add_pathtree_nodes_again tree empty_db refl

insert_version_conflict_example : insert_version digits 1 changed 4 8 indexed ≡ err index_value
insert_version_conflict_example =
    insert_version_conflict digits 1 first changed 4 9 8 empty_db indexed refl first_inserted
      (λ h. absurd (omega arith))

-- LIKE for a pattern without wildcards other than the last %.
abbrev has_prefix_of : Str → Str → Bool
has_prefix_of [] [] = true
has_prefix_of [] (d ∷ t) = false
has_prefix_of (c ∷ []) t = true
has_prefix_of (c ∷ d ∷ s) [] = false
has_prefix_of (c ∷ d ∷ s) (e ∷ t) = (c == e) && has_prefix_of (d ∷ s) t

-- The inventories of two objects, one of them indexed again with another head.
abbrev inventory : InventoryRow
inventory = record {
  id = 1;
  root_id = 1;
  ocfl_id = bytes "obj";
  spec = bytes "1.0";
  digest_algorithm = bytes "sha512";
  inventory_digest = bytes "ab";
  head = bytes "v1";
  indexed_at = 0;
}

abbrev upgraded : InventoryRow
upgraded = record inventory { id = 0; head = bytes "v2" }

abbrev other : InventoryRow
other = record inventory { id = 2; root_id = 2; ocfl_id = bytes "other" }

upgraded_written :
    upsert_inventory upgraded (other ∷ inventory ∷ []) ≡ ok (other ∷ with_id 1 upgraded ∷ [], 1)
unfolding upsert_inventory find_inventory root_is_taken update_inventory str_eq
upgraded_written = refl

find-upsert_inventory_example :
    find_inventory (bytes "obj") (other ∷ with_id 1 upgraded ∷ []) ≡ some (with_id 1 upgraded)
unfolding str_eq
find-upsert_inventory_example =
    find-upsert_inventory (bytes "obj") upgraded (other ∷ inventory ∷ [])
      (other ∷ with_id 1 upgraded ∷ []) 1 upgraded_written

abbrev as_written : Parsers
as_written = record { VNum = Str; Spec = Str; parse_vnum = some; parse_spec = some }

-- Two rows, an object root for each, and pages of one object.
abbrev listing : Db
listing = record empty_db {
  roots =
      record { id = 1; path = bytes "a"; indexed_at = 1 }
      ∷ record { id = 2; path = bytes "b"; indexed_at = 1 }
      ∷ [];
  inventories = inventory ∷ other ∷ [];
  versions = version_row digits 1 first 1 9 ∷ version_row digits 1 first 2 9 ∷ [];
}

list_objects_example :
    let rows = query listed_id 2 [] (listed_rows has_prefix_of [] listing.inventories listing) in
    let p = page_of listed_id 1 rows in
    list_objects as_written has_prefix_of [] 1 [] listing
    ≡ object_list as_written (list_items as_written p.items) p.next_cursor
list_objects_example = list_objects_lem as_written has_prefix_of [] [] 1 listing

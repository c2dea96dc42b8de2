-- ===== src/Sqlite/Inventories.antt =====
-- Inventories and content paths: the queries UpsertInventory and InsertIgnoreContentPath, and
-- insertContent, indexInventoryTx and IndexObjectInventory of tx.go.
pub mod Upsert
use ocfl_index.Base.{
  ℕ, zero, suc, ◌+◌, Bool, true, false, not, ◌&&◌, ◌||◌, Option, none, some, List, [], ◌∷◌, ◌++◌,
  map, ◌==◌, if◌then◌else◌, Result, ok, err, panic,
}
use ocfl_index.Text.{Str, str_eq}
use ocfl_index.PathTree.{Node}
use ocfl_index.IndexTree.{IndexingVal}
use ocfl_index.IndexTree.Build.{BuildErr, decode_string, path_tree}
use ocfl_index.Sqlite.{
  IndexErr, bad_hex, constraint, tree_failed, InventoryRow, ContentPathRow, NodeRow, Db, next_id,
}
use ocfl_index.Sqlite.Roots.{index_object_root_tx}
use ocfl_index.Sqlite.Nodes.{get_node_sum, add_pathtree_nodes}
use ocfl_index.Sqlite.Versions.{Version, VNumbers, insert_version}

-- WHERE ocfl_id = ?
unfoldable pub find_inventory : Str → List InventoryRow → Option InventoryRow
find_inventory id [] = none
find_inventory id (v ∷ vs) = if str_eq v.ocfl_id id then some v else find_inventory id vs

-- UNIQUE(root_id), against the rows of other objects
unfoldable pub root_is_taken : Str → ℕ → List InventoryRow → Bool
root_is_taken id root [] = false
root_is_taken id root (v ∷ vs) =
    (v.root_id == root && not (str_eq v.ocfl_id id)) || root_is_taken id root vs

-- ON CONFLICT(ocfl_id) DO UPDATE SET: every column but the row's id and the object's id
unfoldable pub update_inventory : InventoryRow → List InventoryRow → List InventoryRow
update_inventory row [] = []
update_inventory row (v ∷ vs) =
    if str_eq v.ocfl_id row.ocfl_id
    then record row { id = v.id } ∷ vs
    else v ∷ update_inventory row vs

abbrev pub inventory_id : InventoryRow → ℕ
inventory_id v = v.id

-- UpsertInventory: the table and the row's id; the id of the given row is not used.
unfoldable pub upsert_inventory :
    InventoryRow → List InventoryRow → Result IndexErr (List InventoryRow × ℕ)
unfolding find_inventory root_is_taken update_inventory next_id
upsert_inventory row vs =
    if root_is_taken row.ocfl_id row.root_id vs
    then err constraint
    else elim (find_inventory row.ocfl_id vs) [
      | some v ↦ ok (update_inventory row vs, v.id)
      | none ↦ let i = next_id (map inventory_id vs) in ok (vs ++ (record row { id = i } ∷ []), i)
    ]

-- InsertIgnoreContentPath: without a node the value is NULL, and the row is ignored.
unfoldable pub has_content : ℕ → ℕ → List ContentPathRow → Bool
has_content inv node [] = false
has_content inv node (c ∷ cs) =
    (c.inventory_id == inv && c.node_id == node) || has_content inv node cs

add_content : ℕ → Str → Option NodeRow → List ContentPathRow → List ContentPathRow
add_content inv name none cs = cs
add_content inv name (some n) cs =
    if has_content inv n.id cs
    then cs
    else cs ++ (record { inventory_id = inv; node_id = n.id; file_path = name } ∷ [])

unfoldable pub insert_ignore_content_path : ℕ → List ℕ → Str → Db → Db
unfolding add_content has_content get_node_sum
insert_ignore_content_path inv sum name db = record db {
  content_paths = add_content inv name (get_node_sum sum false db.nodes) db.content_paths;
}

-- insertContent, for the paths and digests of a manifest in the order in which it gives them
unfoldable pub insert_content : List (Str × Str) → ℕ → Db → Result IndexErr Db
unfolding insert_ignore_content_path
insert_content [] inv db = ok db
insert_content ((name, digest) ∷ ms) inv db = elim (decode_string digest) [
  | none ↦ err bad_hex
  | some sum ↦ insert_content ms inv (insert_ignore_content_path inv sum name db)
]

module _ (V : VNumbers) (hash : Str → List ℕ) where
  open V use {VNum, num, string}

  -- The parts of ocflv1.Inventory that the index reads; `versions` and `manifest` in the order in
  -- which the source goes through them. A version has its state, as logical paths with digests.
  pub record Inventory : Type 0 where
    pub id : Str
    pub spec : Str
    pub digest_algorithm : Str
    pub digest : Str
    pub head : VNum
    pub versions : List (VNum × (Version × List (Str × Str)))
    pub manifest : List (Str × Str)

  -- The row that UpsertInventory is given: no time, which is then Go's zero time.
  abbrev pub inventory_row : ℕ → Inventory → InventoryRow
  inventory_row root inv = record {
    id = 0;
    root_id = root;
    ocfl_id = inv.id;
    spec = inv.spec;
    digest_algorithm = inv.digest_algorithm;
    inventory_digest = inv.digest;
    head = string inv.head;
    indexed_at = 0;
  }

  -- One version: its tree, without sizes as in IndexObjectInventory, then its row.
  unfoldable pub index_version : ℕ → VNum → Version → List (Str × Str) → Db → Result IndexErr Db
  unfolding insert_version
  index_version inv v ver state db = elim (path_tree hash (λ p. []) [] (some state)) [
    | err e ↦ err (tree_failed e)
    | panic ↦ panic
    | ok tree ↦ let (db', node) = add_pathtree_nodes tree db in insert_version V v ver inv node db'
  ]

  unfoldable pub index_versions :
      ℕ → List (VNum × (Version × List (Str × Str))) → Db → Result IndexErr Db
  unfolding index_version
  index_versions inv [] db = ok db
  index_versions inv ((v, p) ∷ vs) db = elim (index_version inv v p.0 p.1 db) [
    | ok db' ↦ index_versions inv vs db'
    | err e ↦ err e
    | panic ↦ panic
  ]

  -- indexInventoryTx
  unfoldable pub index_inventory_tx : ℕ → Inventory → Db → Result IndexErr Db
  unfolding upsert_inventory index_versions insert_content
  index_inventory_tx root inv db = elim (upsert_inventory (inventory_row root inv) db.inventories) [
    | err e ↦ err e
    | panic ↦ panic
    | ok done ↦ elim (index_versions done.1 inv.versions (record db { inventories = done.0 })) [
      | ok db' ↦ insert_content inv.manifest done.1 db'
      | err e ↦ err e
      | panic ↦ panic
    ]
  ]

  -- Tx.IndexObjectInventory for one object
  unfoldable pub index_object_inventory : ℕ → ℕ → Str → Inventory → Db → Result IndexErr Db
  unfolding index_object_root_tx index_inventory_tx
  index_object_inventory now idx_at path inv db = elim (index_object_root_tx now path idx_at db) [
    | ok done ↦ index_inventory_tx done.1 inv done.0
    | err e ↦ err e
    | panic ↦ panic
  ]

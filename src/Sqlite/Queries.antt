-- ===== src/Sqlite/Queries.antt =====
-- The queries of internal/sqlite/sqlc/sqlc_queries.sql.go that nothing but the debugging functions
-- of internal/sqlite/sqlite.go calls, or nothing at all.
use ocfl_index.Base.{
  ℕ, ◌≡◌, ◌≢◌, refl, ap, ◌∙◌, Bool, true, false, not, ◌&&◌, ◌||◌, Option, none, some, List, [], ◌∷◌,
  ◌++◌, arith, ◌==◌, if◌then◌else◌, Result, ok, err, Option-cases, inl, inr, ==_iff,
}
use mathlib.Core.Option
use ocfl_index.Text.{Str, str_eq, str_eq_refl}
use ocfl_index.Paging.{query}
use ocfl_index.Sqlite.{
  IndexErr, constraint, ObjectRootRow, InventoryRow, VersionRow, NodeRow, NameRow, ContentPathRow,
  Db,
}
use ocfl_index.Sqlite.Roots.{update_root, touch_root, add_root, upsert_object_root}
use ocfl_index.Sqlite.Versions.{get_version}
use ocfl_index.Sqlite.Inventories.{find_inventory, inventory_id, has_content}
use ocfl_index.Sqlite.Objects.{
  ListedRow, cons_row, listed_id, listed_row, listed_rows, list_inventories_prefix, node_with,
  inventory_with,
}

-- DebugAllObjectRoots, DebugAllInventories, DebugAllVersions, DebugAllNodes, DebugAllNames
abbrev debug_all_object_roots : Db → List ObjectRootRow
debug_all_object_roots db = db.roots

abbrev debug_all_inventories : Db → List InventoryRow
debug_all_inventories db = db.inventories

abbrev debug_all_versions : Db → List VersionRow
debug_all_versions db = db.versions

abbrev debug_all_nodes : Db → List NodeRow
debug_all_nodes db = db.nodes

abbrev debug_all_names : Db → List NameRow
debug_all_names db = db.names

-- GetObjectRoot: WHERE path = ?
unfoldable get_object_root : Str → List ObjectRootRow → Option ObjectRootRow
get_object_root p [] = none
get_object_root p (r ∷ rs) = if str_eq r.path p then some r else get_object_root p rs

-- GetInventoryRowID
unfoldable get_inventory_row_id : Str → List InventoryRow → Option ℕ
unfolding find_inventory
get_inventory_row_id id vs = Option.map inventory_id (find_inventory id vs)

unfoldable all_listed : List InventoryRow → Db → List ListedRow
unfolding cons_row listed_row
all_listed [] db = []
all_listed (v ∷ vs) db = cons_row true (listed_row v db) (all_listed vs db)

-- ListInventories: ListInventoriesPrefix without its LIKE
unfoldable list_inventories : Str → ℕ → Db → List ListedRow
unfolding all_listed query
list_inventories cursor limit db = query listed_id limit cursor (all_listed db.inventories db)

-- A row of ListObjectContentSize: a content path of the object, whose node has a size.
unfoldable content_size :
    Str → ContentPathRow → Option InventoryRow → Option NodeRow → List (Str × ℕ)
content_size id c none n = []
content_size id c (some v) none = []
content_size id c (some v) (some n) =
    if str_eq v.ocfl_id id then elim n.size [ none ↦ [] | some s ↦ (c.file_path, s) ∷ [] ] else []

-- ListObjectContentSize
unfoldable list_object_content_size : Str → List ContentPathRow → Db → List (Str × ℕ)
unfolding content_size inventory_with node_with
list_object_content_size id [] db = []
list_object_content_size id (c ∷ cs) db =
    content_size id c (inventory_with c.inventory_id db.inventories) (node_with c.node_id db.nodes)
    ++ list_object_content_size id cs db

-- UpdateInventory: UNIQUE(ocfl_id), against the other rows; the root stays.
unfoldable id_is_taken : ℕ → Str → List InventoryRow → Bool
id_is_taken i id [] = false
id_is_taken i id (v ∷ vs) = (not (v.id == i) && str_eq v.ocfl_id id) || id_is_taken i id vs

unfoldable set_inventory : InventoryRow → List InventoryRow → List InventoryRow
set_inventory row [] = []
set_inventory row (v ∷ vs) =
    let rest = set_inventory row vs in
    if v.id == row.id then record row { root_id = v.root_id } ∷ rest else v ∷ rest

unfoldable update_inventory_row :
    InventoryRow → List InventoryRow → Result IndexErr (List InventoryRow)
unfolding id_is_taken set_inventory inventory_with
update_inventory_row row vs = elim (inventory_with row.id vs) [
  | none ↦ ok vs
  | some v ↦ if id_is_taken row.id row.ocfl_id vs then err constraint else ok (set_inventory row vs)
]

-- DeleteVersions
unfoldable delete_versions : ℕ → List VersionRow → List VersionRow
delete_versions i [] = []
delete_versions i (r ∷ rs) =
    let rest = delete_versions i rs in if r.inventory_id == i then rest else r ∷ rest

unfoldable without_inventory : ℕ → List InventoryRow → List InventoryRow
without_inventory i [] = []
without_inventory i (v ∷ vs) =
    let rest = without_inventory i vs in if v.id == i then rest else v ∷ rest

unfoldable without_contents : ℕ → List ContentPathRow → List ContentPathRow
without_contents i [] = []
without_contents i (c ∷ cs) =
    let rest = without_contents i cs in if c.inventory_id == i then rest else c ∷ rest

-- DeleteInventory, with its cascade
unfoldable delete_inventory : ℕ → Db → Db
unfolding delete_versions without_inventory without_contents
delete_inventory i db = record db {
  inventories = without_inventory i db.inventories;
  versions = delete_versions i db.versions;
  content_paths = without_contents i db.content_paths;
}

-- LIKE takes a percent sign alone for any text.
abbrev MatchesAll : (Str → Str → Bool) → Type 0
MatchesAll like = (t : Str) → like (b'%' ∷ []) t ≡ true

listed_rows_all :
    (like : Str → Str → Bool) (vs : List InventoryRow) (db : Db)
    → MatchesAll like
    → listed_rows like [] vs db ≡ all_listed vs db
unfolding listed_rows all_listed
listed_rows_all like [] db h = refl
listed_rows_all like (v ∷ vs) db h =
    rw (h v.ocfl_id) (ap (cons_row true (listed_row v db)) (listed_rows_all like vs db h))

-- Without a prefix, ListInventoriesPrefix lists what ListInventories does, where LIKE takes a
-- percent sign alone for any text.
list_inventories_lem :
    (like : Str → Str → Bool) (cursor : Str) (limit : ℕ) (db : Db)
    → MatchesAll like
    → list_inventories_prefix like cursor [] limit db ≡ list_inventories cursor limit db
unfolding list_inventories_prefix list_inventories
list_inventories_lem like cursor limit db h =
    ap (query listed_id limit cursor) (listed_rows_all like db.inventories db h)

get_object_root-touch :
    (p : Str) (t : ℕ) (rs : List ObjectRootRow)
    → get_object_root p (touch_root p t rs) ≡ update_root p t rs
unfolding get_object_root touch_root update_root
get_object_root-touch p t [] = refl
get_object_root-touch p t (r ∷ rs) = ground (arith, get_object_root-touch p t rs)

get_object_root-add :
    (row : ObjectRootRow) (t : ℕ) (rs : List ObjectRootRow)
    → update_root row.path t rs ≡ none
    → get_object_root row.path (add_root row rs) ≡ some row
unfolding get_object_root add_root update_root
get_object_root-add row t [] h = rw (str_eq_refl row.path) refl
get_object_root-add row t (r ∷ rs) h = ground (arith, get_object_root-add row t rs)

-- GetObjectRoot finds the row that UpsertObjectRoot returned.
get_object_root-upsert :
    (p : Str) (t : ℕ) (rs : List ObjectRootRow)
    → let (rs', row) = upsert_object_root p t rs in get_object_root p rs' ≡ some row
unfolding upsert_object_root
get_object_root-upsert p t rs = elim (Option-cases (update_root p t rs)) [
  | inl e ↦ rw (e, upsert_object_root) (get_object_root-add _ t rs e)
  | inr (row, e) ↦ rw (e, upsert_object_root) (get_object_root-touch p t rs ∙ e)
]

-- DeleteVersions takes away the versions of that inventory and no other.
get_version-delete_versions :
    (i j n : ℕ) (rs : List VersionRow)
    → get_version j n (delete_versions i rs) ≡ (if j == i then none else get_version j n rs)
unfolding get_version delete_versions
get_version-delete_versions i j n [] = ground arith
get_version-delete_versions i j n (r ∷ rs) = ground (arith, get_version-delete_versions i j n rs)

inventory_with-without :
    (i j : ℕ) (vs : List InventoryRow)
    → inventory_with j (without_inventory i vs) ≡ (if j == i then none else inventory_with j vs)
unfolding inventory_with without_inventory
inventory_with-without i j [] = ground arith
inventory_with-without i j (v ∷ vs) = ground (arith, inventory_with-without i j vs)

has_content-without :
    (i j node : ℕ) (cs : List ContentPathRow)
    → has_content j node (without_contents i cs) ≡ (not (j == i) && has_content j node cs)
unfolding has_content without_contents
has_content-without i j node [] = ground arith
has_content-without i j node (c ∷ cs) = ground (arith, has_content-without i j node cs)

-- After DeleteInventory, that inventory is gone with its versions and content paths; those of all
-- others are as they were.
delete_inventory_lem :
    (i j n node : ℕ) (db : Db)
    → let after = delete_inventory i db in
      (inventory_with j after.inventories
        ≡ (if j == i then none else inventory_with j db.inventories))
      × (get_version j n after.versions ≡ (if j == i then none else get_version j n db.versions))
      × (has_content j node after.content_paths
          ≡ (not (j == i) && has_content j node db.content_paths))
unfolding delete_inventory
delete_inventory_lem i j n node db = (
  inventory_with-without i j db.inventories,
  get_version-delete_versions i j n db.versions,
  has_content-without i j node db.content_paths,
)

set_inventory_other :
    (row : InventoryRow) (j : ℕ) (vs : List InventoryRow)
    → j ≢ row.id
    → inventory_with j (set_inventory row vs) ≡ inventory_with j vs
unfolding inventory_with set_inventory
set_inventory_other row j [] h = refl
set_inventory_other row j (w ∷ vs) h = ground (arith, set_inventory_other row j vs, ==_iff j row.id)

set_inventory_own :
    (row v : InventoryRow) (vs : List InventoryRow)
    → inventory_with row.id vs ≡ some v
    → inventory_with row.id (set_inventory row vs) ≡ some (record row { root_id = v.root_id })
unfolding inventory_with set_inventory
set_inventory_own row v [] h = cc
set_inventory_own row v (w ∷ vs) h = ground (arith, set_inventory_own row v vs)

-- Where the row is there and no other row has the object id, UpdateInventory writes the given
-- columns, with the root that the row had, and leaves the other rows as they were.
update_inventory_row_lem :
    (row v : InventoryRow) (vs : List InventoryRow)
    → inventory_with row.id vs ≡ some v
    → id_is_taken row.id row.ocfl_id vs ≡ false
    → (vs' : List InventoryRow) × (update_inventory_row row vs ≡ ok vs')
      × (inventory_with row.id vs' ≡ some (record row { root_id = v.root_id }))
      × ((j : ℕ) → j ≢ row.id → inventory_with j vs' ≡ inventory_with j vs)
unfolding update_inventory_row
update_inventory_row_lem row v vs h free = (
  set_inventory row vs,
  rw (h, free, update_inventory_row) refl,
  set_inventory_own row v vs h,
  λ j other. set_inventory_other row j vs other,
)

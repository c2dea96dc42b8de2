-- ===== src/Sqlite/Roots.antt =====
-- Object roots: the queries UpsertObjectRoot, ListObjectRoots, DeleteObjectRootsBefore,
-- CountObjectRoots and GetObjectRootLastIndexedAt; indexObjectRootTx, IndexObjectRoot and
-- RemoveObjectsBefore of tx.go; listObjectRootsTx of sqlite.go.
pub mod Upsert
use ocfl_index.Base.{
  ℕ, zero, suc, ◌+◌, Bool, true, false, not, ◌||◌, Option, none, some, List, [], ◌∷◌, map, ◌==◌,
  ltb, if◌then◌else◌, length, Result, ok, err, panic,
}
use Prim.Native.Nat.{max}
use ocfl_index.Text.{Str, str_eq}
use ocfl_index.Paging.{Page, query, page_of}
use ocfl_index.Sqlite.{
  IndexErr, invalid_args, ObjectRootRow, InventoryRow, VersionRow, ContentPathRow, Db, next_id,
}

abbrev pub root_path : ObjectRootRow → Str
root_path r = r.path

abbrev root_id_of : ObjectRootRow → ℕ
root_id_of r = r.id

-- UpsertObjectRoot: INSERT ... ON CONFLICT(path) DO UPDATE SET indexed_at
unfoldable pub update_root : Str → ℕ → List ObjectRootRow → Option ObjectRootRow
update_root p t [] = none
update_root p t (r ∷ rs) =
    if str_eq r.path p then some (record r { indexed_at = t }) else update_root p t rs

unfoldable pub touch_root : Str → ℕ → List ObjectRootRow → List ObjectRootRow
touch_root p t [] = []
touch_root p t (r ∷ rs) =
    if str_eq r.path p then record r { indexed_at = t } ∷ rs else r ∷ touch_root p t rs

unfoldable pub add_root : ObjectRootRow → List ObjectRootRow → List ObjectRootRow
add_root row [] = row ∷ []
add_root row (r ∷ rs) = r ∷ add_root row rs

unfoldable pub upsert_object_root :
    Str → ℕ → List ObjectRootRow → List ObjectRootRow × ObjectRootRow
unfolding update_root touch_root add_root next_id
upsert_object_root p t rs = elim (update_root p t rs) [
  | some row ↦ (touch_root p t rs, row)
  | none ↦
      let row : ObjectRootRow = record {
        id = next_id (map root_id_of rs);
        path = p;
        indexed_at = t;
      } in
      (add_root row rs, row)
]

-- ListObjectRoots: WHERE path > cursor ORDER BY path ASC LIMIT limit
unfoldable pub query_object_roots : ℕ → Str → Db → List ObjectRootRow
unfolding query
query_object_roots limit cursor db = query root_path limit cursor db.roots

-- DeleteObjectRootsBefore; the rows that refer to a deleted one go with it (ON DELETE CASCADE).
unfoldable pub roots_since : ℕ → List ObjectRootRow → List ObjectRootRow
roots_since t [] = []
roots_since t (r ∷ rs) =
    let rest = roots_since t rs in if ltb r.indexed_at t then rest else r ∷ rest

unfoldable pub has_id : ℕ → List ℕ → Bool
has_id i [] = false
has_id i (j ∷ is) = j == i || has_id i is

keep_inventories : List ℕ → List InventoryRow → List InventoryRow
keep_inventories ids [] = []
keep_inventories ids (v ∷ vs) =
    let rest = keep_inventories ids vs in if has_id v.root_id ids then v ∷ rest else rest

keep_versions : List ℕ → List VersionRow → List VersionRow
keep_versions ids [] = []
keep_versions ids (v ∷ vs) =
    let rest = keep_versions ids vs in if has_id v.inventory_id ids then v ∷ rest else rest

keep_contents : List ℕ → List ContentPathRow → List ContentPathRow
keep_contents ids [] = []
keep_contents ids (c ∷ cs) =
    let rest = keep_contents ids cs in if has_id c.inventory_id ids then c ∷ rest else rest

abbrev inventory_id_of : InventoryRow → ℕ
inventory_id_of v = v.id

unfoldable pub cascade_roots : List ObjectRootRow → Db → Db
unfolding keep_inventories keep_versions keep_contents has_id
cascade_roots rs db =
    let kept = keep_inventories (map root_id_of rs) db.inventories in
    let ids = map inventory_id_of kept in
    record db {
      roots = rs;
      inventories = kept;
      versions = keep_versions ids db.versions;
      content_paths = keep_contents ids db.content_paths;
    }

unfoldable pub delete_object_roots_before : ℕ → Db → Db
unfolding roots_since cascade_roots
delete_object_roots_before t db = cascade_roots (roots_since t db.roots) db

-- CountObjectRoots, CountInventories
abbrev pub count_object_roots : Db → ℕ
count_object_roots db = length db.roots

abbrev pub count_inventories : Db → ℕ
count_inventories db = length db.inventories

-- GetObjectRootLastIndexedAt: ORDER BY indexed_at DESC LIMIT 1
unfoldable pub last_indexed_at : List ObjectRootRow → Option ℕ
last_indexed_at [] = none
last_indexed_at (r ∷ rs) = elim (last_indexed_at rs) [
  | none ↦ some r.indexed_at
  | some t ↦ some (max r.indexed_at t)
]

-- GetIndexSummary of sqlite.go: without roots the time is Go's zero time.
pub record IndexSummary : Type 0 where
  pub num_inventories : ℕ
  pub num_objects : ℕ
  pub updated_at : ℕ

unfoldable pub get_index_summary : Db → IndexSummary
unfolding last_indexed_at
get_index_summary db = record {
  num_inventories = count_inventories db;
  num_objects = count_object_roots db;
  updated_at = elim (last_indexed_at db.roots) [ none ↦ 0 | some t ↦ t ];
}

-- indexObjectRootTx: the row id; `now` is what time.Now() gives
unfoldable pub index_object_root_tx : ℕ → Str → ℕ → Db → Result IndexErr (Db × ℕ)
unfolding upsert_object_root
index_object_root_tx now [] idx_at db = err invalid_args
index_object_root_tx now (c ∷ root) idx_at db =
    let t = if idx_at == 0 then now else idx_at in
    let (rs, row) = upsert_object_root (c ∷ root) t db.roots in
    ok (record db { roots = rs }, row.id)

-- Tx.IndexObjectRoot for one root
unfoldable pub index_object_root : ℕ → ℕ → Str → Db → Result IndexErr Db
unfolding index_object_root_tx
index_object_root now idx_at root db = elim (index_object_root_tx now root idx_at db) [
  | ok done ↦ ok done.0
  | err e ↦ err e
  | panic ↦ panic
]

-- Tx.RemoveObjectsBefore
unfoldable pub remove_objects_before : ℕ → Db → Db
unfolding delete_object_roots_before
remove_objects_before t db = delete_object_roots_before t db

abbrev pub default_limit : ℕ
default_limit = 1000

-- `limit < 1 || limit > 1000`
abbrev pub page_limit : ℕ → ℕ
page_limit limit = if ltb limit 1 || ltb 1000 limit then default_limit else limit

-- listObjectRootsTx: the rows of a page carry the path and the time of each root.
unfoldable pub list_object_roots : ℕ → Str → Db → Page ObjectRootRow
unfolding query_object_roots page_of
list_object_roots limit cursor db =
    let n = page_limit limit in page_of root_path n (query_object_roots (n + 1) cursor db)

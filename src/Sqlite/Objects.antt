-- ===== src/Sqlite/Objects.antt =====
-- Object queries: ListInventoriesPrefix, ListVersions, GetInventoryID, GetInventoryPath,
-- GetContentPath and NodeDirChildren, and ListObjects, GetObjectByPath, getNodeChildren and
-- GetContentPath of sqlite.go. The operator LIKE of the SQL engine is a parameter, and so are the
-- parsers of version numbers and of OCFL versions (package ocfl).
pub mod Pages
use ocfl_index.Base.{
  ℕ, zero, suc, ◌+◌, ◌-◌, Bool, true, false, not, ◌&&◌, ◌||◌, Option, none, some, List, [], ◌∷◌,
  ◌++◌, map, ltb, leb, ◌==◌, if◌then◌else◌, length, take, Result, ok, err, panic,
}
use ocfl_index.Text.{Str, str_eq, str_lt}
use ocfl_index.Text.Paths.{path_join}
use ocfl_index.Paging.{Page, query}
use ocfl_index.IndexTree.{hex}
use ocfl_index.IndexTree.Build.{decode_string}
use ocfl_index.Sqlite.{
  IndexErr, not_found, bad_hex, parse_failed, no_rows, ObjectRootRow, InventoryRow, VersionRow,
  NodeRow, NameRow, ContentPathRow, Db,
}
use ocfl_index.Sqlite.Roots.{page_limit}
use ocfl_index.Sqlite.Versions.{User, get_version}

-- A result that may be missing, and what follows if it is there.
infixl 5 ◌>>=◌
abbrev pub ◌>>=◌ {ℓ κ} : {A : Type ℓ} {B : Type κ} → Option A → (A → Option B) → Option B
none >>= f = none
some a >>= f = f a

-- Rows by their keys.
unfoldable pub root_with : ℕ → List ObjectRootRow → Option ObjectRootRow
root_with i [] = none
root_with i (r ∷ rs) = if r.id == i then some r else root_with i rs

unfoldable pub node_with : ℕ → List NodeRow → Option NodeRow
node_with i [] = none
node_with i (r ∷ rs) = if r.id == i then some r else node_with i rs

unfoldable pub inventory_with : ℕ → List InventoryRow → Option InventoryRow
inventory_with i [] = none
inventory_with i (r ∷ rs) = if r.id == i then some r else inventory_with i rs

unfoldable pub version_named : ℕ → Str → List VersionRow → Option VersionRow
version_named i name [] = none
version_named i name (r ∷ rs) =
    if r.inventory_id == i && str_eq r.name name then some r else version_named i name rs

-- ListInventoriesPrefixRow
pub record ListedRow : Type 0 where
  pub id : ℕ
  pub ocfl_id : Str
  pub path : Str
  pub spec : Str
  pub head : Str
  pub created : ℕ
  pub created_2 : ℕ

abbrev pub listed_id : ListedRow → Str
listed_id r = r.ocfl_id

-- The inner joins: an inventory without its root, its head version or its first version is left
-- out.
unfoldable pub listed_row : InventoryRow → Db → Option ListedRow
unfolding root_with version_named get_version
listed_row v db = do
  root ← root_with v.root_id db.roots
  head ← version_named v.id v.head db.versions
  v1 ← get_version v.id 1 db.versions
  some (record {
    id = v.id;
    ocfl_id = v.ocfl_id;
    path = root.path;
    spec = v.spec;
    head = v.head;
    created = v1.created;
    created_2 = head.created;
  })

unfoldable pub cons_row : Bool → Option ListedRow → List ListedRow → List ListedRow
cons_row true (some r) rs = r ∷ rs
cons_row true none rs = rs
cons_row false o rs = rs

module _ (like : Str → Str → Bool) where
  unfoldable pub listed_rows : Str → List InventoryRow → Db → List ListedRow
  unfolding listed_row cons_row
  listed_rows prefix [] db = []
  listed_rows prefix (v ∷ vs) db =
      cons_row (like (prefix ++ (b'%' ∷ [])) v.ocfl_id) (listed_row v db) (listed_rows prefix vs db)

  -- ListInventoriesPrefix
  unfoldable pub list_inventories_prefix : Str → Str → ℕ → Db → List ListedRow
  unfolding listed_rows query
  list_inventories_prefix cursor prefix limit db =
      query listed_id limit cursor (listed_rows prefix db.inventories db)

-- rows[i].OcflID
unfoldable pub id_at : ℕ → List ListedRow → Str
id_at i [] = []
id_at zero (r ∷ rs) = r.ocfl_id
id_at (suc i) (r ∷ rs) = id_at i rs

-- ocfl.ParseVNum and ocfl.ParseSpec
pub record Parsers : Type 1 where
  pub VNum : Type 0
  pub Spec : Type 0
  pub parse_vnum : Str → Option VNum
  pub parse_spec : Str → Option Spec

module _ (P : Parsers) where
  open P use {VNum, Spec, parse_vnum, parse_spec}

  pub record ObjectListItem : Type 0 where
    pub root_path : Str
    pub id : Str
    pub head : VNum
    pub spec : Spec
    pub v1_created : ℕ
    pub head_created : ℕ

  unfoldable pub list_item : ListedRow → Option ObjectListItem
  list_item r = do
    head ← parse_vnum r.head
    spec ← parse_spec r.spec
    some (record {
      root_path = r.path;
      id = r.ocfl_id;
      head = head;
      spec = spec;
      v1_created = r.created;
      head_created = r.created_2;
    })

  -- The loop over the rows, which ends at the first that cannot be parsed.
  unfoldable pub list_items : List ListedRow → Option (List ObjectListItem)
  unfolding list_item
  list_items [] = some []
  list_items (r ∷ rs) = do item ← list_item r; items ← list_items rs; some (item ∷ items)

  unfoldable pub object_list :
      Option (List ObjectListItem) → Str → Result IndexErr (Page ObjectListItem)
  object_list none next = err parse_failed
  object_list (some items) next = ok (record { items = items; next_cursor = next })

  -- The end of ListObjects, with the rows of the query.
  unfoldable pub list_rows : ℕ → List ListedRow → Result IndexErr (Page ObjectListItem)
  unfolding id_at list_items object_list
  list_rows limit rows =
      if length rows == 0
      then ok (record { items = []; next_cursor = [] })
      else if ltb limit (length rows)
      then object_list (list_items (take limit rows)) (id_at (length rows - 2) rows)
      else object_list (list_items (take (length rows) rows)) []

  -- ListObjects
  unfoldable pub list_objects :
      (Str → Str → Bool) → Str → ℕ → Str → Db → Result IndexErr (Page ObjectListItem)
  unfolding list_inventories_prefix list_rows
  list_objects like prefix limit cursor db =
      let n = page_limit limit in
      list_rows n (list_inventories_prefix like cursor prefix (n + 1) db)

-- ===== src/Sqlite/Details.antt =====
-- Details of one object: ListVersions, GetInventoryPath, GetContentPath and NodeDirChildren, and
-- asIndexInventory, getObjectByPathTx, getNodeChildren and GetContentPath of sqlite.go.
use ocfl_index.Base.{
  ℕ, Bool, true, false, not, ◌&&◌, Option, none, some, List, [], ◌∷◌, map, leb, ◌==◌, if◌then◌else◌,
  Result, ok, err, ℤ, limited,
}
use ocfl_index.Text.{Str, str_eq}
use ocfl_index.Text.Paths.{path_join}
use ocfl_index.Paging.{above, sort_by}
use ocfl_index.IndexTree.{hex}
use ocfl_index.IndexTree.Build.{decode_string}
use ocfl_index.Sqlite.{
  IndexErr, not_found, bad_hex, parse_failed, no_rows, ObjectRootRow, InventoryRow, VersionRow,
  NodeRow, NameRow, ContentPathRow, Db,
}
use ocfl_index.Sqlite.Versions.{User}
use ocfl_index.Sqlite.Objects.{◌>>=◌, root_with, node_with, inventory_with, Parsers}

-- ListVersionsRow: a row of the versions with the size of its node
pub record ListedVersion : Type 0 where
  pub row : VersionRow
  pub size : Option ℕ

listed_version : VersionRow → Option NodeRow → List ListedVersion → List ListedVersion
listed_version v none rest = rest
listed_version v (some n) rest = record { row = v; size = n.size } ∷ rest

-- ORDER BY versions.num ASC
unfoldable pub insert_by_num : ListedVersion → List ListedVersion → List ListedVersion
insert_by_num v [] = v ∷ []
insert_by_num v (w ∷ ws) = if leb v.row.num w.row.num then v ∷ w ∷ ws else w ∷ insert_by_num v ws

unfoldable pub sort_by_num : List ListedVersion → List ListedVersion
unfolding insert_by_num
sort_by_num [] = []
sort_by_num (v ∷ vs) = insert_by_num v (sort_by_num vs)

-- The inner joins of ListVersions, for the inventory of the object.
is_of_object : Str → Option InventoryRow → Bool
is_of_object id none = false
is_of_object id (some v) = str_eq v.ocfl_id id

unfoldable pub versions_of : Str → List VersionRow → Db → List ListedVersion
unfolding listed_version is_of_object node_with inventory_with
versions_of id [] db = []
versions_of id (v ∷ vs) db =
    let rest = versions_of id vs db in
    if is_of_object id (inventory_with v.inventory_id db.inventories)
    then listed_version v (node_with v.node_id db.nodes) rest
    else rest

unfoldable pub list_versions : Str → Db → List ListedVersion
unfolding versions_of sort_by_num
list_versions id db = sort_by_num (versions_of id db.versions db)

-- GetInventoryPath: the inventory of the object root with a path
unfoldable pub get_inventory_path :
    Str → List InventoryRow → Db → Option (InventoryRow × ObjectRootRow)
unfolding root_with
get_inventory_path path [] db = none
get_inventory_path path (v ∷ vs) db =
    let rest = get_inventory_path path vs db in
    elim (root_with v.root_id db.roots) [
      | none ↦ rest
      | some r ↦ if str_eq r.path path then some (v, r) else rest
    ]

-- GetContentPath: the first content path whose node is a file of the digest
unfoldable pub query_content_path :
    List ℕ → List ContentPathRow → Db → Option (ContentPathRow × ObjectRootRow)
unfolding node_with inventory_with root_with
query_content_path sum [] db = none
query_content_path sum (c ∷ cs) db =
    let rest = query_content_path sum cs db in
    elim (node_with c.node_id db.nodes) [
      | none ↦ rest
      | some n ↦
          if str_eq n.sum sum && not n.dir
          then elim (inventory_with c.inventory_id db.inventories >>= λ v.
              root_with v.root_id db.roots) [ none ↦ rest | some r ↦ some (c, r) ]
          else rest
    ]

-- Backend.GetContentPath
unfoldable pub get_content_path : Str → Db → Result IndexErr Str
unfolding decode_string query_content_path path_join
get_content_path sum db = elim (decode_string sum) [
  | none ↦ err bad_hex
  | some bytes ↦ elim (query_content_path bytes db.content_paths db) [
    | none ↦ err no_rows
    | some p ↦ ok (path_join p.1.path p.0.file_path)
  ]
]

-- NodeDirChildrenRow
pub record ChildRow : Type 0 where
  pub name : Str
  pub node : NodeRow

abbrev pub child_name : ChildRow → Str
child_name r = r.name

unfoldable pub child_row : Str → Option NodeRow → List ChildRow → List ChildRow
child_row name none rest = rest
child_row name (some n) rest = record { name = name; node = n } ∷ rest

unfoldable pub child_rows : ℕ → List NameRow → Db → List ChildRow
unfolding child_row node_with
child_rows parent [] db = []
child_rows parent (r ∷ rs) db =
    let rest = child_rows parent rs db in
    if r.parent_id == parent then child_row r.name (node_with r.node_id db.nodes) rest else rest

unfoldable pub node_dir_children : ℕ → Str → ℤ → Db → List ChildRow
unfolding child_rows limited above sort_by
node_dir_children parent cursor limit db =
    limited limit (above child_name cursor (sort_by child_name (child_rows parent db.names db)))

-- PathItem: a NULL size is 0
pub record PathItem : Type 0 where
  pub name : Str
  pub sum : Str
  pub is_dir : Bool
  pub size : ℕ
  pub has_size : Bool

abbrev pub int64 : Option ℕ → ℕ
int64 none = 0
int64 (some n) = n

abbrev pub valid : Option ℕ → Bool
valid none = false
valid (some n) = true

unfoldable pub path_item : ChildRow → PathItem
unfolding hex
path_item r = record {
  name = r.name;
  sum = hex r.node.sum;
  is_dir = r.node.dir;
  size = int64 r.node.size;
  has_size = valid r.node.size;
}

-- getNodeChildren
unfoldable pub get_node_children : ℕ → ℤ → Str → Db → List PathItem
unfolding node_dir_children path_item
get_node_children node limit cursor db = map path_item (node_dir_children node cursor limit db)

module _ (P : Parsers) where
  open P use {VNum, Spec, parse_vnum, parse_spec}

  pub record ObjectVersion : Type 0 where
    pub num : VNum
    pub message : Str
    pub created : ℕ
    pub user : Option User
    pub size : ℕ
    pub has_size : Bool

  pub record Object : Type 0 where
    pub root_path : Str
    pub id : Str
    pub spec : Spec
    pub head : VNum
    pub digest_algorithm : Str
    pub inventory_digest : Str
    pub versions : List ObjectVersion

  -- A user without a name is none.
  abbrev pub version_user : Str → Str → Option User
  version_user [] address = none
  version_user (c ∷ name) address = some (record { name = c ∷ name; address = address })

  unfoldable pub object_version : ListedVersion → Option ObjectVersion
  object_version v = do
    num ← parse_vnum v.row.name
    some (record {
      num = num;
      message = v.row.message;
      created = v.row.created;
      user = version_user v.row.user_name v.row.user_address;
      size = int64 v.size;
      has_size = valid v.size;
    })

  unfoldable pub object_versions : List ListedVersion → Option (List ObjectVersion)
  unfolding object_version
  object_versions [] = some []
  object_versions (v ∷ vs) = do
    version ← object_version v
    versions ← object_versions vs
    some (version ∷ versions)

  -- asIndexInventory
  unfoldable pub as_index_inventory : InventoryRow → ObjectRootRow → Db → Option Object
  unfolding list_versions object_versions
  as_index_inventory v root db = do
    versions ← object_versions (list_versions v.ocfl_id db)
    head ← parse_vnum v.head
    spec ← parse_spec v.spec
    some (record {
      root_path = root.path;
      id = v.ocfl_id;
      spec = spec;
      head = head;
      digest_algorithm = v.digest_algorithm;
      inventory_digest = v.inventory_digest;
      versions = versions;
    })

  -- getObjectByPathTx
  unfoldable pub get_object_by_path : Str → Db → Result IndexErr Object
  unfolding get_inventory_path as_index_inventory
  get_object_by_path path db = elim (get_inventory_path path db.inventories db) [
    | none ↦ err not_found
    | some p ↦ elim (as_index_inventory p.0 p.1 db) [ none ↦ err parse_failed | some o ↦ ok o ]
  ]

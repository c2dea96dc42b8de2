-- ===== src/Sqlite/State.antt =====
-- GetObject, GetObjectState and getNodeChildrenAll of internal/sqlite/sqlite.go. A limit is an
-- integer, and a slice out of range a panic.
pub mod Pages
use ocfl_index.Base.{
  ℕ, zero, suc, ◌+◌, Bool, true, false, not, ◌&&◌, ◌||◌, Option, none, some, List, [], ◌∷◌, map,
  ltb, ◌==◌, if◌then◌else◌, length, take, Result, ok, err, panic, ℤ, pos, negsuc, suc_int,
}
use ocfl_index.Text.{Str, str_eq}
use ocfl_index.Text.Paths.{clean, valid_path}
use ocfl_index.Paging.{Page, last_key, page_of}
use ocfl_index.IndexTree.{hex}
use ocfl_index.Sqlite.{
  IndexErr, not_found, bad_path, parse_failed, InventoryRow, ObjectRootRow, NodeRow, Db,
}
use ocfl_index.Sqlite.Versions.{VNumbers}
use ocfl_index.Sqlite.Inventories.{find_inventory}
use ocfl_index.Sqlite.Objects.{root_with, Parsers}
use ocfl_index.Sqlite.Details.{
  PathItem, int64, valid, get_node_children, Object, as_index_inventory,
}
use ocfl_index.Sqlite.Lookup.{FileRow, node_by_path, node_children}

-- GetInventoryID: the inventory of an object, with its root
unfoldable pub get_inventory_id : Str → Db → Option (InventoryRow × ObjectRootRow)
unfolding find_inventory root_with
get_inventory_id id db = elim (find_inventory id db.inventories) [
  | none ↦ none
  | some v ↦ elim (root_with v.root_id db.roots) [ none ↦ none | some r ↦ some (v, r) ]
]

-- Backend.GetObject
unfoldable pub get_object : (P : Parsers) → Str → Db → Result IndexErr (Object P)
unfolding get_inventory_id as_index_inventory
get_object P id db = elim (get_inventory_id id db) [
  | none ↦ err not_found
  | some p ↦ elim (as_index_inventory P p.0 p.1 db) [ none ↦ err parse_failed | some o ↦ ok o ]
]

-- getNodeChildrenAll: only files
unfoldable pub file_item : FileRow → PathItem
unfolding hex
file_item r = record {
  name = r.path;
  sum = hex r.node.sum;
  is_dir = false;
  size = int64 r.node.size;
  has_size = valid r.node.size;
}

unfoldable pub get_node_children_all : ℕ → ℤ → Str → Db → List PathItem
unfolding node_children file_item
get_node_children_all i limit cursor db = map file_item (node_children i cursor limit db)

-- PathInfo
pub record PathInfo : Type 0 where
  pub children : List PathItem
  pub sum : Str
  pub is_dir : Bool
  pub size : ℕ
  pub has_size : Bool
  pub next_cursor : Str

-- `lim == 0`, `lim > 1000`
abbrev pub state_limit : ℤ → ℤ
state_limit (pos n) = if n == 0 then pos 1000 else if ltb 1000 n then pos 1000 else pos n
state_limit (negsuc n) = negsuc n

abbrev pub item_name : PathItem → Str
item_name i = i.name

-- `l == lim+1`, then Children[:lim] and Children[lim-1]
unfoldable pub close_page : ℤ → List PathItem → Result IndexErr (Page PathItem)
unfolding last_key
close_page (pos zero) xs =
    if length xs == 1 then panic else ok (record { items = xs; next_cursor = [] })
close_page (pos (suc n)) xs =
    if length xs == suc (suc n)
    then ok (record { items = take (suc n) xs; next_cursor = last_key item_name (take (suc n) xs) })
    else ok (record { items = xs; next_cursor = [] })
close_page (negsuc zero) xs =
    if length xs == 0 then panic else ok (record { items = xs; next_cursor = [] })
close_page (negsuc (suc n)) xs = ok (record { items = xs; next_cursor = [] })

-- The result for a node, with its children.
abbrev pub node_info : NodeRow → Page PathItem → PathInfo
node_info n p = record {
  children = p.items;
  sum = hex n.sum;
  is_dir = n.dir;
  size = int64 n.size;
  has_size = valid n.size;
  next_cursor = p.next_cursor;
}

abbrev no_page : Page PathItem
no_page = record { items = []; next_cursor = [] }

-- The listing of a directory's children.
unfoldable pub state_children : ℕ → Bool → ℤ → Str → Db → List PathItem
unfolding get_node_children_all get_node_children
state_children i recursive limit cursor db =
    if recursive
    then get_node_children_all i limit cursor db
    else get_node_children i limit cursor db

-- The end of GetObjectState, for a node that is there.
unfoldable pub state_of_node : NodeRow → Bool → ℤ → Str → Db → Result IndexErr PathInfo
unfolding state_children close_page
state_of_node n recursive lim cursor db =
    if not n.dir
    then ok (node_info n no_page)
    else elim (close_page lim (state_children n.id recursive (suc_int lim) cursor db)) [
      | ok p ↦ ok (node_info n p)
      | err e ↦ err e
      | panic ↦ panic
    ]

-- `if !v.IsZero() { vStr = v.String() }`: none is the zero version
abbrev pub version_string : (V : VNumbers) → Option (VNumbers.VNum V) → Str
version_string V none = []
version_string V (some v) = VNumbers.string V v

-- Backend.GetObjectState
unfoldable pub get_object_state :
    (V : VNumbers)
    → (Str → Str → Bool)
    → Str
    → Option (VNumbers.VNum V)
    → Str
    → Bool
    → ℤ
    → Str
    → Db
    → Result IndexErr PathInfo
unfolding clean valid_path node_by_path state_of_node
get_object_state V like id v p recursive lim cursor db =
    if not (valid_path (clean p))
    then err bad_path
    else elim (node_by_path like id (version_string V v) (clean p) db) [
      | none ↦ err not_found
      | some n ↦ state_of_node n recursive (state_limit lim) cursor db
    ]

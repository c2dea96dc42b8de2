-- ===== src/Sqlite/Nodes.antt =====
-- Nodes and names: the queries GetNodeSum, InsertNode, SetNodeSize and InsertIgnoreName, and
-- getSetNode, addPathtreeChild and addPathtreeNodes of tx.go.
pub mod Rows
pub mod Unique
pub mod Others
use ocfl_index.Base.{
  ℕ, zero, suc, ◌+◌, Bool, true, false, not, ◌&&◌, ◌||◌, Option, none, some, List, [], ◌∷◌, ◌++◌,
  map, ◌==◌, if◌then◌else◌,
}
use ocfl_index.Text.{Str, str_eq}
use ocfl_index.Paging.{sort_by}
use ocfl_index.PathTree.{Node, file, dir, Entries, end, entry, val, is_dir}
use ocfl_index.IndexTree.{IndexingVal, name_of}
use ocfl_index.Sqlite.{NodeRow, NameRow, Db, next_id}

abbrev pub bool_eq : Bool → Bool → Bool
bool_eq true b = b
bool_eq false b = not b

-- WHERE sum = ? AND dir = ?
unfoldable pub is_node : List ℕ → Bool → NodeRow → Bool
is_node sum d r = str_eq r.sum sum && bool_eq r.dir d

-- GetNodeSum
unfoldable pub get_node_sum : List ℕ → Bool → List NodeRow → Option NodeRow
unfolding is_node
get_node_sum sum d [] = none
get_node_sum sum d (r ∷ rs) = if is_node sum d r then some r else get_node_sum sum d rs

abbrev pub null_size : IndexingVal → Option ℕ
null_size v = if v.has_size then some v.size else none

abbrev pub node_id_of : NodeRow → ℕ
node_id_of r = r.id

abbrev pub new_node : IndexingVal → Bool → List NodeRow → NodeRow
new_node v d rs = record {
  id = next_id (map node_id_of rs);
  dir = d;
  sum = v.sum;
  size = null_size v;
}

-- InsertNode
unfoldable pub insert_node : NodeRow → List NodeRow → List NodeRow
insert_node row [] = row ∷ []
insert_node row (r ∷ rs) = r ∷ insert_node row rs

-- SetNodeSize
unfoldable pub set_node_size : IndexingVal → Bool → List NodeRow → List NodeRow
unfolding is_node
set_node_size v d [] = []
set_node_size v d (r ∷ rs) =
    let rest = set_node_size v d rs in
    if is_node v.sum d r then record r { size = null_size v } ∷ rest else r ∷ rest

-- InsertIgnoreName: PRIMARY KEY(parent_id, name)
unfoldable pub has_name : ℕ → Str → List NameRow → Bool
has_name parent name [] = false
has_name parent name (r ∷ rs) =
    (r.parent_id == parent && str_eq r.name name) || has_name parent name rs

unfoldable pub insert_ignore_name : ℕ → ℕ → Str → List NameRow → List NameRow
unfolding has_name
insert_ignore_name node parent name rs =
    if has_name parent name rs
    then rs
    else rs ++ (record { name = name; node_id = node; parent_id = parent } ∷ [])

abbrev pub is_null : Option ℕ → Bool
is_null none = true
is_null (some n) = false

-- What getSetNode returns: the row id, and whether the node was created.
pub record GotNode : Type 0 where
  pub db : Db
  pub id : ℕ
  pub is_new : Bool

unfoldable pub get_set_node : IndexingVal → Bool → Db → GotNode
unfolding get_node_sum insert_node set_node_size next_id
get_set_node v d db = elim (get_node_sum v.sum d db.nodes) [
  | none ↦
      let row = new_node v d db.nodes in
      record { db = record db { nodes = insert_node row db.nodes }; id = row.id; is_new = true }
  | some row ↦ record {
    db =
        if v.has_size && is_null row.size
        then record db { nodes = set_node_size v d db.nodes }
        else db;
    id = row.id;
    is_new = false;
  }
]

-- The name that connects a node with its parent; the root of a tree, whose parent is 0, has none.
unfoldable pub connect : ℕ → ℕ → Str → Db → Db
unfolding insert_ignore_name
connect node parent name db =
    if parent == 0 then db else record db { names = insert_ignore_name node parent name db.names }

unfoldable pub run_all : List (Str × (Db → Db)) → Db → Db
run_all [] db = db
run_all ((n, f) ∷ fs) db = run_all fs (f db)

-- The children follow if the node is new.
abbrev pub follow : Bool → List (Str × (Db → Db)) → Db → ℕ → Db × ℕ
follow true fs db i = (run_all fs db, i)
follow false fs db i = (db, i)

-- addPathtreeChild: a new node's children follow it, in the order of DirEntries; those of a node
-- that was there are taken to be there.
unfoldable mutual
  unfolding get_set_node connect run_all

  pub add_pathtree_child : Node IndexingVal → ℕ → Str → Db → Db × ℕ
  add_pathtree_child (file a v) parent name db =
      let g = get_set_node v false db in (connect g.id parent name g.db, g.id)
  add_pathtree_child (dir a v es) parent name db =
      let g = get_set_node v true db in
      let linked = connect g.id parent name g.db in
      follow g.is_new (sort_by (name_of {A = Db → Db}) (add_children es g.id)) linked g.id

  pub add_children : Entries IndexingVal → ℕ → List (Str × (Db → Db))
  add_children end parent = []
  add_children (entry n ch es) parent =
      (n, λ db. (add_pathtree_child ch parent n db).0) ∷ add_children es parent

-- addPathtreeNodes
unfoldable pub add_pathtree_nodes : Node IndexingVal → Db → Db × ℕ
add_pathtree_nodes tree db = add_pathtree_child tree 0 [] db

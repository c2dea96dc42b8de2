-- ===== src/Sqlite/Lookup.antt =====
-- The recursive queries of internal/sqlite/get_node_by_path.sql and get_node_children.sql. The rows
-- of a recursive table expression are listed depth first; a row that UNION would drop, since it is
-- there already, is listed again, which no result shows. LIKE is a parameter: pattern, then text.
-- A path grows with each step, so rows more than its length deep are not those of the path asked
-- for; a chain of names without a cycle is not longer than the table of names. Below a node that the
-- names lead back to, the query for the files would not end, and the model stops at that depth:
-- names with such a cycle are left out of account.
pub mod Walk
pub mod Among
pub mod Find
pub mod Distinct
pub mod Listed
use ocfl_index.Base.{
  ℕ, zero, suc, Bool, true, false, not, ◌&&◌, ◌||◌, Option, none, some, List, [], ◌∷◌, ◌++◌, map,
  ◌==◌, if◌then◌else◌, length, ℤ, limited,
}
use ocfl_index.Text.{Str, slash, bytes, str_eq}
use ocfl_index.Text.Paths.{dot}
use ocfl_index.Paging.{above, sort_by}
use ocfl_index.Sqlite.{InventoryRow, VersionRow, NodeRow, NameRow, Db}
use ocfl_index.Sqlite.Objects.{inventory_with, node_with}

-- paths(id, path)
pub record PathRow : Type 0 where
  pub id : ℕ
  pub path : Str

abbrev pub row_path : PathRow → Str
row_path r = r.path

unfoldable pub flat_map {ℓ κ} : {A : Type ℓ} {B : Type κ} → (A → List B) → List A → List B
flat_map f [] = []
flat_map f (x ∷ xs) = f x ++ flat_map f xs

-- names.parent_id = i
unfoldable pub names_of : ℕ → List NameRow → List NameRow
names_of i [] = []
names_of i (r ∷ rs) = let rest = names_of i rs in if r.parent_id == i then r ∷ rest else rest

-- COALESCE(NULLIF(?2, ''), invs.head)
abbrev pub or_head : Str → Str → Str
or_head [] head = head
or_head (c ∷ v) head = c ∷ v

unfoldable pub is_version_of : Str → Str → Str → Option InventoryRow → Bool
is_version_of id v name none = false
is_version_of id v name (some inv) = str_eq inv.ocfl_id id && str_eq name (or_head v inv.head)

-- The first rows of `paths`: the root node of the version.
unfoldable pub version_roots : Str → Str → List VersionRow → List InventoryRow → List PathRow
unfolding is_version_of
version_roots id v [] invs = []
version_roots id v (r ∷ rs) invs =
    let rest = version_roots id v rs invs in
    if is_version_of id v r.name (inventory_with r.inventory_id invs)
    then record { id = r.node_id; path = dot } ∷ rest
    else rest

-- COALESCE(NULLIF(paths.path || '/', './'), '') || names.name
unfoldable pub next_path : Str → Str → Str
next_path path name = if str_eq path dot then name else path ++ (slash ∷ name)

module _ (like : Str → Str → Bool) (p : Str) (names : List NameRow) where
  -- WHERE ?3 = next_path OR ?3 LIKE next_path || '/' || '%'
  unfoldable pub is_on_way : Str → Bool
  is_on_way q = str_eq p q || like (q ++ bytes "/%") p

  unfoldable pub child_paths : Str → List NameRow → List PathRow
  unfolding is_on_way next_path
  child_paths path [] = []
  child_paths path (r ∷ rs) =
      let rest = child_paths path rs in
      if is_on_way (next_path path r.name)
      then record { id = r.node_id; path = next_path path r.name } ∷ rest
      else rest

  unfoldable pub expand : ℕ → PathRow → List PathRow
  unfolding child_paths names_of flat_map
  expand zero row = []
  expand (suc fuel) row =
      row ∷ flat_map (expand fuel) (child_paths row.path (names_of row.id names))

-- WHERE paths.path = ?3 LIMIT 1
unfoldable pub id_of_path : Str → List PathRow → Option ℕ
id_of_path p [] = none
id_of_path p (r ∷ rs) = if str_eq r.path p then some r.id else id_of_path p rs

-- The row of the result: the join finds the node of each row, which is a foreign key.
unfoldable pub find_path : Str → List PathRow → List NodeRow → Option NodeRow
unfolding id_of_path node_with
find_path p rows nodes = elim (id_of_path p rows) [ none ↦ none | some i ↦ node_with i nodes ]

-- queryGetNodeByPath: object, version ("" for the head), path
unfoldable pub node_by_path : (Str → Str → Bool) → Str → Str → Str → Db → Option NodeRow
unfolding expand find_path version_roots
node_by_path like id v p db =
    find_path p
      (flat_map (expand like p db.names (suc (suc (length p))))
        (version_roots id v db.versions db.inventories))
      db.nodes

abbrev below_name : Str → PathRow → PathRow
below_name n r = record r { path = n ++ (slash ∷ r.path) }

-- The rows of `paths` below a node.
unfoldable pub descend : ℕ → ℕ → List NameRow → List PathRow
unfolding names_of flat_map
descend zero i names = []
descend (suc fuel) i names =
    flat_map
      (λ r.
        record { id = r.node_id; path = r.name }
        ∷ map (below_name r.name) (descend fuel r.node_id names))
      (names_of i names)

-- A row of the result: the path with the node.
pub record FileRow : Type 0 where
  pub path : Str
  pub node : NodeRow

abbrev pub file_path : FileRow → Str
file_path r = r.path

unfoldable pub file_row : Str → Option NodeRow → List FileRow → List FileRow
file_row path none rest = rest
file_row path (some n) rest = if n.dir then rest else record { path = path; node = n } ∷ rest

-- nodes.dir = FALSE
unfoldable pub file_rows : List PathRow → List NodeRow → List FileRow
unfolding file_row node_with
file_rows [] nodes = []
file_rows (r ∷ rs) nodes = file_row r.path (node_with r.id nodes) (file_rows rs nodes)

-- The files below a node, in no order.
unfoldable pub all_files : ℕ → Db → List FileRow
unfolding descend file_rows
all_files i db = file_rows (descend (suc (length db.names)) i db.names) db.nodes

-- queryGetNodeChildren
unfoldable pub node_children : ℕ → Str → ℤ → Db → List FileRow
unfolding all_files limited above sort_by
node_children i cursor limit db =
    limited limit (above file_path cursor (sort_by file_path (all_files i db)))

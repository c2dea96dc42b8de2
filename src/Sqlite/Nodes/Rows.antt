-- ===== src/Sqlite/Nodes/Rows.antt =====
-- A node keeps its row: what getSetNode does to the table of nodes.
use ocfl_index.Base.{
  ℕ, ◌≡◌, refl, ◌∙◌, Bool, true, false, ◌&&◌, Option, none, some, List, [], ◌∷◌, arith,
  if◌then◌else◌, Option-cases, inl, inr,
}
use ocfl_index.Text.{str_eq_refl}
use ocfl_index.IndexTree.{IndexingVal}
use ocfl_index.Sqlite.{NodeRow, Db}
use ocfl_index.Sqlite.Nodes.{
  is_node, get_node_sum, new_node, insert_node, set_node_size, bool_eq, get_set_node, is_null,
}

-- The row id of a node, by its digest and kind.
unfoldable pub node_id : List ℕ → Bool → List NodeRow → Option ℕ
unfolding is_node
node_id sum d [] = none
node_id sum d (r ∷ rs) = if is_node sum d r then some r.id else node_id sum d rs

-- Every node that was there is there, in the same row.
pub record Extends (db db' : Db) : Type 0 where
  pub keeps :
      (sum : List ℕ) (d : Bool) (i : ℕ)
      → node_id sum d db.nodes ≡ some i
      → node_id sum d db'.nodes ≡ some i

pub Extends-refl : (db : Db) → Extends db db
Extends-refl db = record { keeps = λ sum d i h. h }

pub Extends-trans : (a b c : Db) → Extends a b → Extends b c → Extends a c
Extends-trans a b c h k = record { keeps = λ sum d i e. k.keeps sum d i (h.keeps sum d i e) }

node_id-insert :
    (sum : List ℕ) (d : Bool) (i : ℕ) (row : NodeRow) (rs : List NodeRow)
    → node_id sum d rs ≡ some i
    → node_id sum d (insert_node row rs) ≡ some i
unfolding node_id insert_node
node_id-insert sum d i row [] h = cc
node_id-insert sum d i row (r ∷ rs) h = ground (arith, node_id-insert sum d i row rs)

pub node_id-resize :
    (sum : List ℕ) (d : Bool) (v : IndexingVal) (b : Bool) (rs : List NodeRow)
    → node_id sum d (set_node_size v b rs) ≡ node_id sum d rs
unfolding node_id set_node_size
node_id-resize sum d v b [] = refl
node_id-resize sum d v b (r ∷ rs) = ground (arith, node_id-resize sum d v b rs)

bool_eq_refl : (b : Bool) → bool_eq b b ≡ true
bool_eq_refl true = refl
bool_eq_refl false = refl

node_id-insert_self :
    (row : NodeRow) (rs : List NodeRow)
    → get_node_sum row.sum row.dir rs ≡ none
    → node_id row.sum row.dir (insert_node row rs) ≡ some row.id
unfolding node_id insert_node get_node_sum is_node
node_id-insert_self row [] h = ground (arith, str_eq_refl row.sum, bool_eq_refl row.dir)
node_id-insert_self row (r ∷ rs) h = ground (arith, node_id-insert_self row rs)

pub node_id-get_node_sum :
    (sum : List ℕ) (d : Bool) (rs : List NodeRow) (row : NodeRow)
    → get_node_sum sum d rs ≡ some row
    → node_id sum d rs ≡ some row.id
unfolding node_id get_node_sum
node_id-get_node_sum sum d [] row h = cc
node_id-get_node_sum sum d (r ∷ rs) row h = ground (arith, node_id-get_node_sum sum d rs row)

pub get_set_node_new :
    (v : IndexingVal) (d : Bool) (db : Db)
    → get_node_sum v.sum d db.nodes ≡ none
    → get_set_node v d db ≡ record {
      db = record db { nodes = insert_node (new_node v d db.nodes) db.nodes };
      id = (new_node v d db.nodes).id;
      is_new = true;
    }
unfolding get_set_node
get_set_node_new v d db h = rw (h, get_set_node) refl

pub get_set_node_old :
    (v : IndexingVal) (d : Bool) (db : Db) (row : NodeRow)
    → get_node_sum v.sum d db.nodes ≡ some row
    → get_set_node v d db ≡ record {
      db =
          if v.has_size && is_null row.size
          then record db { nodes = set_node_size v d db.nodes }
          else db;
      id = row.id;
      is_new = false;
    }
unfolding get_set_node
get_set_node_old v d db row h = rw (h, get_set_node) refl

pub if_nodes :
    (b : Bool) (db : Db) (ns : List NodeRow) (sum : List ℕ) (d : Bool)
    → node_id sum d ns ≡ node_id sum d db.nodes
    → node_id sum d (if b then record db { nodes = ns } else db).nodes ≡ node_id sum d db.nodes
if_nodes true db ns sum d h = h
if_nodes false db ns sum d h = refl

pub missing_id :
    (sum : List ℕ) (d : Bool) (rs : List NodeRow)
    → get_node_sum sum d rs ≡ none
    → node_id sum d rs ≡ none
unfolding node_id get_node_sum
missing_id sum d [] h = refl
missing_id sum d (r ∷ rs) h = ground (arith, missing_id sum d rs)

pub get_set_node-Extends :
    (v : IndexingVal) (d : Bool) (db : Db) → Extends db (get_set_node v d db).db
get_set_node-Extends v d db = elim (Option-cases (get_node_sum v.sum d db.nodes)) [
  | inl e ↦
      rw (get_set_node_new v d db e)
        (record { keeps = λ sum b i h. node_id-insert sum b i _ db.nodes h })
  | inr (row, e) ↦ rw (get_set_node_old v d db row e) (record {
    keeps = λ sum b i h. if_nodes _ db _ sum b (node_id-resize sum b v d db.nodes) ∙ h;
  })
]

-- The row that getSetNode returns is the node's.
pub node_id-get_set_node :
    (v : IndexingVal) (d : Bool) (db : Db)
    → node_id v.sum d (get_set_node v d db).db.nodes ≡ some (get_set_node v d db).id
node_id-get_set_node v d db = elim (Option-cases (get_node_sum v.sum d db.nodes)) [
  | inl e ↦ rw (get_set_node_new v d db e) (node_id-insert_self (new_node v d db.nodes) db.nodes e)
  | inr (row, e) ↦ rw (get_set_node_old v d db row e) (
      if_nodes _ db _ v.sum d (node_id-resize v.sum d v d db.nodes)
      ∙ node_id-get_node_sum v.sum d db.nodes row e)
]

-- ===== src/Sqlite/Content/Keys.antt =====
-- What getSetNode does to the tables, told by digests.
use ocfl_index.Base.{
  ℕ, ◌≤◌, ◌<◌, ◌≡◌, ◌≢◌, refl, sym, ◌∙◌, Bool, true, false, ◌&&◌, none, some, List, [], ◌∷◌, map,
  ◌⊎◌, inl, inr, arith, if◌then◌else◌, Bool-cases, Option-cases,
}
use ocfl_index.Text.{str_eq, str_eq→eq}
use ocfl_index.IndexTree.{IndexingVal}
use ocfl_index.Sqlite.{NodeRow, Db, next_id}
use ocfl_index.Sqlite.Nodes.{
  is_node, bool_eq, node_id_of, new_node, insert_node, set_node_size, get_node_sum, get_set_node,
}
use ocfl_index.Sqlite.Nodes.Rows.{
  node_id, node_id-resize, get_set_node_new, get_set_node_old, if_nodes,
}
use ocfl_index.IndexTree.Listing.{Key}
use ocfl_index.Sqlite.Content.{key_at, AreRows}

bool_eq→eq : (a b : Bool) → bool_eq a b ≡ true → a ≡ b
bool_eq→eq true b h = sym h
bool_eq→eq false true h = cc
bool_eq→eq false false h = refl

key_at-resize :
    (i : ℕ) (v : IndexingVal) (d : Bool) (rs : List NodeRow)
    → key_at i (set_node_size v d rs) ≡ key_at i rs
unfolding key_at set_node_size
key_at-resize i v d [] = refl
key_at-resize i v d (r ∷ rs) = ground (arith, key_at-resize i v d rs)

key_at-insert :
    (i : ℕ) (row : NodeRow) (rs : List NodeRow) (x : Key)
    → key_at i rs ≡ some x
    → key_at i (insert_node row rs) ≡ some x
unfolding key_at insert_node
key_at-insert i row [] x h = cc
key_at-insert i row (r ∷ rs) x h = ground (arith, key_at-insert i row rs x)

key_at-insert_self :
    (row : NodeRow) (rs : List NodeRow)
    → key_at row.id rs ≡ none
    → key_at row.id (insert_node row rs) ≡ some (row.dir, row.sum)
unfolding key_at insert_node
key_at-insert_self row [] h = ground arith
key_at-insert_self row (r ∷ rs) h = ground (arith, key_at-insert_self row rs)

-- The next row id is not in use.
key_at-next : (m : ℕ) (rs : List NodeRow) → next_id (map node_id_of rs) ≤ m → key_at m rs ≡ none
unfolding key_at next_id
key_at-next m [] h = refl
key_at-next m (r ∷ rs) h =
    let rest : next_id (map node_id_of rs) ≤ m = omega arith in
    let above : r.id < m = omega arith in ground (arith, key_at-next m rs rest)

next_id-ne-zero : (is : List ℕ) → next_id is ≢ 0
unfolding next_id
next_id-ne-zero [] = omega arith
next_id-ne-zero (i ∷ is) = omega arith

pub node_id-insert_cases :
    (s : List ℕ) (d : Bool) (i : ℕ) (row : NodeRow) (rs : List NodeRow)
    → node_id s d (insert_node row rs) ≡ some i
    → (node_id s d rs ≡ some i) ⊎ ((row.sum ≡ s) × (row.dir ≡ d) × (row.id ≡ i))
unfolding node_id insert_node is_node
node_id-insert_cases s d i row [] h = elim (Bool-cases (str_eq row.sum s && bool_eq row.dir d)) [
  | inr e ↦ cc (rw e at h)
  | inl e ↦
      inr (str_eq→eq row.sum s (ground arith), bool_eq→eq row.dir d (ground arith), ground arith)
]
node_id-insert_cases s d i row (r ∷ rs) h = elim (Bool-cases (is_node s d r)) [
  | inl e ↦ inl (rw e (rw e at h))
  | inr e ↦ rw e (node_id-insert_cases s d i row rs (rw e at h))
]

insert-AreRows :
    (v : IndexingVal) (d : Bool) (rs : List NodeRow)
    → AreRows rs
    → AreRows (insert_node (new_node v d rs) rs)
insert-AreRows v d rs h s b i e =
    let row = new_node v d rs in
    elim (node_id-insert_cases s b i row rs e) [
      | inl old ↦ (key_at-insert i row rs (b, s) (h s b i old).0, (h s b i old).1)
      | inr (es, ed, ei) ↦
          rw (← es, ← ed, ← ei)
            (
              key_at-insert_self row rs (key_at-next row.id rs (omega arith)),
              next_id-ne-zero (map node_id_of rs),
            )
    ]

resize-AreRows :
    (v : IndexingVal) (d b : Bool) (db : Db)
    → AreRows db.nodes
    → AreRows (if b then record db { nodes = set_node_size v d db.nodes } else db).nodes
resize-AreRows v d false db h s c i e = h s c i e
resize-AreRows v d true db h s c i e =
    let old = h s c i (sym (node_id-resize s c v d db.nodes) ∙ e) in
    (key_at-resize i v d db.nodes ∙ old.0, old.1)

pub get_set_node-AreRows :
    (v : IndexingVal) (d : Bool) (db : Db)
    → AreRows db.nodes
    → AreRows (get_set_node v d db).db.nodes
get_set_node-AreRows v d db h = elim (Option-cases (get_node_sum v.sum d db.nodes)) [
  | inl e ↦ rw (get_set_node_new v d db e) (insert-AreRows v d db.nodes h)
  | inr (row, e) ↦ rw (get_set_node_old v d db row e) (resize-AreRows v d _ db h)
]

if_names :
    (b : Bool) (db : Db) (ns : List NodeRow)
    → (if b then record db { nodes = ns } else db).names ≡ db.names
if_names true db ns = refl
if_names false db ns = refl

pub names-get_set_node :
    (v : IndexingVal) (d : Bool) (db : Db) → (get_set_node v d db).db.names ≡ db.names
names-get_set_node v d db = elim (Option-cases (get_node_sum v.sum d db.nodes)) [
  | inl e ↦ rw (get_set_node_new v d db e) refl
  | inr (row, e) ↦ rw (get_set_node_old v d db row e) (if_names _ db _)
]

-- A node that getSetNode adds is one that was there, or the new one.
pub node_id-get_set_node_cases :
    (v : IndexingVal) (d : Bool) (db : Db) (s : List ℕ) (b : Bool) (i : ℕ)
    → node_id s b (get_set_node v d db).db.nodes ≡ some i
    → (node_id s b db.nodes ≡ some i)
      ⊎ ((v.sum ≡ s) × (d ≡ b) × ((get_set_node v d db).is_new ≡ true))
node_id-get_set_node_cases v d db s b i h = elim (Option-cases (get_node_sum v.sum d db.nodes)) [
  | inl e ↦
      let same = get_set_node_new v d db e in
      elim (node_id-insert_cases s b i (new_node v d db.nodes) db.nodes (rw same at h)) [
        | inl old ↦ inl old
        | inr (es, ed, ei) ↦ inr (es, ed, rw same refl)
      ]
  | inr (row, e) ↦ inl (
      sym (if_nodes _ db _ s b (node_id-resize s b v d db.nodes))
      ∙ rw (get_set_node_old v d db row e) at h)
]

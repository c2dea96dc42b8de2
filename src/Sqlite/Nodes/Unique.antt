-- ===== src/Sqlite/Nodes/Unique.antt =====
-- A node keeps its row: what adding a tree does to the table of nodes.
use ocfl_index.Base.{
  ℕ, ◌≡◌, refl, sym, ap, ◌∙◌, Bool, true, false, Option, some, List, [], ◌∷◌, arith, All,
  Option-cases, inl, inr,
}
use ocfl_index.Text.{Str}
use ocfl_index.Paging.{sort_by}
use ocfl_index.Paging.Order.{All-sort_by}
use ocfl_index.PathTree.{Node, file, dir, Entries, end, entry, val, is_dir}
use ocfl_index.IndexTree.{IndexingVal, name_of}
use ocfl_index.Sqlite.{Db}
use ocfl_index.Sqlite.Nodes.{
  get_node_sum, GotNode, get_set_node, connect, run_all, follow, add_pathtree_child, add_children,
  add_pathtree_nodes,
}
use ocfl_index.Sqlite.Nodes.Rows.{
  Extends, node_id, get_set_node-Extends, node_id-get_set_node, missing_id, get_set_node_old,
  node_id-get_node_sum, Extends-refl, Extends-trans,
}

pub nodes-connect : (i p : ℕ) (n : Str) (db : Db) → (connect i p n db).nodes ≡ db.nodes
unfolding connect
nodes-connect i p n db = ground arith

pub connect-Extends : (i p : ℕ) (n : Str) (db : Db) → Extends db (connect i p n db)
connect-Extends i p n db = record { keeps = λ sum d j h. rw (nodes-connect i p n db) h }

Keeping : Str × (Db → Db) → Type 0
Keeping p = (db : Db) → Extends db (p.1 db)

run_all-Extends :
    (fs : List (Str × (Db → Db))) (db : Db) → All Keeping fs → Extends db (run_all fs db)
unfolding run_all Keeping
run_all-Extends [] db h = Extends-refl db
run_all-Extends ((n, f) ∷ fs) db h =
    Extends-trans db (f db) (run_all fs (f db)) (h.0 db) (run_all-Extends fs (f db) h.1)

got_and_linked :
    (v : IndexingVal) (d : Bool) (p : ℕ) (n : Str) (db : Db)
    → let g = get_set_node v d db in Extends db (connect g.id p n g.db)
got_and_linked v d p n db =
    let g = get_set_node v d db in
    Extends-trans db g.db (connect g.id p n g.db) (get_set_node-Extends v d db)
      (connect-Extends g.id p n g.db)

if_run :
    (b : Bool) (fs : List (Str × (Db → Db))) (linked : Db) (i : ℕ)
    → All Keeping fs
    → Extends linked (follow b fs linked i).0
if_run true fs linked i h = run_all-Extends fs linked h
if_run false fs linked i h = Extends-refl linked

mutual
  unfolding add_pathtree_child Keeping

  add_child-Extends :
      (t : Node IndexingVal) (p : ℕ) (n : Str) (db : Db)
      → Extends db (add_pathtree_child t p n db).0
  add_child-Extends (file a v) p n db = got_and_linked v false p n db
  add_child-Extends (dir a v es) p n db =
      let g = get_set_node v true db in
      Extends-trans db (connect g.id p n g.db) _ (got_and_linked v true p n db) (
        if_run g.is_new _ (connect g.id p n g.db) g.id (
          All-sort_by (name_of {A = Db → Db}) Keeping (add_children es g.id)
            (add_children-Keeping es g.id)))

  add_children-Keeping : (es : Entries IndexingVal) (p : ℕ) → All Keeping (add_children es p)
  add_children-Keeping end p = tt
  add_children-Keeping (entry n ch es) p =
      (λ db. add_child-Extends ch p n db, add_children-Keeping es p)

pub follow-id :
    (b : Bool) (fs : List (Str × (Db → Db))) (db : Db) (i : ℕ) → (follow b fs db i).1 ≡ i
follow-id true fs db i = refl
follow-id false fs db i = refl

linked_root :
    (v : IndexingVal) (d : Bool) (p : ℕ) (n : Str) (db : Db)
    → let g = get_set_node v d db in node_id v.sum d (connect g.id p n g.db).nodes ≡ some g.id
linked_root v d p n db =
    let g = get_set_node v d db in rw (nodes-connect g.id p n g.db) (node_id-get_set_node v d db)

-- Adding a tree loses no node and moves none to another row, and the row id that it returns is
-- that of the node with the digest and the kind of the tree's root.
pub add_pathtree_nodes_root :
    (tree : Node IndexingVal) (db : Db)
    → let done = add_pathtree_nodes tree db in
      Extends db done.0 × (node_id (val tree).sum (is_dir tree) done.0.nodes ≡ some done.1)
unfolding add_pathtree_nodes
add_pathtree_nodes_root (file a v) db = (
  add_child-Extends (file a v) 0 [] db,
  unfold add_pathtree_child is_dir in linked_root v false 0 [] db,
)
add_pathtree_nodes_root (dir a v es) db =
    let g = get_set_node v true db in
    let linked = connect g.id 0 [] g.db in
    let fs = sort_by (name_of {A = Db → Db}) (add_children es g.id) in
    let kept : All Keeping fs =
      All-sort_by (name_of {A = Db → Db}) Keeping (add_children es g.id)
        (add_children-Keeping es g.id) in
    (
      add_child-Extends (dir a v es) 0 [] db,
      unfold add_pathtree_child is_dir in
          ((if_run g.is_new fs linked g.id kept).keeps v.sum true g.id (linked_root v true 0 [] db)
            ∙ ap some (sym (follow-id g.is_new fs linked g.id))),
    )

row_of : (i j : ℕ) → ◌≡◌ {A = Option ℕ} (some i) (some j) → i ≡ j
row_of i j h = ground arith

same_db : Db → ℕ → GotNode
same_db db i = record { db = db; id = i; is_new = false }

known_again :
    (v : IndexingVal) (d : Bool) (db : Db) (i : ℕ)
    → v.has_size ≡ false
    → node_id v.sum d db.nodes ≡ some i
    → get_set_node v d db ≡ same_db db i
unfolding same_db
known_again v d db i s h = elim (Option-cases (get_node_sum v.sum d db.nodes)) [
  | inl e ↦ cc (missing_id v.sum d db.nodes e, h)
  | inr (row, e) ↦
      rw (get_set_node_old v d db row e, s)
        (ap (same_db db) (row_of row.id i (sym (node_id-get_node_sum v.sum d db.nodes row e) ∙ h)))
]

connect_root : (i : ℕ) (n : Str) (db : Db) → connect i 0 n db ≡ db
unfolding connect
connect_root i n db = refl

again :
    (t : Node IndexingVal) (db : Db) (i : ℕ)
    → (val t).has_size ≡ false
    → node_id (val t).sum (is_dir t) db.nodes ≡ some i
    → add_pathtree_nodes t db ≡ (db, i)
unfolding add_pathtree_nodes add_pathtree_child is_dir same_db
again (file a v) db i s h = rw (known_again v false db i s h) (rw connect_root refl)
again (dir a v es) db i s h = rw (known_again v true db i s h) (rw connect_root refl)

-- Adding a tree again, without sizes as IndexObjectInventory does, changes nothing in the database
-- and returns the same row id.
pub add_pathtree_nodes_again :
    (tree : Node IndexingVal) (db : Db)
    → (val tree).has_size ≡ false
    → let done = add_pathtree_nodes tree db in add_pathtree_nodes tree done.0 ≡ (done.0, done.1)
add_pathtree_nodes_again tree db s =
    let done = add_pathtree_nodes tree db in
    again tree done.0 done.1 s (add_pathtree_nodes_root tree db).1

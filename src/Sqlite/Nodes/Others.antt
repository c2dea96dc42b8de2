-- ===== src/Sqlite/Nodes/Others.antt =====
-- The tables of versions and inventories, when a tree is added.
use ocfl_index.Base.{
  ℕ, ◌≡◌, refl, ◌∙◌, Bool, true, false, List, [], ◌∷◌, arith, All, Option-cases, inl, inr,
  if◌then◌else◌,
}
use ocfl_index.Text.{Str}
use ocfl_index.Paging.Order.{All-sort_by}
use ocfl_index.PathTree.{Node, file, dir, Entries, end, entry}
use ocfl_index.IndexTree.{IndexingVal, name_of}
use ocfl_index.Sqlite.{NodeRow, Db}
use ocfl_index.Sqlite.Nodes.{
  get_node_sum, get_set_node, connect, run_all, follow, add_pathtree_child, add_children,
  add_pathtree_nodes,
}
use ocfl_index.Sqlite.Nodes.Rows.{get_set_node_new, get_set_node_old}

pub record SameOthers (a b : Db) : Type 0 where
  pub versions : b.versions ≡ a.versions
  pub inventories : b.inventories ≡ a.inventories

same_trans : (a b c : Db) → SameOthers a b → SameOthers b c → SameOthers a c
same_trans a b c g h = record {
  versions = h.versions ∙ g.versions;
  inventories = h.inventories ∙ g.inventories;
}

same_if :
    (b : Bool) (db : Db) (ns : List NodeRow)
    → SameOthers db (if b then record db { nodes = ns } else db)
same_if true db ns = record { versions = refl; inventories = refl }
same_if false db ns = record { versions = refl; inventories = refl }

same_got : (v : IndexingVal) (d : Bool) (db : Db) → SameOthers db (get_set_node v d db).db
same_got v d db = elim (Option-cases (get_node_sum v.sum d db.nodes)) [
  | inl e ↦ rw (get_set_node_new v d db e) (record { versions = refl; inventories = refl })
  | inr (row, e) ↦ rw (get_set_node_old v d db row e) (same_if _ db _)
]

same_connect : (i p : ℕ) (n : Str) (db : Db) → SameOthers db (connect i p n db)
unfolding connect
same_connect i p n db = ground arith

same_linked :
    (v : IndexingVal) (d : Bool) (p : ℕ) (n : Str) (db : Db)
    → let g = get_set_node v d db in SameOthers db (connect g.id p n g.db)
same_linked v d p n db =
    let g = get_set_node v d db in
    same_trans db g.db (connect g.id p n g.db) (same_got v d db) (same_connect g.id p n g.db)

Leaving : Str × (Db → Db) → Type 0
Leaving p = (db : Db) → SameOthers db (p.1 db)

same_run : (fs : List (Str × (Db → Db))) (db : Db) → All Leaving fs → SameOthers db (run_all fs db)
unfolding run_all Leaving
same_run [] db h = record { versions = refl; inventories = refl }
same_run ((n, f) ∷ fs) db h =
    same_trans db (f db) (run_all fs (f db)) (h.0 db) (same_run fs (f db) h.1)

same_follow :
    (b : Bool) (fs : List (Str × (Db → Db))) (db : Db) (i : ℕ)
    → All Leaving fs
    → SameOthers db (follow b fs db i).0
same_follow true fs db i h = same_run fs db h
same_follow false fs db i h = record { versions = refl; inventories = refl }

mutual
  unfolding add_pathtree_child Leaving

  same_child :
      (t : Node IndexingVal) (p : ℕ) (n : Str) (db : Db)
      → SameOthers db (add_pathtree_child t p n db).0
  same_child (file a v) p n db = same_linked v false p n db
  same_child (dir a v es) p n db =
      let g = get_set_node v true db in
      let linked = connect g.id p n g.db in
      same_trans db linked _ (same_linked v true p n db) (
        same_follow g.is_new _ linked g.id (
          All-sort_by (name_of {A = Db → Db}) Leaving (add_children es g.id)
            (children_leave es g.id)))

  children_leave : (es : Entries IndexingVal) (p : ℕ) → All Leaving (add_children es p)
  children_leave end p = tt
  children_leave (entry n ch es) p = (λ db. same_child ch p n db, children_leave es p)

pub add_pathtree_nodes-SameOthers :
    (tree : Node IndexingVal) (db : Db) → SameOthers db (add_pathtree_nodes tree db).0
unfolding add_pathtree_nodes
add_pathtree_nodes-SameOthers tree db = same_child tree 0 [] db

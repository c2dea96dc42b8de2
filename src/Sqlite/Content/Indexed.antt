-- ===== src/Sqlite/Content/Indexed.antt =====
-- IndexObjectInventory on tables that hold what their digests stand for.
use ocfl_index.Base.{
  ℕ, ◌≡◌, refl, some, List, [], ◌∷◌, arith, All, Option-cases, inl, inr, ok, Result-cases,
}
use ocfl_index.Text.{Str}
use ocfl_index.PathTree.{Node}
use ocfl_index.IndexTree.{IndexingVal}
use ocfl_index.IndexTree.Build.{decode_string, path_tree}
use ocfl_index.Sqlite.{Db, empty_db}
use ocfl_index.Sqlite.Roots.{index_object_root_tx}
use ocfl_index.Sqlite.Nodes.{add_pathtree_nodes}
use ocfl_index.Sqlite.Nodes.Rows.{Extends, node_id, Extends-trans}
use ocfl_index.Sqlite.Versions.{Version, VNumbers, insert_version_row, insert_version}
use ocfl_index.Sqlite.Inventories.{
  inventory_row, upsert_inventory, insert_content, index_version, index_versions,
  index_inventory_tx, index_object_inventory, Inventory,
}
use ocfl_index.IndexTree.Listing.{Listing, HasListing, node_key}
use ocfl_index.Sqlite.Content.{IsIndex}
use ocfl_index.Sqlite.Content.Added.{Place, add_child-Linked}

module _ (k : Listing) where
  -- The index stays right and loses no node.
  pub record Keeps (a b : Db) : Type 0 where
    pub index : IsIndex k [] b
    pub extends : Extends a b

  pub Keeps-trans : (a b c : Db) → Keeps a b → Keeps b c → Keeps a c
  Keeps-trans a b c g h = record {
    index = h.index;
    extends = Extends-trans a b c g.extends h.extends;
  }

  -- The other tables do not matter.
  pub same_tables : (a b : Db) → IsIndex k [] a → a.nodes ≡ b.nodes → a.names ≡ b.names → Keeps a b
  same_tables a b ix nodes names = record {
    index = record {
      named = rw (← nodes, ← names) ix.named;
      rows = rw (← nodes) ix.rows;
      table = rw (← names) ix.table;
      whole = λ s i n x h closed listed. rw (← names) (ix.whole s i n x (rw nodes h) closed listed);
    };
    extends = record { keeps = λ s d i h. rw (← nodes) h };
  }

  pub empty_db-IsIndex : IsIndex k [] empty_db
  unfolding node_id
  empty_db-IsIndex = record {
    named = tt;
    rows = λ s d i h. cc;
    table = record { distinct = tt; plain = tt };
    whole = λ s i n x h. cc;
  }

  pub add_pathtree_nodes-Keeps :
      (tree : Node IndexingVal) (db : Db)
      → HasListing k tree
      → IsIndex k [] db
      → Keeps db (add_pathtree_nodes tree db).0
  unfolding add_pathtree_nodes Place
  add_pathtree_nodes-Keeps tree db h ix =
      let l = add_child-Linked k tree [] 0 [] db h ix (inl refl) in
      record { index = l.grown.index; extends = l.grown.extends }

  pub add_pathtree_nodes-node_id :
      (tree : Node IndexingVal) (db : Db)
      → HasListing k tree
      → IsIndex k [] db
      → let done = add_pathtree_nodes tree db in
        node_id (node_key tree).1 (node_key tree).0 done.0.nodes ≡ some done.1
  unfolding add_pathtree_nodes Place
  add_pathtree_nodes-node_id tree db h ix =
      (add_child-Linked k tree [] 0 [] db h ix (inl refl)).root

-- A step that changes none of the two tables.
pub record SameTables (a b : Db) : Type 0 where
  pub nodes : a.nodes ≡ b.nodes
  pub names : a.names ≡ b.names

pub insert_row_same :
    (V : VNumbers) (v : VNumbers.VNum V) (ver : Version) (inv node : ℕ) (a b : Db)
    → insert_version V v ver inv node a ≡ ok b
    → SameTables a b
unfolding insert_version insert_version_row
insert_row_same V v ver inv node a b h = ground arith

pub content_same :
    (ms : List (Str × Str)) (inv : ℕ) (a b : Db) → insert_content ms inv a ≡ ok b → SameTables a b
unfolding insert_content
content_same [] inv a b h = ground arith
content_same ((name, digest) ∷ ms) inv a b h = elim (Option-cases (decode_string digest)) [
  | inl e ↦ cc (rw (e, insert_content) at h)
  | inr (sum, e) ↦
      let rest = content_same ms inv _ b (rw (e, insert_content) at h) in
      record { nodes = rest.nodes; names = rest.names }
]

pub root_same :
    (now idx_at : ℕ) (path : Str) (a b : Db) (i : ℕ)
    → index_object_root_tx now path idx_at a ≡ ok (b, i)
    → SameTables a b
unfolding index_object_root_tx
root_same now idx_at path a b i h = ground arith

module _ (V : VNumbers) (hash : Str → List ℕ) (k : Listing) where
  open V use {VNum}

  -- The tree of each version, if it can be built, has what its digests stand for.
  abbrev pub AreListed : List (VNum × (Version × List (Str × Str))) → Type 0
  AreListed = All (λ p.
      (t : Node IndexingVal) → path_tree hash (λ q. []) [] (some p.1.1) ≡ ok t → HasListing k t)

  pub index_version-Keeps :
      (inv : ℕ) (v : VNum) (ver : Version) (state : List (Str × Str)) (a b : Db)
      → ((t : Node IndexingVal) → path_tree hash (λ q. []) [] (some state) ≡ ok t → HasListing k t)
      → IsIndex k [] a
      → index_version V hash inv v ver state a ≡ ok b
      → Keeps k a b
  unfolding index_version
  index_version-Keeps inv v ver state a b h ix e =
      elim (Result-cases (path_tree hash (λ q. []) [] (some state))) [
        | inr (inl (x, failed)) ↦ cc (rw (failed, index_version) at e)
        | inr (inr failed) ↦ cc (rw (failed, index_version) at e)
        | inl (tree, built) ↦
            let done = add_pathtree_nodes tree a in
            let added = add_pathtree_nodes-Keeps k tree a (h tree built) ix in
            let same =
              insert_row_same V v ver inv done.1 done.0 b (rw (built, index_version) at e) in
            Keeps-trans k a done.0 b added
              (same_tables k done.0 b added.index same.nodes same.names)
      ]

  pub index_versions-Keeps :
      (inv : ℕ) (vs : List (VNum × (Version × List (Str × Str)))) (a b : Db)
      → AreListed vs
      → IsIndex k [] a
      → index_versions V hash inv vs a ≡ ok b
      → Keeps k a b
  unfolding index_versions
  index_versions-Keeps inv [] a b h ix e = same_tables k a b ix (ground arith) (ground arith)
  index_versions-Keeps inv ((v, p) ∷ vs) a b h ix e =
      elim (Result-cases (index_version V hash inv v p.0 p.1 a)) [
        | inr (inl (x, failed)) ↦ cc (rw (failed, index_versions) at e)
        | inr (inr failed) ↦ cc (rw (failed, index_versions) at e)
        | inl (c, done) ↦
            let one = index_version-Keeps inv v p.0 p.1 a c h.0 ix done in
            Keeps-trans k a c b one
              (index_versions-Keeps inv vs c b h.1 one.index (rw (done, index_versions) at e))
      ]

  index_inventory_tx-Keeps :
      (root : ℕ) (inv : Inventory V hash) (a b : Db)
      → AreListed inv.versions
      → IsIndex k [] a
      → index_inventory_tx V hash root inv a ≡ ok b
      → Keeps k a b
  unfolding index_inventory_tx
  index_inventory_tx-Keeps root inv a b h ix e =
      elim (Result-cases (upsert_inventory (inventory_row V hash root inv) a.inventories)) [
        | inr (inl (x, failed)) ↦ cc (rw (failed, index_inventory_tx) at e)
        | inr (inr failed) ↦ cc (rw (failed, index_inventory_tx) at e)
        | inl (done, upserted) ↦
            let a' : Db = record a { inventories = done.0 } in
            let start = same_tables k a a' ix refl refl in
            let e' = rw (upserted, index_inventory_tx) at e in
            elim (Result-cases (index_versions V hash done.1 inv.versions a')) [
              | inr (inl (x, failed)) ↦ cc (rw failed at e')
              | inr (inr failed) ↦ cc (rw failed at e')
              | inl (c, built) ↦
                  let versions =
                    index_versions-Keeps done.1 inv.versions a' c h start.index built in
                  let same = content_same inv.manifest done.1 c b (rw built at e') in
                  Keeps-trans k a c b (Keeps-trans k a a' c start versions)
                    (same_tables k c b versions.index same.nodes same.names)
            ]
      ]

  -- Where the tables of nodes and names hold what their digests stand for, and the directories of
  -- the trees of the inventory's versions have what their digests stand for, an
  -- IndexObjectInventory that succeeds leaves such tables: the names of each directory are those
  -- that its digest stands for, all of them, each once and with the node of that kind and digest.
  -- Every node that was there keeps its row.
  pub index_object_inventory-Keeps :
      (now idx_at : ℕ) (path : Str) (inv : Inventory V hash) (a b : Db)
      → AreListed inv.versions
      → IsIndex k [] a
      → index_object_inventory V hash now idx_at path inv a ≡ ok b
      → Keeps k a b
  unfolding index_object_inventory
  index_object_inventory-Keeps now idx_at path inv a b h ix e =
      elim (Result-cases (index_object_root_tx now path idx_at a)) [
        | inr (inl (x, failed)) ↦ cc (rw (failed, index_object_inventory) at e)
        | inr (inr failed) ↦ cc (rw (failed, index_object_inventory) at e)
        | inl (done, rooted) ↦
            let same = root_same now idx_at path a done.0 done.1 rooted in
            let start = same_tables k a done.0 ix same.nodes same.names in
            Keeps-trans k a done.0 b start (
              index_inventory_tx-Keeps done.1 inv done.0 b h start.index
                (rw (rooted, index_object_inventory) at e))
      ]

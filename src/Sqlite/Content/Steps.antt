-- ===== src/Sqlite/Content/Steps.antt =====
-- What getSetNode and connect leave of the tables, and what adding a list of children does.
use ocfl_index.Base.{ℕ, ◌≡◌, ap, Bool, true, false, List, [], ◌∷◌, ◌⊎◌, inl, inr, All}
use ocfl_index.Text.{Str}
use ocfl_index.IndexTree.{IndexingVal}
use ocfl_index.Sqlite.{NameRow, Db}
use ocfl_index.Sqlite.Nodes.{get_set_node, connect}
use ocfl_index.Sqlite.Nodes.Rows.{Extends, get_set_node-Extends}
use ocfl_index.Sqlite.Nodes.Unique.{nodes-connect}
use ocfl_index.IndexTree.Listing.{IsPlainName, Listing}
use ocfl_index.Sqlite.Content.{IsChild, IsRight, is_open, IsIndex}
use ocfl_index.Sqlite.Content.Keys.{
  get_set_node-AreRows, names-get_set_node, node_id-get_set_node_cases,
}
use ocfl_index.Sqlite.Content.Names.{has_name-connect, All-connect, connect-IsNameTable}

module _ (k : Listing) where
  pub IsChild-Extends :
      (a b : Db) (p : ℕ) (n : Str) (i : ℕ)
      → Extends a b
      → IsChild k a.nodes p n i
      → IsChild k b.nodes p n i
  IsChild-Extends a b p n i e (s, x, parent, listed, there) =
      (s, x, e.keeps s true p parent, listed, e.keeps x.1 x.0 i there)

  pub All-IsRight :
      (a b : Db) (rs : List NameRow)
      → Extends a b
      → All (IsRight k a.nodes) rs
      → All (IsRight k b.nodes) rs
  All-IsRight a b [] e h = tt
  All-IsRight a b (r ∷ rs) e h =
      (IsChild-Extends a b r.parent_id r.name r.node_id e h.0, All-IsRight a b rs e h.1)

  -- getSetNode leaves a new directory open.
  pub got-IsIndex :
      (v : IndexingVal) (d : Bool) (db : Db) (before after : List (List ℕ))
      → IsIndex k before db
      → ((s : List ℕ) → is_open s after ≡ false → is_open s before ≡ false)
      → (d ≡ true → (get_set_node v d db).is_new ≡ true → is_open v.sum after ≡ true)
      → IsIndex k after (get_set_node v d db).db
  got-IsIndex v d db before after ix fewer new = record {
    named =
        rw (names-get_set_node v d db)
          (All-IsRight db (get_set_node v d db).db db.names (get_set_node-Extends v d db) ix.named);
    rows = get_set_node-AreRows v d db ix.rows;
    table = rw (names-get_set_node v d db) ix.table;
    whole = λ s i n x e closed listed.
        rw (names-get_set_node v d db) elim (node_id-get_set_node_cases v d db s true i e) [
          | inl old ↦ ix.whole s i n x old (fewer s closed) listed
          | inr (es, ed, is_new) ↦ cc (new ed is_new, closed, ap (λ t. is_open t after) es)
        ];
  }

  pub connect-IsIndex :
      (i p : ℕ) (n : Str) (db : Db) (opened : List (List ℕ))
      → IsIndex k opened db
      → ((p ≡ 0) ⊎ IsChild k db.nodes p n i)
      → ((p ≡ 0) ⊎ IsPlainName n)
      → IsIndex k opened (connect i p n db)
  connect-IsIndex i p n db opened ix child plain = record {
    named = rw (nodes-connect i p n db) (All-connect (IsRight k db.nodes) i p n db ix.named child);
    rows = rw (nodes-connect i p n db) ix.rows;
    table = connect-IsNameTable i p n db ix.table plain;
    whole = λ s j m x e closed listed.
        has_name-connect i p j n m db
          (ix.whole s j m x (rw (nodes-connect i p n db) at e) closed listed);
  }

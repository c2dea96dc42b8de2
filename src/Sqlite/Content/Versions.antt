-- ===== src/Sqlite/Content/Versions.antt =====
-- The version rows that IndexObjectInventory adds for an object that is new to the index.
use ocfl_index.Base.{
  ℕ, ◌≡◌, ◌≢◌, refl, sym, ap, ◌∙◌, none, some, List, [], ◌∷◌, ◌++◌, arith, All, inl, inr, ok,
  Result-cases,
}
use mathlib.Core.List.{append_assoc, append-nil}
use ocfl_index.Text.{Str}
use ocfl_index.PathTree.{Node}
use ocfl_index.IndexTree.{IndexingVal}
use ocfl_index.IndexTree.Build.{path_tree}
use ocfl_index.IndexTree.Listing.{Listing, HasListing, node_key}
use ocfl_index.Sqlite.{VersionRow, Db}
use ocfl_index.Sqlite.Nodes.{add_pathtree_nodes}
use ocfl_index.Sqlite.Nodes.Rows.{Extends, node_id}
use ocfl_index.Sqlite.Nodes.Others.{add_pathtree_nodes-SameOthers}
use ocfl_index.Sqlite.Versions.{Version, VNumbers, version_num, version_row, get_version}
use ocfl_index.Sqlite.Inventories.{index_version, index_versions}
use ocfl_index.Sqlite.Content.{IsIndex}
use ocfl_index.Sqlite.Content.Indexed.{
  AreListed, add_pathtree_nodes-node_id, index_version-Keeps, index_versions-Keeps, insert_row_same,
}
use ocfl_index.Sqlite.Content.Fresh.{get_version-append, insert_version_fresh}

module _ (V : VNumbers) (hash : Str → List ℕ) where
  open V use {VNum, num, string}

  -- A version of an inventory: its number, and its details with its state.
  abbrev pub VersionEntry : Type 0
  VersionEntry = VNum × (Version × List (Str × Str))

  -- The versions have distinct numbers, each the number that its text stands for.
  abbrev pub AreNumbered : List VersionEntry → Type 0
  AreNumbered [] = Unit {0}
  AreNumbered (x ∷ xs) =
      (version_num (string x.0) ≡ num x.0)
      × (string x.0 ≢ [])
      × All (λ y. num x.0 ≢ num y.0) xs
      × AreNumbered xs

  -- The node of a version: the root of its tree.
  abbrev pub HasRoot : VersionEntry → Db → ℕ → Type 0
  HasRoot x b node =
      (t : Node IndexingVal) × (path_tree hash (λ q. []) [] (some x.1.1) ≡ ok t)
      × (node_id (node_key t).1 (node_key t).0 b.nodes ≡ some node)

  module _ (i : ℕ) where
    -- The rows of the versions, in their order.
    abbrev pub Matches : List VersionEntry → List VersionRow → Db → Type 0
    Matches [] [] b = Unit {0}
    Matches [] (r ∷ rs) b = ⊥
    Matches (x ∷ xs) [] b = ⊥
    Matches (x ∷ xs) (r ∷ rs) b =
        (r.inventory_id ≡ i) × (r.name ≡ string x.0) × HasRoot x b r.node_id × Matches xs rs b

    abbrev AreNew : List VersionEntry → List VersionRow → Type 0
    AreNew xs rs = All (λ y. get_version i (num y.0) rs ≡ none) xs

    still_new :
        (n : ℕ) (row : VersionRow) (xs : List VersionEntry) (rs : List VersionRow)
        → row.num ≡ n
        → All (λ y. n ≢ num y.0) xs
        → AreNew xs rs
        → AreNew xs (rs ++ (row ∷ []))
    still_new n row [] rs e h new = tt
    still_new n row (y ∷ xs) rs e h new = (
      get_version-append i (num y.0) rs row new.0 (λ same. h.0 (sym e ∙ same)),
      still_new n row xs rs e h.1 new.1,
    )

    module _ (k : Listing) where
      record OneAdded (x : VersionEntry) (a b : Db) : Type 0 where
        node : ℕ
        root : HasRoot x b node
        versions : b.versions ≡ a.versions ++ (version_row V x.0 x.1.0 i node ∷ [])
        inventories : b.inventories ≡ a.inventories

      index_version_fresh :
          (x : VersionEntry) (a b : Db)
          → ((t : Node IndexingVal)
              → path_tree hash (λ q. []) [] (some x.1.1) ≡ ok t
              → HasListing k t)
          → IsIndex k [] a
          → get_version i (num x.0) a.versions ≡ none
          → index_version V hash i x.0 x.1.0 x.1.1 a ≡ ok b
          → OneAdded x a b
      unfolding index_version
      index_version_fresh x a b h ix new e =
          elim (Result-cases (path_tree hash (λ q. []) [] (some x.1.1))) [
            | inr (inl (y, failed)) ↦ cc (rw (failed, index_version) at e)
            | inr (inr failed) ↦ cc (rw (failed, index_version) at e)
            | inl (t, built) ↦
                let done = add_pathtree_nodes t a in
                let e' = rw (built, index_version) at e in
                let others = add_pathtree_nodes-SameOthers t a in
                let added =
                  insert_version_fresh V x.0 x.1.0 i done.1 done.0 b (rw others.versions new) e' in
                let same = insert_row_same V x.0 x.1.0 i done.1 done.0 b e' in
                record {
                  node = done.1;
                  root = (
                    t,
                    built,
                    rw (← same.nodes) (add_pathtree_nodes-node_id k t a (h t built) ix),
                  );
                  versions =
                      added.0
                      ∙ ap (λ r. r ++ (version_row V x.0 x.1.0 i done.1 ∷ [])) others.versions;
                  inventories = added.1 ∙ others.inventories;
                }
          ]

      HasRoot-Extends :
          (x : VersionEntry) (a b : Db) (node : ℕ)
          → Extends a b
          → HasRoot x a node
          → HasRoot x b node
      HasRoot-Extends x a b node ext (t, built, there) =
          (t, built, ext.keeps (node_key t).1 (node_key t).0 node there)

      -- The rows that the versions of a new object get, and nothing else.
      pub index_versions_fresh :
          (xs : List VersionEntry) (a b : Db)
          → AreListed V hash k xs
          → IsIndex k [] a
          → AreNumbered xs
          → AreNew xs a.versions
          → index_versions V hash i xs a ≡ ok b
          → (rows : List VersionRow) × (b.versions ≡ a.versions ++ rows)
            × (b.inventories ≡ a.inventories)
            × Matches xs rows b
      unfolding index_versions
      index_versions_fresh [] a b h ix num new e =
          let same : a ≡ b = ground arith in
          ([], rw (← same) (sym (append-nil a.versions)), rw (← same) refl, tt)
      index_versions_fresh (x ∷ xs) a b h ix nums new e =
          elim (Result-cases (index_version V hash i x.0 x.1.0 x.1.1 a)) [
            | inr (inl (y, failed)) ↦ cc (rw (failed, index_versions) at e)
            | inr (inr failed) ↦ cc (rw (failed, index_versions) at e)
            | inl (c, done) ↦
                let e' = rw (done, index_versions) at e in
                let one = index_version_fresh x a c h.0 ix new.0 done in
                let row = version_row V x.0 x.1.0 i one.node in
                let ixc = (index_version-Keeps V hash k i x.0 x.1.0 x.1.1 a c h.0 ix done).index in
                let later = index_versions-Keeps V hash k i xs c b h.1 ixc e' in
                let (rows, vs, invs, rest) =
                  index_versions_fresh xs c b h.1 ixc nums.3
                    (rw one.versions (still_new (num x.0) row xs a.versions nums.0 nums.2 new.1))
                    e' in
                (
                  row ∷ rows,
                  vs ∙ ap (λ r. r ++ rows) one.versions ∙ append_assoc a.versions (row ∷ []) rows,
                  invs ∙ one.inventories,
                  (refl, refl, HasRoot-Extends x c b one.node later.extends one.root, rest),
                )
          ]

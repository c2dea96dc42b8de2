-- ===== src/Sqlite/Content/Joined.antt =====
-- The rows that IndexObjectInventory adds for an object that is new to the index.
use ocfl_index.Base.{
  ℕ, ◌≡◌, refl, ap, ◌∙◌, none, List, [], ◌∷◌, ◌++◌, map, arith, All, Option-cases, inl, inr, ok,
  Result-cases,
}
use mathlib.Core.Path.{subst}
use ocfl_index.Text.{Str}
use ocfl_index.IndexTree.Build.{decode_string}
use ocfl_index.IndexTree.Listing.{Listing}
use ocfl_index.Sqlite.{InventoryRow, VersionRow, Db, next_id}
use ocfl_index.Sqlite.Roots.{index_object_root_tx}
use ocfl_index.Sqlite.Versions.{VNumbers, get_version}
use ocfl_index.Sqlite.Inventories.{
  find_inventory, inventory_id, Inventory, inventory_row, upsert_inventory, insert_content,
  index_versions, index_inventory_tx, index_object_inventory,
}
use ocfl_index.Sqlite.Content.{IsIndex}
use ocfl_index.Sqlite.Content.Indexed.{AreListed, root_same, same_tables}
use ocfl_index.Sqlite.Content.Fresh.{with_id, upsert_fresh, Refer, old_versions}
use ocfl_index.Sqlite.Content.Versions.{VersionEntry, AreNumbered, Matches, index_versions_fresh}

content_rows :
    (ms : List (Str × Str)) (inv : ℕ) (a b : Db)
    → insert_content ms inv a ≡ ok b
    → (b.versions ≡ a.versions) × (b.inventories ≡ a.inventories) × (b.nodes ≡ a.nodes)
unfolding insert_content
content_rows [] inv a b h = ground arith
content_rows ((name, digest) ∷ ms) inv a b h = elim (Option-cases (decode_string digest)) [
  | inl e ↦ cc (rw (e, insert_content) at h)
  | inr (sum, e) ↦ content_rows ms inv _ b (rw (e, insert_content) at h)
]

root_rows :
    (now idx_at : ℕ) (path : Str) (a b : Db) (i : ℕ)
    → index_object_root_tx now path idx_at a ≡ ok (b, i)
    → (b.versions ≡ a.versions) × (b.inventories ≡ a.inventories)
unfolding index_object_root_tx
root_rows now idx_at path a b i h = ground arith

module _ (V : VNumbers) (hash : Str → List ℕ) (k : Listing) where
  all_new :
      (rs : List VersionRow) (vs : List InventoryRow) (xs : List (VersionEntry V hash)) (i : ℕ)
      → Refer vs rs
      → i ≡ next_id (map inventory_id vs)
      → All (λ y. get_version i (VNumbers.num V y.0) rs ≡ none) xs
  all_new rs vs [] i refs e = tt
  all_new rs vs (x ∷ xs) i refs e =
      (rw e (old_versions (VNumbers.num V x.0) rs vs refs), all_new rs vs xs i refs e)

  -- What indexing an object that is new to the index adds: one inventory with the next row id, and
  -- rows that belong to it, one for each version.
  pub record Joined (row : InventoryRow) (xs : List (VersionEntry V hash)) (a b : Db) : Type 0 where
    pub rows : List VersionRow
    pub versions : b.versions ≡ a.versions ++ rows
    pub inventories :
        b.inventories
        ≡ a.inventories ++ (with_id (next_id (map inventory_id a.inventories)) row ∷ [])
    pub matches : Matches V hash (next_id (map inventory_id a.inventories)) xs rows b

  Matches-moved :
      (i : ℕ) (xs : List (VersionEntry V hash)) (rows : List VersionRow) (c b : Db)
      → b.nodes ≡ c.nodes
      → Matches V hash i xs rows c
      → Matches V hash i xs rows b
  Matches-moved i [] [] c b e m = tt
  Matches-moved i [] (r ∷ rows) c b e m = absurd m
  Matches-moved i (x ∷ xs) [] c b e m = absurd m
  Matches-moved i (x ∷ xs) (r ∷ rows) c b e m =
      let (t, built, there) = m.2 in
      (m.0, m.1, (t, built, rw e there), Matches-moved i xs rows c b e m.3)

  versions-Joined :
      (row : InventoryRow) (xs : List (VersionEntry V hash)) (a c : Db) (vs : List InventoryRow)
      (i : ℕ)
      → AreListed V hash k xs
      → IsIndex k [] a
      → Refer a.inventories a.versions
      → AreNumbered V hash xs
      → vs ≡ a.inventories ++ (with_id (next_id (map inventory_id a.inventories)) row ∷ [])
      → i ≡ next_id (map inventory_id a.inventories)
      → index_versions V hash i xs (record a { inventories = vs }) ≡ ok c
      → Joined row xs a c
  versions-Joined row xs a c vs i h ix refs nums evs ei e =
      let a' : Db = record a { inventories = vs } in
      let (rows, versions, invs, matches) =
        index_versions_fresh V hash i k xs a' c h (same_tables k a a' ix refl refl).index nums
          (all_new a.versions a.inventories xs i refs ei) e in
      record {
        rows = rows;
        versions = versions;
        inventories = invs ∙ evs;
        matches = subst (λ n. Matches V hash n xs rows c) ei matches;
      }

  tx-Joined :
      (root : ℕ) (inv : Inventory V hash) (a b : Db)
      → AreListed V hash k inv.versions
      → IsIndex k [] a
      → Refer a.inventories a.versions
      → find_inventory inv.id a.inventories ≡ none
      → AreNumbered V hash inv.versions
      → index_inventory_tx V hash root inv a ≡ ok b
      → Joined (inventory_row V hash root inv) inv.versions a b
  unfolding index_inventory_tx
  tx-Joined root inv a b h ix refs new nums e =
      let row = inventory_row V hash root inv in
      elim (Result-cases (upsert_inventory row a.inventories)) [
        | inr (inl (y, failed)) ↦ cc (rw (failed, index_inventory_tx) at e)
        | inr (inr failed) ↦ cc (rw (failed, index_inventory_tx) at e)
        | inl (done, upserted) ↦
            let e' = rw (upserted, index_inventory_tx) at e in
            let (evs, ei) = upsert_fresh row a.inventories done.0 done.1 new upserted in
            elim (Result-cases
              (index_versions V hash done.1 inv.versions (record a { inventories = done.0 }))) [
                | inr (inl (y, failed)) ↦ cc (rw failed at e')
                | inr (inr failed) ↦ cc (rw failed at e')
                | inl (c, built) ↦
                    let j =
                      versions-Joined row inv.versions a c done.0 done.1 h ix refs nums evs ei
                        built in
                    let (vs, invs, nodes) = content_rows inv.manifest done.1 c b (rw built at e') in
                    record {
                      rows = j.rows;
                      versions = vs ∙ j.versions;
                      inventories = invs ∙ j.inventories;
                      matches = Matches-moved _ inv.versions j.rows c b nodes j.matches;
                    }
              ]
      ]

  pub object-Joined :
      (now idx_at : ℕ) (path : Str) (inv : Inventory V hash) (a b : Db)
      → AreListed V hash k inv.versions
      → IsIndex k [] a
      → Refer a.inventories a.versions
      → find_inventory inv.id a.inventories ≡ none
      → AreNumbered V hash inv.versions
      → index_object_inventory V hash now idx_at path inv a ≡ ok b
      → (root : ℕ) × Joined (inventory_row V hash root inv) inv.versions a b
  unfolding index_object_inventory
  object-Joined now idx_at path inv a b h ix refs new nums e =
      elim (Result-cases (index_object_root_tx now path idx_at a)) [
        | inr (inl (y, failed)) ↦ cc (rw (failed, index_object_inventory) at e)
        | inr (inr failed) ↦ cc (rw (failed, index_object_inventory) at e)
        | inl (done, rooted) ↦
            let same = root_same now idx_at path a done.0 done.1 rooted in
            let (vs, invs) = root_rows now idx_at path a done.0 done.1 rooted in
            let j =
              tx-Joined done.1 inv done.0 b h
                (same_tables k a done.0 ix same.nodes same.names).index (rw (vs, invs) refs)
                (rw invs new) nums (rw (rooted, index_object_inventory) at e) in
            (
              done.1,
              record {
                rows = j.rows;
                versions = j.versions ∙ ap (λ rs. rs ++ j.rows) vs;
                inventories =
                    subst
                      (λ q.
                        b.inventories
                        ≡ q
                          ++ (with_id (next_id (map inventory_id q))
                                (inventory_row V hash done.1 inv)
                              ∷ []))
                      invs j.inventories;
                matches =
                    subst (λ q. Matches V hash (next_id (map inventory_id q)) inv.versions j.rows b)
                      invs j.matches;
              },
            )
      ]

-- ===== src/Sqlite/Content/NewObject.antt =====
-- The versions of an object that is new to the index, once IndexObjectInventory has indexed it, and
-- their root nodes.
use ocfl_index.Base.{ℕ, ◌≡◌, refl, ap, ◌∙◌, none, some, List, [], ◌∷◌, ◌++◌, map, All, ok}
use ocfl_index.Text.{Str}
use ocfl_index.Text.Paths.{dot}
use ocfl_index.IndexTree.Listing.{Listing}
use ocfl_index.Sqlite.{InventoryRow, VersionRow, Db, next_id}
use ocfl_index.Sqlite.Versions.{VNumbers}
use ocfl_index.Sqlite.Objects.{inventory_with}
use ocfl_index.Sqlite.Inventories.{
  find_inventory, inventory_id, Inventory, inventory_row, index_object_inventory,
}
use ocfl_index.Sqlite.Lookup.{version_roots}
use ocfl_index.Sqlite.Content.{IsIndex}
use ocfl_index.Sqlite.Content.Indexed.{AreListed}
use ocfl_index.Sqlite.Content.Fresh.{with_id, with_next, Refer, old_roots, version_roots-append}
use ocfl_index.Sqlite.Content.Rooted.{all_rooted}
use ocfl_index.Sqlite.Content.Versions.{VersionEntry, AreNumbered, HasRoot}
use ocfl_index.Sqlite.Content.Joined.{Joined, object-Joined}

module _ (V : VNumbers) (hash : Str → List ℕ) (k : Listing) where
  -- Each version has one root node in the database, that of its tree.
  abbrev pub Rooted : Str → Db → VersionEntry V hash → Type 0
  Rooted id b x =
      (node : ℕ) × HasRoot V hash x b node
      × (version_roots id (VNumbers.string V x.0) b.versions b.inventories
          ≡ record { id = node; path = dot } ∷ [])

  with_rows :
      (id : Str) (old rows : List VersionRow) (b : Db) (xs : List (VersionEntry V hash))
      → b.versions ≡ old ++ rows
      → ((s : Str) → version_roots id s old b.inventories ≡ [])
      → All
          (λ x.
            (node : ℕ) × HasRoot V hash x b node
            × (version_roots id (VNumbers.string V x.0) rows b.inventories
                ≡ record { id = node; path = dot } ∷ []))
          xs
      → All (Rooted id b) xs
  with_rows id old rows b [] e h r = tt
  with_rows id old rows b (x ∷ xs) e h r =
      let (node, root, found) = r.0 in
      (
        (
          node,
          root,
          ap (λ vs. version_roots id (VNumbers.string V x.0) vs b.inventories) e
              ∙ version_roots-append id (VNumbers.string V x.0) old rows b.inventories
              ∙ ap (λ q. q ++ version_roots id (VNumbers.string V x.0) rows b.inventories)
                  (h (VNumbers.string V x.0))
              ∙ found,
        ),
        with_rows id old rows b xs e h r.1,
      )

  pub Joined-Rooted :
      (row : InventoryRow) (xs : List (VersionEntry V hash)) (a b : Db)
      → Refer a.inventories a.versions
      → find_inventory row.ocfl_id a.inventories ≡ none
      → AreNumbered V hash xs
      → Joined V hash k row xs a b
      → All (Rooted row.ocfl_id b) xs
  Joined-Rooted row xs a b refs new nums j =
      let i = next_id (map inventory_id a.inventories) in
      let x = with_id i row in
      let there : inventory_with i b.inventories ≡ some x =
        rw j.inventories (with_next row a.inventories) in
      with_rows row.ocfl_id a.versions j.rows b xs j.versions
        (λ s. rw j.inventories (old_roots row.ocfl_id s a.versions a.inventories x new refs))
        (all_rooted V hash i row.ocfl_id b.inventories x there refl xs j.rows b nums j.matches)

  pub object-Rooted :
      (now idx_at : ℕ) (path : Str) (inv : Inventory V hash) (a b : Db)
      → AreListed V hash k inv.versions
      → IsIndex k [] a
      → Refer a.inventories a.versions
      → find_inventory inv.id a.inventories ≡ none
      → AreNumbered V hash inv.versions
      → index_object_inventory V hash now idx_at path inv a ≡ ok b
      → All (Rooted inv.id b) inv.versions
  object-Rooted now idx_at path inv a b h ix refs new nums e =
      let (root, j) = object-Joined V hash k now idx_at path inv a b h ix refs new nums e in
      Joined-Rooted (inventory_row V hash root inv) inv.versions a b refs new nums j

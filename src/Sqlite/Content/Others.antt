-- ===== src/Sqlite/Content/Others.antt =====
-- The objects of the index that IndexObjectInventory of a new object leaves alone.
use ocfl_index.Base.{
  ℕ, ◌≡◌, refl, ap, ◌∙◌, false, none, some, List, [], ◌∷◌, ◌++◌, map, arith, All, All-append,
}
use mathlib.Core.List.{append-nil}
use ocfl_index.Text.{Str, str_eq}
use ocfl_index.Sqlite.{InventoryRow, VersionRow, Db, next_id}
use ocfl_index.Sqlite.Nodes.Rows.{Extends}
use ocfl_index.Sqlite.Versions.{VNumbers}
use ocfl_index.Sqlite.Objects.{inventory_with}
use ocfl_index.Sqlite.Inventories.{find_inventory, inventory_id}
use ocfl_index.Sqlite.Lookup.{is_version_of, version_roots}
use ocfl_index.IndexTree.Listing.{Listing, node_key}
use ocfl_index.Sqlite.Content.Fresh.{
  with_id, with_next, Refer, inventory_with-append, version_roots-append,
}
use ocfl_index.Sqlite.Content.Versions.{VersionEntry, Matches}
use ocfl_index.Sqlite.Content.Joined.{Joined}
use ocfl_index.Sqlite.Content.NewObject.{Rooted}

pub find_inventory-append :
    (id : Str) (vs : List InventoryRow) (x : InventoryRow)
    → find_inventory id vs ≡ none
    → str_eq x.ocfl_id id ≡ false
    → find_inventory id (vs ++ (x ∷ [])) ≡ none
unfolding find_inventory
find_inventory-append id [] x h e = rw e refl
find_inventory-append id (v ∷ vs) x h e = ground (arith, find_inventory-append id vs x)

-- A further inventory does not change what the rows of versions say.
kept_roots :
    (id s : Str) (rs : List VersionRow) (vs : List InventoryRow) (x : InventoryRow)
    → Refer vs rs
    → version_roots id s rs (vs ++ (x ∷ [])) ≡ version_roots id s rs vs
unfolding version_roots is_version_of
kept_roots id s [] vs x refs = refl
kept_roots id s (r ∷ rs) vs x refs =
    let (w, e) = refs.0 in
    rw (inventory_with-append r.inventory_id vs x w e, e, kept_roots id s rs vs x refs.1) refl

kept-Refer :
    (rs : List VersionRow) (vs : List InventoryRow) (x : InventoryRow)
    → Refer vs rs
    → Refer (vs ++ (x ∷ [])) rs
kept-Refer [] vs x refs = tt
kept-Refer (r ∷ rs) vs x refs =
    let (w, e) = refs.0 in
    ((w, inventory_with-append r.inventory_id vs x w e), kept-Refer rs vs x refs.1)

module _ (V : VNumbers) (hash : Str → List ℕ) (k : Listing) where
  module _ (i : ℕ) (invs : List InventoryRow) (x : InventoryRow)
      (there : inventory_with i invs ≡ some x) where
    -- The rows of one object are not those of another.
    foreign_roots :
        (id s : Str) (xs : List (VersionEntry V hash)) (rows : List VersionRow) (b : Db)
        → str_eq x.ocfl_id id ≡ false
        → Matches V hash i xs rows b
        → version_roots id s rows invs ≡ []
    unfolding version_roots is_version_of
    foreign_roots id s [] [] b e m = refl
    foreign_roots id s [] (r ∷ rows) b e m = absurd m
    foreign_roots id s (y ∷ xs) [] b e m = absurd m
    foreign_roots id s (y ∷ xs) (r ∷ rows) b e m =
        rw (m.0, there, e) (foreign_roots id s xs rows b e m.3)

    Matches-Refer :
        (xs : List (VersionEntry V hash)) (rows : List VersionRow) (b : Db)
        → Matches V hash i xs rows b
        → Refer invs rows
    Matches-Refer [] [] b m = tt
    Matches-Refer [] (r ∷ rows) b m = absurd m
    Matches-Refer (y ∷ xs) [] b m = absurd m
    Matches-Refer (y ∷ xs) (r ∷ rows) b m = ((x, rw m.0 there), Matches-Refer xs rows b m.3)

  module _ (row : InventoryRow) (xs : List (VersionEntry V hash)) (a b : Db)
      (refs : Refer a.inventories a.versions) (j : Joined V hash k row xs a b) where
    abbrev i : ℕ
    i = next_id (map inventory_id a.inventories)

    joined_there : inventory_with i b.inventories ≡ some (with_id i row)
    joined_there = rw j.inventories (with_next row a.inventories)

    pub Joined-Refer : Refer b.inventories b.versions
    Joined-Refer = rw j.versions (
        All-append _ a.versions j.rows
          (rw j.inventories (kept-Refer a.versions a.inventories (with_id i row) refs))
          (Matches-Refer i b.inventories (with_id i row) joined_there xs j.rows b j.matches))

    other_roots :
        (id s : Str)
        → str_eq row.ocfl_id id ≡ false
        → version_roots id s b.versions b.inventories ≡ version_roots id s a.versions a.inventories
    other_roots id s e =
        ap (λ vs. version_roots id s vs b.inventories) j.versions
        ∙ version_roots-append id s a.versions j.rows b.inventories
        ∙ ap (λ q. version_roots id s a.versions b.inventories ++ q)
            (foreign_roots i b.inventories (with_id i row) joined_there id s xs j.rows b e
              j.matches)
        ∙ append-nil _
        ∙ ap (version_roots id s a.versions) j.inventories
        ∙ kept_roots id s a.versions a.inventories (with_id i row) refs

    pub other-Rooted :
        (id : Str) (ys : List (VersionEntry V hash))
        → str_eq row.ocfl_id id ≡ false
        → Extends a b
        → All (Rooted V hash k id a) ys
        → All (Rooted V hash k id b) ys
    other-Rooted id [] e ext h = tt
    other-Rooted id (y ∷ ys) e ext h =
        let (node, (t, built, there), found) = h.0 in
        (
          (
            node,
            (t, built, ext.keeps (node_key t).1 (node_key t).0 node there),
            other_roots id (VNumbers.string V y.0) e ∙ found,
          ),
          other-Rooted id ys e ext h.1,
        )

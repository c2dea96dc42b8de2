-- ===== src/Indexer/Content.antt =====
-- The tables of nodes and names over a synchronisation of the object roots.
use ocfl_index.Base.{
  ℕ, suc, ◌%◌, ◌≡◌, refl, Option, none, some, List, [], ◌∷◌, ◌==◌, ok, Result-cases, Bool-cases,
  inl, inr,
}
use ocfl_index.Text.{Str}
use ocfl_index.Sqlite.{IndexErr, ObjectRootRow, Db}
use ocfl_index.Sqlite.Roots.{
  index_object_root, index_object_root_tx, cascade_roots, remove_objects_before,
  delete_object_roots_before,
}
use ocfl_index.IndexTree.Listing.{Listing}
use ocfl_index.Sqlite.Content.Indexed.{Keeps, Keeps-trans, same_tables, root_same}
use ocfl_index.Indexer.{
  FoundRoot, relative, end_scan, each_obj, sync_object_roots_tx, sync_object_roots,
}

root_indexed :
    (now idx_at : ℕ) (p : Str) (a b : Db)
    → index_object_root now idx_at p a ≡ ok b
    → (i : ℕ) × (index_object_root_tx now p idx_at a ≡ ok (b, i))
unfolding index_object_root
root_indexed now idx_at p a b h = elim (Result-cases (index_object_root_tx now p idx_at a)) [
  | inr (inl (x, failed)) ↦ cc (rw (failed, index_object_root) at h)
  | inr (inr failed) ↦ cc (rw (failed, index_object_root) at h)
  | inl (done, rooted) ↦ (done.1, cc (rw (rooted, index_object_root) at h))
]

module _ (k : Listing) (start : Db) where
  -- A step that leaves the two tables as they are.
  root-Keeps :
      (now idx_at : ℕ) (p : Str) (a b : Db)
      → Keeps k start a
      → index_object_root now idx_at p a ≡ ok b
      → Keeps k start b
  root-Keeps now idx_at p a b kept h =
      let (i, rooted) = root_indexed now idx_at p a b h in
      let same = root_same now idx_at p a b i rooted in
      Keeps-trans k start a b kept (same_tables k a b kept.index same.nodes same.names)

  cascade-Keeps :
      (rs : List ObjectRootRow) (a : Db) → Keeps k start a → Keeps k start (cascade_roots rs a)
  unfolding cascade_roots
  cascade-Keeps rs a kept =
      Keeps-trans k start a (cascade_roots rs a) kept
        (same_tables k a (cascade_roots rs a) kept.index refl refl)

  each_obj-Keeps :
      (root : Str) (e : Option IndexErr) (fs : List FoundRoot) (count : ℕ) (committed tx : Db)
      → Keeps k start committed
      → Keeps k start tx
      → Keeps k start (each_obj root e fs count committed tx).db
  unfolding each_obj end_scan
  each_obj-Keeps root none [] count committed tx hc ht = ht
  each_obj-Keeps root (some e) [] count committed tx hc ht = hc
  each_obj-Keeps root e (f ∷ fs) count committed tx hc ht =
      elim (Result-cases (index_object_root f.now f.now (relative root f.path) tx)) [
        | inr (inl (x, failed)) ↦ rw (failed, each_obj) hc
        | inr (inr failed) ↦ rw (failed, each_obj) hc
        | inl (tx', rooted) ↦
            let next = root-Keeps f.now f.now (relative root f.path) tx tx' ht rooted in
            rw (rooted, each_obj)
              (each_obj-Keeps root e fs (suc count) _ tx'
                (elim (Bool-cases (suc count % 1000 == 0)) [
                  | inl full ↦ rw full next
                  | inr more ↦ rw more hc
                ])
                next)
      ]

  pub sync_object_roots-Keeps :
      (since : ℕ) (root : Str) (fs : List FoundRoot) (e : Option IndexErr) (db : Db)
      → Keeps k start db
      → Keeps k start (sync_object_roots since root fs e db).db
  unfolding sync_object_roots sync_object_roots_tx remove_objects_before delete_object_roots_before
  sync_object_roots-Keeps since root fs e db kept =
      let synced = each_obj-Keeps root e fs 0 db db kept kept in
      elim (Result-cases (each_obj root e fs 0 db db).result) [
        | inr (inl (x, failed)) ↦ rw (failed, sync_object_roots) synced
        | inr (inr failed) ↦ rw (failed, sync_object_roots) synced
        | inl (count, found) ↦ rw (found, sync_object_roots) (cascade-Keeps _ _ synced)
      ]

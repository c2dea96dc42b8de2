-- ===== src/Indexer.antt =====
-- internal/index/indexer.go: syncObjectRoots and syncObjecRootsTX, which bring the object roots of
-- the index into line with those found in the storage root, and addAllObjectsPaths, which lists
-- them page by page. A database transaction is a working copy of the committed database: Commit
-- puts it in its place, NewTx takes a new copy, and Rollback drops it. What the scan of the storage
-- root (package ocfl) finds is an argument: the path of each object root with the time at which
-- time.Now() is read for it, and the error with which the scan ends, if any.
pub mod Sync
pub mod AllPaths
pub mod Content
pub mod Inventories
mod Witnesses
use ocfl_index.Base.{
  ℕ, zero, suc, ◌+◌, ◌%◌, Bool, true, false, Option, none, some, List, [], ◌∷◌, ◌++◌, map, ◌==◌,
  if◌then◌else◌, length, Result, ok, err, panic,
}
use mathlib.Core.Option
use ocfl_index.Text.{Str, slash, trim_prefix}
use ocfl_index.Paging.{Page}
use ocfl_index.Sqlite.{IndexErr, ObjectRootRow, Db}
use ocfl_index.Sqlite.Roots.{root_path, index_object_root, remove_objects_before, list_object_roots}

abbrev pub tx_cap_inv : ℕ
tx_cap_inv = 10

abbrev pub tx_cap_obj_root : ℕ
tx_cap_obj_root = 1000

-- An object root of the scan.
pub record FoundRoot : Type 0 where
  pub path : Str
  pub now : ℕ

-- The committed database, and what is returned.
pub record Synced (A : Type 0) : Type 0 where
  pub db : Db
  pub result : Result IndexErr A

-- The path relative to the storage root.
abbrev pub relative : Str → Str → Str
relative root path = trim_prefix path (root ++ (slash ∷ []))

-- The end of the scan: an error drops the transaction.
unfoldable pub end_scan : Option IndexErr → ℕ → Db → Db → Synced ℕ
end_scan none count committed tx = record { db = tx; result = ok count }
end_scan (some e) count committed tx = record { db = committed; result = err e }

-- The calls of eachObj. The transaction is committed after each 1000th root.
unfoldable pub each_obj : Str → Option IndexErr → List FoundRoot → ℕ → Db → Db → Synced ℕ
unfolding end_scan index_object_root
each_obj root scan_err [] count committed tx = end_scan scan_err count committed tx
each_obj root scan_err (f ∷ fs) count committed tx =
    elim (index_object_root f.now f.now (relative root f.path) tx) [
      | err e ↦ record { db = committed; result = err e }
      | panic ↦ record { db = committed; result = panic }
      | ok tx' ↦
          each_obj root scan_err fs (suc count)
            (if suc count % tx_cap_obj_root == 0 then tx' else committed) tx'
    ]

unfoldable pub sync_object_roots_tx : Str → List FoundRoot → Option IndexErr → Db → Synced ℕ
unfolding each_obj
sync_object_roots_tx root found scan_err db = each_obj root scan_err found 0 db db

-- syncObjectRoots; `start` is the time before the scan.
unfoldable pub sync_object_roots : ℕ → Str → List FoundRoot → Option IndexErr → Db → Synced ℕ
unfolding sync_object_roots_tx remove_objects_before
sync_object_roots start root found scan_err db =
    let s = sync_object_roots_tx root found scan_err db in
    elim s.result [
      | ok count ↦ record { db = remove_objects_before start s.db; result = ok count }
      | err e ↦ record { db = s.db; result = err e }
      | panic ↦ record { db = s.db; result = panic }
    ]

-- addAllObjectsPaths: the paths that it adds, in order, from the cursor on; the fuel bounds the
-- number of pages.
unfoldable pub add_all_objects_paths : ℕ → Str → Db → Option (List Str)
unfolding list_object_roots
add_all_objects_paths zero cursor db = none
add_all_objects_paths (suc fuel) cursor db =
    let p = list_object_roots 0 cursor db in
    elim p.next_cursor [
      | [] ↦ some (map root_path p.items)
      | c ∷ cs ↦
          Option.map (λ r. map root_path p.items ++ r) (add_all_objects_paths fuel (c ∷ cs) db)
    ]

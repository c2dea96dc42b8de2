-- ===== src/Indexer/Inventories.antt =====
-- indexInventories and Index of internal/index/indexer.go: which paths are parsed, what parsing one
-- gives, and the function that takes the results in one after another, with a commit after every
-- tenth inventory. What the storage root resolves an id to (ResolveID), what ValidateInventory finds
-- at a path and the order in which the pipeline hands the results over are arguments.
pub mod Applied
pub mod Batches
pub mod Content
pub mod Taken
pub mod Served
mod Witnesses
mod Runs
use ocfl_index.Base.{
  ℕ, zero, suc, ◌+◌, ◌%◌, ◌==◌, Bool, true, false, not, ◌&&◌, Option, none, some, List, [], ◌∷◌,
  ◌++◌, length, if◌then◌else◌, Result, ok, err, panic,
}
use ocfl_index.Text.{Str, str_eq}
use ocfl_index.Sqlite.{IndexErr, not_found, Db}
use ocfl_index.Sqlite.Objects.{Parsers}
use ocfl_index.Sqlite.Versions.{VNumbers}
use ocfl_index.Sqlite.Inventories.{Inventory, index_object_inventory}
use ocfl_index.Sqlite.Details.{Object, get_object_by_path}
use ocfl_index.Indexer.{FoundRoot, Synced, sync_object_roots, add_all_objects_paths, tx_cap_inv}

-- Why a run halts: the database, an inventory with errors, or an id without a path.
pub data RunErr : Type 0 where
  index_failed : IndexErr → RunErr
  invalid_inventory : Str → RunErr
  unresolved : Str → RunErr

-- The paths of the objects asked for, up to an id that cannot be resolved.
unfoldable pub resolve_ids : (Str → Option Str) → List Str → List Str → Result RunErr (List Str)
resolve_ids resolve [] paths = ok paths
resolve_ids resolve (id ∷ ids) paths = elim (resolve id) [
  | none ↦ err (unresolved id)
  | some p ↦ resolve_ids resolve ids (paths ++ (p ∷ []))
]

abbrev pub indexing_all : List Str → List Str → Bool
indexing_all ids paths = length ids + length paths == 0

-- addPaths: every object root of the index, or the paths given and those of the ids
unfoldable pub add_paths :
    (Str → Option Str) → ℕ → List Str → List Str → Db → Option (Result RunErr (List Str))
unfolding resolve_ids add_all_objects_paths
add_paths resolve fuel ids paths db =
    if indexing_all ids paths
    then elim (add_all_objects_paths fuel [] db) [ none ↦ none | some ps ↦ some (ok ps) ]
    else some (resolve_ids resolve ids paths)

module _ (P : Parsers) (V : VNumbers) (hash : Str → List ℕ) where
  -- indexJob
  pub record Job : Type 0 where
    pub sidecar : Str
    pub inv : Option (Inventory V hash)
    pub prev : Option (Object P)
    pub error : Option Str

  -- ValidateInventory: the errors that it finds, or the inventory
  pub data Validated : Type 0 where
    faults : Str → Validated
    valid_inventory : Option (Inventory V hash) → Validated

  digest_of : Option (Inventory V hash) → Str
  digest_of none = []
  digest_of (some inv) = inv.digest

  parsed_job : Option (Object P) → Validated → Job
  unfolding digest_of
  parsed_job prev (faults e) = record { sidecar = []; inv = none; prev = none; error = some e }
  parsed_job prev (valid_inventory inv) = record {
    sidecar = digest_of inv;
    inv = inv;
    prev = prev;
    error = none;
  }

  is_not_found : IndexErr → Bool
  is_not_found not_found = true
  is_not_found _ = false

  -- The parse function; an object that is not indexed yet has no previous entry.
  unfoldable pub parse_object : (Str → Validated) → Str → Db → Result IndexErr Job
  unfolding parsed_job is_not_found get_object_by_path
  parse_object validate path db = elim (get_object_by_path P path db) [
    | ok prev ↦ ok (parsed_job (some prev) (validate path))
    | err e ↦ if is_not_found e then ok (parsed_job none (validate path)) else err e
    | panic ↦ panic
  ]

  -- A result that the pipeline hands over, with the time that time.Now() then gives.
  pub record Entry : Type 0 where
    pub root : Str
    pub now : ℕ
    pub job : Result IndexErr Job

  -- The committed database, the transaction and numObjs.
  pub record Pending : Type 0 where
    pub committed : Db
    pub tx : Db
    pub num_objs : ℕ

  pub data Step : Type 0 where
    goes : Pending → Step
    halts : RunErr → Step
    crashes : Step

  -- `job.prev != nil && job.sidecar != "" && job.prev.InventoryDigest == job.sidecar`
  unfoldable pub is_unchanged : Str → Option (Object P) → Bool
  is_unchanged sidecar none = false
  is_unchanged sidecar (some prev) = not (str_eq sidecar []) && str_eq prev.inventory_digest sidecar

  -- The inventory that the job has the index take in, if any.
  unfoldable pub wanted_inv :
      Str → Option (Object P) → Option (Inventory V hash) → Option (Inventory V hash)
  unfolding is_unchanged
  wanted_inv sidecar prev none = none
  wanted_inv sidecar prev (some inv) = if is_unchanged sidecar prev then none else some inv

  -- IndexObjectInventory, and the commit after each tenth.
  unfoldable pub index_one : Str → ℕ → Option (Inventory V hash) → Pending → Step
  unfolding index_object_inventory
  index_one root now none p = goes p
  index_one root now (some inv) p = elim (index_object_inventory V hash now now root inv p.tx) [
    | err e ↦ halts (index_failed e)
    | panic ↦ crashes
    | ok tx ↦ goes (record {
      committed = if (p.num_objs + 1) % tx_cap_inv == 0 then tx else p.committed;
      tx = tx;
      num_objs = p.num_objs + 1;
    })
  ]

  -- A job with errors halts the run, unless everything is indexed.
  unfoldable pub index_checked :
      Bool → Str → ℕ → Option (Inventory V hash) → Option Str → Pending → Step
  unfolding index_one
  index_checked all root now inv none p = index_one root now inv p
  index_checked all root now inv (some e) p =
      if not all then halts (invalid_inventory e) else index_one root now inv p

  -- The function `index`.
  unfoldable pub index_result : Bool → Str → ℕ → Result IndexErr Job → Pending → Step
  unfolding index_checked wanted_inv
  index_result all root now (ok job) p =
      index_checked all root now (wanted_inv job.sidecar job.prev job.inv) job.error p
  index_result all root now (err e) p = halts (index_failed e)
  index_result all root now panic p = crashes

  -- The committed database, and the number of inventories indexed or the error.
  pub record Indexed : Type 0 where
    pub db : Db
    pub result : Result RunErr ℕ

  -- The end of the run: an error of addPaths drops what is pending, otherwise it is committed.
  end_run : Option RunErr → Pending → Indexed
  end_run none p = record { db = p.tx; result = ok p.num_objs }
  end_run (some e) p = record { db = p.committed; result = err e }

  -- pipeline.Run with the results in their order, and the end of indexInventories: what is pending
  -- when a result halts the run is rolled back.
  unfoldable pub index_results : Bool → Option RunErr → List Entry → Pending → Indexed
  unfolding end_run index_result
  index_results all add_err [] p = end_run add_err p
  index_results all add_err (x ∷ xs) p = elim (index_result all x.root x.now x.job p) [
    | goes p' ↦ index_results all add_err xs p'
    | halts e ↦ record { db = p.committed; result = err e }
    | crashes ↦ record { db = p.committed; result = panic }
  ]

  unfoldable pub index_inventories : Bool → Option RunErr → List Entry → Db → Indexed
  unfolding index_results
  index_inventories all add_err xs db =
      index_results all add_err xs (record { committed = db; tx = db; num_objs = 0 })

  -- Index: the object roots first, if everything is indexed
  unfoldable pub index :
      ℕ
      → Str
      → List FoundRoot
      → Option IndexErr
      → Bool
      → (Db → Option RunErr × List Entry)
      → Db
      → Indexed
  unfolding sync_object_roots index_inventories
  index start root found scan_err false results db =
      let (e, xs) = results db in index_inventories false e xs db
  index start root found scan_err true results db =
      let s = sync_object_roots start root found scan_err db in
      elim s.result [
        | err e ↦ record { db = s.db; result = err (index_failed e) }
        | panic ↦ record { db = s.db; result = panic }
        | ok n ↦ let (e, xs) = results s.db in index_inventories true e xs s.db
      ]

-- ===== src/Indexer/Inventories/Content.antt =====
-- The tables of nodes and names over a whole run of Index: the synchronisation of the object roots,
-- and the results that are taken in one after another, with commits and rollbacks.
use ocfl_index.Base.{
  ℕ, ◌+◌, ◌%◌, refl, Bool, true, false, Option, none, some, List, [], ◌∷◌, ◌==◌, All, Result, ok,
  err, panic, Result-cases, Bool-cases, inl, inr,
}
use ocfl_index.Text.{Str}
use ocfl_index.Sqlite.{IndexErr, Db}
use ocfl_index.Sqlite.Objects.{Parsers}
use ocfl_index.Sqlite.Versions.{VNumbers}
use ocfl_index.Sqlite.Inventories.{Inventory, index_object_inventory}
use ocfl_index.IndexTree.Listing.{Listing}
use ocfl_index.Sqlite.Content.{IsIndex}
use ocfl_index.Sqlite.Content.Indexed.{
  Keeps, Keeps-trans, same_tables, AreListed, index_object_inventory-Keeps,
}
use ocfl_index.Indexer.{FoundRoot, sync_object_roots}
use ocfl_index.Indexer.Inventories.{
  RunErr, Job, Entry, Pending, Step, goes, halts, crashes, is_unchanged, wanted_inv, index_one,
  index_checked, index_result, end_run, index_results, index_inventories, index,
}
use ocfl_index.Indexer.Inventories.Taken.{step_cases}
use ocfl_index.Indexer.Content.{sync_object_roots-Keeps}

module _ (P : Parsers) (V : VNumbers) (hash : Str → List ℕ) (k : Listing) where
  -- The trees of the inventory, if there is one, have what their digests stand for.
  abbrev pub IsListed : Option (Inventory V hash) → Type 0
  IsListed none = Unit
  IsListed (some inv) = AreListed V hash k inv.versions

  abbrev pub JobIsListed : Result IndexErr (Job P V hash) → Type 0
  JobIsListed (ok job) = IsListed job.inv
  JobIsListed (err e) = Unit
  JobIsListed panic = Unit

  abbrev pub EntriesAreListed : List (Entry P V hash) → Type 0
  EntriesAreListed = All (λ x. JobIsListed x.job)

  module _ (start : Db) where
    record Held (p : Pending P V hash) : Type 0 where
      committed : Keeps k start p.committed
      tx : Keeps k start p.tx

    abbrev StepHeld : Step P V hash → Type 0
    StepHeld (goes p) = Held p
    StepHeld (halts e) = Unit
    StepHeld crashes = Unit

    index_one-Held :
        (root : Str) (now : ℕ) (inv : Option (Inventory V hash)) (p : Pending P V hash)
        → IsListed inv
        → Held p
        → StepHeld (index_one P V hash root now inv p)
    unfolding index_one
    index_one-Held root now none p l h = h
    index_one-Held root now (some inv) p l h =
        elim (Result-cases (index_object_inventory V hash now now root inv p.tx)) [
          | inr (inl (x, failed)) ↦ rw (failed, index_one) tt
          | inr (inr failed) ↦ rw (failed, index_one) tt
          | inl (tx, done) ↦
              let next = Keeps-trans k start p.tx tx h.tx (
                index_object_inventory-Keeps V hash k now now root inv p.tx tx l h.tx.index done) in
              rw (done, index_one)
                (record {
                  committed = elim (Bool-cases ((p.num_objs + 1) % 10 == 0)) [
                    | inl full ↦ rw full next
                    | inr more ↦ rw more h.committed
                  ];
                  tx = next;
                })
        ]

    wanted_inv-IsListed :
        (sidecar : Str) (prev : Option _) (inv : Option (Inventory V hash))
        → IsListed inv
        → IsListed (wanted_inv P V hash sidecar prev inv)
    unfolding wanted_inv
    wanted_inv-IsListed sidecar prev none l = tt
    wanted_inv-IsListed sidecar prev (some inv) l =
        elim (Bool-cases (is_unchanged P V hash sidecar prev)) [
          | inl same ↦ rw (same, wanted_inv) tt
          | inr new ↦ rw (new, wanted_inv) l
        ]

    index_checked-Held :
        (all : Bool) (root : Str) (now : ℕ) (inv : Option (Inventory V hash)) (e : Option Str)
        (p : Pending P V hash)
        → IsListed inv
        → Held p
        → StepHeld (index_checked P V hash all root now inv e p)
    unfolding index_checked
    index_checked-Held all root now inv none p l h = index_one-Held root now inv p l h
    index_checked-Held true root now inv (some e) p l h = index_one-Held root now inv p l h
    index_checked-Held false root now inv (some e) p l h = tt

    index_result-Held :
        (all : Bool) (x : Entry P V hash) (p : Pending P V hash)
        → JobIsListed x.job
        → Held p
        → StepHeld (index_result P V hash all x.root x.now x.job p)
    unfolding index_result
    index_result-Held all x p l h = by_job x.job l
      where
        by_job :
            (job : Result IndexErr (Job P V hash))
            → JobIsListed job
            → StepHeld (index_result P V hash all x.root x.now job p)
        by_job (err e) l = tt
        by_job panic l = tt
        by_job (ok job) l =
            index_checked-Held all x.root x.now _ job.error p
              (wanted_inv-IsListed job.sidecar job.prev job.inv l) h

    index_results-Keeps :
        (all : Bool) (e : Option RunErr) (xs : List (Entry P V hash)) (p : Pending P V hash)
        → EntriesAreListed xs
        → Held p
        → Keeps k start (index_results P V hash all e xs p).db
    unfolding index_results end_run
    index_results-Keeps all none [] p l h = h.tx
    index_results-Keeps all (some e) [] p l h = h.committed
    index_results-Keeps all e (x ∷ xs) p l h =
        let held = index_result-Held all x p l.0 h in
        elim (step_cases P V hash (index_result P V hash all x.root x.now x.job p)) [
          | inl (p', gone) ↦
              rw (gone, index_results) (index_results-Keeps all e xs p' l.1 (rw gone at held))
          | inr (inl (f, halted)) ↦ rw (halted, index_results) h.committed
          | inr (inr crashed) ↦ rw (crashed, index_results) h.committed
        ]

    index_inventories-Keeps :
        (all : Bool) (e : Option RunErr) (xs : List (Entry P V hash)) (db : Db)
        → EntriesAreListed xs
        → Keeps k start db
        → Keeps k start (index_inventories P V hash all e xs db).db
    unfolding index_inventories
    index_inventories-Keeps all e xs db l kept =
        index_results-Keeps all e xs _ l (record { committed = kept; tx = kept })

  -- Where the tables of nodes and names hold what their digests stand for, and the directories of
  -- the trees of all inventories that the results bring have what their digests stand for, Index
  -- leaves such tables in the database, and every node that was there keeps its row, whatever Index
  -- returns: with or without the synchronisation of the object roots, and also where the scan, a
  -- result or the indexing of an inventory fails.
  pub index-Keeps :
      (since : ℕ) (root : Str) (found : List FoundRoot) (scan_err : Option IndexErr) (all : Bool)
      (results : Db → Option RunErr × List (Entry P V hash)) (db : Db)
      → ((d : Db) → EntriesAreListed (results d).1)
      → IsIndex k [] db
      → Keeps k db (index P V hash since root found scan_err all results db).db
  unfolding index
  index-Keeps since root found scan_err false results db l ix =
      index_inventories-Keeps db false (results db).0 (results db).1 db (l db)
        (same_tables k db db ix refl refl)
  index-Keeps since root found scan_err true results db l ix =
      let synced =
        sync_object_roots-Keeps k db since root found scan_err db
          (same_tables k db db ix refl refl) in
      elim (Result-cases (sync_object_roots since root found scan_err db).result) [
        | inr (inl (x, failed)) ↦ rw (failed, index) synced
        | inr (inr failed) ↦ rw (failed, index) synced
        | inl (n, done) ↦
            let d = (sync_object_roots since root found scan_err db).db in
            rw (done, index)
              (index_inventories-Keeps db true (results d).0 (results d).1 d (l d) synced)
      ]

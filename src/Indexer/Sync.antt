-- ===== src/Indexer/Sync.antt =====
-- What the object roots of the index are after a synchronisation.
use ocfl_index.Base.{
  ℕ, suc, ◌+◌, ◌%◌, ◌≤◌, ◌≡◌, refl, ap, ◌∙◌, Bool, true, false, ◌||◌, Option, none, List, [], ◌∷◌,
  arith, ◌==◌, if◌then◌else◌, length, All, ok, ◌≢◌,
}
use ocfl_index.Text.{Str, str_eq}
use ocfl_index.Sqlite.{IndexErr, ObjectRootRow, Db}
use ocfl_index.Sqlite.Roots.{
  upsert_object_root, index_object_root_tx, index_object_root, roots_since, cascade_roots,
  remove_objects_before, delete_object_roots_before,
}
use ocfl_index.Sqlite.Roots.Upsert.{has_root, has_root_since, has_root-roots_since, since-upsert}
use ocfl_index.Indexer.{
  FoundRoot, Synced, relative, end_scan, each_obj, sync_object_roots_tx, sync_object_roots,
}

-- The scan found an object root of that path.
unfoldable pub was_found : Str → Str → List FoundRoot → Bool
was_found root q [] = false
was_found root q (f ∷ fs) = str_eq (relative root f.path) q || was_found root q fs

-- What the scan gives: a proper path for each object, read after the start.
abbrev pub IsScan : ℕ → Str → List FoundRoot → Type 0
IsScan start root = All (λ f. (relative root f.path ≢ []) × (start ≤ f.now))

index_root :
    (now : ℕ) (p : Str) (db : Db)
    → p ≢ []
    → index_object_root now now p db
      ≡ ok (record db { roots = (upsert_object_root p now db.roots).0 })
unfolding index_object_root index_object_root_tx
index_root now [] db h = absurd (h refl)
index_root now (c ∷ p) db h = rw (same (now == 0) now) refl
  where
    same : (b : Bool) (n : ℕ) → (if b then n else n) ≡ n
    same true n = refl
    same false n = refl

each_obj_step :
    (root : Str) (e : Option IndexErr) (f : FoundRoot) (fs : List FoundRoot) (count : ℕ)
    (committed tx : Db)
    → relative root f.path ≢ []
    → let tx' : Db = record tx {
      roots = (upsert_object_root (relative root f.path) f.now tx.roots).0;
    } in
      each_obj root e (f ∷ fs) count committed tx
      ≡ each_obj root e fs (suc count) (if suc count % 1000 == 0 then tx' else committed) tx'
unfolding each_obj
each_obj_step root e f fs count committed tx h =
    rw (index_root f.now (relative root f.path) tx h, each_obj) refl

each_obj-since :
    (start : ℕ) (root q : Str) (fs : List FoundRoot) (count : ℕ) (committed tx : Db)
    → IsScan start root fs
    → has_root_since start q (each_obj root none fs count committed tx).db.roots
      ≡ (was_found root q fs || has_root_since start q tx.roots)
unfolding was_found
each_obj-since start root q [] count committed tx h = unfold each_obj end_scan in refl
each_obj-since start root q (f ∷ fs) count committed tx h =
    rw (each_obj_step root none f fs count committed tx h.0.0) (
      each_obj-since start root q fs (suc count) _ _ h.1
      ∙ ap (λ b. was_found root q fs || b)
          (since-upsert start q (relative root f.path) f.now tx.roots h.0.1)
      ∙ ground arith)

each_obj-count :
    (start : ℕ) (root : Str) (fs : List FoundRoot) (count : ℕ) (committed tx : Db)
    → IsScan start root fs
    → (each_obj root none fs count committed tx).result ≡ ok (count + length fs)
each_obj-count start root [] count committed tx h = unfold each_obj end_scan in ap ok (omega arith)
each_obj-count start root (f ∷ fs) count committed tx h =
    rw (each_obj_step root none f fs count committed tx h.0.0)
      (each_obj-count start root fs (suc count) _ _ h.1 ∙ ap ok (omega arith))

sync_ok :
    (start : ℕ) (root : Str) (e : Option IndexErr) (fs : List FoundRoot) (db : Db) (count : ℕ)
    → (each_obj root e fs 0 db db).result ≡ ok count
    → sync_object_roots start root fs e db ≡ record {
      db =
          cascade_roots
            (roots_since start (each_obj root e fs 0 db db).db.roots)
            (each_obj root e fs 0 db db).db;
      result = ok count;
    }
unfolding sync_object_roots sync_object_roots_tx remove_objects_before delete_object_roots_before
sync_ok start root e fs db count h = rw (h, sync_object_roots) refl

roots-cascade : (rs : List ObjectRootRow) (db : Db) → (cascade_roots rs db).roots ≡ rs
unfolding cascade_roots
roots-cascade rs db = refl

-- A synchronisation whose scan succeeds, and gives non-empty paths and no time before the start,
-- returns the number of objects found. If every root in the index was indexed before it started,
-- a path has a root in the index afterwards exactly if the scan found an object there.
pub sync_exact :
    (start : ℕ) (root : Str) (fs : List FoundRoot) (db : Db)
    → IsScan start root fs
    → ((q : Str) → has_root_since start q db.roots ≡ false)
    → let s = sync_object_roots start root fs none db in
      (s.result ≡ ok (length fs)) × ((q : Str) → has_root q s.db.roots ≡ was_found root q fs)
sync_exact start root fs db h old =
    let e = each_obj-count start root fs 0 db db h ∙ ap ok (omega arith) in
    let s = sync_ok start root none fs db (length fs) e in
    (
      ap (λ (r : Synced ℕ). r.result) s,
      λ q.
          ap (λ (r : Synced ℕ). has_root q r.db.roots) s
          ∙ ap (has_root q) (roots-cascade _ _)
          ∙ has_root-roots_since start q _
          ∙ each_obj-since start root q fs 0 db db h
          ∙ ap (λ b. was_found root q fs || b) (old q)
          ∙ or_false (was_found root q fs),
    )
  where
    or_false : (b : Bool) → (b || false) ≡ b
    or_false true = refl
    or_false false = refl

-- ===== src/Indexer/Inventories/Taken.antt =====
-- What a run of indexInventories that succeeds has taken into the index.
use ocfl_index.Base.{
  ℕ, ◌≡◌, refl, ap, ◌∙◌, Bool, true, false, Option, none, some, List, [], ◌∷◌, ◌⊎◌, arith,
  Result-cases, inl, inr, Result, ok, err, panic,
}
use ocfl_index.Text.{Str}
use ocfl_index.Sqlite.{IndexErr, Db}
use ocfl_index.Sqlite.Objects.{Parsers}
use ocfl_index.Sqlite.Versions.{VNumbers}
use ocfl_index.Sqlite.Inventories.{Inventory, index_object_inventory}
use ocfl_index.Indexer.Inventories.{
  RunErr, Job, Entry, Pending, Step, goes, halts, crashes, index_one, index_checked, index_result,
  end_run, index_results, index_inventories,
}
use ocfl_index.Indexer.Inventories.Applied.{
  one_wanted, result_wanted, wanted, apply_all, apply_all-append,
}

module _ (P : Parsers) (V : VNumbers) (hash : Str → List ℕ) where
  pub step_cases :
      (s : Step P V hash)
      → ((p : Pending P V hash) × (s ≡ goes p)) ⊎ (((e : RunErr) × (s ≡ halts e)) ⊎ (s ≡ crashes))
  step_cases (goes p) = inl (p, refl)
  step_cases (halts e) = inr (inl (e, refl))
  step_cases crashes = inr (inr refl)

  goes_tx : (p q : Pending P V hash) → ◌≡◌ {A = Step P V hash} (goes p) (goes q) → p.tx ≡ q.tx
  goes_tx p q h = ground arith

  one_taken :
      (root : Str) (now : ℕ) (inv : Option (Inventory V hash)) (p q : Pending P V hash)
      → index_one P V hash root now inv p ≡ goes q
      → apply_all P V hash (one_wanted P V hash root now inv) p.tx ≡ ok q.tx
  unfolding index_one one_wanted apply_all
  one_taken root now none p q h = ap ok (goes_tx p q h)
  one_taken root now (some inv) p q h =
      elim (Result-cases (index_object_inventory V hash now now root inv p.tx)) [
        | inr (inl (x, failed)) ↦ cc (rw (failed, index_one) at h)
        | inr (inr failed) ↦ cc (rw (failed, index_one) at h)
        | inl (tx, done) ↦ rw done (ap ok (goes_tx _ q (rw (done, index_one) at h)))
      ]

  checked_taken :
      (all : Bool) (root : Str) (now : ℕ) (inv : Option (Inventory V hash)) (e : Option Str)
      (p q : Pending P V hash)
      → index_checked P V hash all root now inv e p ≡ goes q
      → apply_all P V hash (one_wanted P V hash root now inv) p.tx ≡ ok q.tx
  unfolding index_checked
  checked_taken all root now inv none p q h = one_taken root now inv p q h
  checked_taken true root now inv (some e) p q h = one_taken root now inv p q h
  checked_taken false root now inv (some e) p q h = cc

  result_taken :
      (all : Bool) (root : Str) (now : ℕ) (job : Result IndexErr (Job P V hash))
      (p q : Pending P V hash)
      → index_result P V hash all root now job p ≡ goes q
      → apply_all P V hash (result_wanted P V hash root now job) p.tx ≡ ok q.tx
  unfolding index_result result_wanted
  result_taken all root now (ok job) p q h = checked_taken all root now _ job.error p q h
  result_taken all root now (err e) p q h = cc
  result_taken all root now panic p q h = cc

  results_taken :
      (all : Bool) (e : Option RunErr) (xs : List (Entry P V hash)) (p : Pending P V hash) (n : ℕ)
      → (index_results P V hash all e xs p).result ≡ ok n
      → apply_all P V hash (wanted P V hash xs) p.tx ≡ ok (index_results P V hash all e xs p).db
  unfolding index_results end_run wanted apply_all
  results_taken all none [] p n h = refl
  results_taken all (some e) [] p n h = cc
  results_taken all e (x ∷ xs) p n h =
      elim (step_cases (index_result P V hash all x.root x.now x.job p)) [
        | inr (inl (f, halted)) ↦ cc (rw (halted, index_results) at h)
        | inr (inr crashed) ↦ cc (rw (crashed, index_results) at h)
        | inl (q, gone) ↦
            apply_all-append P V hash (result_wanted P V hash x.root x.now x.job)
              (wanted P V hash xs) p.tx
            ∙ rw (result_taken all x.root x.now x.job p q gone, gone, index_results)
                (results_taken all e xs q n (rw (gone, index_results) at h))
      ]

  pub index_inventories_taken :
      (all : Bool) (e : Option RunErr) (xs : List (Entry P V hash)) (db : Db) (n : ℕ)
      → (index_inventories P V hash all e xs db).result ≡ ok n
      → apply_all P V hash (wanted P V hash xs) db ≡ ok (index_inventories P V hash all e xs db).db
  unfolding index_inventories
  index_inventories_taken all e xs db n h = results_taken all e xs _ n h

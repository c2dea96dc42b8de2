-- ===== src/Indexer/Inventories/Applied.antt =====
-- What the results of a run ask the index to take in, and the index after a list of inventories.
use ocfl_index.Base.{
  ℕ, ◌≡◌, refl, sym, ◌∙◌, Bool, true, false, ◌&&◌, Option, none, some, List, [], ◌∷◌, ◌++◌, Result,
  ok, err, panic,
}
use ocfl_index.Text.{Str}
use ocfl_index.Sqlite.{IndexErr, Db}
use ocfl_index.Sqlite.Objects.{Parsers}
use ocfl_index.Sqlite.Versions.{VNumbers}
use ocfl_index.Sqlite.Inventories.{Inventory, index_object_inventory}
use ocfl_index.Indexer.Inventories.{Job, Entry, wanted_inv}

-- A step that follows one that succeeds.
abbrev pub after : Result IndexErr Db → (Db → Result IndexErr Db) → Result IndexErr Db
after (ok db) f = f db
after (err e) f = err e
after panic f = panic

after_cong :
    (r : Result IndexErr Db) (f g : Db → Result IndexErr Db)
    → ((db : Db) → f db ≡ g db)
    → after r f ≡ after r g
after_cong (ok db) f g h = h db
after_cong (err e) f g h = refl
after_cong panic f g h = refl

after_ok : (r : Result IndexErr Db) → after r (λ db. ok db) ≡ r
after_ok (ok db) = refl
after_ok (err e) = refl
after_ok panic = refl

pub after_some :
    (r : Result IndexErr Db) (f : Db → Result IndexErr Db) (db : Db)
    → after r f ≡ ok db
    → (d : Db) × (r ≡ ok d)
after_some (ok d) f db h = (d, refl)
after_some (err e) f db h = cc
after_some panic f db h = cc

after_assoc :
    (r : Result IndexErr Db) (f g : Db → Result IndexErr Db)
    → after (after r f) g ≡ after r (λ db. after (f db) g)
after_assoc (ok db) f g = refl
after_assoc (err e) f g = refl
after_assoc panic f g = refl

module _ (P : Parsers) (V : VNumbers) (hash : Str → List ℕ) where
  -- An inventory for the index, with the path of its root and the time.
  pub record Wanted : Type 0 where
    pub root : Str
    pub now : ℕ
    pub inv : Inventory V hash

  unfoldable pub one_wanted : Str → ℕ → Option (Inventory V hash) → List Wanted
  one_wanted root now none = []
  one_wanted root now (some inv) = record { root = root; now = now; inv = inv } ∷ []

  unfoldable pub result_wanted : Str → ℕ → Result IndexErr (Job P V hash) → List Wanted
  unfolding one_wanted wanted_inv
  result_wanted root now (ok job) =
      one_wanted root now (wanted_inv P V hash job.sidecar job.prev job.inv)
  result_wanted root now (err e) = []
  result_wanted root now panic = []

  -- The inventories that results ask the index to take in, in order.
  unfoldable pub wanted : List (Entry P V hash) → List Wanted
  unfolding result_wanted
  wanted [] = []
  wanted (x ∷ xs) = result_wanted x.root x.now x.job ++ wanted xs

  unfoldable pub sound_job : Bool → Option Str → Bool
  sound_job all none = true
  sound_job all (some e) = all

  unfoldable pub result_accepted : Bool → Result IndexErr (Job P V hash) → Bool
  unfolding sound_job
  result_accepted all (ok job) = sound_job all job.error
  result_accepted all (err e) = false
  result_accepted all panic = false

  -- No result that halts a run by itself: each is a job, without errors unless everything is indexed.
  unfoldable pub accepted : Bool → List (Entry P V hash) → Bool
  unfolding result_accepted
  accepted all [] = true
  accepted all (x ∷ xs) = result_accepted all x.job && accepted all xs

  -- The index after a list of inventories.
  unfoldable pub apply_all : List Wanted → Db → Result IndexErr Db
  unfolding index_object_inventory
  apply_all [] db = ok db
  apply_all (w ∷ ws) db =
      after (index_object_inventory V hash w.now w.now w.root w.inv db) (apply_all ws)

  pub apply_all-append :
      (ws vs : List Wanted) (db : Db)
      → apply_all (ws ++ vs) db ≡ after (apply_all ws db) (apply_all vs)
  unfolding apply_all
  apply_all-append [] vs db = refl
  apply_all-append (w ∷ ws) vs db =
      let r = index_object_inventory V hash w.now w.now w.root w.inv db in
      after_cong r _ _ (apply_all-append ws vs) ∙ sym (after_assoc r (apply_all ws) (apply_all vs))

  pub apply_one :
      (ws : List Wanted) (w : Wanted) (db tx tx' : Db)
      → apply_all ws db ≡ ok tx
      → index_object_inventory V hash w.now w.now w.root w.inv tx ≡ ok tx'
      → apply_all (ws ++ (w ∷ [])) db ≡ ok tx'
  unfolding apply_all
  apply_one ws w db tx tx' h k = apply_all-append ws (w ∷ []) db ∙ rw (h, k) refl

  pub apply_last :
      (ws : List Wanted) (w : Wanted) (db tx tx' : Db)
      → apply_all ws db ≡ ok tx
      → apply_all (ws ++ (w ∷ [])) db ≡ ok tx'
      → index_object_inventory V hash w.now w.now w.root w.inv tx ≡ ok tx'
  unfolding apply_all
  apply_last ws w db tx tx' h k =
      sym (after_ok (index_object_inventory V hash w.now w.now w.root w.inv tx))
      ∙ sym (rw h at (apply_all-append ws (w ∷ []) db))
      ∙ k

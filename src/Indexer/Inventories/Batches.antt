-- ===== src/Indexer/Inventories/Batches.antt =====
-- Inventories are committed ten at a time.
use ocfl_index.Base.{
  ℕ, zero, suc, ◌+◌, ◌-◌, ◌%◌, ◌==◌, ◌≤◌, ◌≡◌, refl, sym, ap, ◌∙◌, Bool, true, Option, none, some,
  List, [], ◌∷◌, ◌++◌, arith, length, length-append, take, take-eq_self, if◌then◌else◌, Bool-cases,
  inl, inr, Result, ok, err, panic,
}
use mathlib.Core.List.{append_assoc, append-nil}
use mathlib.Core.Path.{subst}
use ocfl_index.Text.{Str}
use ocfl_index.Sqlite.{IndexErr, Db}
use ocfl_index.Sqlite.Objects.{Parsers}
use ocfl_index.Sqlite.Versions.{VNumbers}
use ocfl_index.Sqlite.Inventories.{Inventory, index_object_inventory}
use ocfl_index.Indexer.Inventories.{
  RunErr, Job, Entry, Pending, Step, goes, halts, wanted_inv, index_one, index_checked,
  index_result, index_results, index_inventories,
}
use ocfl_index.Indexer.Inventories.Applied.{
  after_some, Wanted, one_wanted, result_wanted, wanted, sound_job, result_accepted, accepted,
  apply_all, apply_all-append, apply_one, apply_last,
}

-- The inventories of the complete batches among k.
abbrev pub batched : ℕ → ℕ
batched k = k - k % 10

take-append_left :
    {A : Type 0} (n : ℕ) (xs ys : List A) → n ≤ length xs → take n (xs ++ ys) ≡ take n xs
take-append_left zero xs ys h = refl
take-append_left (suc n) [] ys h = absurd (omega arith)
take-append_left (suc n) (x ∷ xs) ys h = ap (λ r. x ∷ r) (take-append_left n xs ys (omega arith))

module _ (P : Parsers) (V : VNumbers) (hash : Str → List ℕ) where
  record IsBatched (db : Db) (ws : List (Wanted P V hash)) (p : Pending P V hash) : Type 0 where
    pending : apply_all P V hash ws db ≡ ok p.tx
    kept : apply_all P V hash (take (batched (length ws)) ws) db ≡ ok p.committed
    counted : p.num_objs ≡ length ws

  abbrev indexed_one : Pending P V hash → Db → Pending P V hash
  indexed_one p tx = record {
    committed = if (p.num_objs + 1) % 10 == 0 then tx else p.committed;
    tx = tx;
    num_objs = p.num_objs + 1;
  }

  length_more :
      (ws : List (Wanted P V hash)) (w : Wanted P V hash)
      → length (ws ++ (w ∷ [])) ≡ suc (length ws)
  length_more ws w = omega (arith, length-append ws (w ∷ []))

  -- The batches stay as they are, or the new inventory completes one.
  IsBatched-indexed_one :
      (db tx : Db) (ws : List (Wanted P V hash)) (w : Wanted P V hash) (p : Pending P V hash)
      → IsBatched db ws p
      → index_object_inventory V hash w.now w.now w.root w.inv p.tx ≡ ok tx
      → IsBatched db (ws ++ (w ∷ [])) (indexed_one p tx)
  IsBatched-indexed_one db tx ws w p h k =
      let all = apply_one P V hash ws w db p.tx tx h.pending k in
      record {
        pending = all;
        kept = elim (Bool-cases ((p.num_objs + 1) % 10 == 0)) [
          | inl e ↦ rw e (complete all (ground (arith, h.counted, length_more ws w)))
          | inr e ↦ rw e (rest (ground (arith, h.counted, length_more ws w)) (omega arith) ∙ h.kept)
        ];
        counted = omega (arith, h.counted, length_more ws w);
      }
    where
      complete :
          apply_all P V hash (ws ++ (w ∷ [])) db ≡ ok tx
          → batched (length (ws ++ (w ∷ []))) ≡ length (ws ++ (w ∷ []))
          → apply_all P V hash (take (batched (length (ws ++ (w ∷ [])))) (ws ++ (w ∷ []))) db
            ≡ ok tx
      complete a b = rw (b, take-eq_self (length (ws ++ (w ∷ []))) (ws ++ (w ∷ [])) (omega arith)) a

      rest :
          batched (length (ws ++ (w ∷ []))) ≡ batched (length ws)
          → batched (length ws) ≤ length ws
          → apply_all P V hash (take (batched (length (ws ++ (w ∷ [])))) (ws ++ (w ∷ []))) db
            ≡ apply_all P V hash (take (batched (length ws)) ws) db
      rest a b = rw (a, take-append_left (batched (length ws)) ws (w ∷ []) b) refl

  -- The state after results that the run accepts, given that the index takes their inventories in.
  Goes : Db → Bool → List (Entry P V hash) → List (Wanted P V hash) → Pending P V hash → Type 0
  Goes db all xs ws p =
      (tx : Db)
      → accepted P V hash all xs ≡ true
      → apply_all P V hash (ws ++ wanted P V hash xs) db ≡ ok tx
      → (p' : Pending P V hash) × IsBatched db (ws ++ wanted P V hash xs) p'
        × ((add_err : Option RunErr) (ys : List (Entry P V hash))
            → index_results P V hash all add_err (xs ++ ys) p
              ≡ index_results P V hash all add_err ys p')

  OneGoes :
      Db
      → List (Wanted P V hash)
      → List (Wanted P V hash)
      → Pending P V hash
      → Step P V hash
      → Type 0
  OneGoes db ws vs p s = (p' : Pending P V hash) × IsBatched db (ws ++ vs) p' × (s ≡ goes p')

  one_goes :
      (db tx : Db) (ws : List (Wanted P V hash)) (root : Str) (now : ℕ)
      (inv : Option (Inventory V hash)) (p : Pending P V hash)
      → IsBatched db ws p
      → apply_all P V hash (ws ++ one_wanted P V hash root now inv) db ≡ ok tx
      → OneGoes db ws (one_wanted P V hash root now inv) p (index_one P V hash root now inv p)
  unfolding OneGoes one_wanted index_one
  one_goes db tx ws root now none p h e = (p, rw (append-nil ws) h, refl)
  one_goes db tx ws root now (some inv) p h e =
      let w : Wanted P V hash = record { root = root; now = now; inv = inv } in
      let k = apply_last P V hash ws w db p.tx tx h.pending e in
      (indexed_one p tx, IsBatched-indexed_one db tx ws w p h k, rw (index_one, k) refl)

  checked_goes :
      (db tx : Db) (all : Bool) (ws : List (Wanted P V hash)) (root : Str) (now : ℕ)
      (inv : Option (Inventory V hash)) (fault : Option Str) (p : Pending P V hash)
      → IsBatched db ws p
      → sound_job P V hash all fault ≡ true
      → apply_all P V hash (ws ++ one_wanted P V hash root now inv) db ≡ ok tx
      → OneGoes db ws
          (one_wanted P V hash root now inv)
          p
          (index_checked P V hash all root now inv fault p)
  unfolding sound_job index_checked
  checked_goes db tx all ws root now inv none p h a e = one_goes db tx ws root now inv p h e
  checked_goes db tx all ws root now inv (some f) p h a e =
      rw a (one_goes db tx ws root now inv p h e)

  result_goes :
      (db tx : Db) (all : Bool) (ws : List (Wanted P V hash)) (root : Str) (now : ℕ)
      (r : Result IndexErr (Job P V hash)) (p : Pending P V hash)
      → IsBatched db ws p
      → result_accepted P V hash all r ≡ true
      → apply_all P V hash (ws ++ result_wanted P V hash root now r) db ≡ ok tx
      → OneGoes db ws (result_wanted P V hash root now r) p (index_result P V hash all root now r p)
  unfolding result_accepted result_wanted index_result
  result_goes db tx all ws root now (ok job) p h a e =
      checked_goes db tx all ws root now (wanted_inv P V hash job.sidecar job.prev job.inv)
        job.error p h a e
  result_goes db tx all ws root now (err x) p h a e = cc
  result_goes db tx all ws root now panic p h a e = cc

  all_go :
      (db : Db) (all : Bool) (x : Entry P V hash) (xs : List (Entry P V hash))
      (ws : List (Wanted P V hash)) (p p' q : Pending P V hash)
      → index_result P V hash all x.root x.now x.job p ≡ goes p'
      → IsBatched db ((ws ++ result_wanted P V hash x.root x.now x.job) ++ wanted P V hash xs) q
      → ((add_err : Option RunErr) (ys : List (Entry P V hash))
          → index_results P V hash all add_err (xs ++ ys) p'
            ≡ index_results P V hash all add_err ys q)
      → (p' : Pending P V hash) × IsBatched db (ws ++ wanted P V hash (x ∷ xs)) p'
        × ((add_err : Option RunErr) (ys : List (Entry P V hash))
            → index_results P V hash all add_err ((x ∷ xs) ++ ys) p
              ≡ index_results P V hash all add_err ys p')
  unfolding wanted index_results
  all_go db all x xs ws p p' q s c t = (
    q,
    subst (λ l. IsBatched db l q)
        (append_assoc ws (result_wanted P V hash x.root x.now x.job) (wanted P V hash xs)) c,
    λ add_err ys. rw (index_results, s) (t add_err ys),
  )

  goes_lem :
      (db : Db) (all : Bool) (xs : List (Entry P V hash)) (ws : List (Wanted P V hash))
      (p : Pending P V hash)
      → IsBatched db ws p
      → Goes db all xs ws p
  unfolding Goes accepted wanted index_results OneGoes
  goes_lem db all [] ws p h tx a e = (p, rw (append-nil ws) h, λ add_err ys. refl)
  goes_lem db all (x ∷ xs) ws p h tx a e =
      let vs = result_wanted P V hash x.root x.now x.job in
      let whole : apply_all P V hash ((ws ++ vs) ++ wanted P V hash xs) db ≡ ok tx =
        rw (append_assoc ws vs (wanted P V hash xs)) e in
      let (mid, m) =
        after_some (apply_all P V hash (ws ++ vs) db) (apply_all P V hash (wanted P V hash xs)) tx
          (sym (apply_all-append P V hash (ws ++ vs) (wanted P V hash xs) db) ∙ whole) in
      let (p', b, s) = result_goes db mid all ws x.root x.now x.job p h (ground arith) m in
      let (q, c, t) = goes_lem db all xs (ws ++ vs) p' b tx (ground arith) whole in
      all_go db all x xs ws p p' q s c t

  abbrev pub state : Db → Db → ℕ → Pending P V hash
  state committed tx n = record { committed = committed; tx = tx; num_objs = n }

  same_state :
      (p : Pending P V hash) (committed tx : Db) (n : ℕ)
      → p.committed ≡ committed
      → p.tx ≡ tx
      → p.num_objs ≡ n
      → p ≡ state committed tx n
  same_state p committed tx n a b c = rw (← a, ← b, ← c) refl

  ok_same : (r : Result IndexErr Db) (a b : Db) → r ≡ ok a → r ≡ ok b → a ≡ b
  ok_same r a b h k = cc

  started : (db : Db) → IsBatched db [] (state db db 0)
  unfolding apply_all
  started db = record { pending = refl; kept = refl; counted = refl }

  -- Let the results of a run be some that do not halt it by themselves and whose wanted
  -- inventories, k in all, the index takes in, and then one that halts it: its parsing failed,
  -- its inventory has errors and not everything is indexed, or the index fails to take it in. A
  -- run with the former results alone commits all k inventories and returns k. The whole run,
  -- whatever follows, returns the error of the latter result, and the database is as the first k
  -- - k mod 10 inventories leave it.
  pub index_inventories_lem :
      (all : Bool) (add_err : Option RunErr) (xs ys : List (Entry P V hash)) (bad : Entry P V hash)
      (db tx saved : Db) (e : RunErr)
      → accepted P V hash all xs ≡ true
      → apply_all P V hash (wanted P V hash xs) db ≡ ok tx
      → apply_all P V hash (take (batched (length (wanted P V hash xs))) (wanted P V hash xs)) db
        ≡ ok saved
      → index_result P V hash all bad.root bad.now bad.job
          (state saved tx (length (wanted P V hash xs)))
        ≡ halts e
      → (index_inventories P V hash all none xs db
          ≡ record { db = tx; result = ok (length (wanted P V hash xs)) })
        × (index_inventories P V hash all add_err (xs ++ (bad ∷ ys)) db
            ≡ record { db = saved; result = err e })
  unfolding index_inventories index_results Goes
  index_inventories_lem all add_err xs ys bad db tx saved e a h k b =
      let (p, i, t) = goes_lem db all xs [] (state db db 0) (started db) tx a h in
      let s =
        same_state p saved tx (length (wanted P V hash xs)) (ok_same _ _ _ i.kept k)
          (ok_same _ _ _ i.pending h) i.counted in
      (
        sym (ap (λ zs. index_results P V hash all none zs (state db db 0)) (append-nil xs))
            ∙ t none []
            ∙ ap (index_results P V hash all none []) s,
        t add_err (bad ∷ ys)
            ∙ ap (index_results P V hash all add_err (bad ∷ ys)) s
            ∙ rw (index_results, b) refl,
      )

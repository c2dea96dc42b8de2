-- ===== src/Indexer/Inventories/Served.antt =====
-- GetObjectState after a run of indexInventories over objects that are new to the index.
use ocfl_index.Base.{
  ℕ, ◌≡◌, ◌∙◌, Bool, true, false, Option, none, some, List, [], ◌∷◌, arith, All, ok, pos, get_elem?,
  All-get_elem?,
}
use ocfl_index.Text.{Str, str_eq, str_eq_sym}
use ocfl_index.Text.Paths.{clean, valid_path}
use ocfl_index.PathTree.{Node, get}
use ocfl_index.IndexTree.{IndexingVal}
use ocfl_index.IndexTree.Build.{path_tree}
use ocfl_index.IndexTree.Listing.{Listing, read_with}
use ocfl_index.Sqlite.{Db}
use ocfl_index.Sqlite.Objects.{Parsers}
use ocfl_index.Sqlite.Versions.{VNumbers}
use ocfl_index.Sqlite.Inventories.{inventory_row, find_inventory}
use ocfl_index.Sqlite.Lookup.Find.{MatchesBelow}
use ocfl_index.Sqlite.State.{get_object_state}
use ocfl_index.Sqlite.Content.{IsIndex}
use ocfl_index.Sqlite.Content.Indexed.{AreListed, index_object_inventory-Keeps}
use ocfl_index.Sqlite.Content.Fresh.{Refer}
use ocfl_index.Sqlite.Content.Versions.{VersionEntry, AreNumbered}
use ocfl_index.Sqlite.Content.States.{state_key, wanted_key, get_object_state_indexed}
use ocfl_index.Sqlite.Content.Joined.{Joined, object-Joined}
use ocfl_index.Sqlite.Content.NewObject.{Rooted, Joined-Rooted}
use ocfl_index.Sqlite.Content.Others.{find_inventory-append, Joined-Refer, other-Rooted}
use ocfl_index.Sqlite.Content.Answers.{AreReadable, readable_listed}
use ocfl_index.Indexer.Inventories.{RunErr, Entry, index_inventories}
use ocfl_index.Indexer.Inventories.Applied.{Wanted, wanted, after_some, apply_all}
use ocfl_index.Indexer.Inventories.Taken.{index_inventories_taken}

module _ (P : Parsers) (V : VNumbers) (hash : Str → List ℕ) where
  -- The inventories are of objects with different ids.
  abbrev pub AreDistinct : List (Wanted P V hash) → Type 0
  AreDistinct [] = Unit {0}
  AreDistinct (w ∷ ws) =
      All (λ (v : Wanted P V hash). str_eq w.inv.id v.inv.id ≡ false) ws × AreDistinct ws

  -- None of the objects has an inventory in the index.
  abbrev pub AreUnknown : Db → List (Wanted P V hash) → Type 0
  AreUnknown a = All (λ (w : Wanted P V hash). find_inventory w.inv.id a.inventories ≡ none)

  module _ (k : Listing) where
    abbrev AreFit : List (Wanted P V hash) → Type 0
    AreFit = All (λ (w : Wanted P V hash).
        AreListed V hash k w.inv.versions × AreNumbered V hash w.inv.versions)

    abbrev IsServed : Db → Wanted P V hash → Type 0
    IsServed b w = All (Rooted V hash k w.inv.id b) w.inv.versions

    -- Each object has its versions, and other objects keep theirs.
    record Served (ws : List (Wanted P V hash)) (a b : Db) : Type 0 where
      index : IsIndex k [] b
      served : All (IsServed b) ws
      others :
          (id : Str) (ys : List (VersionEntry V hash))
          → All (λ (w : Wanted P V hash). str_eq w.inv.id id ≡ false) ws
          → All (Rooted V hash k id a) ys
          → All (Rooted V hash k id b) ys

    still_unknown :
        (w : Wanted P V hash) (root : ℕ) (ws : List (Wanted P V hash)) (a b : Db)
        → Joined V hash k (inventory_row V hash root w.inv) w.inv.versions a b
        → All (λ (v : Wanted P V hash). str_eq w.inv.id v.inv.id ≡ false) ws
        → AreUnknown a ws
        → AreUnknown b ws
    still_unknown w root [] a b j d u = tt
    still_unknown w root (v ∷ ws) a b j d u = (
      rw j.inventories (find_inventory-append v.inv.id a.inventories _ u.0 d.0),
      still_unknown w root ws a b j d.1 u.1,
    )

    others_differ :
        (w : Wanted P V hash) (ws : List (Wanted P V hash))
        → All (λ (v : Wanted P V hash). str_eq w.inv.id v.inv.id ≡ false) ws
        → All (λ (v : Wanted P V hash). str_eq v.inv.id w.inv.id ≡ false) ws
    others_differ w [] d = tt
    others_differ w (v ∷ ws) d = (str_eq_sym v.inv.id w.inv.id ∙ d.0, others_differ w ws d.1)

    apply_all-Served :
        (ws : List (Wanted P V hash)) (a b : Db)
        → AreFit ws
        → AreDistinct ws
        → AreUnknown a ws
        → IsIndex k [] a
        → Refer a.inventories a.versions
        → apply_all P V hash ws a ≡ ok b
        → Served ws a b
    unfolding apply_all
    apply_all-Served [] a b fit d u ix refs e =
        let same : a ≡ b = ground arith in
        record { index = rw (← same) ix; served = tt; others = λ id ys n h. rw (← same) h }
    apply_all-Served (w ∷ ws) a b fit d u ix refs e =
        let (c, done) = after_some _ (apply_all P V hash ws) b e in
        let listed = fit.0.0 in
        let kept =
          index_object_inventory-Keeps V hash k w.now w.now w.root w.inv a c listed ix done in
        let (root, j) =
          object-Joined V hash k w.now w.now w.root w.inv a c listed ix refs u.0 fit.0.1 done in
        let row = inventory_row V hash root w.inv in
        let rest =
          apply_all-Served ws c b fit.1 d.1 (still_unknown w root ws a c j d.0 u.1) kept.index
            (Joined-Refer V hash k row w.inv.versions a c refs j) (rw (done, apply_all) at e) in
        record {
          index = rest.index;
          served = (
            rest.others w.inv.id w.inv.versions (others_differ w ws d.0)
                (Joined-Rooted V hash k row w.inv.versions a c refs u.0 fit.0.1 j),
            rest.served,
          );
          others = λ id ys n h.
              rest.others id ys n.1
                (other-Rooted V hash k row w.inv.versions a c refs j id ys n.0 kept.extends h);
        }

  module _ (unhash : List ℕ → Str) (like : Str → Str → Bool) (all : Bool) (add_err : Option RunErr)
      (xs : List (Entry P V hash)) (db : Db) (matches : MatchesBelow like)
      (readable : All
        (λ (w : Wanted P V hash).
          AreReadable V hash unhash w.inv.versions × AreNumbered V hash w.inv.versions)
        (wanted P V hash xs))
      (distinct : AreDistinct (wanted P V hash xs)) (unknown : AreUnknown db (wanted P V hash xs))
      (ix : IsIndex (read_with unhash) [] db) (refs : Refer db.inventories db.versions) where
    readable_fit :
        (ws : List (Wanted P V hash))
        → All
            (λ (w : Wanted P V hash).
              AreReadable V hash unhash w.inv.versions × AreNumbered V hash w.inv.versions)
            ws
        → AreFit (read_with unhash) ws
    readable_fit [] h = tt
    readable_fit (w ∷ ws) h =
        ((readable_listed V hash unhash w.inv.versions h.0.0, h.0.1), readable_fit ws h.1)

    -- After a run of indexInventories that succeeds, GetObjectState answers for each version of each
    -- inventory that its results ask the index to take in, for every path that is valid once
    -- cleaned and every limit that is not negative, with the kind and the digest of what Get finds
    -- there in the tree that PathTree builds for the version's state, and with ErrNotFound if Get
    -- finds nothing. The inventories are of different objects, none of which was in the index; the
    -- index held what its digests stand for and its versions belonged to inventories that are
    -- there; the digests of the directories are bytes and each comes from one listing; the logical
    -- paths have no line breaks, the versions of an inventory have distinct numbers that their
    -- non-empty texts stand for, and LIKE takes a percent sign for any text.
    pub run_then_state :
        (n m i : ℕ) (w : Wanted P V hash) (x : VersionEntry V hash) (p : Str) (recursive : Bool)
        (limit : ℕ) (cursor : Str)
        → (index_inventories P V hash all add_err xs db).result ≡ ok n
        → get_elem? (wanted P V hash xs) m ≡ some w
        → get_elem? w.inv.versions i ≡ some x
        → valid_path (clean p) ≡ true
        → (t : Node IndexingVal) × (path_tree hash (λ q. []) [] (some x.1.1) ≡ ok t)
          × (state_key (
                get_object_state V like w.inv.id
                  (some x.0)
                  p
                  recursive
                  (pos limit)
                  cursor
                  (index_inventories P V hash all add_err xs db).db)
              ≡ wanted_key (get (clean p) t))
    run_then_state n m i w x p recursive limit cursor done e f h =
        let k = read_with unhash in
        let ws = wanted P V hash xs in
        let b = (index_inventories P V hash all add_err xs db).db in
        let fit = readable_fit ws readable in
        let s =
          apply_all-Served k ws db b fit distinct unknown ix refs
            (index_inventories_taken P V hash all add_err xs db n done) in
        let (node, (t, built, there), version) =
          All-get_elem? (Rooted V hash k w.inv.id b) w.inv.versions i x
            (All-get_elem? (IsServed k b) ws m w s.served e) f in
        let listed = (All-get_elem? _ ws m w fit e).0 in
        (
          t,
          built,
          get_object_state_indexed k V like b t node w.inv.id (some x.0) matches s.index
              (All-get_elem? _ w.inv.versions i x listed f t built) there version p recursive limit
              cursor h,
        )

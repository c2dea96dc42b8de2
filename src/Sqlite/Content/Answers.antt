-- ===== src/Sqlite/Content/Answers.antt =====
-- GetObjectState after IndexObjectInventory of an object that is new to the index.
use ocfl_index.Base.{
  ℕ, ◌≡◌, refl, ◌∙◌, Bool, true, false, none, some, List, [], ◌∷◌, All, ok, pos, get_elem?,
  All-get_elem?,
}
use ocfl_index.Text.{Str}
use ocfl_index.Text.Paths.{clean, valid_path}
use ocfl_index.Text.Paths.Valid.{IsPlain}
use ocfl_index.Text.Paths.Clean.{clean-plain}
use ocfl_index.PathTree.{Node, get}
use ocfl_index.IndexTree.{IndexingVal, hex}
use ocfl_index.IndexTree.Build.{decode_string, file_val, size_of, path_tree}
use ocfl_index.IndexTree.Listing.{read_with, Reads}
use ocfl_index.IndexTree.Listing.Built.{NoBreaks, raw_tree, path_tree-HasListing}
use ocfl_index.IndexTree.Listing.Contents.{AreApart, HasFile, path_tree-get}
use ocfl_index.Sqlite.{Db}
use ocfl_index.Sqlite.Versions.{VNumbers}
use ocfl_index.Sqlite.Inventories.{find_inventory, Inventory, index_object_inventory}
use ocfl_index.Sqlite.Lookup.Find.{MatchesBelow}
use ocfl_index.Sqlite.State.{get_object_state}
use ocfl_index.Sqlite.Content.{IsIndex}
use ocfl_index.Sqlite.Content.Indexed.{AreListed, index_object_inventory-Keeps}
use ocfl_index.Sqlite.Content.Fresh.{Refer}
use ocfl_index.Sqlite.Content.Versions.{VersionEntry, AreNumbered}
use ocfl_index.Sqlite.Content.States.{state_key, wanted_key, get_object_state_indexed}
use ocfl_index.Sqlite.Content.NewObject.{Rooted, object-Rooted}

apart-IsPlain : (ps : List (Str × Str)) → AreApart ps → All (λ q. IsPlain q.0) ps
apart-IsPlain [] h = tt
apart-IsPlain (p ∷ ps) h = (h.0, apart-IsPlain ps h.2)

module _ (V : VNumbers) (hash : Str → List ℕ) (unhash : List ℕ → Str) where
  -- The paths of the states have no line breaks, and the digest of each of their directories is one
  -- of bytes and comes from no other listing.
  abbrev pub AreReadable : List (VersionEntry V hash) → Type 0
  AreReadable = All (λ x.
      NoBreaks x.1.1
      × ((root : Node IndexingVal)
          → raw_tree hash (λ q. []) [] x.1.1 ≡ ok root
          → Reads hash unhash root))

  pub readable_listed :
      (xs : List (VersionEntry V hash)) → AreReadable xs → AreListed V hash (read_with unhash) xs
  readable_listed [] h = tt
  readable_listed (x ∷ xs) h = (
    λ t e. path_tree-HasListing hash (λ q. []) [] unhash x.1.1 t h.0.0 h.0.1 e,
    readable_listed xs h.1,
  )

  module _ (like : Str → Str → Bool) (now idx_at : ℕ) (root_path : Str) (inv : Inventory V hash)
      (a b : Db) (matches : MatchesBelow like) (readable : AreReadable inv.versions)
      (ix : IsIndex (read_with unhash) [] a) (refs : Refer a.inventories a.versions)
      (new : find_inventory inv.id a.inventories ≡ none) (nums : AreNumbered V hash inv.versions)
      (indexed : index_object_inventory V hash now idx_at root_path inv a ≡ ok b) where
    -- After IndexObjectInventory has indexed an object that was new to the index, GetObjectState
    -- answers, for each version of it, for every path that is valid once cleaned and for every
    -- limit that is not negative, with the kind and the digest of what Get finds at that path in
    -- the tree that PathTree builds for the version's state, and with ErrNotFound if Get finds
    -- nothing. The index held what its digests stand for and its versions belonged to inventories
    -- that are there; the digests of the directories are bytes
    -- and each comes from one listing; the logical paths have no line breaks, the versions have
    -- distinct numbers that their non-empty texts stand for, and LIKE takes a percent sign for any text.
    pub index_then_state :
        (i : ℕ) (x : VersionEntry V hash) (p : Str) (recursive : Bool) (limit : ℕ) (cursor : Str)
        → get_elem? inv.versions i ≡ some x
        → valid_path (clean p) ≡ true
        → (t : Node IndexingVal) × (path_tree hash (λ q. []) [] (some x.1.1) ≡ ok t)
          × (state_key (get_object_state V like inv.id (some x.0) p recursive (pos limit) cursor b)
              ≡ wanted_key (get (clean p) t))
    index_then_state i x p recursive limit cursor e h =
        let k = read_with unhash in
        let listed = readable_listed inv.versions readable in
        let (node, (t, built, there), version) =
          All-get_elem? (Rooted V hash k inv.id b) inv.versions i x
            (object-Rooted V hash k now idx_at root_path inv a b listed ix refs new nums indexed)
            e in
        (
          t,
          built,
          get_object_state_indexed k V like b t node inv.id (some x.0) matches
              (index_object_inventory-Keeps V hash k now idx_at root_path inv a b listed ix
                indexed).index
              (All-get_elem? _ inv.versions i x listed e t built) there version p recursive limit
              cursor h,
        )

    -- After IndexObjectInventory has indexed an object that was new to the index, GetObjectState
    -- answers, for each version of it whose logical paths are apart, valid and not ".", for each of
    -- these paths and every limit that is not negative, with a file that has the digest of the path.
    -- The index held what its digests stand for and its versions belonged to inventories that are
    -- there; the digests of the directories are bytes and each comes from one listing; the logical
    -- paths have no line breaks, the versions have distinct numbers that their non-empty texts stand for, and
    -- LIKE takes a percent sign for any text.
    pub index_then_file :
        (i j : ℕ) (x : VersionEntry V hash) (p : Str × Str) (recursive : Bool) (limit : ℕ)
        (cursor : Str)
        → get_elem? inv.versions i ≡ some x
        → get_elem? x.1.1 j ≡ some p
        → AreApart x.1.1
        → (sum : List ℕ) × (decode_string p.1 ≡ some sum)
          × (state_key
                (get_object_state V like inv.id (some x.0) p.0 recursive (pos limit) cursor b)
              ≡ ok (false, hex sum))
    unfolding file_val size_of
    index_then_file i j x p recursive limit cursor e f apart =
        let plain = All-get_elem? (λ q. IsPlain q.0) x.1.1 j p (apart-IsPlain x.1.1 apart) f in
        let same = clean-plain p.0 plain in
        let (t, built, answer) =
          index_then_state i x p.0 recursive limit cursor e (rw same plain.valid) in
        let (sum, address, digest, there) =
          All-get_elem? (HasFile (λ q. []) [] t) x.1.1 j p
            (path_tree-get hash (λ q. []) [] x.1.1 t apart built) f in
        (sum, digest, answer ∙ rw (same, there) refl)

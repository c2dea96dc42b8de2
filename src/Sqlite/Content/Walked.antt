-- ===== src/Sqlite/Content/Walked.antt =====
-- Following names from a node in the tables, and what the digests stand for.
use ocfl_index.Base.{
  ℕ, ◌≡◌, ◌≢◌, refl, sym, ◌∙◌, Bool, true, false, ◌&&◌, Option, none, some, List, [], ◌∷◌, ◌==◌,
  arith, All, Bool-cases, Option-cases, inl, inr,
}
use mathlib.Core.Option
use ocfl_index.Text.{Str, str_eq, str_eq→eq}
use ocfl_index.PathTree.{Node, file, dir, Entries, end, entry, find, child, at}
use ocfl_index.IndexTree.{IndexingVal, hex}
use ocfl_index.Sqlite.{NodeRow, NameRow, Db}
use ocfl_index.Sqlite.Nodes.{has_name}
use ocfl_index.Sqlite.Nodes.Rows.{node_id}
use ocfl_index.Sqlite.Objects.{node_with}
use ocfl_index.Sqlite.Lookup.Walk.{find_name, walk_names}
use ocfl_index.IndexTree.Listing.{Key, node_key, Listing, HasListing, Lists}
use ocfl_index.Sqlite.Content.{resolve, key_at, IsChild, IsRight, is_open, IsIndex}

-- The key of the node at the end of a walk.
unfoldable pub key_of : Option ℕ → List NodeRow → Option Key
key_of none nodes = none
key_of (some i) nodes = key_at i nodes

abbrev pub row_key : NodeRow → Key
row_key r = (r.dir, r.sum)

pub key_at-node_with :
    (i : ℕ) (rs : List NodeRow) → Option.map row_key (node_with i rs) ≡ key_at i rs
unfolding node_with key_at
key_at-node_with i [] = refl
key_at-node_with i (r ∷ rs) = elim (Bool-cases (r.id == i)) [
  | inl e ↦ rw e refl
  | inr e ↦ rw e (key_at-node_with i rs)
]

-- The kind and the digest that a key is shown with.
abbrev pub shown : Key → Bool × Str
shown x = (x.0, hex x.1)

find_name-has :
    (i : ℕ) (n : Str) (rs : List NameRow) → has_name i n rs ≡ true → find_name i n rs ≢ none
unfolding has_name find_name
find_name-has i n [] h = cc
find_name-has i n (r ∷ rs) h = ground (arith, find_name-has i n rs)

module _ (k : Listing) where
  find_name-IsChild :
      (nodes : List NodeRow) (i j : ℕ) (n : Str) (rs : List NameRow)
      → All (IsRight k nodes) rs
      → find_name i n rs ≡ some j
      → IsChild k nodes i n j
  unfolding find_name
  find_name-IsChild nodes i j n [] h e = cc
  find_name-IsChild nodes i j n (r ∷ rs) h e =
      elim (Bool-cases (r.parent_id == i && str_eq r.name n)) [
        | inr other ↦ find_name-IsChild nodes i j n rs h.1 (rw other at e)
        | inl same ↦
            let parent : r.parent_id ≡ i = ground arith in
            let name : r.name ≡ n = str_eq→eq r.name n (ground arith) in
            let child : r.node_id ≡ j = ground arith in rw (← parent, ← name, ← child) h.0
      ]

  module _ (db : Db) (ix : IsIndex k [] db) where
    same_key :
        (i : ℕ) (x y : Key)
        → node_id x.1 x.0 db.nodes ≡ some i
        → node_id y.1 y.0 db.nodes ≡ some i
        → ◌≡◌ {A = Option Key} (some x) (some y)
    same_key i x y h h' = sym (ix.rows x.1 x.0 i h).0 ∙ (ix.rows y.1 y.0 i h').0

    -- A name below a file, or one that the digest does not stand for, is not there.
    not_listed :
        (i : ℕ) (x : Key) (n : Str)
        → node_id x.1 x.0 db.nodes ≡ some i
        → ((s : List ℕ) (y : Key) → k s n ≡ some y → x ≢ (true, s))
        → find_name i n db.names ≡ none
    not_listed i x n h not_there = elim (Option-cases (find_name i n db.names)) [
      | inl e ↦ e
      | inr (j, e) ↦
          let (s, y, parent, listed, there) =
            find_name-IsChild db.nodes i j n db.names ix.named e in
          absurd (not_there s y listed (ground (arith, same_key i x (true, s) h parent)))
    ]

    -- The names lead nowhere, or to the row of a node.
    abbrev Ends : List Str → ℕ → Option Key → Type 0
    Ends ns i none = walk_names db.names ns i ≡ none
    Ends ns i (some x) =
        (j : ℕ) × (walk_names db.names ns i ≡ some j) × (node_id x.1 x.0 db.nodes ≡ some j)

    onward :
        (n : Str) (ns : List Str) (i j : ℕ)
        → find_name i n db.names ≡ some j
        → (o : Option Key) → Ends ns j o
        → Ends (n ∷ ns) i o
    unfolding walk_names
    onward n ns i j e none h = rw (e, walk_names) h
    onward n ns i j e (some x) (l, h, there) = (l, rw (e, walk_names) h, there)

    walk-Ends :
        (ns : List Str) (i : ℕ) (x : Key)
        → node_id x.1 x.0 db.nodes ≡ some i
        → Ends ns i (resolve k ns x)
    unfolding walk_names resolve is_open
    walk-Ends [] i x h = (i, refl, h)
    walk-Ends (n ∷ ns) i (false, s) h =
        rw (not_listed i (false, s) n h (λ t y e. cc), walk_names) refl
    walk-Ends (n ∷ ns) i (true, s) h = elim (Option-cases (k s n)) [
      | inl none_there ↦
          rw (none_there, resolve)
            (rw (not_listed i (true, s) n h (λ t y e. ground arith), walk_names) refl)
      | inr (x, listed) ↦ elim (Option-cases (find_name i n db.names)) [
        | inl missing ↦ absurd (find_name-has i n db.names (ix.whole s i n x h refl listed) missing)
        | inr (j, e) ↦
            let (t, y, parent, listed', there) =
              find_name-IsChild db.nodes i j n db.names ix.named e in
            let st : s ≡ t = ground (arith, same_key i (true, s) (true, t) h parent) in
            let xy : ◌≡◌ {A = Option Key} (some y) (some x) = sym listed' ∙ rw (← st) listed in
            let yx : y ≡ x = ground arith in
            rw (listed, resolve)
              (onward n ns i j e (resolve k ns x) (walk-Ends ns j x (rw (← yx) there)))
      ]
    ]

    pub walk-resolve :
        (ns : List Str) (i : ℕ) (x : Key)
        → node_id x.1 x.0 db.nodes ≡ some i
        → key_of (walk_names db.names ns i) db.nodes ≡ resolve k ns x
    walk-resolve ns i x h = go (resolve k ns x) (walk-Ends ns i x h)
      where
        go : (o : Option Key) → Ends ns i o → key_of (walk_names db.names ns i) db.nodes ≡ o
        go none e = unfold key_of in rw e refl
        go (some y) (j, e, there) = unfold key_of in rw e (ix.rows y.1 y.0 j there).0

    pub walk-node_id :
        (ns : List Str) (i : ℕ) (x y : Key)
        → node_id x.1 x.0 db.nodes ≡ some i
        → resolve k ns x ≡ some y
        → (j : ℕ) × (walk_names db.names ns i ≡ some j) × (node_id y.1 y.0 db.nodes ≡ some j)
    walk-node_id ns i x y h e = rw e at (walk-Ends ns i x h)

  listed_child :
      (s : List ℕ) (n : Str) (es : Entries IndexingVal) (ch : Node IndexingVal)
      → Lists k s es
      → find n es ≡ some ch
      → (k s n ≡ some (node_key ch)) × HasListing k ch
  unfolding find Lists
  listed_child s n end ch h e = cc
  listed_child s n (entry m c es) ch h e = elim (Bool-cases (str_eq m n)) [
    | inr other ↦ listed_child s n es ch h.3 (rw other at e)
    | inl same ↦ let cs : c ≡ ch = ground arith in rw (← str_eq→eq m n same, ← cs) (h.0, h.2)
  ]

  pub resolve-at :
      (ns : List Str) (t : Node IndexingVal)
      → HasListing k t
      → resolve k ns (node_key t) ≡ Option.map node_key (at ns t)
  unfolding resolve at child HasListing
  resolve-at [] t h = refl
  resolve-at (n ∷ ns) (file a v) h = refl
  resolve-at (n ∷ ns) (dir a v es) h = elim (Option-cases (find n es)) [
    | inl missing ↦ rw (missing, h.1 n missing, at, resolve) refl
    | inr (ch, found) ↦
        let (listed, below) = listed_child v.sum n es ch h.0 found in
        rw (found, listed, at, resolve) (resolve-at ns ch below)
  ]

  -- Below a tree's node, too, directories have what their digests stand for.
  pub at-HasListing :
      (ns : List Str) (t u : Node IndexingVal) → HasListing k t → at ns t ≡ some u → HasListing k u
  unfolding at child HasListing
  at-HasListing [] t u h e = let tu : t ≡ u = ground arith in rw (← tu) h
  at-HasListing (n ∷ ns) (file a v) u h e = cc
  at-HasListing (n ∷ ns) (dir a v es) u h e = elim (Option-cases (find n es)) [
    | inl missing ↦ cc (rw (missing, at) at e)
    | inr (ch, found) ↦
        at-HasListing ns ch u (listed_child v.sum n es ch h.0 found).1 (rw (found, at) at e)
  ]

  pub listed_lem :
      (a : ℕ) (v : IndexingVal) (es : Entries IndexingVal) (n : Str)
      → HasListing k (dir a v es)
      → k v.sum n ≡ Option.map node_key (find n es)
  unfolding HasListing
  listed_lem a v es n h = elim (Option-cases (find n es)) [
    | inl missing ↦ rw missing (h.1 n missing)
    | inr (ch, found) ↦ rw found (listed_child v.sum n es ch h.0 found).0
  ]

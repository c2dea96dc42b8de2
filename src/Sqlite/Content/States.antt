-- ===== src/Sqlite/Content/States.antt =====
-- What GetObjectState answers for a version whose tree the tables hold.
use ocfl_index.Base.{
  ℕ, ◌+◌, ◌≡◌, refl, sym, ap, ◌∙◌, Bool, true, false, Option, none, some, List, [], ◌∷◌, arith,
  Bool-cases, inl, inr, Result, ok, err, panic, pos,
}
use mathlib.Core.Option
use ocfl_index.Text.{Str}
use ocfl_index.Text.Paths.{dot, clean, valid_path}
use ocfl_index.Text.Paths.Valid.{pointer_to}
use ocfl_index.Paging.{page_of, query}
use ocfl_index.PathTree.{Err, Node, dir, Entries, find, at, get}
use ocfl_index.PathTree.Segments.{found}
use ocfl_index.PathTree.Located.{get-located}
use ocfl_index.IndexTree.{IndexingVal}
use ocfl_index.Sqlite.{IndexErr, not_found, NodeRow, Db}
use ocfl_index.Sqlite.Nodes.Rows.{node_id}
use ocfl_index.Sqlite.Versions.{VNumbers}
use ocfl_index.Sqlite.Objects.{node_with}
use ocfl_index.Sqlite.Roots.{page_limit}
use ocfl_index.Sqlite.Lookup.{version_roots, node_by_path}
use ocfl_index.Sqlite.Lookup.Walk.{walk_names}
use ocfl_index.Sqlite.Lookup.Find.{MatchesBelow, node_at, node_by_path-walk_names}
use ocfl_index.Sqlite.State.{
  PathInfo, item_name, node_info, state_limit, state_of_node, version_string, get_object_state,
}
use ocfl_index.Sqlite.State.Pages.{all_children, get_object_state_lem, state_of_node_directory}
use ocfl_index.IndexTree.Listing.{Key, node_key, Listing, HasListing}
use ocfl_index.Sqlite.Content.{resolve, key_at, IsIndex}
use ocfl_index.Sqlite.Content.Walked.{
  row_key, shown, key_at-node_with, key_of, walk-resolve, walk-node_id, resolve-at, at-HasListing,
  listed_lem,
}
use ocfl_index.Sqlite.Content.Children.{find_item, find_item-all_children}

key_of-node_at :
    (o : Option ℕ) (rs : List NodeRow) → Option.map row_key (node_at o rs) ≡ key_of o rs
unfolding key_of node_with
key_of-node_at none rs = refl
key_of-node_at (some i) rs = key_at-node_with i rs

-- The kind and the digest of what GetObjectState answers.
abbrev pub state_key : Result IndexErr PathInfo → Result IndexErr (Bool × Str)
state_key (ok i) = ok (i.is_dir, i.sum)
state_key (err e) = err e
state_key panic = panic

-- What it is to answer for what Get finds in the tree.
abbrev pub wanted_key : Result Err (Node IndexingVal) → Result IndexErr (Bool × Str)
wanted_key (ok t) = ok (shown (node_key t))
wanted_key (err e) = err not_found
wanted_key panic = panic

state_of_node-key :
    (n : NodeRow) (recursive : Bool) (limit : ℕ) (cursor : Str) (db : Db)
    → state_key (state_of_node n recursive (state_limit (pos limit)) cursor db)
      ≡ ok (shown (row_key n))
state_of_node-key n recursive limit cursor db = elim (Bool-cases n.dir) [
  | inl d ↦ rw (state_of_node_directory n recursive limit cursor db d) refl
  | inr f ↦ unfold state_of_node in rw f refl
]

node_with_id : (i : ℕ) (rs : List NodeRow) (n : NodeRow) → node_with i rs ≡ some n → n.id ≡ i
unfolding node_with
node_with_id i [] n h = cc
node_with_id i (r ∷ rs) n h = ground (arith, node_with_id i rs n)

row_with_key :
    (i : ℕ) (rs : List NodeRow) (x : Key)
    → key_at i rs ≡ some x
    → (n : NodeRow) × (node_with i rs ≡ some n) × (n.id ≡ i) × (row_key n ≡ x)
row_with_key i rs x h = go (node_with i rs) refl
  where
    go :
        (o : Option NodeRow)
        → node_with i rs ≡ o
        → (n : NodeRow) × (node_with i rs ≡ some n) × (n.id ≡ i) × (row_key n ≡ x)
    go none e = cc (key_at-node_with i rs, ap (Option.map row_key) e)
    go (some n) e =
        let same : ◌≡◌ {A = Option Key} (some (row_key n)) (some x) =
          sym (ap (Option.map row_key) e) ∙ key_at-node_with i rs ∙ h in
        (n, e, node_with_id i rs n e, ground arith)

found_at : (o : Option (Node IndexingVal)) (t : Node IndexingVal) → found o ≡ ok t → o ≡ some t
found_at none t h = cc
found_at (some u) t h = ground arith

module _ (k : Listing) (V : VNumbers) (like : Str → Str → Bool) (db : Db) (tree : Node IndexingVal)
    (i : ℕ) (id : Str) (v : Option (VNumbers.VNum V)) (matches : MatchesBelow like)
    (ix : IsIndex k [] db) (listed : HasListing k tree)
    (rooted : node_id (node_key tree).1 (node_key tree).0 db.nodes ≡ some i)
    (version : version_roots id (version_string V v) db.versions db.inventories
      ≡ record { id = i; path = dot } ∷ []) where
  -- The query by path finds the row of the node that the tree has there.
  found_key :
      (p : Str)
      → valid_path p ≡ true
      → Option.map row_key (node_by_path like id (version_string V v) p db)
        ≡ Option.map node_key (at (pointer_to p) tree)
  found_key p h =
      ap (Option.map row_key)
        (node_by_path-walk_names like id (version_string V v) p db i matches ix.table version h)
      ∙ key_of-node_at (walk_names db.names (pointer_to p) i) db.nodes
      ∙ walk-resolve k db ix (pointer_to p) i (node_key tree) rooted
      ∙ resolve-at k (pointer_to p) tree listed

  answer_for :
      (p : Str) (recursive : Bool) (limit : ℕ) (cursor : Str) (o : Option NodeRow)
      (t : Option (Node IndexingVal))
      → valid_path (clean p) ≡ true
      → node_by_path like id (version_string V v) (clean p) db ≡ o
      → Option.map row_key o ≡ Option.map node_key t
      → state_key (get_object_state V like id v p recursive (pos limit) cursor db)
        ≡ wanted_key (found t)
  unfolding get_object_state
  answer_for p recursive limit cursor none none h e same = rw (h, e) refl
  answer_for p recursive limit cursor none (some t) h e same = cc
  answer_for p recursive limit cursor (some n) none h e same = cc
  answer_for p recursive limit cursor (some n) (some t) h e same =
      rw (h, e) (state_of_node-key n recursive limit cursor db ∙ ap (λ o. wanted_shown o) same)
    where
      wanted_shown : Option Key → Result IndexErr (Bool × Str)
      wanted_shown none = err not_found
      wanted_shown (some x) = ok (shown x)

  -- The kind and the digest of the answer.
  pub get_object_state_indexed :
      (p : Str) (recursive : Bool) (limit : ℕ) (cursor : Str)
      → valid_path (clean p) ≡ true
      → state_key (get_object_state V like id v p recursive (pos limit) cursor db)
        ≡ wanted_key (get (clean p) tree)
  get_object_state_indexed p recursive limit cursor h =
      answer_for p recursive limit cursor _ (at (pointer_to (clean p)) tree) h refl
        (found_key (clean p) h)
      ∙ ap wanted_key (sym (get-located (clean p) tree h))

  -- The row of the node that the tree has at a path.
  found_row :
      (p : Str) (t : Node IndexingVal)
      → valid_path p ≡ true
      → get p tree ≡ ok t
      → (n : NodeRow) × (node_by_path like id (version_string V v) p db ≡ some n)
        × (node_id (node_key t).1 (node_key t).0 db.nodes ≡ some n.id)
        × (row_key n ≡ node_key t)
        × HasListing k t
  found_row p t h e =
      let there : at (pointer_to p) tree ≡ some t =
        found_at (at (pointer_to p) tree) t (sym (get-located p tree h) ∙ e) in
      let resolved : resolve k (pointer_to p) (node_key tree) ≡ some (node_key t) =
        resolve-at k (pointer_to p) tree listed ∙ ap (Option.map node_key) there in
      let (j, walked, row) =
        walk-node_id k db ix (pointer_to p) i (node_key tree) (node_key t) rooted resolved in
      let (n, node, same_id, key) =
        row_with_key j db.nodes (node_key t) (ix.rows (node_key t).1 (node_key t).0 j row).0 in
      (
        n,
        node_by_path-walk_names like id (version_string V v) p db i matches ix.table version h
            ∙ ap (λ o. node_at o db.nodes) walked
            ∙ unfold node_with in node,
        rw same_id row,
        key,
        at-HasListing k (pointer_to p) tree t listed there,
      )

  -- Where the tables hold what their digests stand for and the version has one root node, that of a
  -- tree whose directories have what their digests stand for, GetObjectState of a path at which
  -- Get finds a directory in the tree answers, for every limit that is not negative, with the
  -- digest of that directory, and with the page of its children, or of all files below it if it
  -- is recursive, that the reference paging gives; and among its children a name is found if the
  -- tree has it there, with the kind and the digest that it has in the tree. The path is valid once
  -- cleaned, and LIKE takes a percent sign for any text.
  pub get_object_state_children :
      (p : Str) (recursive : Bool) (limit : ℕ) (cursor : Str) (a : ℕ) (w : IndexingVal)
      (es : Entries IndexingVal)
      → valid_path (clean p) ≡ true
      → get (clean p) tree ≡ ok (dir a w es)
      → let m = page_limit limit in
        (n : NodeRow) × (get_object_state V like id v p recursive (pos limit) cursor db
          ≡ ok (
              node_info n (
                page_of item_name m
                  (query item_name (m + 1) cursor (all_children n.id recursive db)))))
        × (row_key n ≡ (true, w.sum))
        × ((c : Str)
            → find_item c (all_children n.id false db)
              ≡ Option.map (λ t. shown (node_key t)) (find c es))
  get_object_state_children p recursive limit cursor a w es h e =
      let (n, node, row, key, below) = found_row (clean p) (dir a w es) h e in
      (
        n,
        get_object_state_lem V like id p v recursive limit cursor db n h node (ap (λ x. x.0) key),
        key,
        λ c.
            find_item-all_children k db ix n.id w.sum c row
            ∙ ap (Option.map shown) (listed_lem k a w es c below)
            ∙ map-map (find c es),
      )
    where
      map-map :
          (o : Option (Node IndexingVal))
          → Option.map shown (Option.map node_key o) ≡ Option.map (λ t. shown (node_key t)) o
      map-map none = refl
      map-map (some t) = refl

-- ===== src/Sqlite/Content/Added.antt =====
-- addPathtreeNodes on tables that hold what their digests stand for.
use ocfl_index.Base.{
  ℕ, ◌≡◌, ◌≢◌, refl, Bool, true, false, none, some, List, ◌∷◌, ◌⊎◌, inl, inr, arith, All,
  Bool-cases, Option-cases, if◌then◌else◌,
}
use ocfl_index.Text.{Str, str_eq, str_eq→eq, str_eq_refl}
use ocfl_index.Paging.{sort_by}
use ocfl_index.Paging.Order.{All-sort_by, All-sort_by_back}
use ocfl_index.PathTree.{Node, file, dir, Entries, end, entry, find}
use ocfl_index.IndexTree.{IndexingVal, name_of}
use ocfl_index.Sqlite.{Db}
use ocfl_index.Sqlite.Nodes.{
  has_name, get_set_node, connect, run_all, follow, add_pathtree_child, add_children,
}
use ocfl_index.Sqlite.Nodes.Rows.{
  node_id, get_set_node-Extends, node_id-get_set_node, Extends-trans,
}
use ocfl_index.Sqlite.Nodes.Unique.{nodes-connect, connect-Extends}
use ocfl_index.Sqlite.Nodes.Unique.{follow-id}
use ocfl_index.IndexTree.Listing.{Key, IsPlainName, node_key, Listing, HasListing, Lists}
use ocfl_index.Sqlite.Content.{IsChild, is_open, IsIndex}
use ocfl_index.Sqlite.Content.Steps.{got-IsIndex, connect-IsIndex}
use ocfl_index.Sqlite.Content.Grown.{Grows, Adding, Named, run_all-Grows, close-IsIndex}
use ocfl_index.Sqlite.Content.Keys.{names-get_set_node}
use ocfl_index.Sqlite.Content.Names.{has_name-connect, has_name-connect_self}

is_open_self : (s : List ℕ) (os : List (List ℕ)) → is_open s (s ∷ os) ≡ true
unfolding is_open
is_open_self s os = rw (str_eq_refl s) refl

fewer_open :
    (b : Bool) (s : List ℕ) (os : List (List ℕ)) (t : List ℕ)
    → is_open t (if b then s ∷ os else os) ≡ false
    → is_open t os ≡ false
unfolding is_open
fewer_open true s os t h = ground arith
fewer_open false s os t h = h

module _ (k : Listing) where
  pub Named-child :
      (es : Entries IndexingVal) (ch : Node IndexingVal) (p : ℕ) (n : Str) (db : Db)
      → All (Named db p) (add_children es p)
      → find n es ≡ some ch
      → has_name p n db.names ≡ true
  unfolding find add_children
  Named-child end ch p n db h e = cc
  Named-child (entry m c es) ch p n db h e = elim (Bool-cases (str_eq m n)) [
    | inl same ↦ rw (← str_eq→eq m n same) h.0
    | inr other ↦ Named-child es ch p n db h.1 (rw other at e)
  ]

  pub all-Named :
      (es : Entries IndexingVal) (s : List ℕ) (p : ℕ) (db : Db)
      → All (Named db p) (add_children es p)
      → ((n : Str) → find n es ≡ none → k s n ≡ none)
      → (n : Str) (x : Key) → k s n ≡ some x
      → has_name p n db.names ≡ true
  all-Named es s p db h only n x e = elim (Option-cases (find n es)) [
    | inl missing ↦ cc (only n missing)
    | inr (ch, found) ↦ Named-child es ch p n db h found
  ]

  -- A place for a node: at the root of a tree, or under its name in a directory.
  unfoldable pub Place : Db → ℕ → Str → Key → Type 0
  Place db p n x =
      (p ≡ 0)
      ⊎ ((s : List ℕ) × (node_id s true db.nodes ≡ some p) × (k s n ≡ some x) × IsPlainName n)

  pub record Linked (opened : List (List ℕ)) (a b : Db) (p : ℕ) (n : Str) (x : Key) (i : ℕ)
      : Type 0 where
    pub grown : Grows k opened a b
    pub name : p ≢ 0 → has_name p n b.names ≡ true
    pub root : node_id x.1 x.0 b.nodes ≡ some i

  pub link :
      (v : IndexingVal) (d : Bool) (p : ℕ) (n : Str) (db : Db) (before after : List (List ℕ))
      → IsIndex k before db
      → ((s : List ℕ) → is_open s after ≡ false → is_open s before ≡ false)
      → (d ≡ true → (get_set_node v d db).is_new ≡ true → is_open v.sum after ≡ true)
      → Place db p n (d, v.sum)
      → let g = get_set_node v d db in Linked after db (connect g.id p n g.db) p n (d, v.sum) g.id
  unfolding Place
  link v d p n db before after ix fewer new place =
      let g = get_set_node v d db in
      let got = got-IsIndex k v d db before after ix fewer new in
      let kept = get_set_node-Extends v d db in
      let there = node_id-get_set_node v d db in
      record {
        grown = record {
          index = connect-IsIndex k g.id p n g.db after got (child place) (plain place);
          extends =
              Extends-trans db g.db (connect g.id p n g.db) kept (connect-Extends g.id p n g.db);
          names = λ i m e. has_name-connect g.id p i n m g.db (rw (names-get_set_node v d db) e);
        };
        name = λ h. has_name-connect_self g.id p n g.db h;
        root = rw (nodes-connect g.id p n g.db) there;
      }
    where
      child :
          Place db p n (d, v.sum)
          → (p ≡ 0) ⊎ IsChild k (get_set_node v d db).db.nodes p n (get_set_node v d db).id
      child (inl e) = inl e
      child (inr (s, parent, listed, name)) = inr (
        s,
        (d, v.sum),
        (get_set_node-Extends v d db).keeps s true p parent,
        listed,
        node_id-get_set_node v d db,
      )

      plain : Place db p n (d, v.sum) → (p ≡ 0) ⊎ IsPlainName n
      plain (inl e) = inl e
      plain (inr (s, parent, listed, name)) = inr name

  pub followed :
      (b : Bool) (v : IndexingVal) (es : Entries IndexingVal) (p : ℕ) (n : Str) (i : ℕ)
      (opened : List (List ℕ)) (a db : Db)
      → Linked (if b then v.sum ∷ opened else opened) a db p n (true, v.sum) i
      → All (Adding k (v.sum ∷ opened) v.sum i) (add_children es i)
      → ((m : Str) → find m es ≡ none → k v.sum m ≡ none)
      → Linked opened a
          (follow b (sort_by (name_of {A = Db → Db}) (add_children es i)) db i).0
          p
          n
          (true, v.sum)
          i
  followed false v es p n i opened a db l h only = l
  followed true v es p n i opened a db l h only =
      let key = name_of {A = Db → Db} in
      let fs = sort_by key (add_children es i) in
      let after = run_all fs db in
      let ran =
        run_all-Grows k (v.sum ∷ opened) v.sum i fs db
          (All-sort_by key (Adding k (v.sum ∷ opened) v.sum i) (add_children es i) h) l.grown.index
          l.root in
      let all = All-sort_by_back key (Named after i) (add_children es i) ran.1 in
      let there = ran.0.extends.keeps v.sum true i l.root in
      record {
        grown = record {
          index =
              close-IsIndex k opened v.sum i after ran.0.index there
                (all-Named es v.sum i after all only);
          extends = Extends-trans a db after l.grown.extends ran.0.extends;
          names = λ j m e. ran.0.names j m (l.grown.names j m e);
        };
        name = λ h. ran.0.names p n (l.name h);
        root = there;
      }

  mutual
    unfolding add_pathtree_child add_children HasListing Adding Place is_open

    pub add_child-Linked :
        (t : Node IndexingVal) (opened : List (List ℕ)) (p : ℕ) (n : Str) (db : Db)
        → HasListing k t
        → IsIndex k opened db
        → Place db p n (node_key t)
        → Linked opened db
            (add_pathtree_child t p n db).0
            p
            n
            (node_key t)
            (add_pathtree_child t p n db).1
    add_child-Linked (file a v) opened p n db h ix place =
        link v false p n db opened opened ix (λ s e. e) (λ e. cc) place
    add_child-Linked (dir a v es) opened p n db h ix place =
        let g = get_set_node v true db in
        let after : List (List ℕ) = if g.is_new then v.sum ∷ opened else opened in
        rw (follow-id g.is_new _ (connect g.id p n g.db) g.id) (
          followed g.is_new v es p n g.id opened db (connect g.id p n g.db)
            (link v true p n db opened after ix (fewer_open g.is_new v.sum opened)
              (λ e new. rw new (is_open_self v.sum opened)) place)
            (children-Adding es (v.sum ∷ opened) v.sum g.id h.0) h.1)

    pub children-Adding :
        (es : Entries IndexingVal) (opened : List (List ℕ)) (s : List ℕ) (p : ℕ)
        → Lists k s es
        → All (Adding k opened s p) (add_children es p)
    children-Adding end opened s p h = tt
    children-Adding (entry n ch es) opened s p h = (
      λ db ix there.
          let l = add_child-Linked ch opened p n db h.2 ix (inr (s, there, h.0, h.1)) in
          (l.grown, l.name (ix.rows s true p there).1),
      children-Adding es opened s p h.3,
    )

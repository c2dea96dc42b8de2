-- ===== src/Sqlite/Content/Grown.antt =====
-- What adding does to the tables: a child after the other, and when a directory is whole.
use ocfl_index.Base.{ℕ, ◌≡◌, true, some, List, [], ◌∷◌, inl, inr, All, Bool-cases}
use ocfl_index.Text.{Str, str_eq, str_eq→eq}
use ocfl_index.Sqlite.{Db}
use ocfl_index.Sqlite.Nodes.{has_name, run_all}
use ocfl_index.Sqlite.Nodes.Rows.{Extends, node_id, Extends-refl, Extends-trans}
use ocfl_index.IndexTree.Listing.{Key, Listing}
use ocfl_index.Sqlite.Content.{is_open, IsIndex}

abbrev pub Named : Db → ℕ → Str × (Db → Db) → Type 0
Named db p e = has_name p e.0 db.names ≡ true

module _ (k : Listing) where
  -- What adding does to the database: the tables stay right, and no node or name is lost.
  pub record Grows (opened : List (List ℕ)) (a b : Db) : Type 0 where
    pub index : IsIndex k opened b
    pub extends : Extends a b
    pub names : (i : ℕ) (n : Str) → has_name i n a.names ≡ true → has_name i n b.names ≡ true

  pub Grows-trans :
      (opened : List (List ℕ)) (a b c : Db) → Grows opened a b → Grows opened b c → Grows opened a c
  Grows-trans opened a b c g h = record {
    index = h.index;
    extends = Extends-trans a b c g.extends h.extends;
    names = λ i n e. h.names i n (g.names i n e);
  }

  -- A child that is added to a directory, with its name.
  unfoldable pub Adding : List (List ℕ) → List ℕ → ℕ → Str × (Db → Db) → Type 0
  Adding opened s p e =
      (db : Db)
      → IsIndex k opened db
      → node_id s true db.nodes ≡ some p
      → Grows opened db (e.1 db) × (has_name p e.0 (e.1 db).names ≡ true)

  pub run_all-Grows :
      (opened : List (List ℕ)) (s : List ℕ) (p : ℕ) (fs : List (Str × (Db → Db))) (db : Db)
      → All (Adding opened s p) fs
      → IsIndex k opened db
      → node_id s true db.nodes ≡ some p
      → Grows opened db (run_all fs db) × All (Named (run_all fs db) p) fs
  unfolding run_all Adding
  run_all-Grows opened s p [] db h ix e =
      (record { index = ix; extends = Extends-refl db; names = λ i n m. m }, tt)
  run_all-Grows opened s p ((n, f) ∷ fs) db h ix e =
      let one = h.0 db ix e in
      let rest =
        run_all-Grows opened s p fs (f db) h.1 one.0.index (one.0.extends.keeps s true p e) in
      (
        Grows-trans opened db (f db) (run_all fs (f db)) one.0 rest.0,
        (rest.0.names p n one.1, rest.1),
      )

  -- A directory with all its names is not open any more.
  pub close-IsIndex :
      (opened : List (List ℕ)) (s : List ℕ) (p : ℕ) (db : Db)
      → IsIndex k (s ∷ opened) db
      → node_id s true db.nodes ≡ some p
      → ((n : Str) (x : Key) → k s n ≡ some x → has_name p n db.names ≡ true)
      → IsIndex k opened db
  unfolding is_open
  close-IsIndex opened s p db ix e all = record {
    named = ix.named;
    rows = ix.rows;
    table = ix.table;
    whole = λ t i n x h closed listed. elim (Bool-cases (str_eq s t)) [
      | inr other ↦ ix.whole t i n x h (rw other closed) listed
      | inl same ↦
          let st : s ≡ t = str_eq→eq s t same in
          let ip : p ≡ i = cc in rw (← ip) (all n x (rw st listed))
    ];
  }

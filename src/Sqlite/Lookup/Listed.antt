-- ===== src/Sqlite/Lookup/Listed.antt =====
-- The rows of a listing have distinct keys, none of them empty: the names of a directory's
-- children, and the paths of the files below it.
use ocfl_index.Base.{
  ℕ, suc, ◌≡◌, refl, ◌∙◌, true, false, Option, none, some, List, [], ◌∷◌, ◌++◌, ◌==◌, arith, length,
  All, All-append, Bool-cases, inl, inr,
}
use mathlib.Core.List.{append-nil}
use ocfl_index.Text.{str_eq_sym, Str, slash, str_eq, str_lt}
use ocfl_index.Text.Paths.{valid_elem}
use ocfl_index.Paging.Order.{DistinctKeys}
use ocfl_index.Paging.Keys.{All-map, All-any, All-imp}
use ocfl_index.Sqlite.{NodeRow, NameRow, Db}
use ocfl_index.Sqlite.Objects.{node_with}
use ocfl_index.Sqlite.Details.{child_name, child_row, child_rows}
use ocfl_index.Sqlite.Lookup.{
  PathRow, row_path, flat_map, names_of, descend, below_name, file_path, file_row, file_rows,
  all_files,
}
use ocfl_index.Sqlite.Lookup.Distinct.{group, descend-DistinctKeys}
use ocfl_index.Sqlite.Lookup.Walk.{
  ArePlain, IsNameTable, find_in, Once, Once-names_of, All-names_of,
}

-- A row that holds of a path holds of the file at that path.
file_rows-All :
    (P : Str → Type 0) (rows : List PathRow) (nodes : List NodeRow)
    → All (λ r. P r.path) rows
    → All (λ r. P r.path) (file_rows rows nodes)
unfolding file_rows file_row
file_rows-All P [] nodes h = tt
file_rows-All P (r ∷ rs) nodes h = go (node_with r.id nodes) (file_rows-All P rs nodes h.1)
  where
    go :
        (o : Option NodeRow)
        → All (λ x. P x.path) (file_rows rs nodes)
        → All (λ x. P x.path) (file_row r.path o (file_rows rs nodes))
    go none rest = rest
    go (some n) rest = elim (Bool-cases n.dir) [ inl e ↦ rw e rest | inr e ↦ rw e (h.0, rest) ]

file_rows-DistinctKeys :
    (rows : List PathRow) (nodes : List NodeRow)
    → DistinctKeys row_path rows
    → DistinctKeys file_path (file_rows rows nodes)
unfolding file_rows file_row
file_rows-DistinctKeys [] nodes d = tt
file_rows-DistinctKeys (r ∷ rs) nodes d =
    go (node_with r.id nodes) (file_rows-DistinctKeys rs nodes d.1)
  where
    go :
        (o : Option NodeRow)
        → DistinctKeys file_path (file_rows rs nodes)
        → DistinctKeys file_path (file_row r.path o (file_rows rs nodes))
    go none rest = rest
    go (some n) rest = elim (Bool-cases n.dir) [
      | inl e ↦ rw e rest
      | inr e ↦ rw e (file_rows-All (λ p. str_eq r.path p ≡ false) rs nodes d.0, rest)
    ]

pub all_files-DistinctKeys :
    (i : ℕ) (db : Db) → IsNameTable db.names → DistinctKeys file_path (all_files i db)
unfolding all_files
all_files-DistinctKeys i db t =
    file_rows-DistinctKeys _ db.nodes (descend-DistinctKeys (suc (length db.names)) i db.names t)

not_empty : (n t : Str) → valid_elem n ≡ true → str_lt [] (n ++ t) ≡ true
unfolding str_lt valid_elem str_eq
not_empty [] t h = ground arith
not_empty (c ∷ n) t h = refl

groups_not_empty :
    (f : ℕ) (names rs : List NameRow)
    → ArePlain rs
    → All (λ r. str_lt [] r.path ≡ true) (flat_map (group f names) rs)
unfolding flat_map
groups_not_empty f names [] pl = tt
groups_not_empty f names (r ∷ rs) pl =
    All-append _ (group f names r) _
      (
        rw (append-nil r.name) at (not_empty r.name [] pl.0.0),
        All-map (λ x. Unit {0}) _ (below_name r.name)
            (λ x u. not_empty r.name (slash ∷ x.path) pl.0.0) _ (All-any _ (λ x. tt) _),
      )
      (groups_not_empty f names rs pl.1)

pub all_files_not_empty :
    (i : ℕ) (db : Db) → IsNameTable db.names → All (λ r. str_lt [] r.path ≡ true) (all_files i db)
unfolding all_files descend
all_files_not_empty i db t =
    file_rows-All (λ p. str_lt [] p ≡ true) _ db.nodes
      (groups_not_empty (length db.names) db.names (names_of i db.names)
        (All-names_of _ i db.names t.plain))

child_rows-All :
    (P : Str → Type 0) (i : ℕ) (rs : List NameRow) (db : Db)
    → All (λ r. P r.name) (names_of i rs)
    → All (λ r. P r.name) (child_rows i rs db)
unfolding child_rows child_row names_of
child_rows-All P i [] db h = tt
child_rows-All P i (r ∷ rs) db h = elim (Bool-cases (r.parent_id == i)) [
  | inr e ↦ rw e (child_rows-All P i rs db (rw e at h))
  | inl e ↦
      let h' = rw e at h in
      rw e (go h'.0 (node_with r.node_id db.nodes) (child_rows-All P i rs db h'.1))
]
  where
    go :
        P r.name
        → (o : Option NodeRow) → All (λ x. P x.name) (child_rows i rs db)
        → All (λ x. P x.name) (child_row r.name o (child_rows i rs db))
    go p none rest = rest
    go p (some n) rest = (p, rest)

others_differ :
    (n : Str) (rs : List NameRow) → find_in n rs ≡ none → All (λ r. str_eq n r.name ≡ false) rs
unfolding find_in
others_differ n [] h = tt
others_differ n (r ∷ rs) h = elim (Bool-cases (str_eq r.name n)) [
  | inl e ↦ cc (rw e at h)
  | inr e ↦ (str_eq_sym n r.name ∙ e, others_differ n rs (rw e at h))
]

child_rows-Once :
    (i : ℕ) (rs : List NameRow) (db : Db)
    → Once (names_of i rs)
    → DistinctKeys child_name (child_rows i rs db)
unfolding child_rows child_row names_of
child_rows-Once i [] db o = tt
child_rows-Once i (r ∷ rs) db o = elim (Bool-cases (r.parent_id == i)) [
  | inr e ↦ rw e (child_rows-Once i rs db (rw e at o))
  | inl e ↦
      let o' = rw e at o in
      rw e (go o'.0 (node_with r.node_id db.nodes) (child_rows-Once i rs db o'.1))
]
  where
    go :
        find_in r.name (names_of i rs) ≡ none
        → (o : Option NodeRow) → DistinctKeys child_name (child_rows i rs db)
        → DistinctKeys child_name (child_row r.name o (child_rows i rs db))
    go p none rest = rest
    go p (some n) rest =
        (child_rows-All (λ s. str_eq r.name s ≡ false) i rs db (others_differ r.name _ p), rest)

pub child_rows-DistinctKeys :
    (i : ℕ) (db : Db) → IsNameTable db.names → DistinctKeys child_name (child_rows i db.names db)
child_rows-DistinctKeys i db t = child_rows-Once i db.names db (Once-names_of i db.names t.distinct)

pub child_rows_not_empty :
    (i : ℕ) (db : Db)
    → IsNameTable db.names
    → All (λ r. str_lt [] r.name ≡ true) (child_rows i db.names db)
child_rows_not_empty i db t =
    child_rows-All (λ s. str_lt [] s ≡ true) i db.names db
      (All-imp _ _ (λ r h. rw (append-nil r.name) at (not_empty r.name [] h.0)) _
        (All-names_of _ i db.names t.plain))

-- ===== src/Sqlite/Lookup/Find.antt =====
-- The rows that queryGetNodeByPath expands, and the one of them that has the path asked for.
use ocfl_index.Base.{
  ℕ, zero, suc, ◌≤◌, ◌≡◌, refl, sym, ap, ◌∙◌, Bool, true, false, Option, none, some, List, [], ◌∷◌,
  ◌++◌, arith, length, Bool-cases, inl, inr,
}
use mathlib.Core.List.{append_assoc, append-nil}
use ocfl_index.Text.{Str, slash, bytes, str_eq, str_eq→eq, str_eq_refl}
use ocfl_index.Text.Paths.{dot, cut, split, cons_split, join, valid_elem, valid_elems, valid_path}
use ocfl_index.Text.Paths.Laws.{no_slashes, rest_of, join-split, split-cons, split-no_slashes}
use ocfl_index.Text.Paths.Valid.{IsPlain-valid_elems, pointer_to}
use ocfl_index.Sqlite.{NodeRow, NameRow, Db}
use ocfl_index.Sqlite.Objects.{node_with}
use ocfl_index.Sqlite.Lookup.{
  PathRow, flat_map, names_of, version_roots, next_path, is_on_way, expand, id_of_path, find_path,
  node_by_path,
}
use ocfl_index.Sqlite.Lookup.Walk.{
  walk_names, IsNameTable, find_in-names_of, Once-names_of, All-names_of, next_path_below, after,
  after-IsTail, join-after, next_not_dot,
}
use ocfl_index.Sqlite.Lookup.Among.{among_children}

-- LIKE: a percent sign stands for any text, and other characters for themselves.
abbrev pub MatchesBelow : (Str → Str → Bool) → Type 0
MatchesBelow like = (q t : Str) → like (q ++ bytes "/%") (q ++ (slash ∷ t)) ≡ true

-- The path of the node that a chain of names below q leads to.
abbrev along : Str → List Str → Str
along q [] = q
along q (s ∷ ss) = next_path q s ++ after ss

along_next :
    (q s : Str) (ss : List Str)
    → valid_elem s ≡ true
    → next_path q s ++ after ss ≡ along (next_path q s) ss
unfolding after
along_next q s [] h = append-nil (next_path q s)
along_next q s (v ∷ ws) h =
    rw (next_path_below (next_path q s) v (next_not_dot q s h), join-after v ws)
      (sym (append_assoc (next_path q s) (slash ∷ v) (after ws)))

name_not_dot : (s t : Str) → valid_elem s ≡ true → str_eq dot (s ++ t) ≡ false
unfolding valid_elem str_eq
name_not_dot [] t h = ground arith
name_not_dot (c ∷ []) [] h = ground arith
name_not_dot (c ∷ []) (d ∷ t) h = ground arith
name_not_dot (c ∷ d ∷ s) t h = ground arith

not_below : (q t : Str) → str_eq q (q ++ (slash ∷ t)) ≡ false
unfolding str_eq
not_below [] t = refl
not_below (c ∷ q) t = ground (arith, not_below q t)

starts_short : (q s t : Str) → valid_elem s ≡ true → str_eq q (next_path q s ++ t) ≡ false
unfolding next_path
starts_short q s t h = elim (Bool-cases (str_eq q dot)) [
  | inl e ↦ rw (e, str_eq→eq q dot e) (name_not_dot s t h)
  | inr e ↦ rw (e, append_assoc q (slash ∷ s) t) (not_below q (s ++ t))
]

module _ (like : Str → Str → Bool) (p : Str) (names : List NameRow) where
  on_way_to :
      (q : Str) (ss : List Str)
      → MatchesBelow like
      → p ≡ q ++ after ss
      → is_on_way like p names q ≡ true
  unfolding is_on_way after
  on_way_to q [] m e = rw (e, append-nil q, str_eq_refl q) refl
  on_way_to q (v ∷ ws) m e = rw (e, m q (join (v ∷ ws))) (ground arith)

  expanded :
      (ss : List Str) (f i : ℕ) (q : Str)
      → IsNameTable names
      → MatchesBelow like
      → valid_elems ss ≡ true
      → no_slashes ss ≡ true
      → length ss ≤ f
      → p ≡ along q ss
      → id_of_path p (expand like p names (suc f) (record { id = i; path = q }))
        ≡ walk_names names ss i
  unfolding expand id_of_path walk_names valid_elems
  expanded [] f i q t m v ns l e = rw (e, str_eq_refl q) refl
  expanded (s ∷ ss) zero i q t m v ns l e = ground arith
  expanded (s ∷ ss) (suc f) i q t m v ns l e =
      let ve : valid_elem s ≡ true = ground arith in
      let children = names_of i names in
      let apart : str_eq q p ≡ false = rw e (starts_short q s (after ss) ve) in
      rw apart (
        among_children like p names (suc f) q s (after ss) ss children e
          (on_way_to (next_path q s) ss m e) (ground arith) (after-IsTail ss)
          (All-names_of _ i names t.plain) (Once-names_of i names t.distinct)
          (λ j.
            expanded ss f j (next_path q s) t m (ground arith) (ground arith) (omega arith)
              (e ∙ along_next q s ss ve))
        ∙ rw (find_in-names_of i s names) refl)

pushed_length : (c : ℕ) (ws : List Str) → length (cons_split c ws) ≤ suc (length ws)
pushed_length c [] = ground arith
pushed_length c (w ∷ ws) = ground arith

split-length : (p : Str) → length (split p) ≤ suc (length p)
unfolding split
split-length [] = omega arith
split-length (c ∷ p) = ground (arith, split-length p, pushed_length c (split p))

along-dot : (w : Str) (ws : List Str) → along dot (w ∷ ws) ≡ join (w ∷ ws)
unfolding next_path str_eq
along-dot w ws = sym (join-after w ws)

along-split : (p : Str) → p ≡ along dot (split p)
along-split p =
    let cons = split-cons p in
    sym (rw cons (along-dot (cut p).first (rest_of (cut p)) ∙ rw (← cons) (join-split p)))

abbrev pub node_at : Option ℕ → List NodeRow → Option NodeRow
unfolding node_with
node_at none nodes = none
node_at (some j) nodes = node_with j nodes

find_path_lem :
    (p : Str) (rows : List PathRow) (nodes : List NodeRow)
    → find_path p rows nodes ≡ node_at (id_of_path p rows) nodes
unfolding find_path
find_path_lem p rows nodes =
    elim (id_of_path p rows)
      as (λ o. elim o [ none ↦ none | some i ↦ node_with i nodes ] ≡ node_at o nodes) [
        | none ↦ refl
        | some i ↦ refl
      ]

from_root :
    (like : Str → Str → Bool) (id v p : Str) (ss : List Str) (db : Db) (i : ℕ)
    → MatchesBelow like
    → IsNameTable db.names
    → version_roots id v db.versions db.inventories ≡ record { id = i; path = dot } ∷ []
    → valid_elems ss ≡ true
    → no_slashes ss ≡ true
    → length ss ≤ suc (length p)
    → p ≡ along dot ss
    → node_by_path like id v p db ≡ node_at (walk_names db.names ss i) db.nodes
unfolding node_by_path flat_map
from_root like id v p ss db i m t r ve ns l e =
    find_path_lem p _ db.nodes
    ∙ ap (λ o. node_at o db.nodes)
        (rw r (
          ap (id_of_path p) (
            append-nil
              (expand like p db.names (suc (suc (length p))) (record { id = i; path = dot })))
          ∙ expanded like p db.names ss (suc (length p)) i dot t m ve ns l e))

-- The recursive query for a valid path finds the node that the chain of its names leads to from the
-- root node of the version, where the version has one root node, the table of names has no two
-- rows with one parent and name and only path elements for names, and LIKE takes a percent sign
-- for any text.
pub node_by_path-walk_names :
    (like : Str → Str → Bool) (id v p : Str) (db : Db) (i : ℕ)
    → MatchesBelow like
    → IsNameTable db.names
    → version_roots id v db.versions db.inventories ≡ record { id = i; path = dot } ∷ []
    → valid_path p ≡ true
    → node_by_path like id v p db ≡ node_at (walk_names db.names (pointer_to p) i) db.nodes
unfolding valid_elems
node_by_path-walk_names like id v p db i m t r h = elim (Bool-cases (str_eq p dot)) [
  | inl e ↦ rw e (from_root like id v p [] db i m t r refl refl (omega arith) (str_eq→eq p dot e))
  | inr e ↦ rw e (
      from_root like id v p (split p) db i m t r
        (IsPlain-valid_elems (record { valid = h; plain = e })) (split-no_slashes p)
        (split-length p) (along-split p))
]

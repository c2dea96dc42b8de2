-- ===== src/Sqlite/Lookup/Distinct.antt =====
-- The rows below a node have distinct paths.
use ocfl_index.Base.{
  ℕ, zero, suc, ◌≡◌, refl, ◌∙◌, true, false, none, List, [], ◌∷◌, ◌++◌, map, arith, All, All-append,
  Bool-cases, inl, inr,
}
use mathlib.Core.List.{append-nil}
use ocfl_index.Text.{Str, str_eq_sym, slash, str_eq}
use ocfl_index.Text.Paths.Laws.{no_slash}
use ocfl_index.Text.Prefixes.{IsTail, str_eq-cancel}
use ocfl_index.Paging.Order.{DistinctKeys}
use ocfl_index.Paging.Keys.{All-map, All-any, All-imp, DistinctKeys-append, DistinctKeys-map}
use ocfl_index.Sqlite.{NameRow}
use ocfl_index.Sqlite.Lookup.{PathRow, row_path, flat_map, names_of, descend, below_name}
use ocfl_index.Sqlite.Lookup.Walk.{
  ArePlain, IsNameTable, find_in, Once, Once-names_of, All-names_of,
}

-- No path below the name n, n itself included, is the path p.
abbrev Avoids : Str → Str → Type 0
Avoids n p = (t : Str) → IsTail t → str_eq (n ++ t) p ≡ false

names-Differ :
    (n s t u : Str)
    → no_slash n ≡ true
    → no_slash s ≡ true
    → str_eq n s ≡ false
    → IsTail t
    → IsTail u
    → str_eq (n ++ t) (s ++ u) ≡ false
unfolding str_eq
names-Differ [] [] t u hn hs h k l = cc
names-Differ [] (c ∷ s) [] u hn hs h k l = refl
names-Differ [] (c ∷ s) (d ∷ t) u hn hs h k l = ground arith
names-Differ (d ∷ n) [] t [] hn hs h k l = refl
names-Differ (d ∷ n) [] t (c ∷ u) hn hs h k l = ground arith
names-Differ (d ∷ n) (c ∷ s) t u hn hs h k l = ground (arith, names-Differ n s t u)

-- The rows below one child: its own, and those below it.
abbrev pub group : ℕ → List NameRow → NameRow → List PathRow
group f names r =
    record { id = r.node_id; path = r.name } ∷ map (below_name r.name) (descend f r.node_id names)

longer : (a t : Str) → str_eq a (a ++ (slash ∷ t)) ≡ false
unfolding str_eq
longer [] t = refl
longer (c ∷ a) t = ground (arith, longer a t)

Avoids-all :
    (n : Str) (f : ℕ) (names rs : List NameRow)
    → no_slash n ≡ true
    → find_in n rs ≡ none
    → ArePlain rs
    → All (λ y. Avoids n y.path) (flat_map (group f names) rs)
unfolding find_in flat_map
Avoids-all n f names [] hn h pl = tt
Avoids-all n f names (r ∷ rs) hn h pl = elim (Bool-cases (str_eq r.name n)) [
  | inl e ↦ cc (rw e at h)
  | inr e ↦
      let apart : str_eq n r.name ≡ false = str_eq_sym n r.name ∙ e in
      let rest = Avoids-all n f names rs hn (rw e at h) pl.1 in
      All-append (λ y. Avoids n y.path) (group f names r) _
        (
          (λ t k. rw (append-nil r.name) at (names-Differ n r.name t [] hn pl.0.1 apart k tt)),
          All-map (λ x. Unit {0}) (λ y. Avoids n y.path) (below_name r.name)
              (λ x u t k. names-Differ n r.name t (slash ∷ x.path) hn pl.0.1 apart k refl) _
              (All-any _ (λ x. tt) _),
        )
        rest
]

-- The rows of one group: its own path ends where the others go on.
group-DistinctKeys :
    (f : ℕ) (names : List NameRow) (r : NameRow)
    → DistinctKeys row_path (descend f r.node_id names)
    → DistinctKeys row_path (group f names r)
unfolding str_eq
group-DistinctKeys f names r d = (
  All-map (λ x. Unit {0}) _ (below_name r.name) (λ x u. longer r.name x.path) _
      (All-any _ (λ x. tt) _),
  DistinctKeys-map row_path (below_name r.name) row_path
      (λ x y. str_eq-cancel r.name (slash ∷ x.path) (slash ∷ y.path)) _ d,
)

groups-DistinctKeys :
    (f : ℕ) (names rs : List NameRow)
    → Once rs
    → ArePlain rs
    → ((i : ℕ) → DistinctKeys row_path (descend f i names))
    → DistinctKeys row_path (flat_map (group f names) rs)
unfolding flat_map
groups-DistinctKeys f names [] o pl ih = tt
groups-DistinctKeys f names (r ∷ rs) o pl ih =
    let avoided = Avoids-all r.name f names rs pl.0.1 o.0 pl.1 in
    DistinctKeys-append row_path (group f names r) (flat_map (group f names) rs)
      (group-DistinctKeys f names r (ih r.node_id)) (groups-DistinctKeys f names rs o.1 pl.1 ih)
      (
        All-imp (λ y. Avoids r.name y.path) _ (λ y k. rw (append-nil r.name) at (k [] tt)) _
            avoided,
        All-map (λ x. Unit {0}) _ (below_name r.name)
            (λ x u.
              All-imp (λ y. Avoids r.name y.path) _ (λ y k. k (slash ∷ x.path) refl) _ avoided)
            _ (All-any _ (λ x. tt) _),
      )

pub descend-DistinctKeys :
    (f i : ℕ) (names : List NameRow) → IsNameTable names → DistinctKeys row_path (descend f i names)
unfolding descend
descend-DistinctKeys zero i names t = tt
descend-DistinctKeys (suc f) i names t =
    groups-DistinctKeys f names (names_of i names) (Once-names_of i names t.distinct)
      (All-names_of _ i names t.plain) (λ j. descend-DistinctKeys f j names t)

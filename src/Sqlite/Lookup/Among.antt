-- ===== src/Sqlite/Lookup/Among.antt =====
-- Of the children that the query for a path goes on with, only the one with the next name leads to it.
use ocfl_index.Base.{
  ℕ, zero, suc, ◌≡◌, refl, Bool, true, false, Option, none, some, List, [], ◌∷◌, ◌++◌, arith, All,
  Bool-cases, inl, inr,
}
use ocfl_index.Text.{Str, slash, str_eq, str_eq→eq}
use ocfl_index.Text.Paths.{dot, valid_elem}
use ocfl_index.Text.Paths.Laws.{no_slash}
use ocfl_index.Text.Prefixes.{strays, IsTail, strays_below}
use ocfl_index.Sqlite.{NameRow}
use ocfl_index.Sqlite.Lookup.{
  flat_map, names_of, next_path, is_on_way, child_paths, expand, id_of_path,
}
use ocfl_index.Sqlite.Lookup.Walk.{
  walk_names, find_in, Once, or_else, id_of_path-append, next_path_below, below_not_dot,
  strays_next, next_not_dot,
}

or_else-none : (o : Option ℕ) → or_else o none ≡ o
unfolding or_else
or_else-none none = refl
or_else-none (some i) = refl

abbrev pub walk_from : List NameRow → List Str → Option ℕ → Option ℕ
walk_from names ss none = none
walk_from names ss (some j) = walk_names names ss j

module _ (like : Str → Str → Bool) (p : Str) (names : List NameRow) where
  -- No child of a row leads to p when none of the rows below it does.
  none_of_children :
      (f : ℕ) (q : Str) (rs : List NameRow)
      → ((j : ℕ) (n : Str)
          → id_of_path p (expand like p names f (record { id = j; path = next_path q n })) ≡ none)
      → id_of_path p (flat_map (expand like p names f) (child_paths like p names q rs)) ≡ none
  unfolding child_paths flat_map id_of_path or_else
  none_of_children f q [] h = refl
  none_of_children f q (r ∷ rs) h =
      elim (Bool-cases (is_on_way like p names (next_path q r.name))) [
        | inl e ↦ rw (e, id_of_path-append, h r.node_id r.name) (none_of_children f q rs h)
        | inr e ↦ rw e (none_of_children f q rs h)
      ]

  strayed :
      (f i : ℕ) (q : Str)
      → str_eq q dot ≡ false
      → strays q p ≡ true
      → id_of_path p (expand like p names f (record { id = i; path = q })) ≡ none
  unfolding expand id_of_path
  strayed zero i q d h = refl
  strayed (suc f) i q d h =
      let differs : str_eq q p ≡ false = ground arith in
      rw differs (
        none_of_children f q (names_of i names) (λ j n.
          rw (next_path_below q n d)
            (strayed f j (q ++ (slash ∷ n)) (below_not_dot q n) (strays_below q n p h))))

  -- Of the children of a row on the way, the one with the next name leads to p, if any does.
  pub among_children :
      (f : ℕ) (q s t : Str) (ss : List Str) (rs : List NameRow)
      → p ≡ next_path q s ++ t
      → is_on_way like p names (next_path q s) ≡ true
      → no_slash s ≡ true
      → IsTail t
      → All (λ r. (valid_elem r.name ≡ true) × (no_slash r.name ≡ true)) rs
      → Once rs
      → ((j : ℕ)
          → id_of_path p (expand like p names f (record { id = j; path = next_path q s }))
            ≡ walk_names names ss j)
      → id_of_path p (flat_map (expand like p names f) (child_paths like p names q rs))
        ≡ walk_from names ss (find_in s rs)
  unfolding child_paths flat_map id_of_path find_in or_else
  among_children f q s t ss [] e w ns k pl on hit = refl
  among_children f q s t ss (r ∷ rs) e w ns k pl on hit =
      let rest = among_children f q s t ss rs e w ns k pl.1 on.1 hit in
      elim (Bool-cases (str_eq r.name s)) [
        | inl h ↦
            let same = str_eq→eq r.name s h in
            let gone : find_in s rs ≡ none = rw (← same) on.0 in
            rw (h, same, w, id_of_path-append, hit r.node_id, rest, gone)
              (or_else-none (walk_names names ss r.node_id))
        | inr h ↦
            let lost =
              strayed f r.node_id (next_path q r.name) (next_not_dot q r.name pl.0.0)
                (rw e (strays_next q r.name s t pl.0.1 ns h k)) in
            elim (Bool-cases (is_on_way like p names (next_path q r.name))) [
              | inl o ↦ rw (h, o, id_of_path-append, lost) rest
              | inr o ↦ rw (h, o) rest
            ]
      ]

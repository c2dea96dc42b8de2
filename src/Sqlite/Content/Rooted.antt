-- ===== src/Sqlite/Content/Rooted.antt =====
-- What the rows of a new object's versions say of the root nodes of the versions.
use ocfl_index.Base.{
  ℕ, ◌≡◌, ◌≢◌, refl, sym, ap, ◌∙◌, false, some, List, [], ◌∷◌, All, Bool-cases, inl, inr,
  if◌then◌else◌,
}
use ocfl_index.Text.{Str, str_eq, str_eq→eq, str_eq_refl, str_eq_sym}
use ocfl_index.Text.Paths.{dot}
use ocfl_index.Sqlite.{InventoryRow, VersionRow, Db}
use ocfl_index.Sqlite.Versions.{VNumbers, version_num}
use ocfl_index.Sqlite.Objects.{inventory_with}
use ocfl_index.Sqlite.Lookup.{version_roots}
use ocfl_index.Sqlite.Content.Fresh.{row_root}
use ocfl_index.Sqlite.Content.Versions.{VersionEntry, AreNumbered, HasRoot, Matches}

module _ (V : VNumbers) (hash : Str → List ℕ) where
  open V use {VNum, num, string}

  module _ (i : ℕ) where
    -- What the rows say of the root nodes of the versions.
    abbrev Differ : Str → List (VersionEntry V hash) → Type 0
    Differ s = All (λ y. str_eq (string y.0) s ≡ false)

    names-Differ :
        (x : VersionEntry V hash) (xs : List (VersionEntry V hash))
        → version_num (string x.0) ≡ num x.0
        → All (λ y. num x.0 ≢ num y.0) xs
        → AreNumbered V hash xs
        → Differ (string x.0) xs
    names-Differ x [] e h nums = tt
    names-Differ x (y ∷ xs) e h nums = (
      elim (Bool-cases (str_eq (string y.0) (string x.0))) [
        | inr f ↦ f
        | inl f ↦
            absurd
              (h.0 (sym e ∙ ap version_num (sym (str_eq→eq (string y.0) (string x.0) f)) ∙ nums.0))
      ],
      names-Differ x xs e h.1 nums.3,
    )

    module _ (id : Str) (invs : List InventoryRow) (w : InventoryRow)
        (there : inventory_with i invs ≡ some w) (is_its : w.ocfl_id ≡ id) where
      step :
          (s n : Str) (r : VersionRow) (rs : List VersionRow)
          → s ≢ []
          → r.inventory_id ≡ i
          → r.name ≡ n
          → version_roots id s (r ∷ rs) invs ≡ (
              if str_eq n s
              then record { id = r.node_id; path = dot } ∷ version_roots id s rs invs
              else version_roots id s rs invs)
      step s n r rs h e f =
          row_root id s r rs invs w h (ap (λ j. inventory_with j invs) e ∙ there) is_its ∙ rw f refl

      no_roots :
          (s : Str) (xs : List (VersionEntry V hash)) (rs : List VersionRow) (b : Db)
          → s ≢ []
          → Differ s xs
          → Matches V hash i xs rs b
          → version_roots id s rs invs ≡ []
      no_roots s [] [] b h d m = unfold version_roots in refl
      no_roots s [] (r ∷ rs) b h d m = absurd m
      no_roots s (x ∷ xs) [] b h d m = absurd m
      no_roots s (x ∷ xs) (r ∷ rs) b h d m =
          step s (string x.0) r rs h m.0 m.1 ∙ rw d.0 (no_roots s xs rs b h d.1 m.3)

      -- A version has one root node, that of its tree.
      abbrev pub RootedIn : Db → List VersionRow → VersionEntry V hash → Type 0
      RootedIn b rs x =
          (node : ℕ) × HasRoot V hash x b node
          × (version_roots id (string x.0) rs invs ≡ record { id = node; path = dot } ∷ [])

      skip :
          (x : VersionEntry V hash) (r : VersionRow) (xs : List (VersionEntry V hash))
          (rs : List VersionRow) (b : Db)
          → r.inventory_id ≡ i
          → r.name ≡ string x.0
          → AreNumbered V hash xs
          → Differ (string x.0) xs
          → All (RootedIn b rs) xs
          → All (RootedIn b (r ∷ rs)) xs
      skip x r [] rs b e f nums d h = tt
      skip x r (y ∷ ys) rs b e f nums d h =
          let (node, root, found) = h.0 in
          (
            (
              node,
              root,
              step (string y.0) (string x.0) r rs nums.1 e f
                  ∙ rw (str_eq_sym (string x.0) (string y.0), d.0) found,
            ),
            skip x r ys rs b e f nums.3 d.1 h.1,
          )

      pub all_rooted :
          (xs : List (VersionEntry V hash)) (rs : List VersionRow) (b : Db)
          → AreNumbered V hash xs
          → Matches V hash i xs rs b
          → All (RootedIn b rs) xs
      all_rooted [] rs b nums m = tt
      all_rooted (x ∷ xs) [] b nums m = absurd m
      all_rooted (x ∷ xs) (r ∷ rs) b nums m =
          let d = names-Differ x xs nums.0 nums.2 nums.3 in
          (
            (
              r.node_id,
              m.2,
              step (string x.0) (string x.0) r rs nums.1 m.0 m.1
                  ∙ rw (str_eq_refl (string x.0)) (
                      ap (λ q. record { id = r.node_id; path = dot } ∷ q)
                        (no_roots (string x.0) xs rs b nums.1 d m.3)),
            ),
            skip x r xs rs b m.0 m.1 nums.3 d (all_rooted xs rs b nums.3 m.3),
          )

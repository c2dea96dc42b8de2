-- ===== src/Sqlite/Content/Fresh.antt =====
-- The rows of an object that is new to the index.
use ocfl_index.Base.{
  ℕ, ◌≤◌, ◌<◌, ◌≡◌, ◌≢◌, refl, ap, false, none, some, List, [], ◌∷◌, ◌++◌, map, ◌==◌, arith, All,
  ==_iff, Bool-cases, Option-cases, inl, inr, if◌then◌else◌, Result, ok,
}
use ocfl_index.Text.{Str, str_eq, str_eq_refl}
use ocfl_index.Text.Paths.{dot}
use ocfl_index.Sqlite.{IndexErr, InventoryRow, VersionRow, Db, next_id}
use ocfl_index.Sqlite.Versions.{
  Version, VNumbers, get_version, add_version, insert_version_row, insert_version, version_row,
  has_version_name,
}
use ocfl_index.Sqlite.Objects.{inventory_with}
use ocfl_index.Sqlite.Inventories.{find_inventory, root_is_taken, inventory_id, upsert_inventory}
use ocfl_index.Sqlite.Lookup.{is_version_of, version_roots}

abbrev pub with_id : ℕ → InventoryRow → InventoryRow
with_id i row = record row { id = i }

pair_parts :
    {A : Type 0} (x y : A) (i j : ℕ)
    → ◌≡◌ {A = Result IndexErr (A × ℕ)} (ok (x, i)) (ok (y, j))
    → (y ≡ x) × (j ≡ i)
pair_parts x y i j h = (ground arith, ground arith)

-- UpsertInventory of an object that has no inventory adds one, with the next id.
pub upsert_fresh :
    (row : InventoryRow) (vs vs' : List InventoryRow) (i : ℕ)
    → find_inventory row.ocfl_id vs ≡ none
    → upsert_inventory row vs ≡ ok (vs', i)
    → (vs' ≡ vs ++ (with_id (next_id (map inventory_id vs)) row ∷ []))
      × (i ≡ next_id (map inventory_id vs))
unfolding upsert_inventory
upsert_fresh row vs vs' i e h = elim (Bool-cases (root_is_taken row.ocfl_id row.root_id vs)) [
  | inl t ↦ cc (rw t at h)
  | inr t ↦ pair_parts _ vs' _ i (rw (t, e, upsert_inventory) at h)
]

-- The next id is not in use.
next_unused :
    (m : ℕ) (vs : List InventoryRow)
    → next_id (map inventory_id vs) ≤ m
    → inventory_with m vs ≡ none
unfolding inventory_with next_id
next_unused m [] h = refl
next_unused m (v ∷ vs) h =
    let rest : next_id (map inventory_id vs) ≤ m = omega arith in
    let above : v.id < m = omega arith in ground (arith, next_unused m vs rest)

pub inventory_with-append :
    (j : ℕ) (vs : List InventoryRow) (x w : InventoryRow)
    → inventory_with j vs ≡ some w
    → inventory_with j (vs ++ (x ∷ [])) ≡ some w
unfolding inventory_with
inventory_with-append j [] x w h = cc
inventory_with-append j (v ∷ vs) x w h = ground (arith, inventory_with-append j vs x w)

inventory_with-append_new :
    (vs : List InventoryRow) (x : InventoryRow)
    → inventory_with x.id vs ≡ none
    → inventory_with x.id (vs ++ (x ∷ [])) ≡ some x
unfolding inventory_with
inventory_with-append_new [] x h = ground arith
inventory_with-append_new (v ∷ vs) x h = ground (arith, inventory_with-append_new vs x)

pub with_next :
    (row : InventoryRow) (vs : List InventoryRow)
    → let x = with_id (next_id (map inventory_id vs)) row in
      inventory_with x.id (vs ++ (x ∷ [])) ≡ some x
with_next row vs =
    let x = with_id (next_id (map inventory_id vs)) row in
    inventory_with-append_new vs x (next_unused x.id vs (omega arith))

-- The versions belong to inventories that are there.
abbrev pub Refer : List InventoryRow → List VersionRow → Type 0
Refer invs = All (λ r. (w : InventoryRow) × (inventory_with r.inventory_id invs ≡ some w))

other_object :
    (id : Str) (j : ℕ) (vs : List InventoryRow) (w : InventoryRow)
    → find_inventory id vs ≡ none
    → inventory_with j vs ≡ some w
    → str_eq w.ocfl_id id ≡ false
unfolding find_inventory inventory_with
other_object id j [] w h e = cc
other_object id j (v ∷ vs) w h e = elim (Bool-cases (str_eq v.ocfl_id id)) [
  | inl f ↦ cc (rw f at h)
  | inr f ↦ elim (Bool-cases (v.id == j)) [
    | inl g ↦ let same : v ≡ w = ground arith in rw (← same) f
    | inr g ↦ other_object id j vs w (rw f at h) (rw g at e)
  ]
]

-- None of them is a version of a new object.
pub old_roots :
    (id s : Str) (rs : List VersionRow) (vs : List InventoryRow) (x : InventoryRow)
    → find_inventory id vs ≡ none
    → Refer vs rs
    → version_roots id s rs (vs ++ (x ∷ [])) ≡ []
unfolding version_roots is_version_of
old_roots id s [] vs x h refs = refl
old_roots id s (r ∷ rs) vs x h refs =
    let (w, e) = refs.0 in
    rw (inventory_with-append r.inventory_id vs x w e, other_object id r.inventory_id vs w h e)
      (old_roots id s rs vs x h refs.1)

pub old_versions :
    (n : ℕ) (rs : List VersionRow) (vs : List InventoryRow)
    → Refer vs rs
    → get_version (next_id (map inventory_id vs)) n rs ≡ none
unfolding get_version
old_versions n [] vs refs = refl
old_versions n (r ∷ rs) vs refs =
    let (w, e) = refs.0 in
    elim (Bool-cases (r.inventory_id == next_id (map inventory_id vs))) [
      | inr f ↦ rw f (old_versions n rs vs refs.1)
      | inl f ↦ cc (next_unused r.inventory_id vs (omega (arith, (==_iff r.inventory_id _).0 f)), e)
    ]

pub version_roots-append :
    (id s : Str) (rs ts : List VersionRow) (invs : List InventoryRow)
    → version_roots id s (rs ++ ts) invs ≡ version_roots id s rs invs ++ version_roots id s ts invs
unfolding version_roots
version_roots-append id s [] ts invs = refl
version_roots-append id s (r ∷ rs) ts invs =
    elim (Bool-cases (is_version_of id s r.name (inventory_with r.inventory_id invs))) [
      | inl e ↦ rw e (
          ap (λ q. record { id = r.node_id; path = dot } ∷ q)
            (version_roots-append id s rs ts invs))
      | inr e ↦ rw e (version_roots-append id s rs ts invs)
    ]

-- A row of the new object counts by its name.
pub row_root :
    (id s : Str) (r : VersionRow) (rs : List VersionRow) (invs : List InventoryRow)
    (w : InventoryRow)
    → s ≢ []
    → inventory_with r.inventory_id invs ≡ some w
    → w.ocfl_id ≡ id
    → version_roots id s (r ∷ rs) invs ≡ (
        if str_eq r.name s
        then record { id = r.node_id; path = dot } ∷ version_roots id s rs invs
        else version_roots id s rs invs)
unfolding version_roots is_version_of
row_root id [] r rs invs w h e o = absurd (h refl)
row_root id (c ∷ s) r rs invs w h e o = rw (e, o, str_eq_refl id) refl

-- InsertVersion adds its row at the end.
pub add_version_lem :
    (row : VersionRow) (rs : List VersionRow) → add_version row rs ≡ rs ++ (row ∷ [])
unfolding add_version
add_version_lem row [] = refl
add_version_lem row (r ∷ rs) = ap (λ q. r ∷ q) (add_version_lem row rs)

pub get_version-append :
    (i n : ℕ) (rs : List VersionRow) (row : VersionRow)
    → get_version i n rs ≡ none
    → row.num ≢ n
    → get_version i n (rs ++ (row ∷ [])) ≡ none
unfolding get_version
get_version-append i n [] row h k = ground arith
get_version-append i n (r ∷ rs) row h k = ground (arith, get_version-append i n rs row)

-- What insertVersion does for a number that the inventory has not.
pub insert_version_fresh :
    (V : VNumbers) (v : VNumbers.VNum V) (ver : Version) (inv node : ℕ) (a b : Db)
    → get_version inv (VNumbers.num V v) a.versions ≡ none
    → insert_version V v ver inv node a ≡ ok b
    → (b.versions ≡ a.versions ++ (version_row V v ver inv node ∷ []))
      × (b.inventories ≡ a.inventories)
unfolding insert_version insert_version_row
insert_version_fresh V v ver inv node a b h e =
    let row = version_row V v ver inv node in
    let e' = rw (h, insert_version) at e in
    elim (Option-cases (get_version row.inventory_id row.num a.versions)) [
      | inr (r, f) ↦ cc (rw (f, insert_version_row) at e')
      | inl f ↦
          let e'' = rw (f, insert_version_row) at e' in
          elim (Bool-cases (has_version_name row.inventory_id row.name a.versions)) [
            | inl g ↦ cc (rw g at e'')
            | inr g ↦
                let same : record a { versions = add_version row a.versions } ≡ b =
                  ground (arith, rw g at e'') in
                rw (← same) (add_version_lem row a.versions, refl)
          ]
    ]

-- ===== src/Sqlite/Inventories/Upsert.antt =====
-- What UpsertInventory leaves in the table.
use ocfl_index.Base.{
  ℕ, ◌≡◌, refl, Option, none, some, List, [], ◌∷◌, ◌++◌, map, arith, if◌then◌else◌, Result, ok,
  Bool-cases, Option-cases, inl, inr,
}
use ocfl_index.Text.{Str, str_eq, str_eq_iff}
use ocfl_index.Sqlite.{IndexErr, InventoryRow, next_id}
use ocfl_index.Sqlite.Inventories.{
  find_inventory, root_is_taken, update_inventory, upsert_inventory, inventory_id,
}

find-add :
    (id : Str) (row : InventoryRow) (vs : List InventoryRow)
    → find_inventory row.ocfl_id vs ≡ none
    → find_inventory id (vs ++ (row ∷ []))
      ≡ (if str_eq row.ocfl_id id then some row else find_inventory id vs)
unfolding find_inventory
find-add id row [] h = refl
find-add id row (v ∷ vs) h =
    let k = str_eq_iff v.ocfl_id row.ocfl_id in
    let l = str_eq_iff v.ocfl_id id in
    let m = str_eq_iff row.ocfl_id id in grind (arith, find-add id row vs, k, l, m)

-- The row of an object with other values.
abbrev pub with_id : ℕ → InventoryRow → InventoryRow
with_id i row = record row { id = i }

found-same : (w v : InventoryRow) → ◌≡◌ {A = Option InventoryRow} (some w) (some v) → w ≡ v
found-same w v h = ground arith

written :
    (vs vs' ws : List InventoryRow) (n i : ℕ)
    → ◌≡◌ {A = Result IndexErr (List InventoryRow × ℕ)} (ok (ws, n)) (ok (vs', i))
    → (ws ≡ vs') × (n ≡ i)
written vs vs' ws n i h = ground arith

find-update :
    (id : Str) (row v : InventoryRow) (vs : List InventoryRow)
    → find_inventory row.ocfl_id vs ≡ some v
    → find_inventory id (update_inventory row vs)
      ≡ (if str_eq row.ocfl_id id then some (with_id v.id row) else find_inventory id vs)
unfolding find_inventory update_inventory
find-update id row v [] h = cc
find-update id row v (w ∷ vs) h =
    let k = str_eq_iff w.ocfl_id row.ocfl_id in
    let l = str_eq_iff w.ocfl_id id in
    let m = str_eq_iff row.ocfl_id id in
    elim (Bool-cases (str_eq w.ocfl_id row.ocfl_id)) [
      | inl e ↦
          let same : w ≡ v = found-same w v (rw e at h) in
          rw (e, ← same) (grind (arith, e, k, l, m))
      | inr e ↦ rw e (grind (arith, find-update id row v vs, rw e at h, e, k, l, m))
    ]

-- An UpsertInventory that succeeds leaves the given values under the object's id, in the row that it
-- returns, and every other object's inventory as it was.
pub find-upsert_inventory :
    (id : Str) (row : InventoryRow) (vs vs' : List InventoryRow) (i : ℕ)
    → upsert_inventory row vs ≡ ok (vs', i)
    → find_inventory id vs'
      ≡ (if str_eq row.ocfl_id id then some (with_id i row) else find_inventory id vs)
unfolding upsert_inventory
find-upsert_inventory id row vs vs' i h =
    elim (Bool-cases (root_is_taken row.ocfl_id row.root_id vs)) [
      | inl t ↦ cc (rw t at h)
      | inr t ↦ elim (Option-cases (find_inventory row.ocfl_id vs)) [
        | inr (v, e) ↦
            let p =
              written vs vs' (update_inventory row vs) v.id i (rw (t, e, upsert_inventory) at h) in
            rw (← p.0, ← p.1) (find-update id row v vs e)
        | inl e ↦
            let n = next_id (map inventory_id vs) in
            let p =
              written vs vs' (vs ++ (with_id n row ∷ [])) n i (rw (t, e, upsert_inventory) at h) in
            rw (← p.0, ← p.1) (find-add id (with_id n row) vs e)
      ]
    ]

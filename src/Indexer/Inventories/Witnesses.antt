-- ===== src/Indexer/Inventories/Witnesses.antt =====
-- A run of two results, of which the second halts it.
use ocfl_index.Base.{ℕ, ◌≡◌, refl, true, false, none, some, List, [], ◌∷◌, ok, err, take, length}
use ocfl_index.Text.{Str, bytes, str_eq}
use ocfl_index.Sqlite.{bad_hex, Db, empty_db}
use ocfl_index.Sqlite.Objects.{Parsers}
use ocfl_index.Sqlite.Versions.{VNumbers}
use ocfl_index.Sqlite.Roots.{index_object_root_tx, upsert_object_root}
use ocfl_index.Sqlite.Inventories.{
  Inventory, inventory_row, index_object_inventory, index_inventory_tx, index_versions,
  insert_content, upsert_inventory, find_inventory, root_is_taken, update_inventory,
}
use ocfl_index.Indexer.Inventories.{
  Entry, halts, wanted_inv, index_failed, index_result, index_inventories,
}
use ocfl_index.Indexer.Inventories.Applied.{accepted, wanted, apply_all}
use ocfl_index.Indexer.Inventories.Batches.{batched, state, index_inventories_lem}

abbrev as_text : Parsers
as_text = record { VNum = Str; Spec = Str; parse_vnum = some; parse_spec = some }

abbrev lengths : VNumbers
lengths = record { VNum = Str; num = length; string = λ v. v }

abbrev no_hash : Str → List ℕ
no_hash s = []

abbrev inventory : Inventory lengths no_hash
inventory = record {
  id = bytes "obj";
  spec = bytes "1.0";
  digest_algorithm = bytes "sha512";
  digest = bytes "ab";
  head = bytes "v1";
  versions = [];
  manifest = [];
}

abbrev new_object : Entry as_text lengths no_hash
new_object = record {
  root = bytes "o";
  now = 7;
  job = ok (record { sidecar = bytes "ab"; inv = some inventory; prev = none; error = none });
}

abbrev broken : Entry as_text lengths no_hash
broken = record { root = bytes "p"; now = 8; job = err bad_hex }

abbrev indexed : Db
indexed = record empty_db {
  roots = record { id = 1; path = bytes "o"; indexed_at = 7 } ∷ [];
  inventories = record (inventory_row lengths no_hash 1 inventory) { id = 1 } ∷ [];
}

taken :
    apply_all as_text lengths no_hash (wanted as_text lengths no_hash (new_object ∷ [])) empty_db
    ≡ ok indexed
unfolding apply_all wanted wanted_inv index_object_inventory index_object_root_tx index_inventory_tx
    upsert_object_root upsert_inventory find_inventory root_is_taken update_inventory index_versions
    insert_content str_eq
taken = refl

accepted_here : accepted as_text lengths no_hash false (new_object ∷ []) ≡ true
unfolding accepted
accepted_here = refl

saved_here :
    apply_all as_text lengths no_hash
      (take
        (batched (length (wanted as_text lengths no_hash (new_object ∷ []))))
        (wanted as_text lengths no_hash (new_object ∷ [])))
      empty_db
    ≡ ok empty_db
unfolding apply_all wanted wanted_inv
saved_here = refl

halted :
    index_result as_text lengths no_hash false broken.root broken.now broken.job (
      state as_text lengths no_hash empty_db indexed
        (length (wanted as_text lengths no_hash (new_object ∷ []))))
    ≡ halts (index_failed bad_hex)
unfolding index_result
halted = refl

index_inventories_example :
    (index_inventories as_text lengths no_hash false none (new_object ∷ []) empty_db
      ≡ record { db = indexed; result = ok 1 })
    × (index_inventories as_text lengths no_hash false none (new_object ∷ broken ∷ []) empty_db
        ≡ record { db = empty_db; result = err (index_failed bad_hex) })
unfolding wanted wanted_inv
index_inventories_example =
    index_inventories_lem as_text lengths no_hash false none (new_object ∷ []) [] broken empty_db
      indexed empty_db (index_failed bad_hex) accepted_here taken saved_here halted

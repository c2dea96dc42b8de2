-- ===== src/Sqlite/Content/Children.antt =====
-- The children of a directory in the tables: those that its digest stands for.
use ocfl_index.Base.{
  ℕ, ◌≡◌, refl, sym, ap, ◌∙◌, Bool, true, false, Option, none, some, List, [], ◌∷◌, map, ◌==◌, All,
  Bool-cases, inl, inr, if◌then◌else◌,
}
use mathlib.Core.Option
use ocfl_index.Text.{Str, str_eq}
use ocfl_index.Sqlite.{NodeRow, NameRow, Db}
use ocfl_index.Sqlite.Nodes.Rows.{node_id}
use ocfl_index.Sqlite.Objects.{node_with}
use ocfl_index.Sqlite.Details.{PathItem, ChildRow, child_row, child_rows, path_item}
use ocfl_index.Sqlite.Lookup.Walk.{find_name, walk_names}
use ocfl_index.Sqlite.State.Pages.{all_children}
use ocfl_index.IndexTree.Listing.{Key, Listing}
use ocfl_index.Sqlite.Content.{resolve, key_at, IsRight, IsIndex}
use ocfl_index.Sqlite.Content.Walked.{row_key, shown, key_at-node_with, key_of, walk-resolve}

-- The kind and the digest that a listing shows for a name.
unfoldable pub find_item : Str → List PathItem → Option (Bool × Str)
find_item n [] = none
find_item n (i ∷ is) = if str_eq i.name n then some (i.is_dir, i.sum) else find_item n is

unfoldable find_child : Str → List ChildRow → Option Key
find_child n [] = none
find_child n (r ∷ rs) = if str_eq r.name n then some (row_key r.node) else find_child n rs

find_item-map :
    (n : Str) (rs : List ChildRow)
    → find_item n (map path_item rs) ≡ Option.map shown (find_child n rs)
unfolding find_item find_child path_item
find_item-map n [] = refl
find_item-map n (r ∷ rs) = elim (Bool-cases (str_eq r.name n)) [
  | inl e ↦ rw e refl
  | inr e ↦ rw e (find_item-map n rs)
]

walk_one : (i : ℕ) (n : Str) (rs : List NameRow) → walk_names rs (n ∷ []) i ≡ find_name i n rs
unfolding walk_names
walk_one i n rs = elim (find_name i n rs) as (λ o. elim o [ none ↦ none | some j ↦ some j ] ≡ o) [
  | none ↦ refl
  | some j ↦ refl
]

resolve_one : (k : Listing) (s : List ℕ) (n : Str) → resolve k (n ∷ []) (true, s) ≡ k s n
unfolding resolve
resolve_one k s n = elim (k s n) as (λ o. elim o [ none ↦ none | some x ↦ some x ] ≡ o) [
  | none ↦ refl
  | some x ↦ refl
]

module _ (k : Listing) (db : Db) (ix : IsIndex k [] db) where
  child_node :
      (r : NameRow)
      → IsRight k db.nodes r
      → (n : NodeRow) × (node_with r.node_id db.nodes ≡ some n)
        × (key_at r.node_id db.nodes ≡ some (row_key n))
  child_node r (s, x, parent, listed, there) = go (node_with r.node_id db.nodes) refl
    where
      go :
          (o : Option NodeRow)
          → node_with r.node_id db.nodes ≡ o
          → (n : NodeRow) × (node_with r.node_id db.nodes ≡ some n)
            × (key_at r.node_id db.nodes ≡ some (row_key n))
      go none e = cc (
        key_at-node_with r.node_id db.nodes,
        ap (Option.map row_key) e,
        (ix.rows x.1 x.0 r.node_id there).0,
      )
      go (some n) e = (n, e, sym (key_at-node_with r.node_id db.nodes) ∙ ap (Option.map row_key) e)

  child-find_name :
      (i : ℕ) (n : Str) (rs : List NameRow)
      → All (IsRight k db.nodes) rs
      → find_child n (child_rows i rs db) ≡ key_of (find_name i n rs) db.nodes
  unfolding find_child child_rows child_row find_name key_of
  child-find_name i n [] h = refl
  child-find_name i n (r ∷ rs) h =
      let (m, there, key) = child_node r h.0 in
      elim (Bool-cases (r.parent_id == i)) [
        | inr e ↦ rw e (child-find_name i n rs h.1)
        | inl e ↦ elim (Bool-cases (str_eq r.name n)) [
          | inl f ↦ rw (e, there, f) (sym key)
          | inr f ↦ rw (e, there, f) (child-find_name i n rs h.1)
        ]
      ]

  pub find_item-all_children :
      (i : ℕ) (s : List ℕ) (n : Str)
      → node_id s true db.nodes ≡ some i
      → find_item n (all_children i false db) ≡ Option.map shown (k s n)
  unfolding all_children
  find_item-all_children i s n h =
      find_item-map n (child_rows i db.names db)
      ∙ ap (Option.map shown) (
          child-find_name i n db.names ix.named
          ∙ ap (λ o. key_of o db.nodes) (sym (walk_one i n db.names))
          ∙ walk-resolve k db ix (n ∷ []) i (true, s) h
          ∙ resolve_one k s n)

-- ===== src/Sqlite/Content.antt =====
-- What the tables of nodes and names hold, told by digests alone: a directory's digest stands for
-- the names, kinds and digests of its children (`digest` of internal/sqlite/schema.sql's nodes).
pub mod Keys
pub mod Names
pub mod Steps
pub mod Grown
pub mod Added
pub mod Walked
pub mod Indexed
pub mod Children
pub mod States
pub mod Fresh
pub mod Versions
pub mod Rooted
pub mod Joined
pub mod NewObject
pub mod Others
pub mod Answers
pub mod Example
mod Witnesses
use ocfl_index.Base.{
  ℕ, ◌≡◌, ◌≢◌, Bool, true, false, ◌||◌, Option, none, some, List, [], ◌∷◌, ◌==◌, if◌then◌else◌, All,
}
use ocfl_index.Text.{Str, str_eq}
use ocfl_index.IndexTree.Listing.{Key, Listing}
use ocfl_index.Sqlite.{NodeRow, NameRow, Db}
use ocfl_index.Sqlite.Nodes.{has_name}
use ocfl_index.Sqlite.Nodes.Rows.{node_id}
use ocfl_index.Sqlite.Lookup.Walk.{IsNameTable}

-- The node at the end of a chain of names.
unfoldable pub resolve : Listing → List Str → Key → Option Key
resolve k [] x = some x
resolve k (n ∷ ns) (false, s) = none
resolve k (n ∷ ns) (true, s) = elim (k s n) [ none ↦ none | some x ↦ resolve k ns x ]

-- The kind and the digest of the node with a row id.
unfoldable pub key_at : ℕ → List NodeRow → Option Key
key_at i [] = none
key_at i (r ∷ rs) = if r.id == i then some (r.dir, r.sum) else key_at i rs

-- A node has a row id of its own, which is not 0.
abbrev pub AreRows : List NodeRow → Type 0
AreRows nodes =
    (s : List ℕ) (d : Bool) (i : ℕ)
    → node_id s d nodes ≡ some i
    → (key_at i nodes ≡ some (d, s)) × (i ≢ 0)

-- A row of names stands below a directory, and names a child that the directory's digest stands for.
abbrev pub IsChild : Listing → List NodeRow → ℕ → Str → ℕ → Type 0
IsChild k nodes parent n i =
    (s : List ℕ) × (x : Key) × (node_id s true nodes ≡ some parent)
    × (k s n ≡ some x)
    × (node_id x.1 x.0 nodes ≡ some i)

abbrev pub IsRight : Listing → List NodeRow → NameRow → Type 0
IsRight k nodes r = IsChild k nodes r.parent_id r.name r.node_id

unfoldable pub is_open : List ℕ → List (List ℕ) → Bool
is_open s [] = false
is_open s (o ∷ os) = str_eq o s || is_open s os

-- The tables hold the directories of their digests, each with all its names, but for those
-- directories, the open ones, whose children are still being added.
pub record IsIndex (k : Listing) (opened : List (List ℕ)) (db : Db) : Type 0 where
  pub named : All (IsRight k db.nodes) db.names
  pub rows : AreRows db.nodes
  pub table : IsNameTable db.names
  pub whole :
      (s : List ℕ) (i : ℕ) (n : Str) (x : Key)
      → node_id s true db.nodes ≡ some i
      → is_open s opened ≡ false
      → k s n ≡ some x
      → has_name i n db.names ≡ true

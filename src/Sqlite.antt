-- ===== src/Sqlite.antt =====
-- The index database: the tables of internal/sqlite/schema.sql as lists of rows
-- (internal/sqlite/sqlc/models.go), the queries of internal/sqlite/sqlc/sqlc_queries.sql.go on
-- them, and the functions of internal/sqlite/tx.go and internal/sqlite/sqlite.go. A NULL is `none`,
-- a time is a number (0 is Go's zero time), a digest is the list of its bytes. The SQL engine is
-- taken to do what a statement says; a violated uniqueness constraint is an error, and the ids of
-- foreign keys are taken to be those of rows that are there.
pub mod Roots
pub mod Nodes
pub mod Versions
pub mod Inventories
pub mod Objects
pub mod Details
pub mod Content
pub mod Lookup
pub mod State
pub mod Schema
pub mod Queries
mod Witnesses
use ocfl_index.Base.{ℕ, suc, Bool, Option, List, [], ◌∷◌}
use Prim.Native.Nat.{max}
use ocfl_index.Text.{Str}
use ocfl_index.IndexTree.Build.{BuildErr}

-- ErrNotFound, ErrMissingValue, ErrInvalidArgs, ErrIndexValue; a driver error, an error of decoding or
-- parsing, and sql.ErrNoRows, which the index returns as they are
pub data IndexErr : Type 0 where
  not_found missing_value invalid_args index_value constraint bad_hex bad_path parse_failed
        no_rows :
      IndexErr
  tree_failed : BuildErr → IndexErr

pub record ObjectRootRow : Type 0 where
  pub id : ℕ
  pub path : Str
  pub indexed_at : ℕ

pub record InventoryRow : Type 0 where
  pub id : ℕ
  pub root_id : ℕ
  pub ocfl_id : Str
  pub spec : Str
  pub digest_algorithm : Str
  pub inventory_digest : Str
  pub head : Str
  pub indexed_at : ℕ

pub record VersionRow : Type 0 where
  pub inventory_id : ℕ
  pub num : ℕ
  pub name : Str
  pub message : Str
  pub created : ℕ
  pub user_name : Str
  pub user_address : Str
  pub node_id : ℕ

pub record NodeRow : Type 0 where
  pub id : ℕ
  pub dir : Bool
  pub sum : List ℕ
  pub size : Option ℕ

pub record NameRow : Type 0 where
  pub name : Str
  pub node_id : ℕ
  pub parent_id : ℕ

pub record ContentPathRow : Type 0 where
  pub inventory_id : ℕ
  pub node_id : ℕ
  pub file_path : Str

pub record Db : Type 0 where
  pub roots : List ObjectRootRow
  pub inventories : List InventoryRow
  pub versions : List VersionRow
  pub nodes : List NodeRow
  pub names : List NameRow
  pub content_paths : List ContentPathRow

abbrev pub empty_db : Db
empty_db = record {
  roots = [];
  inventories = [];
  versions = [];
  nodes = [];
  names = [];
  content_paths = [];
}

-- INTEGER PRIMARY KEY: a new row gets one more than the largest id.
unfoldable pub next_id : List ℕ → ℕ
next_id [] = 1
next_id (i ∷ is) = max (suc i) (next_id is)

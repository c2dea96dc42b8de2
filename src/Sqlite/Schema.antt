-- ===== src/Sqlite/Schema.antt =====
-- InitSchema, GetSchemaVersion and existingTables of internal/sqlite/sqlite.go: the names of the
-- tables of a database file, and the row of the schema table, if there is one.
use ocfl_index.Base.{
  ℕ, ◌≡◌, refl, ap, Bool, true, false, ◌&&◌, Option, none, some, List, [], ◌∷◌, ◌++◌, ◌==◌,
  if◌then◌else◌, Result, ok, err, panic, Bool-cases, inl, inr, ◌∙◌,
}
use ocfl_index.Text.{Str, bytes, has_prefix}

pub record SchemaDb : Type 0 where
  pub tables : List Str
  pub schema : Option (ℕ × ℕ)

-- The version that the tables have, or why there is no use for them.
pub data SchemaErr : Type 0 where
  no_version : SchemaErr
  wrong_version : ℕ → ℕ → SchemaErr

abbrev pub schema_ver : ℕ × ℕ
schema_ver = (0, 4)

abbrev pub table_prefix : Str
table_prefix = bytes "ocfl_index_"

-- schema.sql
abbrev pub created_tables : List Str
created_tables =
    bytes "ocfl_index_schema"
    ∷ bytes "ocfl_index_storage_roots"
    ∷ bytes "ocfl_index_object_roots"
    ∷ bytes "ocfl_index_inventories"
    ∷ bytes "ocfl_index_versions"
    ∷ bytes "ocfl_index_nodes"
    ∷ bytes "ocfl_index_names"
    ∷ bytes "ocfl_index_content_paths"
    ∷ []

unfoldable pub existing_tables : List Str → List Str
existing_tables [] = []
existing_tables (t ∷ ts) =
    let rest = existing_tables ts in if has_prefix t table_prefix then t ∷ rest else rest

-- GetSchemaVersion
unfoldable pub get_schema_version : SchemaDb → Result SchemaErr (ℕ × ℕ)
get_schema_version db = elim db.schema [ none ↦ err no_version | some v ↦ ok v ]

check_version : SchemaDb → Option (ℕ × ℕ) → Result SchemaErr (Bool × SchemaDb)
check_version db none = err no_version
check_version db (some v) =
    if v.0 == schema_ver.0 && v.1 == schema_ver.1
    then ok (false, db)
    else err (wrong_version v.0 v.1)

init_with : SchemaDb → List Str → Result SchemaErr (Bool × SchemaDb)
unfolding check_version
init_with db [] =
    ok (true, record { tables = db.tables ++ created_tables; schema = some schema_ver })
init_with db (t ∷ ts) = check_version db db.schema

-- InitSchema: whether it has made the tables, and the database after it
unfoldable pub init_schema : SchemaDb → Result SchemaErr (Bool × SchemaDb)
unfolding existing_tables init_with
init_schema db = init_with db (existing_tables db.tables)

existing_tables-append :
    (xs ys : List Str) → existing_tables (xs ++ ys) ≡ existing_tables xs ++ existing_tables ys
unfolding existing_tables
existing_tables-append [] ys = refl
existing_tables-append (x ∷ xs) ys = elim (Bool-cases (has_prefix x table_prefix)) [
  | inl e ↦ rw e (ap (λ r. x ∷ r) (existing_tables-append xs ys))
  | inr e ↦ rw e (existing_tables-append xs ys)
]

created :
    (db : SchemaDb)
    → existing_tables db.tables ≡ []
    → existing_tables (db.tables ++ created_tables) ≡ created_tables
unfolding existing_tables has_prefix
created db e = existing_tables-append db.tables created_tables ∙ rw e refl

abbrev database : SchemaDb → Result SchemaErr (Bool × SchemaDb) → SchemaDb
database db (ok p) = p.1
database db (err x) = db
database db panic = db

checked_again :
    (db db' : SchemaDb) (b : Bool) (v : Option (ℕ × ℕ))
    → check_version db v ≡ ok (b, db')
    → (db ≡ db') × (check_version db v ≡ ok (false, db))
unfolding check_version
checked_again db db' b none h = cc
checked_again db db' b (some v) h = elim (Bool-cases (v.0 == 0 && v.1 == 4)) [
  | inl e ↦ (ap (database db) (rw e at h), rw e refl)
  | inr e ↦ cc (rw e at h)
]

again :
    (db db' : SchemaDb) (b : Bool) (ts : List Str)
    → existing_tables db.tables ≡ ts
    → init_with db ts ≡ ok (b, db')
    → init_schema db' ≡ ok (false, db')
unfolding init_schema init_with check_version
again db db' b [] e h =
    let same : record { tables = db.tables ++ created_tables; schema = some schema_ver } ≡ db' =
      ap (database db) h in
    rw (← same, created db e) refl
again db db' b (t ∷ ts) e h = let (same, k) = checked_again db db' b db.schema h in rw (← same, e) k

-- A file that InitSchema has accepted or set up is accepted again, and left as it is.
pub init_schema_again :
    (db db' : SchemaDb) (b : Bool)
    → init_schema db ≡ ok (b, db')
    → init_schema db' ≡ ok (false, db')
unfolding init_schema
init_schema_again db db' b h = again db db' b (existing_tables db.tables) refl h

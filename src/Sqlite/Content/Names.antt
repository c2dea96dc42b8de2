-- ===== src/Sqlite/Content/Names.antt =====
-- What InsertIgnoreName does to the table of names.
use ocfl_index.Base.{
  ℕ, ◌≡◌, ◌≢◌, refl, Bool, true, false, ◌&&◌, ◌||◌, List, [], ◌∷◌, ◌++◌, ◌==◌, ◌⊎◌, inl, inr, arith,
  if◌then◌else◌, All, Bool-cases,
}
use ocfl_index.Text.{Str, str_eq, str_eq_refl, str_eq_sym}
use ocfl_index.Sqlite.{NameRow, Db}
use ocfl_index.Sqlite.Nodes.{has_name, insert_ignore_name, connect}
use ocfl_index.Sqlite.Lookup.Walk.{Distinct, IsNameTable}
use ocfl_index.IndexTree.Listing.{IsPlainName}

has_name-append :
    (p q : ℕ) (n m : Str) (rs : List NameRow) (i : ℕ)
    → has_name p n (rs ++ (record { name = m; node_id = i; parent_id = q } ∷ []))
      ≡ (has_name p n rs || (q == p && str_eq m n))
unfolding has_name
has_name-append p q n m [] i = ground arith
has_name-append p q n m (r ∷ rs) i = ground (arith, has_name-append p q n m rs i)

-- A name that is there stays.
pub has_name-connect :
    (i p q : ℕ) (n m : Str) (db : Db)
    → has_name q m db.names ≡ true
    → has_name q m (connect i p n db).names ≡ true
unfolding connect insert_ignore_name
has_name-connect i p q n m db h = ground (arith, has_name-append q p m n db.names i)

pub has_name-connect_self :
    (i p : ℕ) (n : Str) (db : Db) → p ≢ 0 → has_name p n (connect i p n db).names ≡ true
unfolding connect insert_ignore_name
has_name-connect_self i p n db h = ground (arith, has_name-append p p n n db.names i, str_eq_refl n)

All-append_one :
    (P : NameRow → Type 0) (rs : List NameRow) (r : NameRow)
    → All P rs
    → P r
    → All P (rs ++ (r ∷ []))
All-append_one P [] r h k = (k, tt)
All-append_one P (x ∷ rs) r h k = (h.0, All-append_one P rs r h.1 k)

if_rows :
    (P : NameRow → Type 0) (b : Bool) (rs : List NameRow) (r : NameRow)
    → All P rs
    → P r
    → All P (if b then rs else rs ++ (r ∷ []))
if_rows P true rs r h k = h
if_rows P false rs r h k = All-append_one P rs r h k

-- connect adds at most the one row.
pub All-connect :
    (P : NameRow → Type 0) (i p : ℕ) (n : Str) (db : Db)
    → All P db.names
    → ((p ≡ 0) ⊎ P (record { name = n; node_id = i; parent_id = p }))
    → All P (connect i p n db).names
unfolding connect insert_ignore_name
All-connect P i p n db h (inl e) = rw e h
All-connect P i p n db h (inr k) = elim (Bool-cases (p == 0)) [
  | inl e ↦ rw e h
  | inr e ↦ rw e (if_rows P (has_name p n db.names) db.names _ h k)
]

Distinct-append :
    (p i : ℕ) (n : Str) (rs : List NameRow)
    → Distinct rs
    → has_name p n rs ≡ false
    → Distinct (rs ++ (record { name = n; node_id = i; parent_id = p } ∷ []))
unfolding has_name
Distinct-append p i n [] d h = (refl, tt)
Distinct-append p i n (r ∷ rs) d h = (
  ground (arith, has_name-append r.parent_id p r.name n rs i, str_eq_sym r.name n, d.0),
  Distinct-append p i n rs d.1 (ground arith),
)

Distinct-connect :
    (i p : ℕ) (n : Str) (db : Db) → Distinct db.names → Distinct (connect i p n db).names
unfolding connect insert_ignore_name
Distinct-connect i p n db d = elim (Bool-cases (p == 0)) [
  | inl e ↦ rw e d
  | inr e ↦ rw e elim (Bool-cases (has_name p n db.names)) [
    | inl there ↦ rw there d
    | inr new ↦ rw new (Distinct-append p i n db.names d new)
  ]
]

pub connect-IsNameTable :
    (i p : ℕ) (n : Str) (db : Db)
    → IsNameTable db.names
    → ((p ≡ 0) ⊎ IsPlainName n)
    → IsNameTable (connect i p n db).names
connect-IsNameTable i p n db t plain = record {
  distinct = Distinct-connect i p n db t.distinct;
  plain = All-connect (λ r. IsPlainName r.name) i p n db t.plain plain;
}

-- ===== src/Sqlite/Versions/Again.antt =====
-- Indexing a version a second time.
use ocfl_index.Base.{
  ℕ, ◌≡◌, ◌≢◌, refl, sym, ap, ◌∙◌, Bool, true, false, ◌&&◌, Option, none, some, List, [], ◌∷◌,
  arith, ◌==◌, if◌then◌else◌, ok, err, Option-cases, inl, inr,
}
use ocfl_index.Text.{str_eq_refl}
use ocfl_index.Sqlite.{index_value, VersionRow, Db}
use ocfl_index.Sqlite.Versions.{
  User, Version, VNumbers, version_num, get_version, add_version, insert_version_row, same_version,
  same_user, version_row, insert_version,
}

get_version-key :
    (inv n : ℕ) (rs : List VersionRow) (row : VersionRow)
    → get_version inv n rs ≡ some row
    → (row.inventory_id ≡ inv) × (row.num ≡ n)
unfolding get_version
get_version-key inv n [] row h = cc
get_version-key inv n (r ∷ rs) row h = ground (arith, get_version-key inv n rs row)

get_version-add :
    (inv n : ℕ) (row : VersionRow) (rs : List VersionRow)
    → get_version row.inventory_id row.num rs ≡ none
    → get_version inv n (add_version row rs)
      ≡ (if row.inventory_id == inv && row.num == n then some row else get_version inv n rs)
unfolding get_version add_version
get_version-add inv n row [] h = refl
get_version-add inv n row (r ∷ rs) h = ground (arith, get_version-add inv n row rs)

same_version_self :
    (V : VNumbers) (v : V.VNum) (ver : Version) (inv node : ℕ)
    → same_version (version_row V v ver inv node) ver node ≡ true
unfolding same_version
same_version_self V v ver inv node = ground (arith, str_eq_refl ver.message, self ver.user)
  where
    self :
        (u : Option User) → same_user (version_row V v (record ver { user = u }) inv node) u ≡ true
    self none = refl
    self (some u) = ground (arith, str_eq_refl u.address, str_eq_refl u.name)

insert_row_ok :
    (row : VersionRow) (db db' : Db)
    → insert_version_row row db ≡ ok db'
    → (get_version row.inventory_id row.num db.versions ≡ none)
      × (db'.versions ≡ add_version row db.versions)
unfolding insert_version_row
insert_row_ok row db db' h = ground arith

kept :
    (b : Bool) (db db' : Db)
    → (if b then ok db else err index_value) ≡ ok db'
    → (b ≡ true) × (db ≡ db')
kept true db db' h = (refl, ground arith)
kept false db db' h = cc

if_key : (inv n m : ℕ) {A : Type 0} (x y : A) → m ≡ n → (if inv == inv && m == n then x else y) ≡ x
if_key inv n m x y h = ground arith

module _ (V : VNumbers) where
  open V use {VNum, num, string}

  inserted :
      (v : VNum) (ver : Version) (inv node : ℕ) (db db' : Db)
      → version_num (string v) ≡ num v
      → insert_version V v ver inv node db ≡ ok db'
      → (row : VersionRow) × (get_version inv (num v) db'.versions ≡ some row)
        × (same_version row ver node ≡ true)
  unfolding insert_version
  inserted v ver inv node db db' law h = elim (Option-cases (get_version inv (num v) db.versions)) [
    | inl e ↦
        let row = version_row V v ver inv node in
        let r = insert_row_ok row db db' (rw (e, insert_version) at h) in
        (
          row,
          (rw (r.1)
              (get_version-add inv (num v) row db.versions r.0 ∙ if_key inv (num v) _ _ _ law)),
          same_version_self V v ver inv node,
        )
    | inr (row, e) ↦
        let k = kept (same_version row ver node) db db' (rw (e, insert_version) at h) in
        (row, (rw (← k.1) e), k.0)
  ]

  second :
      (v : VNum) (ver : Version) (inv node : ℕ) (db : Db) (row : VersionRow)
      → get_version inv (num v) db.versions ≡ some row
      → insert_version V v ver inv node db
        ≡ (if same_version row ver node then ok db else err index_value)
  unfolding insert_version
  second v ver inv node db row h = rw (h, insert_version) refl

  -- If the number in a version's name is the number of the version, then once an insertion of a
  -- version has succeeded, whether it found the version or added it, a second insertion of the same
  -- version under the same node succeeds and changes nothing.
  pub insert_version_again :
      (v : VNum) (ver : Version) (inv node : ℕ) (db db' : Db)
      → version_num (string v) ≡ num v
      → insert_version V v ver inv node db ≡ ok db'
      → insert_version V v ver inv node db' ≡ ok db'
  insert_version_again v ver inv node db db' law h =
      let (row, e, s) = inserted v ver inv node db db' law h in
      second v ver inv node db' row e ∙ rw s

  differs :
      (row : VersionRow) (ver other : Version) (node node' : ℕ)
      → same_version row ver node ≡ true
      → node' ≢ node
      → same_version row other node' ≡ false
  unfolding same_version
  differs row ver other node node' h k = ground arith

  -- If the number in a version's name is the number of the version, then once an insertion of a
  -- version has succeeded, inserting the same version number with another node, that is with a
  -- changed version state, is refused with ErrIndexValue, whatever the other values are.
  pub insert_version_conflict :
      (v : VNum) (ver other : Version) (inv node node' : ℕ) (db db' : Db)
      → version_num (string v) ≡ num v
      → insert_version V v ver inv node db ≡ ok db'
      → node' ≢ node
      → insert_version V v other inv node' db' ≡ err index_value
  insert_version_conflict v ver other inv node node' db db' law h k =
      let (row, e, s) = inserted v ver inv node db db' law h in
      second v other inv node' db' row e ∙ (rw (differs row ver other node node' s k))

  other_if :
      (inv n inv' n' : ℕ) {A : Type 0} (x y : A)
      → ((inv == inv') && (n == n')) ≡ false
      → (if inv == inv' && n == n' then x else y) ≡ y
  other_if inv n inv' n' x y h = rw h

  -- If the number in a version's name is the number of the version, an insertion that succeeds
  -- leaves every other version as it was.
  pub get_version-insert_version_other :
      (v : VNum) (ver : Version) (inv node inv' n' : ℕ) (db db' : Db)
      → version_num (string v) ≡ num v
      → insert_version V v ver inv node db ≡ ok db'
      → (inv == inv' && num v == n') ≡ false
      → get_version inv' n' db'.versions ≡ get_version inv' n' db.versions
  unfolding insert_version
  get_version-insert_version_other v ver inv node inv' n' db db' law h k =
      elim (Option-cases (get_version inv (num v) db.versions)) [
        | inl e ↦
            let row = version_row V v ver inv node in
            let r = insert_row_ok row db db' (rw (e, insert_version) at h) in
            rw (r.1) (
              get_version-add inv' n' row db.versions r.0
              ∙ other_if inv (version_num (string v)) inv' n' _ _ (rw law k))
        | inr (row, e) ↦
            let same = kept (same_version row ver node) db db' (rw (e, insert_version) at h) in
            ap (λ (d : Db). get_version inv' n' d.versions) (sym same.1)
      ]

-- ===== src/Sqlite/Roots/Upsert.antt =====
-- Which roots are there, and since when, after UpsertObjectRoot and DeleteObjectRootsBefore.
use ocfl_index.Base.{
  ℕ, ◌≤◌, ◌≡◌, refl, ◌∙◌, Bool, false, not, ◌&&◌, ◌||◌, some, List, [], ◌∷◌, arith, ltb,
  Option-cases, inl, inr,
}
use ocfl_index.Text.{Str, str_eq, str_eq_iff}
use ocfl_index.Sqlite.{ObjectRootRow}
use ocfl_index.Sqlite.Roots.{update_root, touch_root, add_root, upsert_object_root, roots_since}

-- There is a root of that path.
unfoldable pub has_root : Str → List ObjectRootRow → Bool
has_root q [] = false
has_root q (r ∷ rs) = str_eq r.path q || has_root q rs

-- There is a root of that path that was indexed at the time or later.
unfoldable pub has_root_since : ℕ → Str → List ObjectRootRow → Bool
has_root_since t q [] = false
has_root_since t q (r ∷ rs) = (str_eq r.path q && not (ltb r.indexed_at t)) || has_root_since t q rs

pub has_root-roots_since :
    (t : ℕ) (q : Str) (rs : List ObjectRootRow)
    → has_root q (roots_since t rs) ≡ has_root_since t q rs
unfolding has_root has_root_since roots_since
has_root-roots_since t q [] = refl
has_root-roots_since t q (r ∷ rs) = ground (arith, has_root-roots_since t q rs)

has_root-touch :
    (q p : Str) (t : ℕ) (rs : List ObjectRootRow) → has_root q (touch_root p t rs) ≡ has_root q rs
unfolding has_root touch_root
has_root-touch q p t [] = refl
has_root-touch q p t (r ∷ rs) = ground (arith, has_root-touch q p t rs)

has_root-add :
    (q : Str) (row : ObjectRootRow) (rs : List ObjectRootRow)
    → has_root q (add_root row rs) ≡ (str_eq row.path q || has_root q rs)
unfolding has_root add_root
has_root-add q row [] = refl
has_root-add q row (r ∷ rs) = ground (arith, has_root-add q row rs)

since-touch :
    (s : ℕ) (q p : Str) (t : ℕ) (rs : List ObjectRootRow) (row : ObjectRootRow)
    → s ≤ t
    → update_root p t rs ≡ some row
    → has_root_since s q (touch_root p t rs) ≡ (str_eq p q || has_root_since s q rs)
unfolding has_root_since touch_root update_root
since-touch s q p t [] row h u = cc
since-touch s q p t (r ∷ rs) row h u =
    ground (
      arith,
      since-touch s q p t rs row h,
      str_eq_iff r.path p,
      str_eq_iff r.path q,
      str_eq_iff p q,
    )

since-add :
    (s : ℕ) (q : Str) (row : ObjectRootRow) (rs : List ObjectRootRow)
    → has_root_since s q (add_root row rs)
      ≡ ((str_eq row.path q && not (ltb row.indexed_at s)) || has_root_since s q rs)
unfolding has_root_since add_root
since-add s q row [] = refl
since-add s q row (r ∷ rs) = ground (arith, since-add s q row rs)

-- An upsert adds the path or renews its time, and leaves every other path as it was.
pub since-upsert :
    (s : ℕ) (q p : Str) (t : ℕ) (rs : List ObjectRootRow)
    → s ≤ t
    → has_root_since s q (upsert_object_root p t rs).0 ≡ (str_eq p q || has_root_since s q rs)
unfolding upsert_object_root
since-upsert s q p t rs h = elim (Option-cases (update_root p t rs)) [
  | inl e ↦ rw (e, upsert_object_root) (since-add s q _ rs ∙ ground arith)
  | inr (row, e) ↦ rw (e, upsert_object_root) (since-touch s q p t rs row h e)
]

has_root-update :
    (q p : Str) (t : ℕ) (rs : List ObjectRootRow) (row : ObjectRootRow)
    → update_root p t rs ≡ some row
    → has_root q rs ≡ (str_eq p q || has_root q rs)
unfolding has_root update_root
has_root-update q p t [] row u = cc
has_root-update q p t (r ∷ rs) row u =
    ground (
      arith,
      has_root-update q p t rs row,
      str_eq_iff r.path p,
      str_eq_iff r.path q,
      str_eq_iff p q,
    )

pub has_root-upsert :
    (q p : Str) (t : ℕ) (rs : List ObjectRootRow)
    → has_root q (upsert_object_root p t rs).0 ≡ (str_eq p q || has_root q rs)
unfolding upsert_object_root
has_root-upsert q p t rs = elim (Option-cases (update_root p t rs)) [
  | inl e ↦ rw (e, upsert_object_root) (has_root-add q _ rs)
  | inr (row, e) ↦
      rw (e, upsert_object_root) (has_root-touch q p t rs ∙ has_root-update q p t rs row e)
]

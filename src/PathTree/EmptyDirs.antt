-- ===== src/PathTree/EmptyDirs.antt =====
-- What RemoveEmptyDirs leaves.
use ocfl_index.Base.{
  ℕ, ◌+◌, ◌≡◌, refl, ◌∙◌, Bool, true, false, ◌||◌, arith, if◌then◌else◌, Bool-cases, inl, inr,
}
use ocfl_index.Text.{Str}
use ocfl_index.PathTree.{
  Node, file, dir, Entries, end, entry, is_empty_dir, keep_entry, remove_empty_dirs,
  remove_empty_entries,
}

unfoldable mutual
  -- A node below this one is a directory without children.
  pub has_empty_below {ℓ} : {T : Type ℓ} → Node T → Bool
  has_empty_below (file a v) = false
  has_empty_below (dir a v es) = has_empty es

  pub has_empty {ℓ} : {T : Type ℓ} → Entries T → Bool
  has_empty end = false
  has_empty (entry n ch es) = is_empty_dir ch || has_empty_below ch || has_empty es

unfoldable mutual
  -- The number of files that satisfy a test on their values.
  pub count_files {ℓ} : {T : Type ℓ} → (T → Bool) → Node T → ℕ
  count_files t (file a v) = if t v then 1 else 0
  count_files t (dir a v es) = count_files_entries t es

  pub count_files_entries {ℓ} : {T : Type ℓ} → (T → Bool) → Entries T → ℕ
  count_files_entries t end = 0
  count_files_entries t (entry n ch es) = count_files t ch + count_files_entries t es

module _ {ℓ} {T : Type ℓ} where
  has_empty-keep_entry :
      (n : Str) (ch : Node T) (es : Entries T)
      → has_empty_below ch ≡ false
      → has_empty es ≡ false
      → has_empty (keep_entry n ch es) ≡ false
  unfolding keep_entry has_empty
  has_empty-keep_entry n ch es h k = elim (Bool-cases (is_empty_dir ch)) [
    | inl e ↦ rw (e, keep_entry) k
    | inr e ↦ rw (e, keep_entry) (rw (e, h) k)
  ]

  empty-count : (t : T → Bool) (ch : Node T) → is_empty_dir ch ≡ true → count_files t ch ≡ 0
  unfolding is_empty_dir count_files
  empty-count t (file a v) h = cc
  empty-count t (dir a v end) h = refl
  empty-count t (dir a v (entry n ch es)) h = cc

  count_files-keep_entry :
      (t : T → Bool) (n : Str) (ch : Node T) (es : Entries T)
      → count_files_entries t (keep_entry n ch es) ≡ count_files t ch + count_files_entries t es
  unfolding keep_entry count_files_entries
  count_files-keep_entry t n ch es = elim (Bool-cases (is_empty_dir ch)) [
    | inl e ↦ rw (e, keep_entry) (omega (arith, empty-count t ch e))
    | inr e ↦ rw (e, keep_entry) refl
  ]

mutual
  unfolding remove_empty_dirs has_empty_below

  none_empty {ℓ} : {T : Type ℓ} (node : Node T) → has_empty_below (remove_empty_dirs node) ≡ false
  none_empty (file a v) = refl
  none_empty (dir a v es) = none_empty_entries es

  none_empty_entries {ℓ} :
      {T : Type ℓ} (es : Entries T) → has_empty (remove_empty_entries es) ≡ false
  none_empty_entries end = refl
  none_empty_entries (entry n ch es) =
      has_empty-keep_entry n (remove_empty_dirs ch) (remove_empty_entries es) (none_empty ch)
        (none_empty_entries es)

mutual
  unfolding remove_empty_dirs count_files

  same_files {ℓ} :
      {T : Type ℓ} (t : T → Bool) (node : Node T)
      → count_files t (remove_empty_dirs node) ≡ count_files t node
  same_files t (file a v) = refl
  same_files t (dir a v es) = same_files_entries t es

  same_files_entries {ℓ} :
      {T : Type ℓ} (t : T → Bool) (es : Entries T)
      → count_files_entries t (remove_empty_entries es) ≡ count_files_entries t es
  same_files_entries t end = refl
  same_files_entries t (entry n ch es) =
      count_files-keep_entry t n (remove_empty_dirs ch) (remove_empty_entries es)
      ∙ omega (arith, same_files t ch, same_files_entries t es)

-- RemoveEmptyDirs leaves no empty directory below the node, and keeps every file: as many files
-- satisfy a test on their values after it as before.
pub remove_empty_dirs_lem {ℓ} :
    {T : Type ℓ} (t : T → Bool) (node : Node T)
    → (has_empty_below (remove_empty_dirs node) ≡ false)
      × (count_files t (remove_empty_dirs node) ≡ count_files t node)
remove_empty_dirs_lem t node = (none_empty node, same_files t node)

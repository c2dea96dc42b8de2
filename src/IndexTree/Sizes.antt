-- ===== src/IndexTree/Sizes.antt =====
-- Which nodes have a size, and which size.
use ocfl_index.Base.{ℕ, ◌+◌, ◌%◌, ◌≡◌, refl, ap, ◌∙◌, Bool, true, false, ◌&&◌, arith}
use ocfl_index.PathTree.{Node, file, dir, Entries, end, entry, val}
use ocfl_index.IndexTree.{IndexingVal, int64_mod, sized, dir_sizes, all_sized, total_size}

unfoldable mutual
  -- Every file of the tree has a size.
  pub files_sized : Node IndexingVal → Bool
  files_sized (file a v) = v.has_size
  files_sized (dir a v es) = files_sized_entries es

  pub files_sized_entries : Entries IndexingVal → Bool
  files_sized_entries end = true
  files_sized_entries (entry n ch es) = files_sized ch && files_sized_entries es

unfoldable mutual
  -- The sum of the sizes of the files of the tree.
  pub files_total : Node IndexingVal → ℕ
  files_total (file a v) = v.size
  files_total (dir a v es) = files_total_entries es

  pub files_total_entries : Entries IndexingVal → ℕ
  files_total_entries end = 0
  files_total_entries (entry n ch es) = files_total ch + files_total_entries es

has_size-sized : (v : IndexingVal) (b : Bool) (n : ℕ) → (sized v b n).has_size ≡ b
unfolding sized
has_size-sized v true n = refl
has_size-sized v false n = refl

size-sized : (v : IndexingVal) (b : Bool) (n : ℕ) → b ≡ true → (sized v b n).size ≡ n
unfolding sized
size-sized v true n h = refl
size-sized v false n h = cc

mutual
  unfolding dir_sizes files_sized

  has_size_lem : (t : Node IndexingVal) → (val (dir_sizes t)).has_size ≡ files_sized t
  has_size_lem (file a v) = refl
  has_size_lem (dir a v es) = has_size-sized v (all_sized es) (total_size es) ∙ all_sized_lem es

  all_sized_lem : (es : Entries IndexingVal) → all_sized es ≡ files_sized_entries es
  all_sized_lem end = refl
  all_sized_lem (entry n ch es) = rw (has_size_lem ch, all_sized_lem es) refl

left_true : (a b : Bool) → (a && b) ≡ true → a ≡ true
left_true a b h = ground arith

right_true : (a b : Bool) → (a && b) ≡ true → b ≡ true
right_true a b h = ground arith

add_mod :
    (a b c d : ℕ)
    → a % int64_mod ≡ c % int64_mod
    → b % int64_mod ≡ d % int64_mod
    → ((a + b) % int64_mod) % int64_mod ≡ (c + d) % int64_mod
add_mod a b c d h k = omega arith

mutual
  unfolding dir_sizes files_sized files_total

  size_lem :
      (t : Node IndexingVal)
      → files_sized t ≡ true
      → (val (dir_sizes t)).size % int64_mod ≡ files_total t % int64_mod
  size_lem (file a v) h = refl
  size_lem (dir a v es) h =
      ap (λ n. n % int64_mod) (size-sized v (all_sized es) (total_size es) (all_sized_lem es ∙ h))
      ∙ total_size_lem es h

  total_size_lem :
      (es : Entries IndexingVal)
      → files_sized_entries es ≡ true
      → total_size es % int64_mod ≡ files_total_entries es % int64_mod
  total_size_lem end h = refl
  total_size_lem (entry n ch es) h =
      add_mod (val (dir_sizes ch)).size (total_size es) (files_total ch) (files_total_entries es)
        (size_lem ch (left_true (files_sized ch) (files_sized_entries es) h))
        (total_size_lem es (right_true (files_sized ch) (files_sized_entries es) h))

-- After dirSizes a node has a size exactly if every file in it has one.
pub has_size-dir_sizes : (t : Node IndexingVal) → (val (dir_sizes t)).has_size ≡ files_sized t
has_size-dir_sizes t = has_size_lem t

-- After dirSizes, if every file of a node has a size, then the node's size is the sum of theirs,
-- modulo 2 ^ 64.
pub size-dir_sizes :
    (t : Node IndexingVal)
    → files_sized t ≡ true
    → (val (dir_sizes t)).size % int64_mod ≡ files_total t % int64_mod
size-dir_sizes t h = size_lem t h

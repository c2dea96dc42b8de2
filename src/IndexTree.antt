-- ===== src/IndexTree.antt =====
-- internal/index/pathtree.go: the tree of a version state, with a digest for each node and sizes
-- where they are known. The hash of a directory's listing (SHA-256 of package digest) is a
-- parameter, from bytes to bytes.
pub mod Sizes
pub mod Build
pub mod Listing
mod Witnesses
use ocfl_index.Base.{
  ℕ, ◌+◌, ◌/◌, ◌%◌, Bool, true, false, ◌&&◌, List, [], ◌∷◌, ◌++◌, if◌then◌else◌, ltb,
}
use ocfl_index.Text.{Str, slash}
use ocfl_index.Paging.{sort_by}
use ocfl_index.PathTree.{Node, file, dir, Entries, end, entry, val, is_dir}

-- IndexingVal
pub record IndexingVal : Type 0 where
  pub sum : List ℕ
  pub size : ℕ
  pub has_size : Bool

-- Go's zero value
abbrev pub no_val : IndexingVal
no_val = record { sum = []; size = 0; has_size = false }

-- "%x" of a byte string
unfoldable pub hex_digit : ℕ → ℕ
hex_digit d = if ltb d 10 then b'0' + d else 87 + d

unfoldable pub hex : List ℕ → Str
unfolding hex_digit
hex [] = []
hex (b ∷ bs) = hex_digit (b / 16) ∷ hex_digit (b % 16) ∷ hex bs

-- One line of a directory's listing: "%x %s\n"
unfoldable pub digest_line : List ℕ → Str → Str
unfolding hex
digest_line sum name = hex sum ++ (b' ' ∷ (name ++ (10 ∷ [])))

abbrev pub line_name : Str → Bool → Str
line_name n d = if d then n ++ (slash ∷ []) else n

abbrev pub name_of {ℓ} : {A : Type ℓ} → Str × A → Str
name_of p = p.0

unfoldable pub concat_lines : List (Str × Str) → Str
concat_lines [] = []
concat_lines ((n, l) ∷ ls) = l ++ concat_lines ls

module _ (hash : Str → List ℕ) where
  -- dirDigests: each directory gets the hash of the sorted listing of its children, which come
  -- first. The listing is written in the order of DirEntries.
  unfoldable mutual
    pub dir_digests : Node IndexingVal → Node IndexingVal
    dir_digests (file a v) = file a v
    dir_digests (dir a v es) =
        dir a
          (record v { sum = hash (concat_lines (sort_by (name_of {A = Str}) (digest_lines es))) })
          (digest_entries es)

    pub digest_entries : Entries IndexingVal → Entries IndexingVal
    digest_entries end = end
    digest_entries (entry n ch es) = entry n (dir_digests ch) (digest_entries es)

    pub digest_lines : Entries IndexingVal → List (Str × Str)
    digest_lines end = []
    digest_lines (entry n ch es) =
        (n, digest_line (val (dir_digests ch)).sum (line_name n (is_dir ch))) ∷ digest_lines es

-- `node.Val.HasSize = allChilSizes`, and the size only then; sizes are int64 and wrap.
abbrev pub int64_mod : ℕ
int64_mod = 18446744073709551616

unfoldable pub sized : IndexingVal → Bool → ℕ → IndexingVal
sized v true total = record v { has_size = true; size = total }
sized v false total = record v { has_size = false }

-- The loop of dirSizes over the children, after they have their own sizes.
unfoldable mutual
  pub dir_sizes : Node IndexingVal → Node IndexingVal
  dir_sizes (file a v) = file a v
  dir_sizes (dir a v es) = dir a (sized v (all_sized es) (total_size es)) (size_entries es)

  pub size_entries : Entries IndexingVal → Entries IndexingVal
  size_entries end = end
  size_entries (entry n ch es) = entry n (dir_sizes ch) (size_entries es)

  pub all_sized : Entries IndexingVal → Bool
  all_sized end = true
  all_sized (entry n ch es) = (val (dir_sizes ch)).has_size && all_sized es

  pub total_size : Entries IndexingVal → ℕ
  total_size end = 0
  total_size (entry n ch es) = ((val (dir_sizes ch)).size + total_size es) % int64_mod

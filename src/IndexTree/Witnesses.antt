-- ===== src/IndexTree/Witnesses.antt =====
-- A concrete tree for the theorems on the sizes of directories.
use ocfl_index.Base.{ℕ, ◌≡◌, true}
use ocfl_index.Text.{bytes}
use ocfl_index.PathTree.{Node, file, dir, end, entry, val}
use ocfl_index.IndexTree.{IndexingVal, no_val, dir_sizes}
use ocfl_index.IndexTree.Sizes.{files_sized, has_size-dir_sizes}

abbrev sized_file : ℕ → Node IndexingVal
sized_file n = file 2 (record no_val { size = n; has_size = true })

abbrev tree : Node IndexingVal
tree = dir 1 no_val (
    entry (bytes "a") (sized_file 3)
      (entry (bytes "d") (dir 3 no_val (entry (bytes "b") (sized_file 4) end)) end))

has_size-dir_sizes_example : (val (dir_sizes tree)).has_size ≡ files_sized tree
has_size-dir_sizes_example = has_size-dir_sizes tree

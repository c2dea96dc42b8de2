-- ===== src/IndexTree/Build.antt =====
-- internal/index/pathtree.go: PathTree, which builds the tree of a version state from its logical
-- paths and digests. The order in which package digest goes through a state is that of the list.
-- The content path of a logical path (package ocflv1) is a parameter, the empty path if there is
-- none; the sizes are a list of content paths with their sizes, empty for a nil map.
use ocfl_index.Base.{
  ℕ, ◌+◌, ◌*◌, ◌-◌, Bool, true, false, ◌&&◌, Option, none, some, List, [], ◌∷◌, if◌then◌else◌, leb,
  Result, ok, err, panic,
}
use ocfl_index.Text.{Str, str_eq}
use ocfl_index.PathTree.{Err, Node, dir, end, Node}
use ocfl_index.PathTree.Update.{set_file}
use ocfl_index.IndexTree.{IndexingVal, no_val, dir_digests, dir_sizes}

pub data BuildErr : Type 0 where
  missing_version : BuildErr
  bad_digest : BuildErr
  set_failed : Err → BuildErr

-- hex.DecodeString: pairs of digits, of either case
unfoldable pub hex_val : ℕ → Option ℕ
hex_val c =
    if leb b'0' c && leb c b'9'
    then some (c - b'0')
    else if leb b'a' c && leb c b'f'
    then some (c - 87)
    else if leb b'A' c && leb c b'F'
    then some (c - 55)
    else none

unfoldable pub hex_byte : Option ℕ → Option ℕ → Option ℕ
hex_byte (some a) (some b) = some (a * 16 + b)
hex_byte (some a) none = none
hex_byte none b = none

unfoldable pub cons_byte : Option ℕ → Option (List ℕ) → Option (List ℕ)
cons_byte (some b) (some bs) = some (b ∷ bs)
cons_byte (some b) none = none
cons_byte none bs = none

unfoldable pub decode_string : Str → Option (List ℕ)
unfolding hex_val hex_byte cons_byte
decode_string [] = some []
decode_string (c ∷ []) = none
decode_string (c ∷ d ∷ s) = cons_byte (hex_byte (hex_val c) (hex_val d)) (decode_string s)

-- sizes[cp]
unfoldable pub size_of : Str → List (Str × ℕ) → Option ℕ
size_of cp [] = none
size_of cp ((p, n) ∷ ps) = if str_eq p cp then some n else size_of cp ps

-- The value of a file.
unfoldable pub file_val : Option ℕ → List ℕ → IndexingVal
file_val none sum = record no_val { sum = sum }
file_val (some n) sum = record { sum = sum; size = n; has_size = true }

abbrev pub has_sizes : List (Str × ℕ) → Bool
has_sizes [] = false
has_sizes (p ∷ ps) = true

module _ (hash : Str → List ℕ) (content_path : Str → Str) (sizes : List (Str × ℕ)) where
  -- The callback of EachPath, for each path of the state.
  unfoldable pub add_paths :
      List (Str × Str) → ℕ → Node IndexingVal → Result BuildErr (Node IndexingVal)
  unfolding decode_string size_of file_val
  add_paths [] next root = ok root
  add_paths ((logical, digest) ∷ ps) next root = elim (decode_string digest) [
    | none ↦ err bad_digest
    | some sum ↦
        let d =
          set_file no_val next logical (file_val (size_of (content_path logical) sizes) sum) root in
        elim d.result [
          | ok _ ↦ add_paths ps d.next d.node
          | err e ↦ err (set_failed e)
          | panic ↦ panic
        ]
  ]

  -- The digests, and the sizes if there are any.
  unfoldable pub complete : Node IndexingVal → Node IndexingVal
  complete root =
      let digested = dir_digests hash root in
      if has_sizes sizes then dir_sizes digested else digested

  unfoldable pub path_tree : Option (List (Str × Str)) → Result BuildErr (Node IndexingVal)
  unfolding add_paths complete
  path_tree none = err missing_version
  path_tree (some state) = elim (add_paths state 1 (dir 0 no_val end)) [
    | ok root ↦ ok (complete root)
    | err e ↦ err e
    | panic ↦ panic
  ]

-- ===== src/PathTree.antt =====
-- internal/pathtree/pathtree.go: a tree of named nodes. A node whose children map is nil is a file.
-- A map is a list of entries in an order that no operation shows: `put` writes in place or adds at
-- the end, and `dir_entries` sorts. A node carries its address, since `IsParentOf` compares
-- pointers; an operation that allocates takes the next free address and returns the one after.
-- A Go pointer to a node of a tree is the list of names that lead to it. An operation that mutates
-- the tree returns the tree that it leaves, whatever it returns beside.
pub mod Update
pub mod Children
pub mod Segments
pub mod Located
pub mod Pointers
pub mod SetGet
pub mod SetResult
pub mod RemoveGet
pub mod RenameGet
pub mod Walk
pub mod EmptyDirs
pub mod Named
mod Witnesses
use ocfl_index.Base.{
  ℕ, zero, suc, ◌+◌, Bool, true, false, not, ◌||◌, Option, none, some, List, [], ◌∷◌, ◌==◌,
  if◌then◌else◌, length, Result, ok, err, panic,
}
use ocfl_index.Text.{Str, str_eq, str_lt}
use ocfl_index.Text.Paths.{dot, Cut, cut, split, valid_path, path_dir, path_base, path_join}

-- A pointer to a node of the tree.
abbrev pub Pointer : Type 0
Pointer = List Str

-- ErrInvalidPath, ErrNotFound, ErrNotDir, ErrRelation
pub data Err : Type 0 where
  invalid_path not_found not_dir relation : Err

mutual
  pub data Node {ℓ} (T : Type ℓ) : Type ℓ where
    file : ℕ → T → Node T
    dir : ℕ → T → Entries T → Node T

  pub data Entries {ℓ} (T : Type ℓ) : Type ℓ where
    end : Entries T
    entry : Str → Node T → Entries T → Entries T

module _ {ℓ} {T : Type ℓ} where
  abbrev pub addr : Node T → ℕ
  addr (file a v) = a
  addr (dir a v es) = a

  abbrev pub val : Node T → T
  val (file a v) = v
  val (dir a v es) = v

  -- NewFile, with the address of the new node
  abbrev pub new_file : ℕ → T → Node T
  new_file a v = file a v

  unfoldable pub is_dir : Node T → Bool
  is_dir (file a v) = false
  is_dir (dir a v es) = true

  -- children[name]
  unfoldable pub find : Str → Entries T → Option (Node T)
  find name end = none
  find name (entry n ch es) = if str_eq n name then some ch else find name es

  -- children[name] = child
  unfoldable pub put : Str → Node T → Entries T → Entries T
  put name child end = entry name child end
  put name child (entry n ch es) =
      if str_eq n name then entry n child es else entry n ch (put name child es)

  -- delete(children, name)
  unfoldable pub del : Str → Entries T → Entries T
  del name end = end
  del name (entry n ch es) =
      let rest = del name es in if str_eq n name then rest else entry n ch rest

  -- Child: reading a nil map finds nothing
  unfoldable pub child : Str → Node T → Option (Node T)
  unfolding find
  child name (file a v) = none
  child name (dir a v es) = find name es

  -- The node behind a pointer.
  unfoldable pub at : Pointer → Node T → Option (Node T)
  unfolding child
  at [] node = some node
  at (s ∷ ss) node = elim (child s node) [ none ↦ none | some ch ↦ at ss ch ]

  -- the loop of Get, one element at a time
  unfoldable pub get_loop : ℕ → Str → Node T → Result Err (Node T)
  unfolding child cut
  get_loop zero p node = panic
  get_loop (suc fuel) p node =
      let k = cut p in
      elim (child k.first node) [
        | none ↦ err not_found
        | some ch ↦ elim k.more [ true ↦ get_loop fuel k.rest ch | false ↦ ok ch ]
      ]

  unfoldable pub get : Str → Node T → Result Err (Node T)
  get p node =
      if not (valid_path p)
      then err invalid_path
      else if str_eq p dot
      then ok node
      else get_loop (suc (length p)) p node

  unfoldable mutual
    -- IsParentOf(child), by the address of the child
    pub is_parent_of : Node T → ℕ → Bool
    is_parent_of (file a v) c = false
    is_parent_of (dir a v es) c = is_parent_of_entries es c

    pub is_parent_of_entries : Entries T → ℕ → Bool
    is_parent_of_entries end c = false
    is_parent_of_entries (entry n ch es) c =
        addr ch == c || is_parent_of ch c || is_parent_of_entries es c

  unfoldable mutual
    -- Len
    pub len : Node T → ℕ
    len (file a v) = 1
    len (dir a v es) = suc (len_entries es)

    pub len_entries : Entries T → ℕ
    len_entries end = 0
    len_entries (entry n ch es) = len ch + len_entries es

  -- a node's children are deleted if they are directories without children
  unfoldable pub is_empty_dir : Node T → Bool
  is_empty_dir (dir a v end) = true
  is_empty_dir (dir a v (entry n ch es)) = false
  is_empty_dir (file a v) = false

  unfoldable pub keep_entry : Str → Node T → Entries T → Entries T
  unfolding is_empty_dir
  keep_entry n ch es = if is_empty_dir ch then es else entry n ch es

  unfoldable mutual
    unfolding keep_entry

    -- RemoveEmptyDirs
    pub remove_empty_dirs : Node T → Node T
    remove_empty_dirs (file a v) = file a v
    remove_empty_dirs (dir a v es) = dir a v (remove_empty_entries es)

    pub remove_empty_entries : Entries T → Entries T
    remove_empty_entries end = end
    remove_empty_entries (entry n ch es) =
        keep_entry n (remove_empty_dirs ch) (remove_empty_entries es)

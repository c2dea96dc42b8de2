-- ===== src/PathTree/Walk.antt =====
-- The functions of internal/pathtree/pathtree.go that go through a whole tree: DirEntries, Walk,
-- AllPaths, Copy and Map. A callback that mutates a state is a function on that state; it does not
-- change the tree it is called on. Walk calls it for a node and then for its children by name, and
-- ends at the first error: ErrSkipDir is nil, which no error equals.
use ocfl_index.Base.{
  ℕ, suc, ◌+◌, ◌≡◌, refl, Bool, List, [], ◌∷◌, ◌++◌, arith, if◌then◌else◌, length, Result, ok, err,
  panic, ◌⊎◌, inl, inr, Bool-cases, length-append,
}
use ocfl_index.Text.{Str, str_eq, str_lt}
use ocfl_index.Text.Paths.{dot, path_join}
use ocfl_index.Paging.{insert_by, sort_by}
use ocfl_index.PathTree.{Err, Node, file, dir, Entries, end, entry, val, is_dir, len, len_entries}
use ocfl_index.PathTree.Update.{Done, set}

-- DirEntry
pub record DirEntry : Type 0 where
  pub name : Str
  pub is_dir_entry : Bool

abbrev entry_name : DirEntry → Str
entry_name e = e.name

-- The name of a child, and what stands for the child.
abbrev named {ℓ} : {A : Type ℓ} → Str × A → Str
named p = p.0

-- One after the other, in the order of DirEntries.
unfoldable pub joined {ℓ} : {A : Type ℓ} → List (Str × List A) → List A
joined [] = []
joined (p ∷ ps) = p.1 ++ joined ps

module _ {ℓ} {T : Type ℓ} where
  unfoldable pub entries_of : Entries T → List DirEntry
  entries_of end = []
  entries_of (entry n ch es) = record { name = n; is_dir_entry = is_dir ch } ∷ entries_of es

  -- DirEntries
  unfoldable pub dir_entries : Node T → List DirEntry
  unfolding entries_of sort_by
  dir_entries (file a v) = []
  dir_entries (dir a v es) = sort_by entry_name (entries_of es)

  unfoldable mutual
    unfolding joined sort_by

    -- The calls of walk, in their order.
    pub visited : Str → Node T → List (Str × Node T)
    visited p (file a v) = (p, file a v) ∷ []
    visited p (dir a v es) = (p, dir a v es) ∷ joined (sort_by named (visited_entries p es))

    pub visited_entries : Str → Entries T → List (Str × List (Str × Node T))
    visited_entries p end = []
    visited_entries p (entry n ch es) = (n, visited (path_join p n) ch) ∷ visited_entries p es

  -- The calls of a callback, until one returns an error.
  unfoldable pub calls {κ μ} :
      {S : Type κ} {E : Type μ}
      → (Str → Node T → S → Result E S)
      → List (Str × Node T)
      → S
      → Result E S
  calls fn [] s = ok s
  calls fn (p ∷ ps) s = elim (fn p.0 p.1 s) [
    | ok s' ↦ calls fn ps s'
    | err e ↦ err e
    | panic ↦ panic
  ]

  -- Walk
  unfoldable pub walk {κ μ} :
      {S : Type κ} {E : Type μ} → (Str → Node T → S → Result E S) → Node T → S → Result E S
  unfolding visited calls
  walk fn node s = calls fn (visited dot node) s

  add_name : Str → Node T → List Str → Result Err (List Str)
  add_name p node names = if str_eq p dot then ok names else ok (names ++ (p ∷ []))

  -- AllPaths
  unfoldable pub all_paths : Node T → Result Err (List Str)
  unfolding walk add_name
  all_paths node = walk add_name node []

  -- The node that Copy and Map set: without children, at its own address.
  abbrev pub blank {κ} : {B : Type κ} → ℕ → B → Node T → Node B
  blank a v (file b w) = file a v
  blank a v (dir b w es) = dir a v end

-- What a copying callback keeps: the new tree, and the next free address.
pub record Copied {ℓ} (T : Type ℓ) : Type ℓ where
  pub root : Node T
  pub next : ℕ

copied {ℓ} : {T : Type ℓ} → Done T (Unit {0}) → Result Err (Copied T)
copied d = elim d.result [
  | ok _ ↦ ok (record { root = d.node; next = d.next })
  | err e ↦ err e
  | panic ↦ panic
]

no_error {ℓ} : {E : Type 0} {A : Type ℓ} → Result E A → Result E A
no_error (ok a) = ok a
no_error (err e) = panic
no_error panic = panic

-- Copy: an error of Walk is a panic.
unfoldable pub copy {ℓ} : {T : Type ℓ} → T → ℕ → Node T → Result Err (Copied T)
unfolding walk copied no_error
copy zero_val next node = no_error (
    walk (λ p n c. copied (set zero_val (suc c.next) p (blank c.next (val n) n) c.root)) node
      (record { root = file next zero_val; next = suc next }))

map_copied {ℓ} : {E : Type 0} {T : Type ℓ} → Result Err (Copied T) → Result (E ⊎ Err) (Copied T)
map_copied (ok c) = ok c
map_copied (err e) = err (inr e)
map_copied panic = panic

-- Map; its errors are those of fn and those of Set.
unfoldable pub map_tree {ℓ κ} :
    {E : Type 0} {A : Type ℓ} {B : Type κ}
    → B
    → (A → Result E B)
    → ℕ
    → Node A
    → Result (E ⊎ Err) (Copied B)
unfolding walk copied map_copied
map_tree zero_val fn next root =
    walk
      (λ p n c. elim (fn (val n)) [
        | ok v ↦ map_copied (copied (set zero_val (suc c.next) p (blank c.next v n) c.root))
        | err e ↦ err (inl e)
        | panic ↦ panic
      ])
      root (record { root = file next zero_val; next = suc next })

total {ℓ} : {A : Type ℓ} → List (Str × List A) → ℕ
total [] = 0
total (p ∷ ps) = length p.1 + total ps

total-insert_by {ℓ} :
    {A : Type ℓ} (p : Str × List A) (ps : List (Str × List A))
    → total (insert_by named p ps) ≡ length p.1 + total ps
unfolding insert_by total
total-insert_by p [] = refl
total-insert_by p (q ∷ ps) = elim (Bool-cases (str_lt (named p) (named q))) [
  | inl e ↦ rw (e, insert_by) refl
  | inr e ↦ rw (e, insert_by) (omega (arith, total-insert_by p ps))
]

total-sort_by {ℓ} : {A : Type ℓ} (ps : List (Str × List A)) → total (sort_by named ps) ≡ total ps
unfolding sort_by total
total-sort_by [] = refl
total-sort_by (p ∷ ps) = omega (arith, total-insert_by p (sort_by named ps), total-sort_by ps)

length-joined {ℓ} : {A : Type ℓ} (ps : List (Str × List A)) → length (joined ps) ≡ total ps
unfolding joined total
length-joined [] = refl
length-joined (p ∷ ps) = omega (arith, length-append p.1 (joined ps), length-joined ps)

mutual
  unfolding visited len total

  length_lem {ℓ} : {T : Type ℓ} (p : Str) (node : Node T) → length (visited p node) ≡ len node
  length_lem p (file a v) = refl
  length_lem p (dir a v es) =
      let s = sort_by named (visited_entries p es) in
      omega (arith, length-joined s, total-sort_by (visited_entries p es), total_lem p es)

  total_lem {ℓ} :
      {T : Type ℓ} (p : Str) (es : Entries T) → total (visited_entries p es) ≡ len_entries es
  total_lem p end = refl
  total_lem p (entry n ch es) = omega (arith, length_lem (path_join p n) ch, total_lem p es)

-- Walk calls its function as many times as the tree has nodes by Len, if no call returns an error.
pub length-visited {ℓ} : {T : Type ℓ} (node : Node T) → length (visited dot node) ≡ len node
length-visited node = length_lem dot node

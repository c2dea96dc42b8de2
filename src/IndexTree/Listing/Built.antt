-- ===== src/IndexTree/Listing/Built.antt =====
-- The tree that PathTree builds for a version state, and what its digests stand for.
use ocfl_index.Base.{
  ℕ, suc, ◌<◌, ◌≡◌, refl, true, false, Option, none, some, List, [], ◌∷◌, ◌==◌, arith, All,
  Bool-cases, Option-cases, inl, inr, Result, ok, Result-cases,
}
use ocfl_index.Text.{Str, slash}
use ocfl_index.Text.Paths.{split, cons_split, valid_elems}
use ocfl_index.Text.Paths.Laws.{no_slashes, split-no_slashes, split_step}
use ocfl_index.Text.Paths.Valid.{IsPlain, IsPlain-valid_elems}
use ocfl_index.PathTree.{Node, file, dir, end}
use ocfl_index.PathTree.Update.{Done, set, set_file}
use ocfl_index.PathTree.Named.{IsProper, set-IsProper}
use ocfl_index.IndexTree.{IndexingVal, no_val, dir_digests}
use ocfl_index.IndexTree.Build.{
  BuildErr, hex_val, hex_byte, cons_byte, decode_string, size_of, file_val, add_paths, has_sizes,
  complete, path_tree,
}
use ocfl_index.IndexTree.Listing.{
  Listing, HasListing, IsLineName, HasBytes, IsWellNamed, AreBytes, no_break, read_with, Reads,
}
use ocfl_index.IndexTree.Listing.Digests.{dir_digests-HasListing}
use ocfl_index.IndexTree.Listing.Sized.{dir_sizes-HasListing}

hex_val-lt : (c d : ℕ) → hex_val c ≡ some d → d < 16
unfolding hex_val
hex_val-lt c d h = ground arith

hex_byte-lt : (c d b : ℕ) → hex_byte (hex_val c) (hex_val d) ≡ some b → b < 256
unfolding hex_byte
hex_byte-lt c d b h = go (hex_val c) (hex_val d) (hex_val-lt c) (hex_val-lt d) h
  where
    go :
        (x y : Option ℕ)
        → ((n : ℕ) → x ≡ some n → n < 16)
        → ((n : ℕ) → y ≡ some n → n < 16)
        → hex_byte x y ≡ some b
        → b < 256
    go none y p q e = cc
    go (some n) none p q e = cc
    go (some n) (some m) p q e = ground (arith, p n refl, q m refl)

-- hex.DecodeString gives bytes.
decode_string-AreBytes : (s : Str) (bs : List ℕ) → decode_string s ≡ some bs → AreBytes bs
unfolding decode_string cons_byte
decode_string-AreBytes [] [] h = tt
decode_string-AreBytes [] (b ∷ bs) h = ground arith
decode_string-AreBytes (c ∷ []) bs h = cc
decode_string-AreBytes (c ∷ d ∷ s) bs h =
    go (hex_byte (hex_val c) (hex_val d)) (decode_string s) (hex_byte-lt c d)
      (decode_string-AreBytes s) h
  where
    go :
        (x : Option ℕ) (o : Option (List ℕ))
        → ((n : ℕ) → x ≡ some n → n < 256)
        → ((ns : List ℕ) → o ≡ some ns → AreBytes ns)
        → cons_byte x o ≡ some bs
        → AreBytes bs
    go none o p q e = cc
    go (some n) none p q e = cc
    go (some n) (some ns) p q e =
        let same : n ∷ ns ≡ bs = ground arith in rw (← same) (p n refl, q ns refl)

-- The elements of a path without line breaks.
cons_split-no_break :
    (c : ℕ) (ws : List Str)
    → no_break (c ∷ []) ≡ true
    → All (λ w. no_break w ≡ true) ws
    → All (λ w. no_break w ≡ true) (cons_split c ws)
unfolding no_break
cons_split-no_break c [] h k = ground arith
cons_split-no_break c (w ∷ ws) h k = elim (Bool-cases (c == slash)) [
  | inl e ↦ rw (e, cons_split) (refl, k)
  | inr e ↦ rw (e, cons_split) (ground arith, k.1)
]

split-no_break : (p : Str) → no_break p ≡ true → All (λ w. no_break w ≡ true) (split p)
unfolding no_break
split-no_break [] h = unfold split in (refl, tt)
split-no_break (c ∷ p) h =
    rw (split_step c p)
      (cons_split-no_break c (split p) (ground arith) (split-no_break p (ground arith)))

line_names :
    (ws : List Str)
    → valid_elems ws ≡ true
    → no_slashes ws ≡ true
    → All (λ w. no_break w ≡ true) ws
    → All IsLineName ws
unfolding valid_elems
line_names [] v s b = tt
line_names (w ∷ ws) v s b =
    (((ground arith, ground arith), b.0), line_names ws (ground arith) (ground arith) b.1)

split-IsLineName : (p : Str) → no_break p ≡ true → IsPlain p → All IsLineName (split p)
split-IsLineName p b h =
    line_names (split p) (IsPlain-valid_elems h) (split-no_slashes p) (split-no_break p b)

-- The logical paths of a state have no line breaks.
abbrev pub NoBreaks : List (Str × Str) → Type 0
NoBreaks = All (λ p. no_break p.0 ≡ true)

abbrev pub file_of : List ℕ → IndexingVal
file_of sum = record { sum = sum; size = 0; has_size = false }

-- Set of a new file.
abbrev pub file_set : ℕ → Str → IndexingVal → Node IndexingVal → Done IndexingVal (Unit {0})
file_set next p v root = set no_val (suc next) p (file next v) root

sum-file_val : (o : Option ℕ) (sum : List ℕ) → (file_val o sum).sum ≡ sum
unfolding file_val
sum-file_val none sum = refl
sum-file_val (some n) sum = refl

module _ (hash : Str → List ℕ) (content_path : Str → Str) (sizes : List (Str × ℕ)) where
  -- The value of the file at a logical path: its digest, and the size of its content if it is there.
  abbrev pub val_at : Str → List ℕ → IndexingVal
  val_at p sum = file_val (size_of (content_path p) sizes) sum

  abbrev pub adds : List (Str × Str) → ℕ → Node IndexingVal → Result BuildErr (Node IndexingVal)
  adds = add_paths hash content_path sizes

  -- When the whole state has been added, so has its first path, and then the others.
  pub add_paths-cons :
      (p digest : Str) (ps : List (Str × Str)) (next : ℕ) (root t : Node IndexingVal)
      → adds ((p, digest) ∷ ps) next root ≡ ok t
      → (sum : List ℕ) × (decode_string digest ≡ some sum)
        × ((file_set next p (val_at p sum) root).result ≡ ok tt)
        × (let d = file_set next p (val_at p sum) root in adds ps d.next d.node ≡ ok t)
  unfolding add_paths set_file
  add_paths-cons p digest ps next root t e = elim (Option-cases (decode_string digest)) [
    | inl f ↦ cc (rw (f, add_paths) at e)
    | inr (sum, f) ↦
        let e' = rw (f, add_paths) at e in
        elim (Result-cases (file_set next p (val_at p sum) root).result) [
          | inr (inl (x, failed)) ↦ cc (rw failed at e')
          | inr (inr failed) ↦ cc (rw failed at e')
          | inl (u, done) ↦ (sum, f, done, rw done at e')
        ]
  ]

  add_paths-IsWellNamed :
      (state : List (Str × Str)) (next : ℕ) (root t : Node IndexingVal)
      → NoBreaks state
      → IsWellNamed root
      → adds state next root ≡ ok t
      → IsWellNamed t
  unfolding add_paths IsProper
  add_paths-IsWellNamed [] next root t b h e = let same : root ≡ t = ground arith in rw (← same) h
  add_paths-IsWellNamed ((p, digest) ∷ ps) next root t b h e =
      let (sum, f, done, rest) = add_paths-cons p digest ps next root t e in
      let v = val_at p sum in
      let d = file_set next p v root in
      add_paths-IsWellNamed ps d.next d.node t b.1
        (set-IsProper IsLineName HasBytes no_val (suc next) p (file next v) root done
          (split-IsLineName p b.0)
          (rw (sum-file_val (size_of (content_path p) sizes) sum)
            (decode_string-AreBytes digest sum f))
          h)
        rest

  -- The tree of a state, before its directories have digests.
  abbrev pub raw_tree : List (Str × Str) → Result BuildErr (Node IndexingVal)
  raw_tree state = adds state 1 (dir 0 no_val end)

  pub path_tree-raw :
      (state : List (Str × Str)) (t : Node IndexingVal)
      → path_tree hash content_path sizes (some state) ≡ ok t
      → (root : Node IndexingVal) × (raw_tree state ≡ ok root)
        × (t ≡ complete hash content_path sizes root)
  unfolding path_tree
  path_tree-raw state t e = elim (Result-cases (raw_tree state)) [
    | inr (inl (x, failed)) ↦ cc (rw (failed, path_tree) at e)
    | inr (inr failed) ↦ cc (rw (failed, path_tree) at e)
    | inl (root, built) ↦ let e' = rw (built, path_tree) at e in (root, built, ground arith)
  ]

  complete-HasListing :
      (k : Listing) (root : Node IndexingVal)
      → HasListing k (dir_digests hash root)
      → HasListing k (complete hash content_path sizes root)
  unfolding complete
  complete-HasListing k root h = elim (Bool-cases (has_sizes sizes)) [
    | inl e ↦ rw e (dir_sizes-HasListing k (dir_digests hash root) h)
    | inr e ↦ rw e h
  ]

  -- Let PathTree build a tree for a version state, for any content paths and sizes. If no logical
  -- path of the state has a line break, and the digest of each directory of its tree is one of bytes
  -- and comes from no other listing, then what the listing behind the digest of a directory, read
  -- line by line, says of a name is what the directory has under that name in the tree: nothing, or
  -- a node of that kind and digest.
  pub path_tree-HasListing :
      (unhash : List ℕ → Str) (state : List (Str × Str)) (t : Node IndexingVal)
      → NoBreaks state
      → ((root : Node IndexingVal) → raw_tree state ≡ ok root → Reads hash unhash root)
      → path_tree hash content_path sizes (some state) ≡ ok t
      → HasListing (read_with unhash) t
  unfolding IsProper
  path_tree-HasListing unhash state t b r e =
      let (root, built, same) = path_tree-raw state t e in
      rw same (
        complete-HasListing (read_with unhash) root (
          dir_digests-HasListing hash unhash root
            (add_paths-IsWellNamed state 1 (dir 0 no_val end) root b tt built) (r root built)))

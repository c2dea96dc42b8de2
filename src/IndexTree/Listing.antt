-- ===== src/IndexTree/Listing.antt =====
-- The listing of a directory that dirDigests of internal/index/pathtree.go hashes, read back: its
-- lines, and what they say of a name. `unhash` stands for the texts that the digests at hand come
-- from.
pub mod Lines
pub mod Found
pub mod Digests
pub mod Sized
pub mod Mapped
pub mod Built
pub mod Contents
use ocfl_index.Base.{
  ℕ, ◌<◌, ◌≡◌, Bool, true, false, not, ◌&&◌, Option, none, some, List, [], ◌∷◌, ◌==◌, if◌then◌else◌,
  All,
}
use ocfl_index.Text.{Str, slash, str_eq}
use ocfl_index.Text.Paths.{valid_elem}
use ocfl_index.Text.Paths.Laws.{no_slash}
use ocfl_index.Paging.{sort_by}
use ocfl_index.PathTree.{Node, file, dir, Entries, end, entry, find}
use ocfl_index.PathTree.Named.{IsProper, AreProper}
use ocfl_index.IndexTree.{IndexingVal, name_of, concat_lines, digest_lines}
use ocfl_index.IndexTree.Build.{decode_string}

-- The kind of a node, directory or file, with its digest.
abbrev pub Key : Type 0
Key = Bool × List ℕ

abbrev pub node_key : Node IndexingVal → Key
node_key (file a v) = (false, v.sum)
node_key (dir a v es) = (true, v.sum)

-- What the directory with a digest has under a name.
abbrev pub Listing : Type 0
Listing = List ℕ → Str → Option Key

abbrev pub IsPlainName : Str → Type 0
IsPlainName n = (valid_elem n ≡ true) × (no_slash n ≡ true)

-- The directories of a tree hold what their digests stand for, under names that are path elements.
unfoldable mutual
  pub HasListing : Listing → Node IndexingVal → Type 0
  HasListing k (file a v) = Unit {0}
  HasListing k (dir a v es) = Lists k v.sum es × ((n : Str) → find n es ≡ none → k v.sum n ≡ none)

  pub Lists : Listing → List ℕ → Entries IndexingVal → Type 0
  Lists k s end = Unit {0}
  Lists k s (entry n ch es) =
      (k s n ≡ some (node_key ch)) × IsPlainName n × HasListing k ch × Lists k s es

-- The lines of a text.
add_char : ℕ → List Str → List Str
add_char c [] = (c ∷ []) ∷ []
add_char c (l ∷ ls) = (c ∷ l) ∷ ls

unfoldable pub lines : Str → List Str
unfolding add_char
lines [] = []
lines (c ∷ s) = let rest = lines s in if c == 10 then [] ∷ rest else add_char c rest

-- What stands before the first space, and what stands after it.
unfoldable pub cut_space : Str → Str × Str
cut_space [] = ([], [])
cut_space (c ∷ s) = let r = cut_space s in if c == b' ' then ([], s) else (c ∷ r.0, r.1)

-- A name without a slash at its end, and whether it has one.
unfoldable pub cut_slash : Str → Str × Bool
cut_slash [] = ([], false)
cut_slash (c ∷ []) = if c == slash then ([], true) else (c ∷ [], false)
cut_slash (c ∷ d ∷ s) = let r = cut_slash (d ∷ s) in (c ∷ r.0, r.1)

line_key : Bool → Option (List ℕ) → Option Key
line_key d none = none
line_key d (some s) = some (d, s)

-- What a listing has under a name.
unfoldable pub look_up : Str → List Str → Option Key
unfolding cut_space cut_slash decode_string line_key
look_up n [] = none
look_up n (l ∷ ls) =
    let shown = cut_slash (cut_space l).1 in
    if str_eq shown.0 n then line_key shown.1 (decode_string (cut_space l).0) else look_up n ls

unfoldable pub read_with : (List ℕ → Str) → Listing
unfolding look_up lines
read_with unhash s n = look_up n (lines (unhash s))

abbrev pub AreBytes : List ℕ → Type 0
AreBytes = All (λ b. b < 256)

-- A line break would end the line.
unfoldable pub no_break : Str → Bool
no_break [] = true
no_break (c ∷ s) = not (c == 10) && no_break s

-- A name that a line can show.
abbrev pub IsLineName : Str → Type 0
IsLineName n = IsPlainName n × (no_break n ≡ true)

abbrev pub HasBytes : IndexingVal → Type 0
HasBytes v = AreBytes v.sum

-- The names of each directory are distinct path elements without line breaks, and the digests of
-- files are bytes.
abbrev pub IsWellNamed : Node IndexingVal → Type 0
IsWellNamed = IsProper IsLineName HasBytes

abbrev pub AreWellNamed : Entries IndexingVal → Type 0
AreWellNamed = AreProper IsLineName HasBytes

module _ (hash : Str → List ℕ) (unhash : List ℕ → Str) where
  -- The listing that dirDigests hashes for a directory.
  abbrev pub hashed_listing : Entries IndexingVal → Str
  hashed_listing es = concat_lines (sort_by (name_of {A = Str}) (digest_lines hash es))

  -- The digest of each directory of the tree is one of bytes, and comes from no other text.
  unfoldable mutual
    pub Reads : Node IndexingVal → Type 0
    Reads (file a v) = Unit {0}
    Reads (dir a v es) =
        (unhash (hash (hashed_listing es)) ≡ hashed_listing es)
        × AreBytes (hash (hashed_listing es))
        × ReadsAll es

    pub ReadsAll : Entries IndexingVal → Type 0
    ReadsAll end = Unit {0}
    ReadsAll (entry n ch es) = Reads ch × ReadsAll es

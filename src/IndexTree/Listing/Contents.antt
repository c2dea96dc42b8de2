-- ===== src/IndexTree/Listing/Contents.antt =====
-- The tree that PathTree builds for a version state, and the files of the state.
use ocfl_index.Base.{
  ℕ, suc, ◌≡◌, refl, ◌∙◌, some, List, [], ◌∷◌, arith, All, inl, inr, ok, Bool-cases,
}
use ocfl_index.Text.{Str}
use ocfl_index.Text.Paths.{split}
use ocfl_index.Text.Paths.Valid.{IsPlain}
use ocfl_index.PathTree.{Node, file, dir, end, get}
use ocfl_index.PathTree.Pointers.{Apart}
use ocfl_index.PathTree.SetGet.{get-set, get-set-Apart}
use ocfl_index.PathTree.Named.{set_ok-Unrelated}
use ocfl_index.IndexTree.{IndexingVal, no_val, dir_digests}
use ocfl_index.IndexTree.Build.{
  decode_string, size_of, file_val, add_paths, has_sizes, complete, path_tree,
}
use ocfl_index.IndexTree.Listing.Built.{val_at, file_set, adds, add_paths-cons, path_tree-raw}
use ocfl_index.IndexTree.Listing.Mapped.{get-dir_sizes, get-dir_digests}

-- The paths of a state: none is "." or leads through another.
abbrev pub AreApart : List (Str × Str) → Type 0
AreApart [] = Unit {0}
AreApart (p ∷ ps) =
    IsPlain p.0 × All (λ q. IsPlain q.0 × Apart (split q.0) (split p.0)) ps × AreApart ps

module _ (content_path : Str → Str) (sizes : List (Str × ℕ)) where
  -- A tree has a file at a logical path, with its digest, and with the size of its content or none.
  abbrev pub HasFile : Node IndexingVal → Str × Str → Type 0
  HasFile t p =
      (sum : List ℕ) × (a : ℕ) × (decode_string p.1 ≡ some sum)
      × (get p.0 t ≡ ok (file a (file_val (size_of (content_path p.0) sizes) sum)))

module _ (hash : Str → List ℕ) (content_path : Str → Str) (sizes : List (Str × ℕ)) where
  abbrev value : Str → List ℕ → IndexingVal
  value = val_at hash content_path sizes

  other_paths :
      (p : Str) (ps : List (Str × Str)) (next : ℕ) (root t : Node IndexingVal)
      → IsPlain p
      → All (λ q. IsPlain q.0 × Apart (split q.0) (split p)) ps
      → adds hash content_path sizes ps next root ≡ ok t
      → get p t ≡ get p root
  unfolding add_paths
  other_paths p [] next root t h apart e = let same : root ≡ t = ground arith in rw same refl
  other_paths p ((q, digest) ∷ ps) next root t h apart e =
      let (sum, f, done, rest) = add_paths-cons hash content_path sizes q digest ps next root t e in
      let d = file_set next q (value q sum) root in
      let new = file next (value q sum) in
      let (plain, from_p) = apart.0 in
      other_paths p ps d.next d.node t h apart.1 rest
      ∙ get-set-Apart no_val (suc next) q p new root plain h
          (set_ok-Unrelated no_val (suc next) q new root plain done) from_p

  add_paths-get :
      (state : List (Str × Str)) (next : ℕ) (root t : Node IndexingVal)
      → AreApart state
      → adds hash content_path sizes state next root ≡ ok t
      → All (HasFile content_path sizes t) state
  add_paths-get [] next root t h e = tt
  add_paths-get ((p, digest) ∷ ps) next root t h e =
      let (sum, f, done, rest) = add_paths-cons hash content_path sizes p digest ps next root t e in
      let d = file_set next p (value p sum) root in
      let new = file next (value p sum) in
      (
        (
          sum,
          next,
          f,
          other_paths p ps d.next d.node t h.0 h.1 rest
              ∙ get-set no_val (suc next) p new root h.0
                  (set_ok-Unrelated no_val (suc next) p new root h.0 done) done,
        ),
        add_paths-get ps d.next d.node t h.2 rest,
      )

  get-complete :
      (p : Str) (root : Node IndexingVal) (a : ℕ) (v : IndexingVal)
      → IsPlain p
      → get p root ≡ ok (file a v)
      → get p (complete hash content_path sizes root) ≡ ok (file a v)
  unfolding complete
  get-complete p root a v h g =
      let digested = get-dir_digests hash p root a v h g in
      elim (Bool-cases (has_sizes sizes)) [
        | inl e ↦ rw e (get-dir_sizes p (dir_digests hash root) a v h digested)
        | inr e ↦ rw e digested
      ]

  complete-HasFile :
      (root : Node IndexingVal) (ps : List (Str × Str))
      → AreApart ps
      → All (HasFile content_path sizes root) ps
      → All (HasFile content_path sizes (complete hash content_path sizes root)) ps
  complete-HasFile root [] h k = tt
  complete-HasFile root (p ∷ ps) h k =
      let (sum, a, f, e) = k.0 in
      ((sum, a, f, get-complete p.0 root a (value p.0 sum) h.0 e), complete-HasFile root ps h.2 k.1)

  -- For a version state whose logical paths are apart, each valid and not ".", the tree that
  -- PathTree builds, when it builds one, has at each logical path a file with the path's digest. The
  -- file has the size that the given sizes have for its content path, and no size if they have none.
  pub path_tree-get :
      (state : List (Str × Str)) (t : Node IndexingVal)
      → AreApart state
      → path_tree hash content_path sizes (some state) ≡ ok t
      → All (HasFile content_path sizes t) state
  path_tree-get state t h e =
      let (root, built, same) = path_tree-raw hash content_path sizes state t e in
      rw same
        (complete-HasFile root state h (add_paths-get state 1 (dir 0 no_val end) root h built))

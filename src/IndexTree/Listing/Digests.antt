-- ===== src/IndexTree/Listing/Digests.antt =====
-- The digests that dirDigests gives, and the children that they stand for.
use ocfl_index.Base.{ℕ, ◌≡◌, refl, ap, ◌∙◌, none, some, List, arith, Bool-cases, inl, inr}
use mathlib.Core.Option
use ocfl_index.Text.{Str, str_eq, str_eq→eq, str_eq_refl}
use ocfl_index.PathTree.{Node, file, dir, Entries, end, entry, find}
use ocfl_index.PathTree.Named.{IsProper, AreProper}
use ocfl_index.IndexTree.{IndexingVal, dir_digests, digest_entries}
use ocfl_index.IndexTree.Listing.{
  node_key, HasListing, Lists, read_with, IsWellNamed, AreWellNamed, hashed_listing, Reads,
  ReadsAll,
}
-- The first key with a name.
use ocfl_index.IndexTree.Listing.Found.{read_with-find}

module _ (hash : Str → List ℕ) (unhash : List ℕ → Str) where
  -- The digest of a directory stands at least for these children.
  abbrev Covers : List ℕ → Entries IndexingVal → Type 0
  Covers s es =
      (m : Str) (ch : Node IndexingVal)
      → find m es ≡ some ch
      → read_with unhash s m ≡ some (node_key ch)

  Covers-rest :
      (s : List ℕ) (n : Str) (c : Node IndexingVal) (es : Entries IndexingVal)
      → find n es ≡ none
      → Covers s (entry n c es)
      → Covers s es
  unfolding find
  Covers-rest s n c es new covers m ch e = elim (Bool-cases (str_eq n m)) [
    | inr f ↦ covers m ch (rw f e)
    | inl f ↦ cc (rw (str_eq→eq n m f) at new)
  ]

  missing_below :
      (n : Str) (es : Entries IndexingVal)
      → find n es ≡ none
      → find n (digest_entries hash es) ≡ none
  unfolding find digest_entries
  missing_below n end h = refl
  missing_below n (entry m ch es) h = ground (arith, missing_below n es)

  found_first :
      (n : Str) (c : Node IndexingVal) (es : Entries IndexingVal) → find n (entry n c es) ≡ some c
  unfolding find
  found_first n c es = rw (str_eq_refl n) refl

  mutual
    unfolding dir_digests digest_entries HasListing Lists IsProper AreProper Reads ReadsAll

    pub dir_digests-HasListing :
        (t : Node IndexingVal)
        → IsWellNamed t
        → Reads hash unhash t
        → HasListing (read_with unhash) (dir_digests hash t)
    dir_digests-HasListing (file a v) h r = tt
    dir_digests-HasListing (dir a v es) h r = (
      digest_entries-Lists es (hash (hashed_listing hash unhash es)) h r.2
          (λ m ch e. read_with-find hash unhash es m h r.2 r.0 ∙ ap (Option.map node_key) e),
      λ m e. read_with-find hash unhash es m h r.2 r.0 ∙ ap (Option.map node_key) e,
    )

    digest_entries-Lists :
        (es : Entries IndexingVal) (s : List ℕ)
        → AreWellNamed es
        → ReadsAll hash unhash es
        → Covers s (digest_entries hash es)
        → Lists (read_with unhash) s (digest_entries hash es)
    digest_entries-Lists end s h r covers = tt
    digest_entries-Lists (entry n ch es) s h r covers = (
      covers n (dir_digests hash ch) (found_first n (dir_digests hash ch) (digest_entries hash es)),
      h.1.0,
      dir_digests-HasListing ch h.2 r.0,
      digest_entries-Lists es s h.3 r.1 (
          Covers-rest s n (dir_digests hash ch) (digest_entries hash es) (missing_below n es h.0)
            covers),
    )

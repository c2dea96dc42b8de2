-- ===== src/IndexTree/Listing/Sized.antt =====
-- Sizes, and what the digests of a tree stand for.
use ocfl_index.Base.{ℕ, ◌≡◌, refl, ap, Bool, true, false, none, List, arith}
use mathlib.Core.Option
use ocfl_index.Text.{Str}
use ocfl_index.PathTree.{Node, file, dir, Entries, end, entry, find}
use ocfl_index.IndexTree.{IndexingVal, sized, dir_sizes, size_entries, all_sized, total_size}
use ocfl_index.IndexTree.Listing.{Listing, node_key, HasListing, Lists}

sum-sized : (v : IndexingVal) (b : Bool) (n : ℕ) → (sized v b n).sum ≡ v.sum
unfolding sized
sum-sized v true n = refl
sum-sized v false n = refl

node_key-dir_sizes : (t : Node IndexingVal) → node_key (dir_sizes t) ≡ node_key t
unfolding dir_sizes
node_key-dir_sizes (file a v) = refl
node_key-dir_sizes (dir a v es) = ap (λ s. (true, s)) (sum-sized v (all_sized es) (total_size es))

pub find-size_entries :
    (n : Str) (es : Entries IndexingVal)
    → find n (size_entries es) ≡ Option.map dir_sizes (find n es)
unfolding find size_entries
find-size_entries n end = refl
find-size_entries n (entry m ch es) = ground (arith, find-size_entries n es)

no_more : (n : Str) (es : Entries IndexingVal) → find n (size_entries es) ≡ none → find n es ≡ none
unfolding find size_entries
no_more n end h = refl
no_more n (entry m ch es) h = ground (arith, no_more n es)

mutual
  unfolding dir_sizes size_entries HasListing Lists

  pub dir_sizes-HasListing :
      (k : Listing) (t : Node IndexingVal) → HasListing k t → HasListing k (dir_sizes t)
  dir_sizes-HasListing k (file a v) h = tt
  dir_sizes-HasListing k (dir a v es) h =
      let same = sum-sized v (all_sized es) (total_size es) in
      (rw same (size_entries-Lists k v.sum es h.0), λ n e. rw same (h.1 n (no_more n es e)))

  size_entries-Lists :
      (k : Listing) (s : List ℕ) (es : Entries IndexingVal)
      → Lists k s es
      → Lists k s (size_entries es)
  size_entries-Lists k s end h = tt
  size_entries-Lists k s (entry n ch es) h = (
    rw (node_key-dir_sizes ch) h.0,
    h.1,
    dir_sizes-HasListing k ch h.2,
    size_entries-Lists k s es h.3,
  )

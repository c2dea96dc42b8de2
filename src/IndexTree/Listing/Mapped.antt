-- ===== src/IndexTree/Listing/Mapped.antt =====
-- What Get finds once dirDigests and dirSizes have changed the directories of a tree.
use ocfl_index.Base.{
  ℕ, ◌≡◌, refl, sym, ap, ◌∙◌, Option, none, some, List, [], ◌∷◌, arith, Option-cases, inl, inr, ok,
}
use mathlib.Core.Option
use ocfl_index.Text.{Str}
use ocfl_index.Text.Paths.{split}
use ocfl_index.Text.Paths.Valid.{IsPlain}
use ocfl_index.PathTree.{Node, file, dir, Entries, end, entry, find, child, at, get}
use ocfl_index.PathTree.Segments.{found}
use ocfl_index.PathTree.Located.{get-plain}
use ocfl_index.IndexTree.{
  IndexingVal, dir_digests, digest_entries, dir_sizes, size_entries, sized, all_sized, total_size,
}
use ocfl_index.IndexTree.Listing.{hashed_listing}
use ocfl_index.IndexTree.Listing.Sized.{find-size_entries}

module _ (change : Node IndexingVal → Node IndexingVal)
    (change_all : Entries IndexingVal → Entries IndexingVal)
    (new_val : IndexingVal → Entries IndexingVal → IndexingVal)
    (on_file : (a : ℕ) (v : IndexingVal) → change (file a v) ≡ file a v)
    (on_dir : (a : ℕ) (v : IndexingVal) (es : Entries IndexingVal)
      → change (dir a v es) ≡ dir a (new_val v es) (change_all es))
    (on_entries : (n : Str) (es : Entries IndexingVal)
      → find n (change_all es) ≡ Option.map change (find n es)) where
  at_changed :
      (ns : List Str) (t : Node IndexingVal) → at ns (change t) ≡ Option.map change (at ns t)
  unfolding at child
  at_changed [] t = refl
  at_changed (n ∷ ns) (file a v) = rw (on_file a v) refl
  at_changed (n ∷ ns) (dir a v es) = rw (on_dir a v es) (elim (Option-cases (find n es)) [
    | inl e ↦ let e' = on_entries n es ∙ ap (Option.map change) e in rw (e, e', at) refl
    | inr (ch, e) ↦
        let e' = on_entries n es ∙ ap (Option.map change) e in rw (e, e', at) (at_changed ns ch)
  ])

  -- A file stays where it is.
  get_changed :
      (p : Str) (t : Node IndexingVal) (a : ℕ) (v : IndexingVal)
      → IsPlain p
      → get p t ≡ ok (file a v)
      → get p (change t) ≡ ok (file a v)
  get_changed p t a v h g = by_place (at (split p) t) refl
    where
      by_place :
          (o : Option (Node IndexingVal)) → at (split p) t ≡ o → get p (change t) ≡ ok (file a v)
      by_place none e = cc (get-plain p t h, ap found e)
      by_place (some c) e =
          let same : c ≡ file a v = ground (arith, sym (ap found e) ∙ sym (get-plain p t h) ∙ g) in
          get-plain p (change t) h
          ∙ ap found (at_changed (split p) t ∙ ap (Option.map change) e)
          ∙ rw (same, on_file a v) refl

pub get-dir_sizes :
    (p : Str) (t : Node IndexingVal) (a : ℕ) (v : IndexingVal)
    → IsPlain p
    → get p t ≡ ok (file a v)
    → get p (dir_sizes t) ≡ ok (file a v)
unfolding dir_sizes
get-dir_sizes p t a v h g =
    get_changed dir_sizes size_entries (λ v es. sized v (all_sized es) (total_size es))
      (λ a v. refl) (λ a v es. refl) find-size_entries p t a v h g

module _ (hash : Str → List ℕ) where
  find-digest_entries :
      (n : Str) (es : Entries IndexingVal)
      → find n (digest_entries hash es) ≡ Option.map (dir_digests hash) (find n es)
  unfolding find digest_entries
  find-digest_entries n end = refl
  find-digest_entries n (entry m ch es) = ground (arith, find-digest_entries n es)

  pub get-dir_digests :
      (p : Str) (t : Node IndexingVal) (a : ℕ) (v : IndexingVal)
      → IsPlain p
      → get p t ≡ ok (file a v)
      → get p (dir_digests hash t) ≡ ok (file a v)
  unfolding dir_digests
  get-dir_digests p t a v h g =
      get_changed (dir_digests hash) (digest_entries hash)
        (λ v es. record v { sum = hash (hashed_listing hash (λ s. s) es) }) (λ a v. refl)
        (λ a v es. refl) find-digest_entries p t a v h g

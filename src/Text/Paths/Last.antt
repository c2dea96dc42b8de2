-- ===== src/Text/Paths/Last.antt =====
-- The base of a path is its last element.
use ocfl_index.Base.{ℕ, ◌≡◌, refl, sym, ap, ◌∙◌, Bool, true, false, List, [], ◌∷◌, arith}
use ocfl_index.Text.{Str, str_eq}
use ocfl_index.Text.Paths.{
  split, join, valid_elem, valid_elems, path_base, or_slash, strip_slashes, cons_stripped,
  cons_split,
}
use ocfl_index.Text.Paths.Laws.{last, split-cons, split_last_lem, split_step, join-split}

last-valid_elem :
    (w : Str) (ws : List Str) → valid_elems (w ∷ ws) ≡ true → valid_elem (last (w ∷ ws)) ≡ true
unfolding valid_elems
last-valid_elem w [] h = ground arith
last-valid_elem w (v ∷ ws) h = last-valid_elem v ws (ground arith)

abbrev is_nil : Str → Bool
is_nil [] = true
is_nil (c ∷ w) = false

last-cons_split :
    (c d : ℕ) (p w : Str) (ws : List Str)
    → join (w ∷ ws) ≡ d ∷ p
    → is_nil (last (cons_split c (w ∷ ws))) ≡ false
    → is_nil (last (w ∷ ws)) ≡ false
unfolding join
last-cons_split c d p [] [] e h = cc
last-cons_split c d p (x ∷ w) [] e h = refl
last-cons_split c d p w (v ∷ ws) e h = ground arith

last_tail :
    (c d : ℕ) (p : Str)
    → is_nil (last (split (c ∷ d ∷ p))) ≡ false
    → is_nil (last (split (d ∷ p))) ≡ false
last_tail c d p h = rw (split-cons (d ∷ p)) (
    last-cons_split c d p _ _ (ap join (sym (split-cons (d ∷ p))) ∙ join-split (d ∷ p))
      (rw (split_step c (d ∷ p), split-cons (d ∷ p)) at h))

strip_slashes_lem : (p : Str) → is_nil (last (split p)) ≡ false → strip_slashes p ≡ p
unfolding strip_slashes
strip_slashes_lem [] h = unfold split in cc
strip_slashes_lem (c ∷ []) h = unfold split in ground arith
strip_slashes_lem (c ∷ d ∷ p) h =
    ap (cons_stripped c) (strip_slashes_lem (d ∷ p) (last_tail c d p h))

or_slash_lem : (w : Str) → is_nil w ≡ false → or_slash w ≡ w
unfolding or_slash
or_slash_lem [] h = cc
or_slash_lem (c ∷ w) h = refl

is_nil_valid : (w : Str) → valid_elem w ≡ true → is_nil w ≡ false
unfolding valid_elem str_eq
is_nil_valid [] h = ground arith
is_nil_valid (c ∷ w) h = refl

last-split_valid : (p : Str) → valid_elems (split p) ≡ true → is_nil (last (split p)) ≡ false
last-split_valid p h =
    is_nil_valid (last (split p)) (rw (split-cons p) (last-valid_elem _ _ (rw (split-cons p) at h)))

-- The last element of a path with valid elements.
pub path_base_lem : (p : Str) → valid_elems (split p) ≡ true → path_base p ≡ last (split p)
unfolding path_base
path_base_lem [] h = unfold split valid_elems valid_elem str_eq in ground arith
path_base_lem (c ∷ p) h =
    let full = last-split_valid (c ∷ p) h in
    rw (strip_slashes_lem (c ∷ p) full, split_last_lem (c ∷ p))
      (or_slash_lem (last (split (c ∷ p))) full)

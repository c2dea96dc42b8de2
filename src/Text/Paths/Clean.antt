-- ===== src/Text/Paths/Clean.antt =====
-- path.Clean of a path that is clean.
use ocfl_index.Base.{◌≡◌, refl, sym, ap, ◌∙◌, Bool, true, false, List, [], ◌∷◌, ◌++◌, arith}
use mathlib.Core.List.{reverse, append-nil}
use ocfl_index.Text.{Str, str_eq}
use ocfl_index.Text.Paths.{
  clean, clean_elems, is_rooted, or_dot, split, join, valid_elem, valid_elems,
}
use ocfl_index.Text.Paths.Laws.{
  no_slashes, split-no_slashes, split-cons, join-split, reverse_push, clean_step_valid,
}
use ocfl_index.Text.Paths.Valid.{IsPlain, IsPlain-valid_elems}

kept_elems :
    (r : Bool) (st ws : List Str)
    → valid_elems ws ≡ true
    → reverse (clean_elems r st ws) ≡ reverse st ++ ws
unfolding clean_elems valid_elems
kept_elems r st [] h = sym (append-nil (reverse st))
kept_elems r st (w ∷ ws) h =
    rw (clean_step_valid r st w (ground arith), clean_elems)
      (kept_elems r (w ∷ st) ws (ground arith) ∙ reverse_push st ws w)

joined_head :
    (w : Str) (ws : List Str)
    → valid_elems (w ∷ ws) ≡ true
    → no_slashes (w ∷ ws) ≡ true
    → (is_rooted (join (w ∷ ws)) ≡ false) × (or_dot (join (w ∷ ws)) ≡ join (w ∷ ws))
unfolding is_rooted or_dot join valid_elems valid_elem str_eq
joined_head [] ws h k = ground arith
joined_head (c ∷ w) [] h k = (ground arith, refl)
joined_head (c ∷ w) (v ∷ ws) h k = (ground arith, refl)

clean-join :
    (p w : Str) (ws : List Str)
    → split p ≡ w ∷ ws
    → p ≡ join (w ∷ ws)
    → valid_elems (w ∷ ws) ≡ true
    → no_slashes (w ∷ ws) ≡ true
    → clean p ≡ p
unfolding clean
clean-join p w ws s j h k =
    let (rooted, kept) = joined_head w ws h k in
    rw (ap is_rooted j ∙ rooted, s, kept_elems false [] (w ∷ ws) h) (kept ∙ sym j)

pub clean-plain : (p : Str) → IsPlain p → clean p ≡ p
clean-plain p h =
    let cons = split-cons p in
    clean-join p _ _ cons (sym (join-split p) ∙ ap join cons) (rw cons at (IsPlain-valid_elems h))
      (rw cons at (split-no_slashes p))

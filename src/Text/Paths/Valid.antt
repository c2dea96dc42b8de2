-- ===== src/Text/Paths/Valid.antt =====
-- Valid paths other than ".", and their directories.
use ocfl_index.Base.{
  ◌≡◌, refl, sym, ap, ◌∙◌, true, false, List, [], ◌∷◌, ◌++◌, arith, if◌then◌else◌, Bool-cases, inl,
  inr,
}
use mathlib.Core.List.{append_assoc}
use ocfl_index.Text.{Str, slash, str_eq, str_eq→eq, valid_utf8}
use ocfl_index.Text.Utf8.{valid_utf8-prefix}
use ocfl_index.Text.Paths.{dot, split, join, valid_elem, valid_elems, valid_path, path_dir}
use ocfl_index.Text.Paths.Laws.{
  init, last, dir_of, split-join, join-split, split-no_slashes, init-valid_elems, init-no_slashes,
  path_dir_lem, no_slashes,
}

pub record IsPlain (p : Str) : Type 0 where
  pub valid : valid_path p ≡ true
  pub plain : str_eq p dot ≡ false

abbrev pub pointer_to : Str → List Str
pointer_to p = if str_eq p dot then [] else split p

-- A valid path is "." or has valid elements alone.
pub IsPlain-valid_elems : {p : Str} → IsPlain p → valid_elems (split p) ≡ true
unfolding valid_path
IsPlain-valid_elems h = ground arith

pub IsPlain-valid_utf8 : {p : Str} → IsPlain p → valid_utf8 p ≡ true
unfolding valid_path
IsPlain-valid_utf8 h = ground arith

dot_not_valid : valid_elems (split dot) ≡ false
unfolding valid_elems split valid_elem str_eq
dot_not_valid = refl

not_dot : (p : Str) → valid_elems (split p) ≡ true → str_eq p dot ≡ false
not_dot p h = elim (Bool-cases (str_eq p dot)) [
  | inl e ↦ cc (rw (str_eq→eq p dot e) at h, dot_not_valid)
  | inr e ↦ e
]

join-init :
    (w v : Str) (ws : List Str)
    → join (w ∷ v ∷ ws) ≡ join (init (w ∷ v ∷ ws)) ++ (slash ∷ last (v ∷ ws))
unfolding join
join-init w v [] = refl
join-init w v (u ∷ ws) =
    ap (λ r. w ++ (slash ∷ r)) (join-init v u ws)
    ∙ sym (append_assoc w (slash ∷ join (init (v ∷ u ∷ ws))) _)

dot_lem : (valid_path dot ≡ true) × (pointer_to dot ≡ [])
unfolding valid_path valid_utf8 str_eq
dot_lem = (refl, refl)

valid_of_elems :
    (w : Str) (ws : List Str)
    → valid_utf8 (join (w ∷ ws)) ≡ true
    → valid_elems (w ∷ ws) ≡ true
    → no_slashes (w ∷ ws) ≡ true
    → (valid_path (join (w ∷ ws)) ≡ true) × (pointer_to (join (w ∷ ws)) ≡ w ∷ ws)
unfolding valid_path
valid_of_elems w ws u v n =
    let s = split-join w ws n in
    let p = not_dot (join (w ∷ ws)) (rw s v) in (rw (u, p, s) v, rw p s)

dir_of-valid :
    (ws : List Str)
    → valid_utf8 (join ws) ≡ true
    → valid_elems ws ≡ true
    → no_slashes ws ≡ true
    → (valid_path (dir_of (init ws)) ≡ true) × (pointer_to (dir_of (init ws)) ≡ init ws)
dir_of-valid [] u v n = dot_lem
dir_of-valid (w ∷ []) u v n = dot_lem
dir_of-valid (w ∷ x ∷ ws) u v n =
    valid_of_elems w (init (x ∷ ws))
      (valid_utf8-prefix _ (last (x ∷ ws)) (rw (← join-init w x ws) u))
      (init-valid_elems (w ∷ x ∷ ws) v) (init-no_slashes (w ∷ x ∷ ws) n)

-- The directory of a plain path is valid, and points to the elements before the last.
pub path_dir-valid :
    (p : Str)
    → IsPlain p
    → (valid_path (path_dir p) ≡ true) × (pointer_to (path_dir p) ≡ init (split p))
path_dir-valid p h = rw (path_dir_lem p (IsPlain-valid_elems h)) (
    dir_of-valid (split p) (rw (join-split p) (IsPlain-valid_utf8 h)) (IsPlain-valid_elems h)
      (split-no_slashes p))

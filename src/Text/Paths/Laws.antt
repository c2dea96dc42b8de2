-- ===== src/Text/Paths/Laws.antt =====
-- What the path functions do in terms of a path's elements.
use ocfl_index.Base.{
  ℕ, ◌<◌, ◌≡◌, refl, sym, ap, ◌∙◌, Bool, true, false, not, ◌&&◌, List, [], ◌∷◌, ◌++◌, arith, ◌==◌,
  if◌then◌else◌, length, Bool-cases, inl, inr,
}
use mathlib.Core.List.{reverse, append-nil, append_assoc, reverse-append}
use ocfl_index.Text.{Str, slash, str_eq}
use ocfl_index.Text.Paths.{
  dot, Cut, cut, split, join, valid_elem, valid_elems, clean_elems, clean_step, clean, split_last,
  path_dir, is_rooted, or_dot, cons_split, cons_last,
}

-- All elements but the last, and the last.
abbrev pub init : List Str → List Str
init [] = []
init (w ∷ []) = []
init (w ∷ v ∷ ws) = w ∷ init (v ∷ ws)

abbrev pub last : List Str → Str
last [] = []
last (w ∷ []) = w
last (w ∷ v ∷ ws) = last (v ∷ ws)

abbrev pub after_cut : Cut → List Str
after_cut k = if k.more then k.first ∷ split k.rest else k.first ∷ []

-- Cutting off one element at a time goes through the elements of `split`.
pub split-eq-after_cut : (p : Str) → split p ≡ after_cut (cut p)
unfolding cut split
split-eq-after_cut [] = refl
split-eq-after_cut (c ∷ p) = elim (Bool-cases (c == slash)) [
  | inl e ↦ rw e
  | inr e ↦ rw (e, split-eq-after_cut p) (ground arith)
]

pub cut-length : (p : Str) → (cut p).more ≡ true → length (cut p).rest < length p
unfolding cut
cut-length [] h = ground arith
cut-length (c ∷ p) h = ground (arith, cut-length p)

abbrev pub rest_of : Cut → List Str
rest_of k = if k.more then split k.rest else []

pub split-cons : (p : Str) → split p ≡ (cut p).first ∷ rest_of (cut p)
split-cons p = split-eq-after_cut p ∙ ground arith

abbrev pub no_slash : Str → Bool
no_slash [] = true
no_slash (c ∷ w) = not (c == slash) && no_slash w

abbrev pub no_slashes : List Str → Bool
no_slashes [] = true
no_slashes (w ∷ ws) = no_slash w && no_slashes ws

cons_split-no_slashes :
    (c : ℕ) (ws : List Str) → no_slashes ws ≡ true → no_slashes (cons_split c ws) ≡ true
cons_split-no_slashes c [] h = ground arith
cons_split-no_slashes c (w ∷ ws) h = ground arith

pub split-no_slashes : (p : Str) → no_slashes (split p) ≡ true
unfolding split
split-no_slashes [] = refl
split-no_slashes (c ∷ p) = cons_split-no_slashes c (split p) (split-no_slashes p)

split-append : (w q : Str) → no_slash w ≡ true → split (w ++ (slash ∷ q)) ≡ w ∷ split q
unfolding split
split-append [] q h = refl
split-append (c ∷ w) q h = rw (split-append w q (ground arith)) (ground arith)

split-plain : (w : Str) → no_slash w ≡ true → split w ≡ w ∷ []
unfolding split
split-plain [] h = refl
split-plain (c ∷ w) h = rw (split-plain w (ground arith)) (ground arith)

pub split-join :
    (w : Str) (ws : List Str) → no_slashes (w ∷ ws) ≡ true → split (join (w ∷ ws)) ≡ w ∷ ws
unfolding join
split-join w [] h = split-plain w (ground arith)
split-join w (v ∷ ws) h =
    split-append w (join (v ∷ ws)) (ground arith) ∙ ap (λ r. w ∷ r) (split-join v ws (ground arith))

-- Each element followed by a slash.
abbrev dirstr : List Str → Str
dirstr [] = []
dirstr (w ∷ ws) = w ++ (slash ∷ dirstr ws)

split-dirstr : (ws : List Str) → no_slashes ws ≡ true → split (dirstr ws) ≡ ws ++ ([] ∷ [])
split-dirstr [] h = unfold split in refl
split-dirstr (w ∷ ws) h =
    split-append w (dirstr ws) (ground arith) ∙ ap (λ r. w ∷ r) (split-dirstr ws (ground arith))

abbrev dir_and_base : List Str → Str × Str
dir_and_base ws = (dirstr (init ws), last ws)

cons_last-cons_split :
    (c : ℕ) (w : Str) (ws : List Str)
    → cons_last c (dir_and_base (w ∷ ws)) ≡ dir_and_base (cons_split c (w ∷ ws))
unfolding cons_last
cons_last-cons_split c w [] = ground arith
cons_last-cons_split c [] (v ∷ ws) = ground arith
cons_last-cons_split c (d ∷ w) (v ∷ ws) = ground arith

pub split_last_lem : (p : Str) → split_last p ≡ dir_and_base (split p)
unfolding split_last
split_last_lem [] = unfold split in refl
split_last_lem (c ∷ p) =
    rw (split_last_lem p, split-cons p)
      (cons_last-cons_split c _ _
        ∙ ap (λ ws. dir_and_base (cons_split c ws)) (sym (split-cons p))
        ∙ (unfold split in refl))

pub split_step : (c : ℕ) (p : Str) → split (c ∷ p) ≡ cons_split c (split p)
unfolding split
split_step c p = refl

join-cons_split :
    (c : ℕ) (w : Str) (ws : List Str) → join (cons_split c (w ∷ ws)) ≡ c ∷ join (w ∷ ws)
unfolding join
join-cons_split c w [] = ground arith
join-cons_split c w (v ∷ ws) = ground arith

pub join-split : (p : Str) → join (split p) ≡ p
join-split [] = unfold split join in refl
join-split (c ∷ p) =
    ap join (split_step c p)
    ∙ ap (λ ws. join (cons_split c ws)) (split-cons p)
    ∙ join-cons_split c _ _
    ∙ ap (λ ws. c ∷ join ws) (sym (split-cons p))
    ∙ ap (λ r. c ∷ r) (join-split p)

pub reverse_push : (st ws : List Str) (w : Str) → reverse (w ∷ st) ++ ws ≡ reverse st ++ (w ∷ ws)
reverse_push st ws w = rw (reverse-append (w ∷ []) st) (append_assoc (reverse st) (w ∷ []) ws)

pub clean_step_valid :
    (r : Bool) (st : List Str) (w : Str) → valid_elem w ≡ true → clean_step r st w ≡ w ∷ st
unfolding clean_step valid_elem
clean_step_valid r st w h = ground arith

clean_elems_lem :
    (r : Bool) (st ws : List Str)
    → valid_elems ws ≡ true
    → reverse (clean_elems r st (ws ++ ([] ∷ []))) ≡ reverse st ++ ws
unfolding clean_elems valid_elems
clean_elems_lem r st [] h = unfold clean_step str_eq in sym (append-nil (reverse st))
clean_elems_lem r st (w ∷ ws) h =
    rw (clean_step_valid r st w (ground arith), clean_elems)
      (clean_elems_lem r (w ∷ st) ws (ground arith) ∙ reverse_push st ws w)

plain_head :
    (w : Str) (ws : List Str)
    → valid_elems (w ∷ ws) ≡ true
    → no_slashes (w ∷ ws) ≡ true
    → (is_rooted (dirstr (w ∷ ws)) ≡ false) × (or_dot (join (w ∷ ws)) ≡ join (w ∷ ws))
unfolding is_rooted or_dot join valid_elems valid_elem str_eq
plain_head [] ws h k = ground arith
plain_head (c ∷ w) [] h k = (ground arith, refl)
plain_head (c ∷ w) (v ∷ ws) h k = (ground arith, refl)

clean-dirstr :
    (w : Str) (ws : List Str)
    → valid_elems (w ∷ ws) ≡ true
    → no_slashes (w ∷ ws) ≡ true
    → clean (dirstr (w ∷ ws)) ≡ join (w ∷ ws)
unfolding clean
clean-dirstr w ws h k =
    rw ((plain_head w ws h k).0, split-dirstr (w ∷ ws) k, clean_elems_lem false [] (w ∷ ws) h)
      (plain_head w ws h k).1

clean_nil : clean [] ≡ dot
unfolding clean str_eq
clean_nil = refl

abbrev pub dir_of : List Str → Str
dir_of [] = dot
dir_of (w ∷ ws) = join (w ∷ ws)

pub init-valid_elems : (ws : List Str) → valid_elems ws ≡ true → valid_elems (init ws) ≡ true
unfolding valid_elems
init-valid_elems [] h = refl
init-valid_elems (w ∷ []) h = refl
init-valid_elems (w ∷ v ∷ ws) h = ground (arith, init-valid_elems (v ∷ ws))

pub init-no_slashes : (ws : List Str) → no_slashes ws ≡ true → no_slashes (init ws) ≡ true
init-no_slashes [] h = refl
init-no_slashes (w ∷ []) h = refl
init-no_slashes (w ∷ v ∷ ws) h = ground (arith, init-no_slashes (v ∷ ws))

dir_of_lem :
    (ws : List Str) → valid_elems ws ≡ true → no_slashes ws ≡ true → clean (dirstr ws) ≡ dir_of ws
dir_of_lem [] h k = clean_nil
dir_of_lem (w ∷ ws) h k = clean-dirstr w ws h k

-- The directory of a path with valid elements: "." for a single one.
pub path_dir_lem : (p : Str) → valid_elems (split p) ≡ true → path_dir p ≡ dir_of (init (split p))
unfolding path_dir
path_dir_lem p h = rw (split_last_lem p) (
    dir_of_lem (init (split p)) (init-valid_elems (split p) h)
      (init-no_slashes (split p) (split-no_slashes p)))

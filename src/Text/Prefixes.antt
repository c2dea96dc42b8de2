-- ===== src/Text/Prefixes.antt =====
-- Prefixes of paths.
use ocfl_index.Base.{◌≡◌, refl, Bool, true, false, not, ◌&&◌, [], ◌∷◌, ◌++◌, ◌==◌, arith}
use mathlib.Core.List.{append_assoc}
use ocfl_index.Text.{Str, slash, str_eq, str_eq_iff, has_prefix}
use ocfl_index.Text.Paths.Laws.{no_slash}

pub has_prefix-append : (p t : Str) → has_prefix (p ++ t) p ≡ true
unfolding has_prefix
has_prefix-append [] t = refl
has_prefix-append (c ∷ p) t = ground (arith, has_prefix-append p t)

pub has_prefix-shorter : (p a b : Str) → has_prefix p (a ++ b) ≡ true → has_prefix p a ≡ true
unfolding has_prefix
has_prefix-shorter p [] b h = refl
has_prefix-shorter [] (d ∷ a) b h = h
has_prefix-shorter (c ∷ p) (d ∷ a) b h = ground (arith, has_prefix-shorter p a b)

pub str_eq-cancel : (a x y : Str) → str_eq (a ++ x) (a ++ y) ≡ str_eq x y
unfolding str_eq
str_eq-cancel [] x y = refl
str_eq-cancel (c ∷ a) x y = ground (arith, str_eq-cancel a x y)

pub has_prefix-cancel : (a x y : Str) → has_prefix (a ++ x) (a ++ y) ≡ has_prefix x y
unfolding has_prefix
has_prefix-cancel [] x y = refl
has_prefix-cancel (c ∷ a) x y = ground (arith, has_prefix-cancel a x y)

-- p is neither q nor a path below q.
abbrev pub strays : Str → Str → Bool
strays q p = not (str_eq q p) && not (has_prefix p (q ++ (slash ∷ [])))

-- Nothing, or a slash and what follows.
abbrev pub IsTail : Str → Type 0
IsTail [] = Unit {0}
IsTail (c ∷ t) = (c == slash) ≡ true

-- Two names differ, so no path below the one is a path below the other.
pub strays_names :
    (n s t : Str)
    → no_slash n ≡ true
    → no_slash s ≡ true
    → str_eq n s ≡ false
    → IsTail t
    → strays n (s ++ t) ≡ true
unfolding str_eq has_prefix
strays_names [] [] t hn hs h k = cc
strays_names [] (c ∷ s) t hn hs h k = ground arith
strays_names (d ∷ n) [] [] hn hs h k = refl
strays_names (d ∷ n) [] (c ∷ t) hn hs h k = ground arith
strays_names (d ∷ n) (c ∷ s) t hn hs h k = ground (arith, strays_names n s t)

longer_prefix :
    (q n p : Str) → has_prefix p (q ++ (slash ∷ n)) ≡ true → has_prefix p (q ++ (slash ∷ [])) ≡ true
longer_prefix q n p h =
    has_prefix-shorter p (q ++ (slash ∷ [])) n (rw (append_assoc q (slash ∷ []) n) h)

prefix_refl : (s : Str) → has_prefix s s ≡ true
unfolding has_prefix
prefix_refl [] = refl
prefix_refl (c ∷ s) = ground (arith, prefix_refl s)

pub strays_below : (q n p : Str) → strays q p ≡ true → strays (q ++ (slash ∷ n)) p ≡ true
strays_below q n p h = ground (arith, str_eq_iff (q ++ (slash ∷ n)) p, whole, deeper)
  where
    whole : (q ++ (slash ∷ n)) ≡ p → has_prefix p (q ++ (slash ∷ [])) ≡ true
    whole e = longer_prefix q n p (rw e (prefix_refl p))

    deeper :
        has_prefix p ((q ++ (slash ∷ n)) ++ (slash ∷ [])) ≡ true
        → has_prefix p (q ++ (slash ∷ [])) ≡ true
    deeper k = longer_prefix q n p (has_prefix-shorter p (q ++ (slash ∷ n)) (slash ∷ []) k)

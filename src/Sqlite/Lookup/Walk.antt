-- ===== src/Sqlite/Lookup/Walk.antt =====
-- What the recursive query for a path finds: the node at the end of the chain of its names.
use ocfl_index.Base.{
  ℕ, ◌≡◌, refl, sym, ◌∙◌, true, false, ◌&&◌, Option, none, some, List, [], ◌∷◌, ◌++◌, ◌==◌, arith,
  if◌then◌else◌, All, Bool-cases, inl, inr,
}
use mathlib.Core.List.{append_assoc, append-nil}
use ocfl_index.Text.{Str, slash, str_eq}
use ocfl_index.Text.Paths.{dot, join, valid_elem}
use ocfl_index.Text.Paths.Laws.{no_slash}
use ocfl_index.Text.Prefixes.{str_eq-cancel, has_prefix-cancel, strays, IsTail, strays_names}
use ocfl_index.Sqlite.{NameRow}
use ocfl_index.Sqlite.Nodes.{has_name}
use ocfl_index.Sqlite.Lookup.{PathRow, names_of, next_path, id_of_path}

-- The child of a node by its name, and the node at the end of a chain of names.
unfoldable pub find_name : ℕ → Str → List NameRow → Option ℕ
find_name i n [] = none
find_name i n (r ∷ rs) =
    if r.parent_id == i && str_eq r.name n then some r.node_id else find_name i n rs

unfoldable pub walk_names : List NameRow → List Str → ℕ → Option ℕ
walk_names names [] i = some i
walk_names names (s ∷ ss) i = elim (find_name i s names) [
  | none ↦ none
  | some j ↦ walk_names names ss j
]

-- PRIMARY KEY(parent_id, name), and names that are path elements.
abbrev pub Distinct : List NameRow → Type 0
Distinct [] = Unit {0}
Distinct (r ∷ rs) = (has_name r.parent_id r.name rs ≡ false) × Distinct rs

abbrev pub ArePlain : List NameRow → Type 0
ArePlain = All (λ r. (valid_elem r.name ≡ true) × (no_slash r.name ≡ true))

pub record IsNameTable (names : List NameRow) : Type 0 where
  pub distinct : Distinct names
  pub plain : ArePlain names

-- The same among the children of one node.
unfoldable pub find_in : Str → List NameRow → Option ℕ
find_in n [] = none
find_in n (r ∷ rs) = if str_eq r.name n then some r.node_id else find_in n rs

abbrev pub Once : List NameRow → Type 0
Once [] = Unit {0}
Once (r ∷ rs) = (find_in r.name rs ≡ none) × Once rs

pub find_in-names_of :
    (i : ℕ) (n : Str) (names : List NameRow) → find_in n (names_of i names) ≡ find_name i n names
unfolding find_in names_of find_name
find_in-names_of i n [] = refl
find_in-names_of i n (r ∷ rs) = ground (arith, find_in-names_of i n rs)

has_name-none :
    (i : ℕ) (n : Str) (names : List NameRow)
    → has_name i n names ≡ false
    → find_name i n names ≡ none
unfolding has_name find_name
has_name-none i n [] h = refl
has_name-none i n (r ∷ rs) h = ground (arith, has_name-none i n rs)

pub Once-names_of : (i : ℕ) (names : List NameRow) → Distinct names → Once (names_of i names)
unfolding names_of
Once-names_of i [] d = tt
Once-names_of i (r ∷ rs) d = elim (Bool-cases (r.parent_id == i)) [
  | inr e ↦ rw e (Once-names_of i rs d.1)
  | inl e ↦
      let same : r.parent_id ≡ i = ground arith in
      rw e (
        find_in-names_of i r.name rs ∙ has_name-none i r.name rs (rw (← same) d.0),
        Once-names_of i rs d.1,
      )
]

pub All-names_of :
    (P : NameRow → Type 0) (i : ℕ) (names : List NameRow) → All P names → All P (names_of i names)
unfolding names_of
All-names_of P i [] h = tt
All-names_of P i (r ∷ rs) h = elim (Bool-cases (r.parent_id == i)) [
  | inr e ↦ rw e (All-names_of P i rs h.1)
  | inl e ↦ rw e (h.0, All-names_of P i rs h.1)
]

unfoldable pub or_else : Option ℕ → Option ℕ → Option ℕ
or_else none o = o
or_else (some i) o = some i

pub id_of_path-append :
    (p : Str) (xs ys : List PathRow)
    → id_of_path p (xs ++ ys) ≡ or_else (id_of_path p xs) (id_of_path p ys)
unfolding id_of_path or_else
id_of_path-append p [] ys = refl
id_of_path-append p (x ∷ xs) ys = elim (Bool-cases (str_eq x.path p)) [
  | inl e ↦ rw e refl
  | inr e ↦ rw e (id_of_path-append p xs ys)
]

pub next_path_below : (q n : Str) → str_eq q dot ≡ false → next_path q n ≡ q ++ (slash ∷ n)
unfolding next_path
next_path_below q n h = rw h

pub below_not_dot : (q n : Str) → str_eq (q ++ (slash ∷ n)) dot ≡ false
unfolding str_eq
below_not_dot [] n = refl
below_not_dot (c ∷ []) n = ground arith
below_not_dot (c ∷ d ∷ q) n = ground arith

-- What follows the first element of a path.
unfoldable pub after : List Str → Str
after [] = []
after (v ∷ ws) = slash ∷ join (v ∷ ws)

pub after-IsTail : (ss : List Str) → IsTail (after ss)
unfolding after
after-IsTail [] = tt
after-IsTail (v ∷ ws) = refl

pub join-after : (s : Str) (ss : List Str) → join (s ∷ ss) ≡ s ++ after ss
unfolding join after
join-after s [] = sym (append-nil s)
join-after s (v ∷ ws) = refl

pub next_path-append : (q s t : Str) → next_path q (s ++ t) ≡ next_path q s ++ t
unfolding next_path
next_path-append q s t = elim (Bool-cases (str_eq q dot)) [
  | inl e ↦ rw e refl
  | inr e ↦ rw e (sym (append_assoc q (slash ∷ s) t))
]

strays_cancel : (a x y : Str) → strays (a ++ x) (a ++ y) ≡ strays x y
strays_cancel a x y =
    rw
      (
        str_eq-cancel a x y,
        append_assoc a x (slash ∷ []),
        has_prefix-cancel a y (x ++ (slash ∷ [])),
      )
      refl

pub strays_next :
    (q n s t : Str)
    → no_slash n ≡ true
    → no_slash s ≡ true
    → str_eq n s ≡ false
    → IsTail t
    → strays (next_path q n) (next_path q s ++ t) ≡ true
unfolding next_path
strays_next q n s t hn hs h k = elim (Bool-cases (str_eq q dot)) [
  | inl e ↦ rw e (strays_names n s t hn hs h k)
  | inr e ↦
      let whole : (q ++ (slash ∷ [])) ++ (s ++ t) ≡ (q ++ (slash ∷ s)) ++ t =
        append_assoc q (slash ∷ []) (s ++ t) ∙ sym (append_assoc q (slash ∷ s) t) in
      let below : (q ++ (slash ∷ [])) ++ n ≡ q ++ (slash ∷ n) = append_assoc q (slash ∷ []) n in
      rw e (
        rw (← whole, ← below)
          (strays_cancel (q ++ (slash ∷ [])) n (s ++ t) ∙ strays_names n s t hn hs h k))
]

pub next_not_dot : (q n : Str) → valid_elem n ≡ true → str_eq (next_path q n) dot ≡ false
unfolding next_path valid_elem
next_not_dot q n h = elim (Bool-cases (str_eq q dot)) [
  | inl e ↦ rw e (ground arith)
  | inr e ↦ rw e (below_not_dot q n)
]

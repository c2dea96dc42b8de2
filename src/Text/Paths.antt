-- ===== src/Text/Paths.antt =====
-- Slash-separated paths as the program uses them: strings.Cut and strings.Split at "/",
-- fs.ValidPath, and Clean, Dir, Base and Join of package path.
pub mod Laws
pub mod Last
pub mod Valid
pub mod Clean
use ocfl_index.Base.{
  ℕ, ◌≡◌, refl, Bool, true, false, not, ◌&&◌, ◌||◌, List, [], ◌∷◌, ◌++◌, ◌==◌, if◌then◌else◌,
}
use mathlib.Core.List.{reverse}
use ocfl_index.Text.{Str, bytes, slash, str_eq, valid_utf8}

abbrev pub dot : Str
dot = b'.' ∷ []

abbrev pub dotdot : Str
dotdot = b'.' ∷ b'.' ∷ []

-- What `strings.Cut(p, "/")` returns.
pub record Cut : Type 0 where
  pub first : Str
  pub rest : Str
  pub more : Bool

unfoldable pub cut : Str → Cut
cut [] = record { first = []; rest = []; more = false }
cut (c ∷ p) =
    let k = cut p in
    if c == slash
    then record { first = []; rest = p; more = true }
    else record { first = c ∷ k.first; rest = k.rest; more = k.more }

abbrev push_byte : ℕ → List Str → List Str
push_byte c [] = (c ∷ []) ∷ []
push_byte c (w ∷ ws) = (c ∷ w) ∷ ws

abbrev pub cons_split : ℕ → List Str → List Str
cons_split c ws = if c == slash then [] ∷ ws else push_byte c ws

-- strings.Split(p, "/")
unfoldable pub split : Str → List Str
split [] = [] ∷ []
split (c ∷ p) = cons_split c (split p)

-- strings.Join(ws, "/")
unfoldable pub join : List Str → Str
join [] = []
join (w ∷ []) = w
join (w ∷ v ∷ ws) = w ++ (slash ∷ join (v ∷ ws))

-- A path element that `fs.ValidPath` accepts.
unfoldable pub valid_elem : Str → Bool
valid_elem w = not (str_eq w [] || str_eq w dot || str_eq w dotdot)

unfoldable pub valid_elems : List Str → Bool
unfolding valid_elem
valid_elems [] = true
valid_elems (w ∷ ws) = valid_elem w && valid_elems ws

-- fs.ValidPath(p)
unfoldable pub valid_path : Str → Bool
valid_path p = valid_utf8 p && (str_eq p dot || valid_elems (split p))

-- What ".." does to the elements so far.
pop_dir : Bool → List Str → List Str
pop_dir true [] = []
pop_dir false [] = dotdot ∷ []
pop_dir r (v ∷ st) = if str_eq v dotdot then dotdot ∷ v ∷ st else st

-- The elements of a cleaned path, the last one first.
unfoldable pub clean_step : Bool → List Str → Str → List Str
unfolding pop_dir
clean_step rooted stack w =
    if str_eq w [] || str_eq w dot
    then stack
    else if str_eq w dotdot
    then pop_dir rooted stack
    else w ∷ stack

unfoldable pub clean_elems : Bool → List Str → List Str → List Str
unfolding clean_step
clean_elems rooted stack [] = stack
clean_elems rooted stack (w ∷ ws) = clean_elems rooted (clean_step rooted stack w) ws

unfoldable pub is_rooted : Str → Bool
is_rooted [] = false
is_rooted (c ∷ p) = c == slash

unfoldable pub or_dot : Str → Str
or_dot [] = dot
or_dot (c ∷ p) = c ∷ p

-- path.Clean(p)
unfoldable pub clean : Str → Str
unfolding is_rooted or_dot clean_elems split join
clean p =
    let body = join (reverse (clean_elems (is_rooted p) [] (split p))) in
    if is_rooted p then slash ∷ body else or_dot body

cons_last : ℕ → Str × Str → Str × Str
cons_last c ([], b) = if c == slash then (c ∷ [], b) else ([], c ∷ b)
cons_last c (x ∷ d, b) = (c ∷ x ∷ d, b)

-- The path up to its last slash, with it, and what follows: path.Split(p)
unfoldable pub split_last : Str → Str × Str
unfolding cons_last
split_last [] = ([], [])
split_last (c ∷ p) = cons_last c (split_last p)

-- path.Dir(p)
unfoldable pub path_dir : Str → Str
unfolding split_last clean
path_dir p = clean (split_last p).0

cons_stripped : ℕ → Str → Str
cons_stripped c [] = if c == slash then [] else c ∷ []
cons_stripped c (x ∷ r) = c ∷ x ∷ r

strip_slashes : Str → Str
unfolding cons_stripped
strip_slashes [] = []
strip_slashes (c ∷ p) = cons_stripped c (strip_slashes p)

or_slash : Str → Str
or_slash [] = slash ∷ []
or_slash (c ∷ p) = c ∷ p

-- path.Base(p)
unfoldable pub path_base : Str → Str
unfolding split_last strip_slashes or_slash
path_base [] = dot
path_base (c ∷ p) = or_slash (split_last (strip_slashes (c ∷ p))).1

-- path.Join(p, q): empty elements are ignored
unfoldable pub path_join : Str → Str → Str
unfolding clean
path_join [] [] = []
path_join [] (c ∷ q) = clean (c ∷ q)
path_join (c ∷ p) [] = clean (c ∷ p)
path_join (c ∷ p) (d ∷ q) = clean ((c ∷ p) ++ (slash ∷ d ∷ q))

clean_runs : clean (bytes "a//b/../c/./") ≡ bytes "a/c"
unfolding clean str_eq
clean_runs = refl

dir_base_run :
    (path_dir (bytes "a/b/c.txt") ≡ bytes "a/b") × (path_base (bytes "a/b/c.txt") ≡ bytes "c.txt")
unfolding path_dir path_base str_eq
dir_base_run = (refl, refl)

dir_plain_runs : (path_dir (bytes "a") ≡ dot) × (path_join dot (bytes "a") ≡ bytes "a")
unfolding path_dir path_join str_eq
dir_plain_runs = (refl, refl)

valid_runs :
    (valid_path (bytes "a/b") ≡ true)
    × (valid_path (bytes "a//b") ≡ false)
    × (valid_path (bytes "../b") ≡ false)
    × (valid_path [] ≡ false)
    × (valid_path dot ≡ true)
unfolding valid_path valid_utf8 valid_elems split str_eq
valid_runs = (refl, refl, refl, refl, refl)

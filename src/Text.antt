-- ===== src/Text.antt =====
-- Go strings: the bytes of a string as a list of numbers, with the tests on them that the program
-- uses, from the language (==, <) and the packages strings and unicode/utf8.
pub mod Order
pub mod Utf8
pub mod Paths
pub mod Prefixes
use Prim.Native.Char.{code}
use Prim.Native.String.{String}
use ocfl_index.Base.{
  ℕ, zero, suc, ◌+◌, ◌≡◌, refl, ◌↔◌, ap, Bool, true, false, ◌&&◌, ◌||◌, List, [], ◌∷◌, arith, ltb,
  leb, ◌==◌, if◌then◌else◌, ==_iff,
}

abbrev pub Str : Type 0
Str = List ℕ

-- The bytes of an ASCII literal.
abbrev pub bytes : String → Str
bytes String.[] = []
bytes (String.◌∷◌ c s) = code c ∷ bytes s

abbrev pub slash : ℕ
slash = b'/'

-- s == t
unfoldable pub str_eq : Str → Str → Bool
str_eq [] [] = true
str_eq [] (d ∷ t) = false
str_eq (c ∷ s) [] = false
str_eq (c ∷ s) (d ∷ t) = c == d && str_eq s t

-- s < t: byte by byte, a proper prefix first.
unfoldable pub str_lt : Str → Str → Bool
str_lt s [] = false
str_lt [] (d ∷ t) = true
str_lt (c ∷ s) (d ∷ t) = ltb c d || (c == d && str_lt s t)

-- strings.HasPrefix(s, t)
unfoldable pub has_prefix : Str → Str → Bool
has_prefix s [] = true
has_prefix [] (d ∷ t) = false
has_prefix (c ∷ s) (d ∷ t) = c == d && has_prefix s t

-- strings.TrimPrefix(s, t)
trim_from : Str → Str → Str
trim_from s [] = s
trim_from [] (d ∷ t) = []
trim_from (c ∷ s) (d ∷ t) = trim_from s t

unfoldable pub trim_prefix : Str → Str → Str
unfolding has_prefix trim_from
trim_prefix s t = if has_prefix s t then trim_from s t else s

-- utf8.ValidString: the number of continuation bytes that follow a first byte, and the range of
-- the first of them.
record Lead : Type 0 where
  known : Bool
  more : ℕ
  low : ℕ
  high : ℕ

lead : ℕ → Lead
lead c =
    if ltb c 0x80
    then record { known = true; more = 0; low = 0; high = 0 }
    else if ltb c 0xc2
    then record { known = false; more = 0; low = 0; high = 0 }
    else if ltb c 0xe0
    then record { known = true; more = 1; low = 0x80; high = 0xbf }
    else if c == 0xe0
    then record { known = true; more = 2; low = 0xa0; high = 0xbf }
    else if c == 0xed
    then record { known = true; more = 2; low = 0x80; high = 0x9f }
    else if ltb c 0xf0
    then record { known = true; more = 2; low = 0x80; high = 0xbf }
    else if c == 0xf0
    then record { known = true; more = 3; low = 0x90; high = 0xbf }
    else if ltb c 0xf4
    then record { known = true; more = 3; low = 0x80; high = 0xbf }
    else if c == 0xf4
    then record { known = true; more = 3; low = 0x80; high = 0x8f }
    else record { known = false; more = 0; low = 0; high = 0 }

utf8_from : ℕ → ℕ → ℕ → Str → Bool
unfolding lead
utf8_from zero low high [] = true
utf8_from (suc n) low high [] = false
utf8_from zero low high (c ∷ s) = let l = lead c in l.known && utf8_from l.more l.low l.high s
utf8_from (suc n) low high (c ∷ s) = leb low c && leb c high && utf8_from n 0x80 0xbf s

unfoldable pub valid_utf8 : Str → Bool
unfolding utf8_from
valid_utf8 s = utf8_from 0 0 0 s

pub str_eq→eq : (s t : Str) → str_eq s t ≡ true → s ≡ t
unfolding str_eq
str_eq→eq [] [] h = refl
str_eq→eq [] (d ∷ t) h = ground arith
str_eq→eq (c ∷ s) [] h = ground arith
str_eq→eq (c ∷ s) (d ∷ t) h = ground (arith, str_eq→eq s t)

pub str_eq_refl : (s : Str) → str_eq s s ≡ true
unfolding str_eq
str_eq_refl [] = refl
str_eq_refl (c ∷ s) = ground (arith, str_eq_refl s)

pub str_eq_iff : (s t : Str) → (str_eq s t ≡ true) ↔ (s ≡ t)
str_eq_iff s t = (str_eq→eq s t, λ p. rw (← p) (str_eq_refl s))

pub str_eq_sym : (a b : Str) → str_eq a b ≡ str_eq b a
unfolding str_eq
str_eq_sym [] [] = refl
str_eq_sym [] (d ∷ b) = refl
str_eq_sym (c ∷ a) [] = refl
str_eq_sym (c ∷ a) (d ∷ b) = ground (arith, str_eq_sym a b)

-- ===== src/IndexTree/Listing/Lines.antt =====
-- A line of a listing, read back.
use ocfl_index.Base.{
  ℕ, ◌/◌, ◌%◌, ◌<◌, ◌≡◌, refl, sym, ap, ◌∙◌, Bool, true, false, some, List, [], ◌∷◌, ◌++◌, arith,
  All, if◌then◌else◌,
}
use mathlib.Core.List.{append_assoc}
use ocfl_index.Text.{Str, slash, str_eq}
use ocfl_index.Text.Paths.Laws.{no_slash}
use ocfl_index.IndexTree.{hex_digit, hex, digest_line, line_name}
use ocfl_index.IndexTree.Build.{hex_val, hex_byte, cons_byte, decode_string}
use ocfl_index.IndexTree.Listing.{
  Key, lines, add_char, cut_space, cut_slash, line_key, look_up, AreBytes, no_break,
}

hex_val-hex_digit : (d : ℕ) → d < 16 → hex_val (hex_digit d) ≡ some d
unfolding hex_val hex_digit
hex_val-hex_digit d h = ground arith

-- hex.DecodeString reads what "%x" writes.
pub decode_string-hex : (s : List ℕ) → AreBytes s → decode_string (hex s) ≡ some s
unfolding decode_string hex hex_byte cons_byte
decode_string-hex [] h = refl
decode_string-hex (b ∷ bs) h =
    rw
      (
        hex_val-hex_digit (b / 16) (omega arith),
        hex_val-hex_digit (b % 16) (omega arith),
        decode_string-hex bs h.1,
      )
      (ap (λ n. some (n ∷ bs)) (omega arith))

-- Digits are neither spaces nor line breaks.
abbrev AreDigits : Str → Type 0
AreDigits = All (λ c. b' ' < c)

digit-lt : (d : ℕ) → b' ' < hex_digit d
unfolding hex_digit
digit-lt d = ground arith

hex-AreDigits : (s : List ℕ) → AreDigits (hex s)
unfolding hex
hex-AreDigits [] = tt
hex-AreDigits (b ∷ bs) = (digit-lt (b / 16), (digit-lt (b % 16), hex-AreDigits bs))

cut_space-append : (h n : Str) → AreDigits h → cut_space (h ++ (b' ' ∷ n)) ≡ (h, n)
unfolding cut_space
cut_space-append [] n h = refl
cut_space-append (c ∷ s) n h = rw (cut_space-append s n h.1) (ground arith)

cut_slash-plain : (n : Str) → no_slash n ≡ true → cut_slash n ≡ (n, false)
unfolding cut_slash
cut_slash-plain [] h = refl
cut_slash-plain (c ∷ []) h = ground arith
cut_slash-plain (c ∷ d ∷ s) h = rw (cut_slash-plain (d ∷ s) (ground arith)) refl

cut_slash-dir : (n : Str) → no_slash n ≡ true → cut_slash (n ++ (slash ∷ [])) ≡ (n, true)
unfolding cut_slash
cut_slash-dir [] h = refl
cut_slash-dir (c ∷ []) h = refl
cut_slash-dir (c ∷ d ∷ s) h = rw (cut_slash-dir (d ∷ s) (ground arith)) refl

cut_slash-line_name : (n : Str) (d : Bool) → no_slash n ≡ true → cut_slash (line_name n d) ≡ (n, d)
cut_slash-line_name n true h = cut_slash-dir n h
cut_slash-line_name n false h = cut_slash-plain n h

no_break-append : (s t : Str) → no_break s ≡ true → no_break t ≡ true → no_break (s ++ t) ≡ true
unfolding no_break
no_break-append [] t h k = k
no_break-append (c ∷ s) t h k = ground (arith, no_break-append s t)

no_break-line_name : (n : Str) (d : Bool) → no_break n ≡ true → no_break (line_name n d) ≡ true
no_break-line_name n true h = no_break-append n (slash ∷ []) h (unfold no_break in refl)
no_break-line_name n false h = h

no_break-digits : (s : Str) → AreDigits s → no_break s ≡ true
unfolding no_break
no_break-digits [] h = refl
no_break-digits (c ∷ s) h = ground (arith, no_break-digits s)

lines-append : (l rest : Str) → no_break l ≡ true → lines (l ++ (10 ∷ rest)) ≡ l ∷ lines rest
unfolding lines no_break add_char
lines-append [] rest h = refl
lines-append (c ∷ l) rest h = rw (lines-append l rest (ground arith)) (ground arith)

-- A line, without its line break.
abbrev line : Key → Str → Str
line x n = hex x.1 ++ (b' ' ∷ line_name n x.0)

pub abbrev_line :
    (x : Key) (n rest : Str) → digest_line x.1 (line_name n x.0) ++ rest ≡ line x n ++ (10 ∷ rest)
unfolding digest_line
abbrev_line x n rest =
    append_assoc (hex x.1) (b' ' ∷ (line_name n x.0 ++ (10 ∷ []))) rest
    ∙ ap (λ r. hex x.1 ++ (b' ' ∷ r)) (append_assoc (line_name n x.0) (10 ∷ []) rest)
    ∙ sym (append_assoc (hex x.1) (b' ' ∷ line_name n x.0) (10 ∷ rest))

line-no_break : (x : Key) (n : Str) → no_break n ≡ true → no_break (line x n) ≡ true
line-no_break x n h =
    no_break-append (hex x.1) (b' ' ∷ line_name n x.0)
      (no_break-digits (hex x.1) (hex-AreDigits x.1))
      (unfold no_break in no_break-line_name n x.0 h)

-- The first line of a listing decides for its own name, and for no other.
pub look_up-line :
    (m n : Str) (x : Key) (rest : Str)
    → no_slash n ≡ true
    → no_break n ≡ true
    → AreBytes x.1
    → look_up m (lines (digest_line x.1 (line_name n x.0) ++ rest))
      ≡ (if str_eq n m then some x else look_up m (lines rest))
unfolding look_up line_key
look_up-line m n x rest p b bytes =
    ap (λ t. look_up m (lines t)) (abbrev_line x n rest)
    ∙ ap (look_up m) (lines-append (line x n) rest (line-no_break x n b))
    ∙ rw
        (
          cut_space-append (hex x.1) (line_name n x.0) (hex-AreDigits x.1),
          cut_slash-line_name n x.0 p,
          decode_string-hex x.1 bytes,
        )
        refl

-- ===== src/Text/Utf8.antt =====
-- A string that ends before a slash of a valid UTF-8 string is valid.
use ocfl_index.Base.{ℕ, zero, suc, ◌<◌, ◌≡◌, refl, ◌⊎◌, inl, inr, true, [], ◌∷◌, ◌++◌, arith}
use ocfl_index.Text.{Str, slash, lead, utf8_from, valid_utf8}

-- A continuation byte is above the slash.
lead-low : (c : ℕ) → (lead c).known ≡ true → ((lead c).more ≡ 0) ⊎ (slash < (lead c).low)
unfolding lead
lead-low c h = ground arith

utf8_from-prefix :
    (n low high : ℕ) (w q : Str)
    → (n ≡ 0) ⊎ (slash < low)
    → utf8_from n low high (w ++ (slash ∷ q)) ≡ true
    → utf8_from n low high w ≡ true
unfolding utf8_from
utf8_from-prefix zero low high [] q h e = refl
utf8_from-prefix (suc n) low high [] q h e = ground arith
utf8_from-prefix zero low high (c ∷ w) q h e =
    ground (arith, lead-low c, utf8_from-prefix (lead c).more (lead c).low (lead c).high w q)
utf8_from-prefix (suc n) low high (c ∷ w) q h e =
    ground (arith, utf8_from-prefix n 0x80 0xbf w q (inr (omega arith)))

pub valid_utf8-prefix : (w q : Str) → valid_utf8 (w ++ (slash ∷ q)) ≡ true → valid_utf8 w ≡ true
unfolding valid_utf8
valid_utf8-prefix w q h = utf8_from-prefix 0 0 0 w q (inl refl) h

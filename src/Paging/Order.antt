-- ===== src/Paging/Order.antt =====
-- Sorting by distinct keys gives a strictly ascending list; what lies above a key of such a list.
use ocfl_index.Base.{
  ℕ, zero, suc, ◌≤◌, ◌≡◌, refl, ap, ◌∙◌, true, false, List, [], ◌∷◌, arith, length, take, drop, All,
  Bool-cases, inl, inr,
}
use ocfl_index.Text.{Str, str_lt, str_eq, str_eq_iff}
use ocfl_index.Text.Order.{str_lt_trans, str_lt_asymm, str_lt_irrefl, str_lt_total}
use ocfl_index.Paging.{insert_by, sort_by, above, last_key}

module _ {ℓ} {A : Type ℓ} (key : A → Str) where
  abbrev pub Ascending : List A → Type 0
  Ascending [] = Unit
  Ascending (x ∷ xs) = All (λ y. str_lt (key x) (key y) ≡ true) xs × Ascending xs

  abbrev pub DistinctKeys : List A → Type 0
  DistinctKeys [] = Unit
  DistinctKeys (x ∷ xs) = All (λ y. str_eq (key x) (key y) ≡ false) xs × DistinctKeys xs

module _ {ℓ} {A : Type ℓ} (key : A → Str) where
  All-insert_by :
      (P : A → Type 0) (x : A) (ys : List A) → P x → All P ys → All P (insert_by key x ys)
  unfolding insert_by
  All-insert_by P x [] p h = (p, tt)
  All-insert_by P x (y ∷ ys) p h = elim (Bool-cases (str_lt (key x) (key y))) [
    | inl e ↦ rw (e, insert_by) (p, h)
    | inr e ↦ rw (e, insert_by) (h.0, All-insert_by P x ys p h.1)
  ]

  pub All-sort_by : (P : A → Type 0) (xs : List A) → All P xs → All P (sort_by key xs)
  unfolding sort_by
  All-sort_by P [] h = tt
  All-sort_by P (x ∷ xs) h = All-insert_by P x (sort_by key xs) h.0 (All-sort_by P xs h.1)

  All-lt_trans :
      (a b : Str) (xs : List A)
      → str_lt a b ≡ true
      → All (λ y. str_lt b (key y) ≡ true) xs
      → All (λ y. str_lt a (key y) ≡ true) xs
  All-lt_trans a b [] h k = tt
  All-lt_trans a b (x ∷ xs) h k = (str_lt_trans a b (key x) h k.0, All-lt_trans a b xs h k.1)

  lt_of_distinct :
      (x y : A)
      → str_eq (key x) (key y) ≡ false
      → str_lt (key x) (key y) ≡ false
      → str_lt (key y) (key x) ≡ true
  lt_of_distinct x y d h = elim (Bool-cases (str_lt (key y) (key x))) [
    | inl e ↦ e
    | inr e ↦ cc (d, (str_eq_iff (key x) (key y)).1 (str_lt_total (key x) (key y) h e))
  ]

  insert_by-Ascending :
      (x : A) (ys : List A)
      → All (λ y. str_eq (key x) (key y) ≡ false) ys
      → Ascending key ys
      → Ascending key (insert_by key x ys)
  unfolding insert_by
  insert_by-Ascending x [] d h = (tt, tt)
  insert_by-Ascending x (y ∷ ys) d h = elim (Bool-cases (str_lt (key x) (key y))) [
    | inl e ↦ rw (e, insert_by) ((e, All-lt_trans (key x) (key y) ys e h.0), h)
    | inr e ↦
        rw (e, insert_by)
          (
            All-insert_by (λ z. str_lt (key y) (key z) ≡ true) x ys (lt_of_distinct x y d.0 e) h.0,
            insert_by-Ascending x ys d.1 h.1,
          )
  ]

  -- Rows of distinct keys come in a strictly ascending order.
  pub sort_by-Ascending : (xs : List A) → DistinctKeys key xs → Ascending key (sort_by key xs)
  unfolding sort_by
  sort_by-Ascending [] d = tt
  sort_by-Ascending (x ∷ xs) d =
      insert_by-Ascending x (sort_by key xs)
        (All-sort_by (λ y. str_eq (key x) (key y) ≡ false) xs d.0) (sort_by-Ascending xs d.1)

  -- Among rows above a cursor, asking for those above a higher one asks for nothing else.
  pub above-above :
      (a b : Str) (xs : List A) → str_lt a b ≡ true → above key b (above key a xs) ≡ above key b xs
  unfolding above
  above-above a b [] h = refl
  above-above a b (x ∷ xs) h = ground (arith, above-above a b xs h, str_lt_trans a b (key x))

  pub above_whole :
      (c : Str) (xs : List A) → All (λ y. str_lt c (key y) ≡ true) xs → above key c xs ≡ xs
  unfolding above
  above_whole c [] h = refl
  above_whole c (x ∷ xs) h = rw (h.0, above_whole c xs h.1) refl

  pub above-All : (c : Str) (xs : List A) → All (λ y. str_lt c (key y) ≡ true) (above key c xs)
  unfolding above
  above-All c [] = tt
  above-All c (x ∷ xs) = elim (Bool-cases (str_lt c (key x))) [
    | inl e ↦ rw (e, above) (e, above-All c xs)
    | inr e ↦ rw (e, above) (above-All c xs)
  ]

  All-above : (P : A → Type 0) (c : Str) (xs : List A) → All P xs → All P (above key c xs)
  unfolding above
  All-above P c [] h = tt
  All-above P c (x ∷ xs) h = elim (Bool-cases (str_lt c (key x))) [
    | inl e ↦ rw (e, above) (h.0, All-above P c xs h.1)
    | inr e ↦ rw (e, above) (All-above P c xs h.1)
  ]

  pub above-Ascending : (c : Str) (xs : List A) → Ascending key xs → Ascending key (above key c xs)
  unfolding above
  above-Ascending c [] h = tt
  above-Ascending c (x ∷ xs) h = elim (Bool-cases (str_lt c (key x))) [
    | inl e ↦
        rw (e, above)
          (All-above (λ y. str_lt (key x) (key y) ≡ true) c xs h.0, above-Ascending c xs h.1)
    | inr e ↦ rw (e, above) (above-Ascending c xs h.1)
  ]

  All-take : (P : A → Type 0) (n : ℕ) (xs : List A) → All P xs → All P (take n xs)
  All-take P zero xs h = tt
  All-take P (suc n) [] h = tt
  All-take P (suc n) (x ∷ xs) h = (h.0, All-take P n xs h.1)

  -- The last key of a page is above what its rows are above.
  pub lt-last_key :
      (c : Str) (n : ℕ) (xs : List A)
      → All (λ y. str_lt c (key y) ≡ true) xs
      → suc n ≤ length xs
      → str_lt c (last_key key (take (suc n) xs)) ≡ true
  unfolding last_key
  lt-last_key c n [] h k = absurd (omega arith)
  lt-last_key c zero (x ∷ xs) h k = h.0
  lt-last_key c (suc n) (x ∷ []) h k = absurd (omega arith)
  lt-last_key c (suc n) (x ∷ y ∷ xs) h k = lt-last_key c n (y ∷ xs) h.1 (omega arith)

  -- Above the last key of a page lie the rows after it.
  pub above-last_key :
      (n : ℕ) (xs : List A)
      → Ascending key xs
      → suc n ≤ length xs
      → above key (last_key key (take (suc n) xs)) xs ≡ drop (suc n) xs
  unfolding last_key above
  above-last_key n [] h k = absurd (omega arith)
  above-last_key zero (x ∷ xs) h k = rw (str_lt_irrefl (key x)) (above_whole (key x) xs h.0)
  above-last_key (suc n) (x ∷ []) h k = absurd (omega arith)
  above-last_key (suc n) (x ∷ y ∷ xs) h k =
      rw (str_lt_asymm (key x) _ (lt-last_key (key x) n (y ∷ xs) h.0 (omega arith)))
        (above-last_key n (y ∷ xs) h.1 (omega arith))

  length-insert_by : (x : A) (ys : List A) → length (insert_by key x ys) ≡ suc (length ys)
  unfolding insert_by
  length-insert_by x [] = refl
  length-insert_by x (y ∷ ys) = ground (arith, length-insert_by x ys)

  length-sort_by : (xs : List A) → length (sort_by key xs) ≡ length xs
  unfolding sort_by
  length-sort_by [] = refl
  length-sort_by (x ∷ xs) = length-insert_by x (sort_by key xs) ∙ ap suc (length-sort_by xs)

  length-above : (c : Str) (xs : List A) → length (above key c xs) ≤ length xs
  unfolding above
  length-above c [] = omega arith
  length-above c (x ∷ xs) = ground (arith, length-above c xs)

  pub length-above-sort_by :
      (c : Str) (xs : List A) → length (above key c (sort_by key xs)) ≤ length xs
  length-above-sort_by c xs = omega (arith, length-above c (sort_by key xs), length-sort_by xs)

All-insert_by_back :
    {A : Type 0} (key : A → Str) (P : A → Type 0) (x : A) (ys : List A)
    → All P (insert_by key x ys)
    → P x × All P ys
unfolding insert_by
All-insert_by_back key P x [] h = h
All-insert_by_back key P x (y ∷ ys) h = elim (Bool-cases (str_lt (key x) (key y))) [
  | inl e ↦ let both : P x × All P (y ∷ ys) = rw (e, insert_by) at h in both
  | inr e ↦
      let k : All P (y ∷ insert_by key x ys) = rw (e, insert_by) at h in
      let rest = All-insert_by_back key P x ys k.1 in (rest.0, (k.0, rest.1))
]

pub All-sort_by_back :
    {A : Type 0} (key : A → Str) (P : A → Type 0) (xs : List A) → All P (sort_by key xs) → All P xs
unfolding sort_by
All-sort_by_back key P [] h = tt
All-sort_by_back key P (x ∷ xs) h =
    let rest = All-insert_by_back key P x (sort_by key xs) h in
    (rest.0, All-sort_by_back key P xs rest.1)

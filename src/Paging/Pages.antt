-- ===== src/Paging/Pages.antt =====
-- Reading all pages gives every row above the first cursor once, in order.
use ocfl_index.Base.{
  ℕ, zero, suc, ◌+◌, ◌≤◌, ◌<◌, ◌≡◌, refl, sym, ap, ◌∙◌, true, false, Option, none, some, List, [],
  ◌∷◌, ◌++◌, arith, length, take, drop, Bool-cases, inl, inr, ltb, ◌==◌, ltb→lt, take-append-drop,
  take-eq_self, length-take,
}
use mathlib.Core.Option
use native.Mathlib.Numerals.{add-one}
use ocfl_index.Text.{Str, str_lt}
use ocfl_index.Paging.{Page, sort_by, above, query, last_key, page_of}
use ocfl_index.Paging.Order.{
  DistinctKeys, sort_by-Ascending, above-above, above-All, above-Ascending, lt-last_key,
  above-last_key,
}

module _ {ℓ} {A : Type ℓ} where
  take-take : (n : ℕ) (xs : List A) → take n (take (suc n) xs) ≡ take n xs
  take-take zero xs = refl
  take-take (suc n) [] = refl
  take-take (suc n) (x ∷ xs) = ap (λ r. x ∷ r) (take-take n xs)

  length-drop_lt : (n : ℕ) (xs : List A) → suc n ≤ length xs → length (drop (suc n) xs) < length xs
  length-drop_lt n [] h = absurd (omega arith)
  length-drop_lt zero (x ∷ xs) h = omega arith
  length-drop_lt (suc n) (x ∷ xs) h = omega (arith, length-drop_lt n xs (omega arith))

module _ {ℓ} {A : Type ℓ} (key : A → Str) where
  -- A last page: no more rows than it holds.
  page_of-last :
      (limit : ℕ) (xs : List A)
      → length xs ≤ limit
      → page_of key limit (take (suc limit) xs) ≡ record { items = xs; next_cursor = [] }
  unfolding page_of
  page_of-last limit xs h =
      rw (take-eq_self (suc limit) xs (omega arith)) (rw (not_full limit (length xs) h) refl)
    where
      not_full : (a b : ℕ) → b ≤ a → (b == a + 1) ≡ false
      not_full a b k = ground arith

  page_of-full :
      (limit : ℕ) (xs : List A)
      → limit < length xs
      → page_of key limit (take (suc limit) xs)
        ≡ record { items = take limit xs; next_cursor = last_key key (take limit xs) }
  unfolding page_of
  page_of-full limit xs h =
      rw
        (
          full limit (length (take (suc limit) xs)) (omega (arith, length-take (suc limit) xs)),
          take-take limit xs,
        )
        refl
    where
      full : (a b : ℕ) → b ≡ suc a → (b == a + 1) ≡ true
      full a b k = ground arith

  -- The client's loop: a page, and the next one as long as there is a cursor.
  unfoldable pub read_all : ℕ → ℕ → Str → List A → Option (List A)
  read_all zero limit cursor rows = none
  read_all (suc fuel) limit cursor rows =
      let p = page_of key limit (query key (limit + 1) cursor rows) in
      elim p.next_cursor [
        | [] ↦ some p.items
        | c ∷ cs ↦ Option.map (λ r. p.items ++ r) (read_all fuel limit (c ∷ cs) rows)
      ]

  -- One round of the loop.
  read_round : (fuel limit : ℕ) (rows : List A) (p : Page A) → Option (List A)
  read_round fuel limit rows p = elim p.next_cursor [
    | [] ↦ some p.items
    | c ∷ cs ↦ Option.map (λ r. p.items ++ r) (read_all fuel limit (c ∷ cs) rows)
  ]

  read_round_more :
      (fuel limit : ℕ) (rows items : List A) (c : Str)
      → str_lt [] c ≡ true
      → read_round fuel limit rows (record { items = items; next_cursor = c })
        ≡ Option.map (λ r. items ++ r) (read_all fuel limit c rows)
  unfolding read_round str_lt
  read_round_more fuel limit rows items [] h = cc
  read_round_more fuel limit rows items (b ∷ c) h = refl

  lt_nil : (a c : Str) → str_lt a c ≡ true → str_lt [] c ≡ true
  unfolding str_lt
  lt_nil a [] h = h
  lt_nil a (d ∷ c) h = refl

  read_all_round :
      (fuel limit : ℕ) (cursor : Str) (rows : List A)
      → read_all (suc fuel) limit cursor rows
        ≡ read_round fuel limit rows
            (page_of key limit (take (suc limit) (above key cursor (sort_by key rows))))
  unfolding read_all read_round query
  read_all_round fuel limit cursor rows =
      ap
        (λ t.
          read_round fuel limit rows
            (page_of key limit (take t (above key cursor (sort_by key rows)))))
        (add-one limit)

  above_next :
      (n : ℕ) (cursor : Str) (rows : List A)
      → DistinctKeys key rows
      → let xs = above key cursor (sort_by key rows) in
        suc n ≤ length xs
        → above key (last_key key (take (suc n) xs)) (sort_by key rows) ≡ drop (suc n) xs
  above_next n cursor rows d h =
      let s = sort_by key rows in
      let xs = above key cursor s in
      sym (
        above-above key cursor (last_key key (take (suc n) xs)) s
          (lt-last_key key cursor n xs (above-All key cursor s) h))
      ∙ above-last_key key n xs (above-Ascending key cursor s (sort_by-Ascending key rows d)) h

  map-some :
      (xs ys : List A) (o : Option (List A))
      → o ≡ some ys
      → Option.map (λ r. xs ++ r) o ≡ some (xs ++ ys)
  map-some xs ys o e = ap (Option.map (λ r. xs ++ r)) e

  -- With rows of distinct keys and pages of at least one row, more rounds than there are rows
  -- above the cursor read exactly those rows, each once and in ascending order.
  pub read_all_lem :
      (fuel n : ℕ) (cursor : Str) (rows : List A)
      → DistinctKeys key rows
      → length (above key cursor (sort_by key rows)) < fuel
      → read_all fuel (suc n) cursor rows ≡ some (above key cursor (sort_by key rows))
  read_all_lem zero n cursor rows d h = absurd (omega arith)
  read_all_lem (suc fuel) n cursor rows d h =
      let s = sort_by key rows in
      let xs = above key cursor s in
      elim (Bool-cases (ltb (suc n) (length xs))) [
        | inr e ↦
            rw (read_all_round fuel (suc n) cursor rows, page_of-last (suc n) xs (ground arith))
              (unfold read_round in refl)
        | inl e ↦
            let more : suc n < length xs = ltb→lt _ _ e in
            let c = last_key key (take (suc n) xs) in
            let next = above_next n cursor rows d (omega arith) in
            rw (read_all_round fuel (suc n) cursor rows, page_of-full (suc n) xs more)
              (read_round_more fuel (suc n) rows (take (suc n) xs) c (
                  lt_nil cursor c
                    (lt-last_key key cursor n xs (above-All key cursor s) (omega arith)))
                ∙ map-some (take (suc n) xs) (drop (suc n) xs) _ (
                    read_all_lem fuel n c rows d
                      (rw next (omega (arith, length-drop_lt n xs (omega arith))))
                    ∙ ap some next)
                ∙ ap some (take-append-drop (suc n) xs))
      ]

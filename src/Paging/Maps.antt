-- ===== src/Paging/Maps.antt =====
-- Rows turned into items that keep their key.
use ocfl_index.Base.{
  ℕ, zero, suc, ◌≡◌, refl, ap, ◌∙◌, ◌+◌, ◌==◌, List, [], ◌∷◌, map, take, length, Bool-cases, inl,
  inr,
}
use ocfl_index.Text.{Str, str_lt}
use ocfl_index.Paging.{Page, insert_by, sort_by, above, query, last_key, page_of}

pub length-map {ℓ κ} :
    {A : Type ℓ} {B : Type κ} (f : A → B) (xs : List A) → length (map f xs) ≡ length xs
length-map f [] = refl
length-map f (x ∷ xs) = ap suc (length-map f xs)

module _ {ℓ κ} {A : Type ℓ} {B : Type κ} (f : A → B) (key : A → Str) (key' : B → Str)
    (keeps : (x : A) → key' (f x) ≡ key x) where
  map-take : (n : ℕ) (xs : List A) → map f (take n xs) ≡ take n (map f xs)
  map-take zero xs = refl
  map-take (suc n) [] = refl
  map-take (suc n) (x ∷ xs) = ap (λ r. f x ∷ r) (map-take n xs)

  map-insert_by :
      (x : A) (xs : List A) → map f (insert_by key x xs) ≡ insert_by key' (f x) (map f xs)
  unfolding insert_by
  map-insert_by x [] = refl
  map-insert_by x (y ∷ ys) = elim (Bool-cases (str_lt (key x) (key y))) [
    | inl e ↦ rw (keeps x, keeps y, e) refl
    | inr e ↦ rw (keeps x, keeps y, e) (ap (λ r. f y ∷ r) (map-insert_by x ys))
  ]

  pub map-sort_by : (xs : List A) → map f (sort_by key xs) ≡ sort_by key' (map f xs)
  unfolding sort_by
  map-sort_by [] = refl
  map-sort_by (x ∷ xs) =
      map-insert_by x (sort_by key xs) ∙ ap (insert_by key' (f x)) (map-sort_by xs)

  map-above :
      (cursor : Str) (xs : List A) → map f (above key cursor xs) ≡ above key' cursor (map f xs)
  unfolding above
  map-above cursor [] = refl
  map-above cursor (x ∷ xs) = elim (Bool-cases (str_lt cursor (key x))) [
    | inl e ↦ rw (keeps x, e) (ap (λ r. f x ∷ r) (map-above cursor xs))
    | inr e ↦ rw (keeps x, e) (map-above cursor xs)
  ]

  pub map-listing :
      (cursor : Str) (xs : List A)
      → map f (above key cursor (sort_by key xs)) ≡ above key' cursor (sort_by key' (map f xs))
  map-listing cursor xs =
      map-above cursor (sort_by key xs) ∙ ap (above key' cursor) (map-sort_by xs)

  pub map-query :
      (n : ℕ) (cursor : Str) (xs : List A)
      → map f (query key n cursor xs) ≡ query key' n cursor (map f xs)
  unfolding query
  map-query n cursor xs =
      map-take n (above key cursor (sort_by key xs)) ∙ ap (take n) (map-listing cursor xs)

  last_key-map : (xs : List A) → last_key key' (map f xs) ≡ last_key key xs
  unfolding last_key
  last_key-map [] = refl
  last_key-map (x ∷ []) = keeps x
  last_key-map (x ∷ y ∷ xs) = last_key-map (y ∷ xs)

  abbrev pub map_page : Page A → Page B
  map_page p = record { items = map f p.items; next_cursor = p.next_cursor }

  pub map-page_of : (n : ℕ) (xs : List A) → map_page (page_of key n xs) ≡ page_of key' n (map f xs)
  unfolding page_of
  map-page_of n xs = elim (Bool-cases (length xs == n + 1)) [
    | inl e ↦ rw (length-map f xs, e, ← map-take n xs, last_key-map (take n xs)) refl
    | inr e ↦ rw (length-map f xs, e) refl
  ]

-- ===== src/Sqlite/Objects/Pages.antt =====
-- The pages of the list of objects.
use ocfl_index.Base.{
  ℕ, zero, suc, ◌+◌, ◌-◌, ◌≡◌, ◌≤◌, refl, ap, Bool, true, false, List, [], ◌∷◌, arith, ltb, ◌==◌,
  length, take, Result, Bool-cases, inl, inr, length-take, take-eq_self,
}
use ocfl_index.Text.{Str}
use ocfl_index.Paging.{Page, query, sort_by, above, last_key, page_of}
use ocfl_index.Sqlite.{IndexErr, Db}
use ocfl_index.Sqlite.Roots.{page_limit}
use ocfl_index.Sqlite.Objects.{
  ListedRow, listed_id, listed_rows, list_inventories_prefix, id_at, Parsers, ObjectListItem,
  list_items, object_list, list_rows, list_objects,
}

-- The second row from the end is the last one of a page.
last_key-take :
    (n : ℕ) (rows : List ListedRow)
    → length rows ≡ suc (suc n)
    → last_key listed_id (take (suc n) rows) ≡ id_at n rows
unfolding last_key id_at
last_key-take n [] h = absurd (omega (arith, h))
last_key-take zero (r ∷ rs) h = refl
last_key-take (suc n) (r ∷ []) h = absurd (omega (arith, h))
last_key-take (suc n) (r ∷ q ∷ rs) h = last_key-take n (q ∷ rs) (omega (arith, h))

page_limit_pos : (limit : ℕ) → 1 ≤ page_limit limit
page_limit_pos limit = ground arith

module _ (P : Parsers) where
  abbrev of_page : Page ListedRow → Result IndexErr (Page (ObjectListItem P))
  of_page p = object_list P (list_items P p.items) p.next_cursor

  short_page :
      (limit : ℕ) (rows : List ListedRow)
      → length rows ≤ limit
      → page_of listed_id limit rows ≡ record { items = rows; next_cursor = [] }
  unfolding page_of
  short_page limit rows h = rw (not_full limit (length rows) h) refl
    where
      not_full : (a b : ℕ) → b ≤ a → (b == a + 1) ≡ false
      not_full a b k = ground arith

  full_page :
      (n : ℕ) (rows : List ListedRow)
      → length rows ≡ suc (suc n)
      → page_of listed_id (suc n) rows
        ≡ record { items = take (suc n) rows; next_cursor = id_at n rows }
  unfolding page_of
  full_page n rows h =
      rw (full n (length rows) h)
        (ap (λ c. record { items = take (suc n) rows; next_cursor = c }) (last_key-take n rows h))
    where
      full : (a b : ℕ) → b ≡ suc (suc a) → (b == suc a + 1) ≡ true
      full a b k = ground arith

  list_rows-some :
      (n limit : ℕ) (rows : List ListedRow)
      → length rows ≡ suc n
      → suc n ≤ limit
      → list_rows P limit rows ≡ object_list P (list_items P rows) []
  unfolding list_rows
  list_rows-some n limit rows h k = rw h (
      rw (not_empty n, not_more limit (suc n) k, take-eq_self (suc n) rows (omega (arith, h))) refl)
    where
      not_empty : (a : ℕ) → (suc a == 0) ≡ false
      not_empty a = ground arith

      not_more : (a b : ℕ) → b ≤ a → ltb a b ≡ false
      not_more a b l = ground arith

  list_rows-short :
      (limit : ℕ) (rows : List ListedRow)
      → length rows ≤ limit
      → list_rows P limit rows ≡ object_list P (list_items P rows) []
  list_rows-short limit [] h = unfold list_rows list_items object_list in refl
  list_rows-short limit (r ∷ rs) h = list_rows-some (length rs) limit (r ∷ rs) refl h

  list_rows-full :
      (n : ℕ) (rows : List ListedRow)
      → length rows ≡ suc (suc n)
      → list_rows P (suc n) rows ≡ object_list P (list_items P (take (suc n) rows)) (id_at n rows)
  unfolding list_rows
  list_rows-full n rows h = rw h (rw (not_empty n, more n, two_less n) refl)
    where
      not_empty : (a : ℕ) → (suc (suc a) == 0) ≡ false
      not_empty a = ground arith

      two_less : (a : ℕ) → suc (suc a) - 2 ≡ a
      two_less a = omega arith

      more : (a : ℕ) → ltb (suc a) (suc (suc a)) ≡ true
      more a = ground arith

  list_rows_lem :
      (limit : ℕ) (rows : List ListedRow)
      → 1 ≤ limit
      → length rows ≤ limit + 1
      → list_rows P limit rows ≡ of_page (page_of listed_id limit rows)
  list_rows_lem zero rows h k = absurd (omega arith)
  list_rows_lem (suc n) rows h k = elim (Bool-cases (ltb (suc n) (length rows))) [
    | inr e ↦
        rw (short_page (suc n) rows (ground arith)) (list_rows-short (suc n) rows (ground arith))
    | inl e ↦
        let l : length rows ≡ suc (suc n) = ground arith in
        rw (full_page n rows l) (list_rows-full n rows l)
  ]

  -- For every limit, prefix and cursor, ListObjects returns the page that the reference paging
  -- gives of the matching inventories, with its rows parsed, and the same cursor for the next page;
  -- it fails exactly if a row of the page cannot be parsed.
  pub list_objects_lem :
      (like : Str → Str → Bool) (prefix cursor : Str) (limit : ℕ) (db : Db)
      → let n = page_limit limit in
        let rows = query listed_id (n + 1) cursor (listed_rows like prefix db.inventories db) in
        let p = page_of listed_id n rows in
        list_objects P like prefix limit cursor db
        ≡ object_list P (list_items P p.items) p.next_cursor
  unfolding list_objects list_inventories_prefix query
  list_objects_lem like prefix cursor limit db =
      let n = page_limit limit in
      let xs =
        above listed_id cursor (sort_by listed_id (listed_rows like prefix db.inventories db)) in
      list_rows_lem n (take (n + 1) xs) (page_limit_pos limit)
        (omega (arith, length-take (n + 1) xs))

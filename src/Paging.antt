-- ===== src/Paging.antt =====
-- Lists of rows in the ascending order of a text key, read page by page: a query for the rows above
-- a cursor (`WHERE key > ? ORDER BY key ASC LIMIT ?`), asked for one row more than a page holds, so
-- that a further page shows. The backend lists object roots, inventories and the children of a
-- directory in this way (internal/sqlite/sqlite.go).
pub mod Order
pub mod Maps
pub mod Keys
pub mod Pages
use ocfl_index.Base.{
  ℕ, zero, suc, ◌+◌, Bool, true, false, Option, none, some, List, [], ◌∷◌, ◌==◌, if◌then◌else◌,
  length, take,
}
use ocfl_index.Text.{Str, str_lt, str_eq}

-- One page, and the cursor for the next, empty if there is none.
pub record Page {ℓ} (A : Type ℓ) : Type ℓ where
  pub items : List A
  pub next_cursor : Str

module _ {ℓ} {A : Type ℓ} (key : A → Str) where
  -- ORDER BY key ASC
  unfoldable pub insert_by : A → List A → List A
  insert_by x [] = x ∷ []
  insert_by x (y ∷ ys) = if str_lt (key x) (key y) then x ∷ y ∷ ys else y ∷ insert_by x ys

  unfoldable pub sort_by : List A → List A
  unfolding insert_by
  sort_by [] = []
  sort_by (x ∷ xs) = insert_by x (sort_by xs)

  -- WHERE key > cursor
  unfoldable pub above : Str → List A → List A
  above cursor [] = []
  above cursor (x ∷ xs) =
      let rest = above cursor xs in if str_lt cursor (key x) then x ∷ rest else rest

  unfoldable pub query : ℕ → Str → List A → List A
  unfolding sort_by above
  query limit cursor rows = take limit (above cursor (sort_by rows))

  -- The key of the last row of a page.
  unfoldable pub last_key : List A → Str
  last_key [] = []
  last_key (x ∷ []) = key x
  last_key (x ∷ y ∷ xs) = last_key (y ∷ xs)

  -- The page of at most `limit` rows that a query for `limit + 1` rows gives.
  unfoldable pub page_of : ℕ → List A → Page A
  unfolding last_key
  page_of limit rows =
      if length rows == limit + 1
      then record { items = take limit rows; next_cursor = last_key (take limit rows) }
      else record { items = rows; next_cursor = [] }

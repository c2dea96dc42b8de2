-- ===== src/Ox/Iterating.antt =====
-- The iterator over the objects gives each of them once.
use ocfl_index.Base.{
  ℕ, zero, suc, ◌+◌, ◌-◌, ◌<◌, ◌≡◌, refl, sym, ap, ◌∙◌, true, false, ◌==◌, Option, none, some, List,
  [], ◌∷◌, ◌++◌, arith, length, length-take, ok, Bool-cases, inl, inr,
}
use mathlib.Core.Option
use mathlib.Core.List.{append-nil}
use ocfl_index.Text.{Str}
use ocfl_index.Paging.{page_of, query, above, sort_by}
use ocfl_index.Paging.Order.{DistinctKeys, length-above-sort_by}
use ocfl_index.Paging.Pages.{read_all, read_all_lem}
use ocfl_index.Sqlite.Objects.{Parsers}
use ocfl_index.Service.{ObjectMsg, ListObjectsResponse, Printers, int32}
use ocfl_index.Ox.{Client}
use ocfl_index.Ox.Lines.{map-some}
use ocfl_index.Ox.Objects.{
  Pager, need_next_page, object_at, next_object, list_loop, message_id, deliver_object, deliver,
  fetched,
}
use ocfl_index.Ox.OnePage.{
  list_response, steps, steps-length, steps-append, objects_ran, at_object, go_on, ran_before,
  ran_before_lem, whole_page, last_page, next_needed, loop_round, next_in_page,
}

-- What a service promises of its objects: each request is answered with the page that the reference
-- paging gives.
pub record IsPagedList {E : Type 0} (client : Client E) (prefix : Str) (limit n : ℕ)
    (rows : List ObjectMsg) : Type 0 where
  pub page :
      (cursor : Str)
      → client.call_list_objects
          (record { page_token = cursor; page_size = int32 limit; id_prefix = prefix })
        ≡ ok (list_response (page_of message_id (suc n) (query message_id (suc n + 1) cursor rows)))
  pub distinct : DistinctKeys message_id rows

-- A page with a next one is not empty.
page_of_more :
    (n : ℕ) (xs : List ObjectMsg) (c : ℕ) (cs : Str)
    → (page_of message_id (suc n) xs).next_cursor ≡ c ∷ cs
    → 0 < length (page_of message_id (suc n) xs).items
unfolding page_of
page_of_more n xs c cs h = elim (Bool-cases (length xs == suc n + 1)) [
  | inl e ↦
      let l : length xs ≡ suc (suc n) = ground arith in rw e (omega (arith, length-take (suc n) xs))
  | inr e ↦ cc (rw e at h)
]

module _ {E : Type 0} (P : Parsers) (W : Printers P) (client : Client E) (prefix : Str)
    (limit n : ℕ) (rows : List ObjectMsg) (h : IsPagedList client prefix limit n rows) where
  -- A pager before it asks for the page at a cursor.
  abbrev pub waiting : Str → Option ListObjectsResponse → ℕ → Pager
  waiting cursor o k = record {
    prefix = prefix;
    limit = limit;
    next_page = cursor;
    results = o;
    i = k;
  }

  abbrev page_at : Str → ListObjectsResponse
  page_at cursor =
      list_response (page_of message_id (suc n) (query message_id (suc n + 1) cursor rows))

  at_start :
      (r : ListObjectsResponse) → need_next_page (at_object P W client prefix limit r 0) ≡ false
  unfolding need_next_page
  at_start r = ground arith

  fetch :
      (cursor : Str) (o : Option ListObjectsResponse) (k : ℕ)
      → need_next_page (waiting cursor o k) ≡ true
      → next_object P client (waiting cursor o k)
        ≡ next_object P client (at_object P W client prefix limit (page_at cursor) 0)
  unfolding next_object fetched deliver
  fetch cursor o k e =
      asked
      ∙ sym (next_in_page P W client prefix limit (page_at cursor) 0 (at_start (page_at cursor)))
    where
      asked :
          next_object P client (waiting cursor o k)
          ≡ deliver_object P client
              (at_object P W client prefix limit (page_at cursor) 0)
              (object_at 0 (page_at cursor).objects)
      asked = rw (e, h.page cursor) refl

  new_page :
      (cursor : Str) (o : Option ListObjectsResponse) (k f : ℕ)
      → need_next_page (waiting cursor o k) ≡ true
      → list_loop P client W (suc f) (waiting cursor o k)
        ≡ list_loop P client W (suc f) (at_object P W client prefix limit (page_at cursor) 0)
  new_page cursor o k f e =
      loop_round P W client prefix limit f (waiting cursor o k)
      ∙ ap (go_on P W client prefix limit f) (fetch cursor o k e)
      ∙ sym (
          loop_round P W client prefix limit f
            (at_object P W client prefix limit (page_at cursor) 0))

  -- Enough fuel lists what reading all pages from the cursor gives.
  Lists : ℕ → Type 0
  Lists g =
      (cursor : Str) (o : Option ListObjectsResponse) (k : ℕ) (out : List ObjectMsg)
      → need_next_page (waiting cursor o k) ≡ true
      → read_all message_id g (suc n) cursor rows ≡ some out
      → (e : ℕ)
      → list_loop P client W (steps out (suc e)) (waiting cursor o k) ≡ some (objects_ran P W out)

  more_pages : ℕ → List ObjectMsg → Str → Option (List ObjectMsg)
  more_pages g items [] = some items
  more_pages g items (c ∷ cs) =
      Option.map (λ r. items ++ r) (read_all message_id g (suc n) (c ∷ cs) rows)

  read_step :
      (g : ℕ) (cursor : Str)
      → let p = page_of message_id (suc n) (query message_id (suc n + 1) cursor rows) in
        read_all message_id (suc g) (suc n) cursor rows ≡ more_pages g p.items p.next_cursor
  unfolding read_all more_pages
  read_step g cursor = refl

  this_page :
      (g : ℕ) (items : List ObjectMsg) (token : Str) (out : List ObjectMsg) (e : ℕ)
      → Lists g
      → ((c : ℕ) (cs : Str) → token ≡ c ∷ cs → 0 < length items)
      → more_pages g items token ≡ some out
      → list_loop P client W (steps out (suc e)) (
          at_object P W client prefix limit
            (list_response (record { items = items; next_cursor = token }))
            0)
        ≡ some (objects_ran P W out)
  unfolding more_pages Lists
  this_page g items [] out e ih l q =
      let r = list_response (record { items = items; next_cursor = [] }) in
      let same : items ≡ out = cc in
      rw (← same) (
        whole_page P W client prefix limit r (suc e)
        ∙ ap (ran_before P W client prefix limit items) (last_page P W client prefix limit items e)
        ∙ ran_before_lem P W client prefix limit items []
        ∙ ap (λ xs. some (objects_ran P W xs)) (append-nil items))
  this_page g items (c ∷ cs) out e ih l q =
      let r = list_response (record { items = items; next_cursor = c ∷ cs }) in
      let (o, a, b) = map-some (λ r. items ++ r) _ out q in
      rw (← b, steps-append items o (suc e))
        (whole_page P W client prefix limit r (steps o (suc e))
          ∙ ap (ran_before P W client prefix limit items) (
              ih (c ∷ cs) (some r) (length items) o
                (next_needed P W client prefix limit items c cs (l c cs refl)) a e)
          ∙ ran_before_lem P W client prefix limit items o)

  lists : (g : ℕ) → Lists g
  unfolding Lists read_all
  lists zero cursor o k out need q e = cc
  lists (suc g) cursor o k out need q e =
      let p = page_of message_id (suc n) (query message_id (suc n + 1) cursor rows) in
      first_step out e
      ∙ this_page g p.items p.next_cursor out e (lists g)
          (page_of_more n (query message_id (suc n + 1) cursor rows)) (sym (read_step g cursor) ∙ q)
    where
      first_step :
          (out : List ObjectMsg) (e : ℕ)
          → list_loop P client W (steps out (suc e)) (waiting cursor o k)
            ≡ list_loop P client W
                (steps out (suc e))
                (at_object P W client prefix limit (page_at cursor) 0)
      first_step [] e = new_page cursor o k e need
      first_step (m ∷ ms) e = new_page cursor o k (steps ms (suc e)) need

  list_loop_lem :
      (fuel : ℕ) (cursor : Str) (out : List ObjectMsg)
      → length out < fuel
      → read_all message_id fuel (suc n) cursor rows ≡ some out
      → list_loop P client W fuel (waiting cursor none 0) ≡ some (objects_ran P W out)
  unfolding Lists need_next_page
  list_loop_lem fuel cursor out l q =
      let e = fuel - suc (length out) in
      let all : steps out (suc e) ≡ fuel = omega (arith, steps-length out (suc e)) in
      rw all at (lists fuel cursor none 0 out refl q e)

  -- The objects from the start: every one whose id is not empty, once and in ascending order.
  pub list_loop_all :
      (fuel : ℕ)
      → length rows < fuel
      → list_loop P client W fuel (waiting [] none 0)
        ≡ some (objects_ran P W (above message_id [] (sort_by message_id rows)))
  list_loop_all fuel l =
      let short = length-above-sort_by message_id [] rows in
      list_loop_lem fuel [] (above message_id [] (sort_by message_id rows)) (omega (arith, short))
        (read_all_lem message_id fuel n [] rows h.distinct (omega (arith, short)))

-- ===== src/Ox/Reading.antt =====
-- The commands' loops over the pages of an object's state read all of it.
use ocfl_index.Base.{
  ℕ, zero, suc, ◌+◌, ◌≤◌, ◌≡◌, refl, sym, ap, ◌∙◌, true, Option, none, some, List, [], ◌∷◌, ◌++◌,
  arith, length, Result, ok, err, panic,
}
use mathlib.Core.Option
use mathlib.Core.List.{append_assoc}
use ocfl_index.Text.{Str}
use ocfl_index.Paging.{Page, page_of, query, above, sort_by}
use ocfl_index.Paging.Order.{DistinctKeys, length-above-sort_by}
use ocfl_index.Paging.Pages.{read_all, read_all_lem}
use ocfl_index.Service.{ItemMsg, GetObjectStateResponse}
use ocfl_index.Service.Handlers.{GetObjectStateRequest}
use ocfl_index.Ox.{Client}
use ocfl_index.Ox.Export.{read_state}

abbrev pub msg_name : ItemMsg → Str
msg_name m = m.name

abbrev pub page_response : GetObjectStateResponse → Page ItemMsg → GetObjectStateResponse
page_response info p = record info { children = p.items; next_page_token = p.next_cursor }

-- What a service promises of a directory: each request is answered with the page of its children
-- that the reference paging gives.
pub record IsPagedState {E : Type 0} (client : Client E) (rq : Str → GetObjectStateRequest)
    (info : GetObjectStateResponse) (n : ℕ) (rows : List ItemMsg) : Type 0 where
  pub page :
      (cursor : Str)
      → client.call_get_object_state (rq cursor)
        ≡ ok
            (page_response info (page_of msg_name (suc n) (query msg_name (suc n + 1) cursor rows)))
  pub isdir : info.isdir ≡ true
  pub distinct : DistinctKeys msg_name rows

abbrev pub with_items : GetObjectStateResponse → List ItemMsg → GetObjectStateResponse
with_items s items = record s { children = s.children ++ items }

module _ {E : Type 0} (client : Client E) (rq : Str → GetObjectStateRequest)
    (info : GetObjectStateResponse) (n : ℕ) (rows : List ItemMsg)
    (h : IsPagedState client rq info n rows) where
  added :
      (s : GetObjectStateResponse) (items : List ItemMsg) (o : Option (List ItemMsg))
      → Option.map (λ r. with_items (with_items s items) r) o
        ≡ Option.map (λ r. with_items s r) (Option.map (λ r. items ++ r) o)
  added s items none = refl
  added s items (some r) =
      ap (λ c. some (record s { children = c })) (append_assoc s.children items r)

  abbrev answered : Option GetObjectStateResponse → Option (Result E GetObjectStateResponse)
  answered o = Option.map (λ r. ok r) o

  unfoldable pub next_pages : ℕ → List ItemMsg → Str → Option (List ItemMsg)
  next_pages fuel items [] = some items
  next_pages fuel items (c ∷ cs) =
      Option.map (λ r. items ++ r) (read_all msg_name fuel (suc n) (c ∷ cs) rows)

  pub read_all_step :
      (fuel : ℕ) (cursor : Str)
      → let p = page_of msg_name (suc n) (query msg_name (suc n + 1) cursor rows) in
        read_all msg_name (suc fuel) (suc n) cursor rows ≡ next_pages fuel p.items p.next_cursor
  unfolding read_all next_pages
  read_all_step fuel cursor = refl

  state_round :
      ℕ
      → GetObjectStateResponse
      → Result E GetObjectStateResponse
      → Option (Result E GetObjectStateResponse)
  state_round fuel s (err e) = some (err e)
  state_round fuel s panic = some panic
  state_round fuel s (ok resp) = elim resp.next_page_token [
    | [] ↦ some (ok (with_items s resp.children))
    | c ∷ cs ↦ read_state client rq fuel (c ∷ cs) (some (with_items s resp.children))
  ]

  state_step :
      (fuel : ℕ) (cursor : Str) (s : GetObjectStateResponse)
      → read_state client rq (suc fuel) cursor (some s)
        ≡ state_round fuel s (client.call_get_object_state (rq cursor))
  unfolding read_state state_round
  state_step fuel cursor s = refl

  MoreIsRead : ℕ → Type 0
  MoreIsRead fuel =
      (cursor : Str) (s : GetObjectStateResponse)
      → read_state client rq fuel cursor (some s)
        ≡ answered (Option.map (λ r. with_items s r) (read_all msg_name fuel (suc n) cursor rows))

  more_pages :
      (fuel : ℕ) (s : GetObjectStateResponse) (items : List ItemMsg) (token : Str)
      → MoreIsRead fuel
      → state_round fuel s (ok (page_response info (record { items = items; next_cursor = token })))
        ≡ answered (Option.map (λ r. with_items s r) (next_pages fuel items token))
  unfolding next_pages state_round MoreIsRead
  more_pages fuel s items [] ih = refl
  more_pages fuel s items (c ∷ cs) ih =
      ih (c ∷ cs) (with_items s items) ∙ ap answered (added s items _)

  read_more : (fuel : ℕ) → MoreIsRead fuel
  unfolding MoreIsRead read_state read_all
  read_more zero cursor s = refl
  read_more (suc fuel) cursor s =
      let p = page_of msg_name (suc n) (query msg_name (suc n + 1) cursor rows) in
      state_step fuel cursor s
      ∙ ap (state_round fuel s) (h.page cursor)
      ∙ more_pages fuel s p.items p.next_cursor (read_more fuel)
      ∙ ap (λ o. answered (Option.map (λ r. with_items s r) o)) (sym (read_all_step fuel cursor))

  first_round : ℕ → Result E GetObjectStateResponse → Option (Result E GetObjectStateResponse)
  first_round fuel (err e) = some (err e)
  first_round fuel panic = some panic
  first_round fuel (ok resp) = elim resp.next_page_token [
    | [] ↦ some (ok resp)
    | c ∷ cs ↦ read_state client rq fuel (c ∷ cs) (some resp)
  ]

  first_step :
      (fuel : ℕ) (cursor : Str)
      → read_state client rq (suc fuel) cursor none
        ≡ first_round fuel (client.call_get_object_state (rq cursor))
  unfolding read_state first_round
  first_step fuel cursor = refl

  joined_pages :
      (token : Str) (items : List ItemMsg) (o : Option (List ItemMsg))
      → Option.map
          (λ r. with_items (page_response info (record { items = items; next_cursor = token })) r)
          o
        ≡ Option.map
            (λ r. page_response info (record { items = r; next_cursor = token }))
            (Option.map (λ r. items ++ r) o)
  joined_pages token items none = refl
  joined_pages token items (some r) = refl

  first_page :
      (fuel : ℕ) (items : List ItemMsg) (token : Str)
      → first_round fuel (ok (page_response info (record { items = items; next_cursor = token })))
        ≡ answered (
            Option.map
              (λ r. page_response info (record { items = r; next_cursor = token }))
              (next_pages fuel items token))
  unfolding next_pages first_round MoreIsRead
  first_page fuel items [] = refl
  first_page fuel items (c ∷ cs) =
      read_more fuel (c ∷ cs) (page_response info (record { items = items; next_cursor = c ∷ cs }))
      ∙ ap answered (joined_pages (c ∷ cs) items _)

  -- All pages together: every child whose name is not empty, in ascending order, with the other
  -- details of the first page, its token included.
  pub read_state_lem :
      (fuel : ℕ)
      → let all = above msg_name [] (sort_by msg_name rows) in
        let first = page_of msg_name (suc n) (query msg_name (suc n + 1) [] rows) in
        length rows ≤ fuel
        → read_state client rq (suc fuel) [] none
          ≡ some (ok (record info { children = all; next_page_token = first.next_cursor }))
  read_state_lem fuel l =
      let all = above msg_name [] (sort_by msg_name rows) in
      let p = page_of msg_name (suc n) (query msg_name (suc n + 1) [] rows) in
      first_step fuel []
      ∙ ap (first_round fuel) (h.page [])
      ∙ first_page fuel p.items p.next_cursor
      ∙ ap
          (λ o. answered (
            Option.map (λ r. page_response info (record { items = r; next_cursor = p.next_cursor }))
              o))
          (sym (read_all_step fuel [])
            ∙ read_all_lem msg_name (suc fuel) n [] rows h.distinct
                (omega (arith, length-above-sort_by msg_name [] rows)))

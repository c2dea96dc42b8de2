-- ===== src/Ox/Completing.antt =====
-- What the completion of a path collects, over all pages of a directory.
use ocfl_index.Base.{
  ℕ, zero, suc, ◌+◌, ◌≤◌, ◌≡◌, refl, sym, ap, ◌∙◌, not, Option, some, List, [], ◌∷◌, ◌++◌, arith,
  length, Result, ok, err, panic, if◌then◌else◌, Bool-cases, inl, inr,
}
use mathlib.Core.List.{append_assoc}
use ocfl_index.Text.{Str, has_prefix}
use ocfl_index.Text.Paths.{path_join}
use ocfl_index.Paging.{page_of, query, above, sort_by}
use ocfl_index.Paging.Order.{length-above-sort_by}
use ocfl_index.Paging.Pages.{read_all, read_all_lem}
use ocfl_index.Service.{ItemMsg, GetObjectStateResponse}
use ocfl_index.Service.Handlers.{GetObjectStateRequest}
use ocfl_index.Ox.{Client, CmdErr, call_failed}
use ocfl_index.Ox.Ls.{completions, complete_pages}
use ocfl_index.Ox.Reading.{msg_name, page_response, IsPagedState, next_pages, read_all_step}
use ocfl_index.Ox.Lines.{map-some}

completions-append :
    (dir prefix : Str) (xs ys : List ItemMsg)
    → completions dir prefix (xs ++ ys) ≡ completions dir prefix xs ++ completions dir prefix ys
unfolding completions
completions-append dir prefix [] ys = refl
completions-append dir prefix (x ∷ xs) ys =
    elim (Bool-cases (has_prefix (path_join dir x.name) prefix)) [
      | inl e ↦ rw (e, completions-append dir prefix xs ys) refl
      | inr e ↦ rw (e, completions-append dir prefix xs ys) refl
    ]

module _ {E : Type 0} (client : Client E) (rq : Str → GetObjectStateRequest)
    (info : GetObjectStateResponse) (n : ℕ) (rows : List ItemMsg)
    (h : IsPagedState client rq info n rows) where
  abbrev response : List ItemMsg → Str → Result E GetObjectStateResponse
  response items token = ok (page_response info (record { items = items; next_cursor = token }))

  completion_round :
      (dir prefix : Str)
      → ℕ
      → List Str
      → Result E GetObjectStateResponse
      → Option (Result (CmdErr E) (List Str))
  completion_round dir prefix fuel entries (err e) = some (err (call_failed e))
  completion_round dir prefix fuel entries panic = some panic
  completion_round dir prefix fuel entries (ok resp) =
      if not resp.isdir then some (ok []) else elim resp.next_page_token [
        | [] ↦ some (ok (entries ++ completions dir prefix resp.children))
        | c ∷ cs ↦
            complete_pages client rq dir prefix fuel (c ∷ cs)
              (entries ++ completions dir prefix resp.children)
      ]

  completion_step :
      (dir prefix : Str) (fuel : ℕ) (cursor : Str) (entries : List Str)
      → complete_pages client rq dir prefix (suc fuel) cursor entries
        ≡ completion_round dir prefix fuel entries (client.call_get_object_state (rq cursor))
  unfolding complete_pages completion_round
  completion_step dir prefix fuel cursor entries = refl

  Collects : (dir prefix : Str) → ℕ → Type 0
  Collects dir prefix fuel =
      (cursor : Str) (entries : List Str) (out : List ItemMsg)
      → read_all msg_name fuel (suc n) cursor rows ≡ some out
      → complete_pages client rq dir prefix fuel cursor entries
        ≡ some (ok (entries ++ completions dir prefix out))

  completion_page :
      (dir prefix : Str) (fuel : ℕ) (entries : List Str) (items : List ItemMsg) (token : Str)
      (out : List ItemMsg)
      → Collects dir prefix fuel
      → next_pages client rq info n rows h fuel items token ≡ some out
      → completion_round dir prefix fuel entries (response items token)
        ≡ some (ok (entries ++ completions dir prefix out))
  unfolding completion_round next_pages Collects
  completion_page dir prefix fuel entries items [] out ih e =
      let same : items ≡ out = cc in rw (h.isdir, same) refl
  completion_page dir prefix fuel entries items (c ∷ cs) out ih e =
      let (o, r, j) = map-some (λ r. items ++ r) _ out e in
      rw
        (
          h.isdir,
          ih (c ∷ cs) (entries ++ completions dir prefix items) o r,
          ← j,
          completions-append dir prefix items o,
        )
        (ap (λ l. some (ok l))
          (append_assoc entries (completions dir prefix items) (completions dir prefix o)))

  collects : (dir prefix : Str) (fuel : ℕ) → Collects dir prefix fuel
  unfolding Collects read_all
  collects dir prefix zero cursor entries out e = cc
  collects dir prefix (suc fuel) cursor entries out e =
      let p = page_of msg_name (suc n) (query msg_name (suc n + 1) cursor rows) in
      completion_step dir prefix fuel cursor entries
      ∙ ap (completion_round dir prefix fuel entries) (h.page cursor)
      ∙ completion_page dir prefix fuel entries p.items p.next_cursor out (collects dir prefix fuel)
          (sym (read_all_step client rq info n rows h fuel cursor) ∙ e)

  -- All pages of a directory: the completions among every child.
  pub complete_pages_lem :
      (dir prefix : Str) (fuel : ℕ)
      → length rows ≤ fuel
      → complete_pages client rq dir prefix (suc fuel) [] []
        ≡ some (ok (completions dir prefix (above msg_name [] (sort_by msg_name rows))))
  unfolding Collects
  complete_pages_lem dir prefix fuel l = collects dir prefix (suc fuel) [] [] _ (
      read_all_lem msg_name (suc fuel) n [] rows h.distinct
        (omega (arith, length-above-sort_by msg_name [] rows)))

-- ===== src/Ox/Lines.antt =====
-- What the loops of ls and of the completion of paths print and collect, over all pages.
use ocfl_index.Base.{
  ℕ, zero, suc, ◌+◌, ◌≤◌, ◌≡◌, refl, sym, ap, ◌∙◌, Bool, true, false, not, Option, none, some, List,
  [], ◌∷◌, ◌++◌, arith, length, Result, ok, err, panic, if◌then◌else◌, ltb, Bool-cases, inl, inr,
}
use mathlib.Core.Option
use ocfl_index.Text.{Str}
use ocfl_index.Paging.{page_of, query, above, sort_by}
use ocfl_index.Paging.Order.{length-above-sort_by}
use ocfl_index.Paging.Pages.{read_all, read_all_lem}
use ocfl_index.Service.{ItemMsg, GetObjectStateResponse}
use ocfl_index.Service.Handlers.{GetObjectStateRequest}
use ocfl_index.Ox.{Client, Line, printed_digest, call_failed, Ran}
use ocfl_index.Ox.Ls.{child_lines, ls_pages, returned, print_lines}
use ocfl_index.Ox.Reading.{msg_name, page_response, IsPagedState, next_pages, read_all_step}

-- The end of a listing: a panic where a digest is too short.
abbrev pub finish : {E : Type 0} → List Line × Bool → Ran E
finish (ls, true) = returned ls (ok tt)
finish (ls, false) = returned ls panic

abbrev join_lines : List Line × Bool → List Line × Bool → List Line × Bool
join_lines (ls, true) (ms, w) = (ls ++ ms, w)
join_lines (ls, false) m = (ls, false)

one_more :
    (l : Line) (a b : List Line × Bool)
    → (let (ls, w) = join_lines a b in (l ∷ ls, w)) ≡ join_lines (let (ls, w) = a in (l ∷ ls, w)) b
one_more l (ls, true) b = refl
one_more l (ls, false) b = refl

child_lines-append :
    (xs ys : List ItemMsg) → child_lines (xs ++ ys) ≡ join_lines (child_lines xs) (child_lines ys)
unfolding child_lines
child_lines-append [] ys = refl
child_lines-append (x ∷ xs) ys = elim (Bool-cases (ltb (length x.digest) 8)) [
  | inl e ↦ rw e refl
  | inr e ↦ rw (e, child_lines-append xs ys) (one_more _ (child_lines xs) (child_lines ys))
]

pub map-some :
    {A B : Type 0} (f : A → B) (o : Option A) (y : B)
    → Option.map f o ≡ some y
    → (x : A) × (o ≡ some x) × (f x ≡ y)
map-some f none y h = cc
map-some f (some x) y h = (x, refl, cc)

finish-print :
    {E : Type 0}
    → (ls : List Line) (b : List Line × Bool)
    → print_lines {E = E} ls (finish b) ≡ finish (join_lines (ls, true) b)
finish-print ls (ms, true) = refl
finish-print ls (ms, false) = refl

module _ {E : Type 0} (client : Client E) (rq : Str → GetObjectStateRequest)
    (info : GetObjectStateResponse) (n : ℕ) (rows : List ItemMsg)
    (h : IsPagedState client rq info n rows) where
  abbrev response : List ItemMsg → Str → Result E GetObjectStateResponse
  response items token = ok (page_response info (record { items = items; next_cursor = token }))

  ls_go_on : ℕ → List Line × Bool → Str → Option (Ran E)
  ls_go_on fuel (ls, false) token = some (returned ls panic)
  ls_go_on fuel (ls, true) [] = some (returned ls (ok tt))
  ls_go_on fuel (ls, true) (c ∷ cs) = Option.map (print_lines ls) (ls_pages client rq fuel (c ∷ cs))

  ls_round : ℕ → Result E GetObjectStateResponse → Option (Ran E)
  ls_round fuel (err e) = some (returned [] (err (call_failed e)))
  ls_round fuel panic = some (returned [] panic)
  ls_round fuel (ok resp) =
      if not resp.isdir
      then some (returned (printed_digest resp.digest ∷ []) (ok tt))
      else let (ls, whole) = child_lines resp.children in
        if not whole then some (returned ls panic) else elim resp.next_page_token [
          | [] ↦ some (returned ls (ok tt))
          | c ∷ cs ↦ Option.map (print_lines ls) (ls_pages client rq fuel (c ∷ cs))
        ]

  ls_step :
      (fuel : ℕ) (cursor : Str)
      → ls_pages client rq (suc fuel) cursor
        ≡ ls_round fuel (client.call_get_object_state (rq cursor))
  unfolding ls_pages ls_round
  ls_step fuel cursor = refl

  ls_round_lem :
      (fuel : ℕ) (items : List ItemMsg) (token : Str)
      → ls_round fuel (response items token) ≡ ls_go_on fuel (child_lines items) token
  unfolding ls_round ls_go_on
  ls_round_lem fuel items token = rw h.isdir (on_lines fuel (child_lines items) token)
    where
      on_lines :
          (fuel : ℕ) (a : List Line × Bool) (token : Str)
          → (if not a.1 then some (returned a.0 panic) else elim token [
            | [] ↦ some (returned a.0 (ok tt))
            | c ∷ cs ↦ Option.map (print_lines a.0) (ls_pages client rq fuel (c ∷ cs))
          ])
            ≡ ls_go_on fuel a token
      on_lines fuel (ls, false) token = refl
      on_lines fuel (ls, true) [] = refl
      on_lines fuel (ls, true) (c ∷ cs) = refl

  then_more :
      (fuel c : ℕ) (cs : Str) (a b : List Line × Bool)
      → ls_pages client rq fuel (c ∷ cs) ≡ some (finish b)
      → ls_go_on fuel a (c ∷ cs) ≡ some (finish (join_lines a b))
  unfolding ls_go_on
  then_more fuel c cs (ls, true) b q =
      ap (Option.map (print_lines ls)) q ∙ ap some (finish-print ls b)
  then_more fuel c cs (ls, false) b q = refl

  LsReads : ℕ → Type 0
  LsReads fuel =
      (cursor : Str) (out : List ItemMsg)
      → read_all msg_name fuel (suc n) cursor rows ≡ some out
      → ls_pages client rq fuel cursor ≡ some (finish (child_lines out))

  ls_page :
      (fuel : ℕ) (items : List ItemMsg) (token : Str) (out : List ItemMsg)
      → LsReads fuel
      → next_pages client rq info n rows h fuel items token ≡ some out
      → ls_go_on fuel (child_lines items) token ≡ some (finish (child_lines out))
  unfolding next_pages LsReads ls_go_on
  ls_page fuel items [] out ih e = rw (← same) (last (child_lines items))
    where
      same : items ≡ out
      same = cc

      last : (a : List Line × Bool) → ls_go_on fuel a [] ≡ some (finish a)
      last (ls, true) = refl
      last (ls, false) = refl
  ls_page fuel items (c ∷ cs) out ih e =
      let (o, r, j) = map-some (λ r. items ++ r) _ out e in
      rw (← j, child_lines-append items o)
        (then_more fuel c cs (child_lines items) (child_lines o) (ih (c ∷ cs) o r))

  ls_reads : (fuel : ℕ) → LsReads fuel
  unfolding LsReads read_all
  ls_reads zero cursor out e = cc
  ls_reads (suc fuel) cursor out e =
      let p = page_of msg_name (suc n) (query msg_name (suc n + 1) cursor rows) in
      ls_step fuel cursor
      ∙ ap (ls_round fuel) (h.page cursor)
      ∙ ls_round_lem fuel p.items p.next_cursor
      ∙ ls_page fuel p.items p.next_cursor out (ls_reads fuel)
          (sym (read_all_step client rq info n rows h fuel cursor) ∙ e)

  -- All pages of a directory: the lines of every child, up to a digest that is too short.
  pub ls_pages_lem :
      (fuel : ℕ)
      → length rows ≤ fuel
      → ls_pages client rq (suc fuel) []
        ≡ some (finish (child_lines (above msg_name [] (sort_by msg_name rows))))
  unfolding LsReads
  ls_pages_lem fuel l = ls_reads (suc fuel) [] _ (
      read_all_lem msg_name (suc fuel) n [] rows h.distinct
        (omega (arith, length-above-sort_by msg_name [] rows)))

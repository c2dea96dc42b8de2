-- ===== src/Ox/OnePage.antt =====
-- The iterator within one page of objects: it gives each of them, and then ends or asks for the next.
use ocfl_index.Base.{
  ℕ, zero, suc, ◌+◌, ◌≤◌, ◌<◌, ◌≡◌, refl, ap, ◌∙◌, true, false, Option, none, some, List, [], ◌∷◌,
  ◌++◌, arith, length, drop, ok, err, panic,
}
use mathlib.Core.Option
use native.Mathlib.Numerals.{add-one}
use ocfl_index.Text.{Str, str_eq}
use ocfl_index.Paging.{Page}
use ocfl_index.Sqlite.Objects.{Parsers}
use ocfl_index.Service.{ObjectMsg, ListObjectsResponse, Printers}
use ocfl_index.Ox.{Client, bad_head, Ran}
use ocfl_index.Ox.Objects.{
  Pager, need_next_page, object_at, Next, next_object, line_of, print_before, list_loop, item, eof,
  failed, crash, parsed, deliver_object, deliver,
}

abbrev pub list_response : Page ObjectMsg → ListObjectsResponse
list_response p = record { objects = p.items; next_page_token = p.next_cursor }

drop-some :
    (k : ℕ) (xs : List ObjectMsg) (y : ObjectMsg) (ys : List ObjectMsg)
    → drop k xs ≡ y ∷ ys
    → (object_at k xs ≡ some y) × (drop (suc k) xs ≡ ys) × (k < length xs)
unfolding object_at
drop-some zero [] y ys h = cc
drop-some zero (x ∷ xs) y ys h = (cc, cc, omega arith)
drop-some (suc k) [] y ys h = cc
drop-some (suc k) (x ∷ xs) y ys h = let (a, b, c) = drop-some k xs y ys h in (a, b, omega arith)

object_at_end : (k : ℕ) (xs : List ObjectMsg) → length xs ≤ k → object_at k xs ≡ none
unfolding object_at
object_at_end k [] h = refl
object_at_end zero (x ∷ xs) h = absurd (omega arith)
object_at_end (suc k) (x ∷ xs) h = object_at_end k xs (omega arith)

-- The fuel for a list of objects before other fuel, and the place after them.
abbrev pub steps : List ObjectMsg → ℕ → ℕ
steps [] f = f
steps (m ∷ ms) f = suc (steps ms f)

abbrev past : List ObjectMsg → ℕ → ℕ
past [] k = k
past (m ∷ ms) k = past ms (suc k)

past-length : (ms : List ObjectMsg) (k : ℕ) → past ms k ≡ length ms + k
past-length [] k = omega arith
past-length (m ∷ ms) k = omega (arith, past-length ms (suc k))

pub steps-length : (ms : List ObjectMsg) (f : ℕ) → steps ms f ≡ length ms + f
steps-length [] f = omega arith
steps-length (m ∷ ms) f = omega (arith, steps-length ms f)

pub steps-append : (xs ys : List ObjectMsg) (f : ℕ) → steps (xs ++ ys) f ≡ steps xs (steps ys f)
steps-append [] ys f = refl
steps-append (x ∷ xs) ys f = ap suc (steps-append xs ys f)

module _ (P : Parsers) (W : Printers P) where
  abbrev first_ran : {E : Type 0} → ObjectMsg → Option (Parsers.VNum P) → Ran E → Ran E
  first_ran m none rest = record { printed = []; result = err bad_head }
  first_ran m (some v) rest =
      print_before
        (line_of P W (record {
          id = m.object_id;
          head = v;
          v1_created = m.v1_created;
          head_created = m.v1_created;
        }))
        rest

  -- What the loop prints of a list of objects: up to one whose head cannot be parsed.
  unfoldable pub objects_ran : {E : Type 0} → List ObjectMsg → Ran E
  objects_ran [] = record { printed = []; result = ok tt }
  objects_ran (m ∷ ms) = first_ran m (Parsers.parse_vnum P m.head) (objects_ran ms)

module _ {E : Type 0} (P : Parsers) (W : Printers P) (client : Client E) (prefix : Str)
    (limit : ℕ) where
  abbrev before : ObjectMsg → Option (Parsers.VNum P) → Option (Ran E) → Option (Ran E)
  before m none o = some (record { printed = []; result = err bad_head })
  before m (some v) o = Option.map (first_ran P W m (some v)) o

  unfoldable pub ran_before : List ObjectMsg → Option (Ran E) → Option (Ran E)
  ran_before [] o = o
  ran_before (m ∷ ms) o = before m (Parsers.parse_vnum P m.head) (ran_before ms o)

  pub ran_before_lem :
      (ms rest : List ObjectMsg)
      → ran_before ms (some (objects_ran P W rest)) ≡ some (objects_ran P W (ms ++ rest))
  unfolding ran_before objects_ran
  ran_before_lem [] rest = refl
  ran_before_lem (m ∷ ms) rest =
      ap (before m (Parsers.parse_vnum P m.head)) (ran_before_lem ms rest)
      ∙ go (Parsers.parse_vnum P m.head)
    where
      go :
          (v : Option (Parsers.VNum P))
          → before m v (some (objects_ran P W (ms ++ rest)))
            ≡ some (first_ran P W m v (objects_ran P W (ms ++ rest)))
      go none = refl
      go (some v) = refl

  -- The pager in a page, before its object k.
  abbrev pub at_object : ListObjectsResponse → ℕ → Pager
  at_object r k = record {
    prefix = prefix;
    limit = limit;
    next_page = r.next_page_token;
    results = some r;
    i = k;
  }

  in_page :
      (r : ListObjectsResponse) (k : ℕ)
      → k < length r.objects
      → need_next_page (at_object r k) ≡ false
  unfolding need_next_page
  in_page r k l = ground arith

  unfoldable pub go_on : ℕ → Pager × Next P E → Option (Ran E)
  go_on f (p, item x) = Option.map (print_before (line_of P W x)) (list_loop P client W f p)
  go_on f (p, eof) = some (record { printed = []; result = ok tt })
  go_on f (p, failed e) = some (record { printed = []; result = err e })
  go_on f (p, crash) = some (record { printed = []; result = panic })

  pub loop_round :
      (f : ℕ) (p : Pager) → list_loop P client W (suc f) p ≡ go_on f (next_object P client p)
  unfolding list_loop go_on
  loop_round f p = refl

  pub next_in_page :
      (r : ListObjectsResponse) (k : ℕ)
      → need_next_page (at_object r k) ≡ false
      → next_object P client (at_object r k)
        ≡ deliver_object P client (at_object r k) (object_at k r.objects)
  unfolding next_object deliver
  next_in_page r k e = rw e refl

  one_object :
      (r : ListObjectsResponse) (k f : ℕ) (m : ObjectMsg)
      → object_at k r.objects ≡ some m
      → k < length r.objects
      → list_loop P client W (suc f) (at_object r k)
        ≡ before m (Parsers.parse_vnum P m.head) (list_loop P client W f (at_object r (suc k)))
  unfolding deliver_object parsed go_on
  one_object r k f m e l =
      loop_round f (at_object r k)
      ∙ ap (go_on f)
          (next_in_page r k (in_page r k l) ∙ ap (deliver_object P client (at_object r k)) e)
      ∙ rw (add-one k) (go (Parsers.parse_vnum P m.head))
    where
      go :
          (v : Option (Parsers.VNum P))
          → go_on f (at_object r (suc k), parsed P client m v)
            ≡ before m v (list_loop P client W f (at_object r (suc k)))
      go none = refl
      go (some v) = refl

  page_objects :
      (r : ListObjectsResponse) (ms : List ObjectMsg) (k f : ℕ)
      → drop k r.objects ≡ ms
      → list_loop P client W (steps ms f) (at_object r k)
        ≡ ran_before ms (list_loop P client W f (at_object r (past ms k)))
  unfolding ran_before
  page_objects r [] k f e = refl
  page_objects r (m ∷ ms) k f e =
      let (a, b, l) = drop-some k r.objects m ms e in
      one_object r k (steps ms f) m a l
      ∙ ap (before m (Parsers.parse_vnum P m.head)) (page_objects r ms (suc k) f b)

  pub whole_page :
      (r : ListObjectsResponse) (f : ℕ)
      → list_loop P client W (steps r.objects f) (at_object r 0)
        ≡ ran_before r.objects (list_loop P client W f (at_object r (length r.objects)))
  whole_page r f =
      let len : past r.objects 0 ≡ length r.objects = omega (arith, past-length r.objects 0) in
      rw len at (page_objects r r.objects 0 f refl)

  pub last_page :
      (items : List ObjectMsg) (f : ℕ)
      → let r = list_response (record { items = items; next_cursor = [] }) in
        list_loop P client W (suc f) (at_object r (length items)) ≡ some (objects_ran P W [])
  unfolding need_next_page deliver_object go_on objects_ran str_eq
  last_page items f =
      let r = list_response (record { items = items; next_cursor = [] }) in
      loop_round f (at_object r (length items))
      ∙ ap (go_on f) (
          next_in_page r (length items) refl
          ∙ ap (deliver_object P client (at_object r (length items)))
              (object_at_end (length items) items (omega arith)))

  pub next_needed :
      (items : List ObjectMsg) (c : ℕ) (cs : Str)
      → 0 < length items
      → need_next_page (
          at_object (list_response (record { items = items; next_cursor = c ∷ cs })) (length items))
        ≡ true
  unfolding need_next_page str_eq
  next_needed items c cs l = ground arith

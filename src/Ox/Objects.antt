-- ===== src/Ox/Objects.antt =====
-- ListObjectsIterator of cmd/ox/cmd/root/root.go, and the commands of cmd/ox/cmd/ls/ls.go that list
-- objects: listObjects, which reads it to the end, and the completion of an object id.
use ocfl_index.Base.{
  ℕ, zero, suc, ◌+◌, ◌==◌, Bool, true, not, ◌&&◌, Option, none, some, List, [], ◌∷◌, map, length,
  ltb, if◌then◌else◌, Result, ok, err, panic, pos,
}
use mathlib.Core.Option
use ocfl_index.Text.{Str, str_eq}
use ocfl_index.Sqlite.Objects.{Parsers}
use ocfl_index.Service.{ObjectMsg, ListObjectsResponse, Printers, int32}
use ocfl_index.Service.Handlers.{ListObjectsRequest}
use ocfl_index.Ox.{Client, Line, printed_object, CmdErr, call_failed, bad_head, Ran}

-- ListObjectsIterator; `limit` is an int that is not negative
pub record Pager : Type 0 where
  pub prefix : Str
  pub limit : ℕ
  pub next_page : Str
  pub results : Option ListObjectsResponse
  pub i : ℕ

-- Cmd.ListObjects
abbrev pub new_pager : Str → ℕ → Pager
new_pager prefix page_size = record {
  prefix = prefix;
  limit = page_size;
  next_page = [];
  results = none;
  i = 0;
}

page_is_read : Pager → Option ListObjectsResponse → Bool
page_is_read p none = true
page_is_read p (some r) = not (str_eq p.next_page []) && (p.i == length r.objects && ltb 0 p.i)

unfoldable pub need_next_page : Pager → Bool
unfolding page_is_read
need_next_page p = page_is_read p p.results

-- pager.results.Objects[i]
unfoldable pub object_at : ℕ → List ObjectMsg → Option ObjectMsg
object_at i [] = none
object_at zero (x ∷ xs) = some x
object_at (suc i) (x ∷ xs) = object_at i xs

abbrev pub page_request : Pager → ListObjectsRequest
page_request p = record {
  page_token = p.next_page;
  page_size = int32 p.limit;
  id_prefix = p.prefix;
}

-- The index.ObjectListItem that Next makes: its other fields keep their zero values.
pub record Listed (P : Parsers) : Type 0 where
  pub id : Str
  pub head : Parsers.VNum P
  pub v1_created : ℕ
  pub head_created : ℕ

-- What a call of Next gives.
pub data Next (P : Parsers) (E : Type 0) : Type 0 where
  item : Listed P → Next P E
  eof : Next P E
  failed : CmdErr E → Next P E
  crash : Next P E

abbrev pub line_of : (P : Parsers) → Printers P → Listed P → Line
line_of P W x = printed_object x.id (Printers.print_vnum W x.head) x.head_created

abbrev pub print_before : {E : Type 0} → Line → Ran E → Ran E
print_before l r = record r { printed = l ∷ r.printed }

module _ {E : Type 0} (P : Parsers) (client : Client E) where
  -- The object as an item, its head parsed.
  unfoldable pub parsed : ObjectMsg → Option (Parsers.VNum P) → Next P E
  parsed m none = failed bad_head
  parsed m (some v) = item (record {
    id = m.object_id;
    head = v;
    v1_created = m.v1_created;
    head_created = m.v1_created;
  })

  unfoldable pub deliver_object : Pager → Option ObjectMsg → Pager × Next P E
  unfolding parsed
  deliver_object p none = (p, eof)
  deliver_object p (some m) = (record p { i = p.i + 1 }, parsed m (Parsers.parse_vnum P m.head))

  unfoldable pub deliver : Pager → Option ListObjectsResponse → Pager × Next P E
  unfolding object_at deliver_object
  deliver p none = (p, crash)
  deliver p (some r) = deliver_object p (object_at p.i r.objects)

  -- The pager with the next page, or the error.
  unfoldable pub fetched : Pager → Result E ListObjectsResponse → Pager × Next P E
  unfolding deliver
  fetched p (ok r) =
      deliver (record p { i = 0; results = some r; next_page = r.next_page_token }) (some r)
  fetched p (err e) = (record p { i = 0 }, failed (call_failed e))
  fetched p panic = (record p { i = 0 }, crash)

  -- ListObjectsIterator.Next
  unfoldable pub next_object : Pager → Pager × Next P E
  unfolding need_next_page fetched deliver
  next_object p =
      if need_next_page p
      then fetched p (client.call_list_objects (page_request p))
      else deliver p p.results

  module _ (W : Printers P) where
    -- The loop of listObjects.
    unfoldable pub list_loop : ℕ → Pager → Option (Ran E)
    unfolding next_object
    list_loop zero p = none
    list_loop (suc fuel) p =
        let s = next_object p in
        elim s.1 [
          | item x ↦ Option.map (print_before (line_of P W x)) (list_loop fuel s.0)
          | eof ↦ some (record { printed = []; result = ok tt })
          | failed e ↦ some (record { printed = []; result = err e })
          | crash ↦ some (record { printed = []; result = panic })
        ]

    -- listObjects
    unfoldable pub list_all_objects : ℕ → Option (Ran E)
    unfolding list_loop
    list_all_objects fuel = list_loop fuel (new_pager [] 1000)

abbrev pub message_id : ObjectMsg → Str
message_id m = m.object_id

complete_ids : ListObjectsResponse → List Str
complete_ids resp = if str_eq resp.next_page_token [] then map message_id resp.objects else []

-- completeObjectIDsPrefix: no completion if there are more than a page of them
unfoldable pub complete_object_ids_prefix :
    {E : Type 0} → Client E → Str → Result (CmdErr E) (List Str)
unfolding complete_ids
complete_object_ids_prefix client prefix =
    elim (client.call_list_objects
      (record { page_token = []; page_size = pos 1000; id_prefix = prefix })) [
        | ok resp ↦ ok (complete_ids resp)
        | err e ↦ err (call_failed e)
        | panic ↦ panic
      ]

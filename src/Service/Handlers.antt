-- ===== src/Service/Handlers.antt =====
-- The handlers of the service: ListObjects, GetObject, GetObjectState, GetStatus, IndexAll and
-- IndexIDs. `int(page size)` keeps the sign of an int32, and ListObjects treats every number
-- below 1 alike.
use ocfl_index.Base.{ℕ, Bool, Option, none, some, [], ◌∷◌, Result, ok, err, panic, ℤ, pos, negsuc}
use ocfl_index.Text.{Str, bytes}
use ocfl_index.Sqlite.{IndexErr, parse_failed, Db}
use ocfl_index.Sqlite.Roots.{get_index_summary}
use ocfl_index.Sqlite.Objects.{Parsers, list_objects}
use ocfl_index.Sqlite.State.{get_object, get_object_state}
use ocfl_index.Async.{Async, next, refused, blocked, panics, step, try_now}
use ocfl_index.Service.{
  ListObjectsResponse, GetObjectStateResponse, GetObjectResponse, Printers, numbers, int32,
  as_get_object_state_response, as_object_list_response, as_get_object_response,
}

pub record ListObjectsRequest : Type 0 where
  pub page_token : Str
  pub page_size : ℤ
  pub id_prefix : Str

pub record GetObjectStateRequest : Type 0 where
  pub object_id : Str
  pub version : Str
  pub base_path : Str
  pub recursive : Bool
  pub page_token : Str
  pub page_size : ℤ

abbrev pub at_least_zero : ℤ → ℕ
at_least_zero (pos n) = n
at_least_zero (negsuc n) = 0

-- `if err != nil { return nil, err }` before the conversion of the value
abbrev pub answer {ℓ κ} :
    {A : Type ℓ} {B : Type κ} → (A → B) → Result IndexErr A → Result IndexErr B
answer f (ok a) = ok (f a)
answer f (err e) = err e
answer f panic = panic

-- The version number of a request: the zero value if the text is empty.
unfoldable pub parse_version : (P : Parsers) → Str → Option (Option (Parsers.VNum P))
parse_version P [] = some none
parse_version P (c ∷ v) = elim (Parsers.parse_vnum P (c ∷ v)) [
  | none ↦ none
  | some n ↦ some (some n)
]

module _ (P : Parsers) (W : Printers P) (like : Str → Str → Bool) where
  -- Service.ListObjects
  unfoldable pub list_objects_handler :
      ListObjectsRequest → Db → Result IndexErr ListObjectsResponse
  unfolding list_objects as_object_list_response
  list_objects_handler rq db =
      answer (as_object_list_response P W)
        (list_objects P like rq.id_prefix (at_least_zero rq.page_size) rq.page_token db)

  -- Service.GetObject
  unfoldable pub get_object_handler : Str → Db → Result IndexErr GetObjectResponse
  unfolding get_object as_get_object_response
  get_object_handler object_id db = answer (as_get_object_response P W) (get_object P object_id db)

  -- Service.GetObjectState
  unfoldable pub get_object_state_handler :
      GetObjectStateRequest → Db → Result IndexErr GetObjectStateResponse
  unfolding parse_version get_object_state as_get_object_state_response
  get_object_state_handler rq db = elim (parse_version P rq.version) [
    | none ↦ err parse_failed
    | some v ↦ answer as_get_object_state_response (
        get_object_state (numbers P W) like rq.object_id v rq.base_path rq.recursive rq.page_size
          rq.page_token db)
  ]

-- GetStore: the description and the specification of the storage root
pub record Store : Type 0 where
  pub description : Str
  pub spec : Str

pub record GetStatusResponse : Type 0 where
  pub status : Str
  pub store_root_path : Str
  pub store_spec : Str
  pub store_description : Str
  pub num_object_paths : ℤ
  pub num_inventories : ℤ

-- Service.GetStatus
unfoldable pub get_status : Str → Option Store → Async → Db → Option GetStatusResponse
unfolding get_index_summary int32
get_status root_path none s db = none
get_status root_path (some store) s db =
    let summ = get_index_summary db in
    some (record {
      status = s.status;
      store_root_path = root_path;
      store_spec = store.spec;
      store_description = store.description;
      num_object_paths = int32 summ.num_objects;
      num_inventories = int32 summ.num_inventories;
    })

-- What a handler that starts an indexing task returns.
pub data Indexing (E : Type 0) : Type 0 where
  done : Indexing E
  already_running : Indexing E
  failed : E → Indexing E
  crashed : Indexing E
  waits : Indexing E

-- Service.IndexAll: the answer does not wait for the task.
unfoldable pub index_all : {E : Type 0} → ℕ → Async → Indexing E × Async
unfolding step
index_all id s = elim (step (try_now (record { name = bytes "indexing"; id = id })) s) [
  | next s' ↦ (done, s')
  | refused s' ↦ (already_running, s')
  | blocked ↦ (waits, s)
  | panics ↦ (crashed, s)
]

abbrev task_answer : {E : Type 0} → Option E → Indexing E
task_answer none = done
task_answer (some e) = failed e

-- Service.IndexIDs: the answer is that of the task, which it waits for.
unfoldable pub index_ids : {E : Type 0} → ℕ → Option E → Async → Indexing E × Async
unfolding step
index_ids id task_err s = elim (step (try_now (record { name = bytes "indexing"; id = id })) s) [
  | next s' ↦ (task_answer task_err, s')
  | refused s' ↦ (already_running, s')
  | blocked ↦ (waits, s)
  | panics ↦ (crashed, s)
]

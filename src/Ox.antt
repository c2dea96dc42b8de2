-- ===== src/Ox.antt =====
-- cmd/ox: the command line client, over the calls of the service that it makes. A command's result
-- is what it prints, line by line, with the error it returns, if any; the lines keep their parts,
-- and times are instants. Loops run on fuel, which bounds the number of pages or objects read.
pub mod Export
pub mod Ls
pub mod Objects
pub mod Reading
pub mod Lines
pub mod Completing
pub mod Composed
pub mod OnePage
pub mod Iterating
pub mod Listing
mod Witnesses
use ocfl_index.Base.{ℕ, Bool, Option, List, Result, ok}
use ocfl_index.Text.{Str}
use ocfl_index.Paging.{Page}
use ocfl_index.Sqlite.{IndexErr, Db}
use ocfl_index.Sqlite.Objects.{Parsers}
use ocfl_index.Service.{
  ListObjectsResponse, GetObjectStateResponse, GetObjectResponse, ItemMsg, ObjectMsg, Printers,
}
use ocfl_index.Service.Handlers.{
  ListObjectsRequest, GetObjectStateRequest, list_objects_handler, get_object_handler,
  get_object_state_handler,
}

-- The calls of ocflv1connect.IndexServiceClient that the commands make.
pub record Client (E : Type 0) : Type 0 where
  pub call_list_objects : ListObjectsRequest → Result E ListObjectsResponse
  pub call_get_object : Str → Result E GetObjectResponse
  pub call_get_object_state : GetObjectStateRequest → Result E GetObjectStateResponse
  pub call_index_ids : List Str → Result E (Unit {0})

-- The client of a service over a database that does not change.
unfoldable pub service_client :
    (P : Parsers)
    → Printers P
    → (Str → Str → Bool)
    → (List Str → Result IndexErr (Unit {0}))
    → Db
    → Client IndexErr
unfolding list_objects_handler get_object_handler get_object_state_handler
service_client P W like index_ids db = record {
  call_list_objects = λ rq. list_objects_handler P W like rq db;
  call_get_object = λ id. get_object_handler P W like id db;
  call_get_object_state = λ rq. get_object_state_handler P W like rq db;
  call_index_ids = index_ids;
}

-- What a command prints.
pub data Line : Type 0 where
  printed_digest : Str → Line
  printed_child : Str → ℕ → Str → Line
  printed_object : Str → Str → ℕ → Line
  printed_version : Str → Str → ℕ → Line

pub data CmdErr (E : Type 0) : Type 0 where
  call_failed : E → CmdErr E
  reindex_failed : E → CmdErr E
  bad_head : CmdErr E
  invalid_path : CmdErr E
  canceled : Str → CmdErr E
  state_failed : E → CmdErr E

pub record Ran (E : Type 0) : Type 0 where
  pub printed : List Line
  pub result : Result (CmdErr E) (Unit {0})

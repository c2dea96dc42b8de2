-- ===== src/Service.antt =====
-- internal/index/service.go: the messages that the service answers with, its handlers over the
-- backend and the indexing task, and the download of a file by its digest. A timestamp of a message
-- stands for the instant it is made from. The storage root, which GetStore reads, the files, which
-- OpenFile opens, and the texts of errors are arguments; http.NotFound and http.Error are written
-- out as net/http has them.
pub mod Handlers
pub mod Download
use ocfl_index.Base.{
  ℕ, zero, suc, ◌-◌, Bool, true, false, Option, none, some, List, map, ℤ, pos, negsuc, ltb,
  if◌then◌else◌, ◌%◌,
}
use ocfl_index.Text.{Str}
use ocfl_index.Paging.{Page}
use ocfl_index.Sqlite.Versions.{User, VNumbers}
use ocfl_index.Sqlite.Objects.{Parsers, ObjectListItem}
use ocfl_index.Sqlite.Details.{PathItem, Object, ObjectVersion}
use ocfl_index.Sqlite.State.{PathInfo}

-- ListObjectsResponse_Object, ListObjectsResponse
pub record ObjectMsg : Type 0 where
  pub object_id : Str
  pub head : Str
  pub v1_created : ℕ
  pub head_created : ℕ

pub record ListObjectsResponse : Type 0 where
  pub objects : List ObjectMsg
  pub next_page_token : Str

-- GetObjectStateResponse_Item, GetObjectStateResponse
pub record ItemMsg : Type 0 where
  pub name : Str
  pub isdir : Bool
  pub size : ℕ
  pub has_size : Bool
  pub digest : Str

pub record GetObjectStateResponse : Type 0 where
  pub digest : Str
  pub isdir : Bool
  pub size : ℕ
  pub has_size : Bool
  pub children : List ItemMsg
  pub next_page_token : Str

-- GetObjectResponse_Version: its size fields keep their zero values
pub record VersionMsg : Type 0 where
  pub num : Str
  pub message : Str
  pub created : ℕ
  pub user : Option User
  pub size : ℕ
  pub has_size : Bool

-- GetObjectResponse: IndexedAt keeps its zero value
pub record GetObjectResponse : Type 0 where
  pub object_id : Str
  pub spec : Str
  pub root_path : Str
  pub digest_algorithm : Str
  pub versions : List VersionMsg
  pub indexed_at : Option ℕ

-- int32(n)
unfoldable pub int32 : ℕ → ℤ
int32 n = let w = n % 4294967296 in if ltb w 2147483648 then pos w else negsuc (4294967295 - w)

-- String() of a version number and of a specification, with Num().
pub record Printers (P : Parsers) : Type 0 where
  pub num : Parsers.VNum P → ℕ
  pub print_vnum : Parsers.VNum P → Str
  pub print_spec : Parsers.Spec P → Str

abbrev pub numbers : (P : Parsers) → Printers P → VNumbers
numbers P W = record { VNum = Parsers.VNum P; num = Printers.num W; string = Printers.print_vnum W }

unfoldable pub item_msg : PathItem → ItemMsg
item_msg p = record {
  name = p.name;
  isdir = p.is_dir;
  size = p.size;
  has_size = p.has_size;
  digest = p.sum;
}

unfoldable pub as_get_object_state_response : PathInfo → GetObjectStateResponse
unfolding item_msg
as_get_object_state_response inf = record {
  digest = inf.sum;
  isdir = inf.is_dir;
  size = inf.size;
  has_size = inf.has_size;
  children = map item_msg inf.children;
  next_page_token = inf.next_cursor;
}

module _ (P : Parsers) (W : Printers P) where
  open W use {print_vnum, print_spec}

  unfoldable pub object_msg : ObjectListItem P → ObjectMsg
  object_msg obj = record {
    object_id = obj.id;
    head = print_vnum obj.head;
    v1_created = obj.v1_created;
    head_created = obj.head_created;
  }

  unfoldable pub as_object_list_response : Page (ObjectListItem P) → ListObjectsResponse
  unfolding object_msg
  as_object_list_response objects = record {
    objects = map object_msg objects.items;
    next_page_token = objects.next_cursor;
  }

  unfoldable pub version_msg : ObjectVersion P → VersionMsg
  version_msg v = record {
    num = print_vnum v.num;
    message = v.message;
    created = v.created;
    user = v.user;
    size = 0;
    has_size = false;
  }

  unfoldable pub as_get_object_response : Object P → GetObjectResponse
  unfolding version_msg
  as_get_object_response obj = record {
    object_id = obj.id;
    spec = print_spec obj.spec;
    root_path = obj.root_path;
    digest_algorithm = obj.digest_algorithm;
    versions = map version_msg obj.versions;
    indexed_at = none;
  }

-- ===== src/Ox/Export.antt =====
-- internal commands of cmd/ox/cmd/export/export.go: its arguments, the checks before it copies, and
-- getFullObjectState, which reads all pages of an object's state. What os.Stat, os.ReadDir and
-- os.Mkdir find are arguments, as are filepath.Clean and the place of a child in the destination.
use ocfl_index.Base.{
  ℕ, zero, suc, ◌==◌, true, Option, none, some, List, [], ◌∷◌, ◌++◌, if◌then◌else◌, Result, ok, err,
  panic, pos,
}
use ocfl_index.Text.{Str, bytes, str_eq}
use ocfl_index.Text.Paths.{dot}
use ocfl_index.Service.{ItemMsg, GetObjectStateResponse}
use ocfl_index.Service.Handlers.{GetObjectStateRequest}
use ocfl_index.Ox.{Client, CmdErr, canceled, state_failed}

pub record Args : Type 0 where
  pub object_id : Str
  pub dst : Str

-- ParseArgs: exactly two arguments
unfoldable pub parse_args : (Str → Str) → List Str → Option Args
parse_args clean_path (id ∷ dst ∷ []) = some (record { object_id = id; dst = clean_path dst })
parse_args clean_path [] = none
parse_args clean_path (id ∷ []) = none
parse_args clean_path (id ∷ dst ∷ x ∷ xs) = none

-- The request for a page of all files.
abbrev pub state_request : Str → Str → Str → Str → GetObjectStateRequest
state_request object_id version src cursor = record {
  object_id = object_id;
  version = version;
  base_path = src;
  recursive = true;
  page_token = cursor;
  page_size = pos 1000;
}

-- `state == nil`, or the children appended to those of the first response
abbrev pub add_page :
    Option GetObjectStateResponse → GetObjectStateResponse → GetObjectStateResponse
add_page none resp = resp
add_page (some state) resp = record state { children = state.children ++ resp.children }

module _ {E : Type 0} (client : Client E) where
  -- The loop of getFullObjectState.
  unfoldable pub read_state :
      (Str → GetObjectStateRequest)
      → ℕ
      → Str
      → Option GetObjectStateResponse
      → Option (Result E GetObjectStateResponse)
  read_state rq zero cursor state = none
  read_state rq (suc fuel) cursor state = elim (client.call_get_object_state (rq cursor)) [
    | err e ↦ some (err e)
    | panic ↦ some panic
    | ok resp ↦ elim resp.next_page_token [
      | [] ↦ some (ok (add_page state resp))
      | c ∷ cs ↦ read_state rq fuel (c ∷ cs) (some (add_page state resp))
    ]
  ]

  -- getFullObjectState
  unfoldable pub get_full_object_state :
      ℕ → Str → Str → Str → Option (Result E GetObjectStateResponse)
  unfolding read_state
  get_full_object_state fuel object_id version src =
      read_state (state_request object_id version src) fuel [] none

-- os.Stat: nothing there, a regular file, a directory, something else, or an error
pub data Stat : Type 0 where
  absent regular directory other : Stat
  stat_failed : Str → Stat

pub data DstMode : Type 0 where
  dst_not_exist dst_exist_dir dst_exist_file : DstMode

unfoldable pub stat_dst : Stat → Result Str DstMode
stat_dst absent = ok dst_not_exist
stat_dst regular = ok dst_exist_file
stat_dst directory = ok dst_exist_dir
stat_dst other = err (bytes "destination exists but is not a regular file or directory")
stat_dst (stat_failed e) = err e

-- srcFile, with its destination
pub record Copy : Type 0 where
  pub dst : Str
  pub name : Str
  pub sum : Str

-- `copies[dst] = srcFile{...}`: a later child of one destination replaces an earlier one
unfoldable pub put_copy : Copy → List Copy → List Copy
put_copy c [] = c ∷ []
put_copy c (d ∷ ds) = if str_eq d.dst c.dst then c ∷ ds else d ∷ put_copy c ds

unfoldable pub put_copies : (Str → Str) → List ItemMsg → List Copy → List Copy
unfolding put_copy
put_copies place [] cs = cs
put_copies place (x ∷ xs) cs =
    put_copies place xs (put_copy (record { dst = place x.name; name = x.name; sum = x.digest }) cs)

-- The number of items in the directory, or the error of os.ReadDir; the error of os.Mkdir, if any.
pub record Disk : Type 0 where
  pub stat : Stat
  pub items : Result Str ℕ
  pub mkdir_error : Option Str

-- `switch dstmod`
unfoldable pub prepare_dst : Disk → DstMode → Option Str
prepare_dst disk dst_exist_dir = elim disk.items [
  | ok n ↦ if n == 0 then none else some (bytes "destination directory is not empty")
  | err e ↦ some e
  | panic ↦ some []
]
prepare_dst disk dst_not_exist = disk.mkdir_error
prepare_dst disk dst_exist_file = none

-- What Run copies, in no order, once its checks have passed.
copies_of :
    {E : Type 0}
    → (Str → Str)
    → Disk
    → DstMode
    → GetObjectStateResponse
    → Result (CmdErr E) (List Copy)
unfolding put_copies prepare_dst
copies_of place disk mode state = elim (prepare_dst disk mode) [
  | none ↦ ok (put_copies place state.children [])
  | some e ↦ err (canceled e)
]

export_state :
    {E : Type 0}
    → (Str → Str)
    → Disk
    → DstMode
    → Result E GetObjectStateResponse
    → Result (CmdErr E) (List Copy)
unfolding copies_of
export_state place disk mode (ok state) = copies_of place disk mode state
export_state place disk mode (err e) = err (state_failed e)
export_state place disk mode panic = panic

export_mode :
    {E : Type 0}
    → (Str → Str)
    → Disk
    → Option (Result E GetObjectStateResponse)
    → DstMode
    → Option (Result (CmdErr E) (List Copy))
unfolding export_state
export_mode place disk state dst_exist_file =
    some (err (canceled (bytes "destination must be a directory")))
export_mode place disk none mode = none
export_mode place disk (some r) mode = some (export_state place disk mode r)

-- Run, up to the downloads
unfoldable pub export_run :
    {E : Type 0}
    → Client E
    → (Str → Str)
    → Disk
    → ℕ
    → Args
    → Str
    → Option (Result (CmdErr E) (List Copy))
unfolding stat_dst export_mode get_full_object_state
export_run client place disk fuel args version =
    let state = get_full_object_state client fuel args.object_id version dot in
    if str_eq args.dst []
    then some (err (canceled (bytes "no destination path to copy to")))
    else elim (stat_dst disk.stat) [
      | err e ↦ some (err (canceled e))
      | panic ↦ some panic
      | ok mode ↦ export_mode place disk state mode
    ]

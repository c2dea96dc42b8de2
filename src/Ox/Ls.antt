-- ===== src/Ox/Ls.antt =====
-- The command ls of cmd/ox/cmd/ls/ls.go: the lists of objects, of an object's versions and of a
-- directory, and the completion of a path.
use ocfl_index.Base.{
  ℕ, zero, suc, ◌==◌, Bool, true, false, not, Option, none, some, List, [], ◌∷◌, ◌++◌, length, take,
  ltb, if◌then◌else◌, Result, ok, err, panic, pos,
}
use mathlib.Core.Option
use ocfl_index.Text.{Str, slash, str_eq, has_prefix}
use ocfl_index.Text.Paths.{dot, path_dir, path_join}
use ocfl_index.Sqlite.Objects.{Parsers}
use ocfl_index.Service.{ItemMsg, VersionMsg, Printers}
use ocfl_index.Service.Handlers.{GetObjectStateRequest}
use ocfl_index.Ox.{
  Client, Line, printed_digest, printed_child, printed_version, CmdErr, call_failed, reindex_failed,
  invalid_path, Ran,
}
use ocfl_index.Ox.Objects.{list_all_objects}

-- The flags and arguments of the command.
pub record LsCmd : Type 0 where
  pub object_id : Str
  pub dir : Str
  pub version : Str
  pub recursive : Bool
  pub versions : Bool
  pub reindex : Bool

-- ParseArgs
unfoldable pub parse_ls_args : List Str → LsCmd → LsCmd
parse_ls_args [] ls = ls
parse_ls_args (id ∷ []) ls = record ls { object_id = id }
parse_ls_args (id ∷ dir ∷ xs) ls = record ls { object_id = id; dir = dir }

abbrev pub dir_request : Str → Str → Str → Bool → Str → GetObjectStateRequest
dir_request id version dir recursive cursor = record {
  object_id = id;
  version = version;
  base_path = dir;
  recursive = recursive;
  page_token = cursor;
  page_size = pos 1000;
}

-- A directory's name ends in a slash.
abbrev pub shown_name : Bool → Str → Str
shown_name isdir n = if isdir then n ++ (slash ∷ []) else n

-- The lines of a page, up to the child whose `Digest[0:8]` is out of range, and whether there is none.
unfoldable pub child_lines : List ItemMsg → List Line × Bool
child_lines [] = ([], true)
child_lines (x ∷ xs) =
    let (ls, whole) = child_lines xs in
    if ltb (length x.digest) 8
    then ([], false)
    else (printed_child (take 8 x.digest) x.size (shown_name x.isdir x.name) ∷ ls, whole)

version_lines : List VersionMsg → List Line
version_lines [] = []
version_lines (v ∷ vs) = printed_version v.num v.message v.created ∷ version_lines vs

module _ {E : Type 0} where
  abbrev pub returned : List Line → Result (CmdErr E) (Unit {0}) → Ran E
  returned ls r = record { printed = ls; result = r }

  abbrev pub print_lines : List Line → Ran E → Ran E
  print_lines ls r = record r { printed = ls ++ r.printed }

  -- The loop over the pages of a directory.
  unfoldable pub ls_pages : Client E → (Str → GetObjectStateRequest) → ℕ → Str → Option (Ran E)
  unfolding child_lines
  ls_pages client rq zero cursor = none
  ls_pages client rq (suc fuel) cursor = elim (client.call_get_object_state (rq cursor)) [
    | err e ↦ some (returned [] (err (call_failed e)))
    | panic ↦ some (returned [] panic)
    | ok resp ↦
        if not resp.isdir
        then some (returned (printed_digest resp.digest ∷ []) (ok tt))
        else let (ls, whole) = child_lines resp.children in
          if not whole then some (returned ls panic) else elim resp.next_page_token [
            | [] ↦ some (returned ls (ok tt))
            | c ∷ cs ↦ Option.map (print_lines ls) (ls_pages client rq fuel (c ∷ cs))
          ]
  ]

  -- listObjectVersions
  unfoldable pub list_object_versions : Client E → Str → Ran E
  unfolding version_lines
  list_object_versions client id = elim (client.call_get_object id) [
    | ok resp ↦ returned (version_lines resp.versions) (ok tt)
    | err e ↦ returned [] (err (call_failed e))
    | panic ↦ returned [] panic
  ]

  -- doReindex
  unfoldable pub do_reindex : Client E → Str → Result (CmdErr E) (Unit {0})
  do_reindex client id = elim (client.call_index_ids (id ∷ [])) [
    | ok u ↦ ok tt
    | err e ↦ err (reindex_failed e)
    | panic ↦ panic
  ]

  -- Run, for an object
  unfoldable pub ls_object : Client E → ℕ → LsCmd → Option (Ran E)
  unfolding list_object_versions ls_pages
  ls_object client fuel ls =
      if ls.versions
      then some (list_object_versions client ls.object_id)
      else ls_pages client (dir_request ls.object_id ls.version ls.dir ls.recursive) fuel []

  -- Run: the client of the second half is the one after the reindexing
  unfoldable pub ls_run :
      (P : Parsers) → Printers P → Client E → Client E → ℕ → LsCmd → Option (Ran E)
  unfolding list_all_objects do_reindex ls_object
  ls_run P W client client' fuel ls =
      if str_eq ls.object_id []
      then list_all_objects P client W fuel
      else if ls.reindex
      then elim (do_reindex client ls.object_id) [
        | ok u ↦ ls_object client' fuel ls
        | err e ↦ some (returned [] (err e))
        | panic ↦ some (returned [] panic)
      ]
      else ls_object client fuel ls

-- path.IsAbs
is_abs : Str → Bool
is_abs [] = false
is_abs (c ∷ p) = c == slash

-- The paths of the children of `dir` that have the prefix.
unfoldable pub completions : Str → Str → List ItemMsg → List Str
unfolding path_join
completions dir prefix [] = []
completions dir prefix (x ∷ xs) =
    let p = path_join dir x.name in
    let rest = completions dir prefix xs in
    if not (has_prefix p prefix) then rest else shown_name x.isdir p ∷ rest

module _ {E : Type 0} (client : Client E) where
  -- The loop of completePathPrefix; a path that is no directory has no completion.
  unfoldable pub complete_pages :
      (Str → GetObjectStateRequest)
      → Str
      → Str
      → ℕ
      → Str
      → List Str
      → Option (Result (CmdErr E) (List Str))
  unfolding completions
  complete_pages rq dir prefix zero cursor entries = none
  complete_pages rq dir prefix (suc fuel) cursor entries =
      elim (client.call_get_object_state (rq cursor)) [
        | err e ↦ some (err (call_failed e))
        | panic ↦ some panic
        | ok resp ↦ if not resp.isdir then some (ok []) else elim resp.next_page_token [
          | [] ↦ some (ok (entries ++ completions dir prefix resp.children))
          | c ∷ cs ↦
              complete_pages rq dir prefix fuel (c ∷ cs)
                (entries ++ completions dir prefix resp.children)
        ]
      ]

  -- completePathPrefix
  unfoldable pub complete_path_prefix : ℕ → Str → Str → Str → Option (Result (CmdErr E) (List Str))
  unfolding path_dir is_abs complete_pages
  complete_path_prefix fuel version id prefix =
      let dir = path_dir prefix in
      if is_abs dir
      then some (err invalid_path)
      else complete_pages (dir_request id version dir false) dir
          (if str_eq prefix dot then [] else prefix) fuel [] []

-- ===== src/Ox/Composed.antt =====
-- The client's loops over the service over the database: what a user sees of an object's state.
use ocfl_index.Base.{
  ℕ, suc, ◌≤◌, ◌≡◌, refl, ap, ◌∙◌, Bool, true, false, Option, some, List, [], ◌∷◌, map, length, All,
  Result, ok,
}
use ocfl_index.Text.{Str, str_lt}
use ocfl_index.Text.Paths.{dot, clean, valid_path}
use ocfl_index.Text.Paths.Valid.{pointer_to}
use ocfl_index.Paging.{page_of, query, above, sort_by}
use ocfl_index.Paging.Order.{DistinctKeys, All-sort_by}
use ocfl_index.Paging.Maps.{map-query, map-page_of}
use ocfl_index.Paging.Keys.{above_nil, DistinctKeys-map, All-map}
use ocfl_index.Sqlite.{IndexErr, NodeRow, Db}
use ocfl_index.Sqlite.Objects.{Parsers}
use ocfl_index.Sqlite.Details.{path_item, child_name, child_rows}
use ocfl_index.Sqlite.Lookup.{version_roots, file_path, all_files}
use ocfl_index.Sqlite.Lookup.Walk.{IsNameTable, walk_names}
use ocfl_index.Sqlite.Lookup.Find.{MatchesBelow, node_at, node_by_path-walk_names}
use ocfl_index.Sqlite.Lookup.Listed.{
  all_files-DistinctKeys, all_files_not_empty, child_rows-DistinctKeys, child_rows_not_empty,
}
use ocfl_index.Sqlite.State.{item_name, file_item, node_info, version_string}
use ocfl_index.Sqlite.State.Pages.{all_children, get_object_state_lem}
use ocfl_index.Service.{
  GetObjectStateResponse, ItemMsg, Printers, numbers, item_msg, as_get_object_state_response,
}
use ocfl_index.Service.Handlers.{parse_version, get_object_state_handler}
use ocfl_index.Ox.{service_client}
use ocfl_index.Ox.Export.{get_full_object_state}
use ocfl_index.Ox.Ls.{dir_request, child_lines, ls_pages, completions, complete_pages}
use ocfl_index.Ox.Lines.{finish, ls_pages_lem}
use ocfl_index.Ox.Completing.{complete_pages_lem}
use ocfl_index.Ox.Reading.{msg_name, page_response, IsPagedState, read_state_lem}

children_distinct :
    (i : ℕ) (recursive : Bool) (db : Db)
    → IsNameTable db.names
    → DistinctKeys item_name (all_children i recursive db)
unfolding all_children file_item path_item
children_distinct i true db t =
    DistinctKeys-map file_path file_item item_name (λ x y. refl) (all_files i db)
      (all_files-DistinctKeys i db t)
children_distinct i false db t =
    DistinctKeys-map child_name path_item item_name (λ x y. refl) (child_rows i db.names db)
      (child_rows-DistinctKeys i db t)

children_named :
    (i : ℕ) (recursive : Bool) (db : Db)
    → IsNameTable db.names
    → All (λ x. str_lt [] (item_name x) ≡ true) (all_children i recursive db)
unfolding all_children file_item path_item
children_named i true db t =
    All-map _ _ file_item (λ x h. h) (all_files i db) (all_files_not_empty i db t)
children_named i false db t =
    All-map _ _ path_item (λ x h. h) (child_rows i db.names db) (child_rows_not_empty i db t)

-- The children of a node as a listing shows them.
unfoldable pub messages : ℕ → Bool → Db → List ItemMsg
unfolding all_children item_msg
messages i recursive db = map item_msg (all_children i recursive db)

messages_distinct :
    (i : ℕ) (recursive : Bool) (db : Db)
    → IsNameTable db.names
    → DistinctKeys msg_name (messages i recursive db)
unfolding messages item_msg
messages_distinct i recursive db t =
    DistinctKeys-map item_name item_msg msg_name (λ x y. refl) _
      (children_distinct i recursive db t)

-- No child has an empty name, so that a listing from the start leaves none out.
messages_all :
    (i : ℕ) (recursive : Bool) (db : Db)
    → IsNameTable db.names
    → above msg_name [] (sort_by msg_name (messages i recursive db))
      ≡ sort_by msg_name (messages i recursive db)
unfolding messages item_msg
messages_all i recursive db t = above_nil msg_name _ (
    All-sort_by msg_name _ _ (
      All-map _ _ item_msg (λ x h. h) (all_children i recursive db)
        (children_named i recursive db t)))

-- The directory's own details.
unfoldable pub node_response : NodeRow → GetObjectStateResponse
unfolding as_get_object_state_response
node_response node =
    as_get_object_state_response (node_info node (record { items = []; next_cursor = [] }))

module _ (P : Parsers) (W : Printers P) (like : Str → Str → Bool)
    (index_ids : List Str → Result IndexErr (Unit {0})) (db : Db) (id version src : Str)
    (v : Option (Parsers.VNum P)) (root : ℕ) (node : NodeRow) (m : MatchesBelow like)
    (t : IsNameTable db.names) (pv : parse_version P version ≡ some v)
    (r : version_roots id (version_string (numbers P W) v) db.versions db.inventories
      ≡ record { id = root; path = dot } ∷ [])
    (h : valid_path (clean src) ≡ true)
    (f : node_at (walk_names db.names (pointer_to (clean src)) root) db.nodes ≡ some node)
    (d : node.dir ≡ true) where
  answered_page :
      (recursive : Bool) (cursor : Str)
      → get_object_state_handler P W like (dir_request id version src recursive cursor) db
        ≡ ok (
            page_response
              (node_response node)
              (page_of msg_name 1000 (query msg_name 1001 cursor (messages node.id recursive db))))
  unfolding node_response get_object_state_handler as_get_object_state_response messages item_msg
  answered_page recursive cursor =
      rw
        (
          pv,
          get_object_state_lem (numbers P W) like id src v recursive 1000 cursor db node h
              (node_by_path-walk_names like id (version_string (numbers P W) v) (clean src) db root
                  m t r h
                ∙ f)
              d,
        )
        (ap (λ p. ok (page_response (node_response node) p))
          (map-page_of item_msg item_name msg_name (λ x. refl) 1000
              (query item_name 1001 cursor (all_children node.id recursive db))
            ∙ ap (page_of msg_name 1000) (
                map-query item_msg item_name msg_name (λ x. refl) 1001 cursor
                  (all_children node.id recursive db))))

  pub service_IsPagedState :
      (recursive : Bool)
      → IsPagedState
          (service_client P W like index_ids db)
          (dir_request id version src recursive)
          (node_response node)
          999
          (messages node.id recursive db)
  unfolding node_response service_client as_get_object_state_response
  service_IsPagedState recursive = record {
    page = answered_page recursive;
    isdir = d;
    distinct = messages_distinct node.id recursive db t;
  }

  -- Over a service on an unchanging database, getFullObjectState of a path that is valid once
  -- cleaned and leads to a directory ends, given fuel for one page more than there are files
  -- below the directory, with all these files, each once and in ascending order of their paths;
  -- the other details are the directory's own, and the token is that of the first page. This
  -- holds if the version asked for is empty or can be parsed and has one root node, the table of
  -- names has no two rows with one parent and name and only path elements for names, and LIKE
  -- takes a percent sign for any text.
  pub get_full_object_state_all :
      (fuel : ℕ)
      → length (messages node.id true db) ≤ fuel
      → get_full_object_state (service_client P W like index_ids db) (suc fuel) id version src
        ≡ some (
            ok (record (node_response node) {
              children = sort_by msg_name (messages node.id true db);
              next_page_token =
                  (page_of msg_name 1000
                    (query msg_name 1001 [] (messages node.id true db))).next_cursor;
            }))
  unfolding get_full_object_state
  get_full_object_state_all fuel l = rw (messages_all node.id true db t) at (
      read_state_lem _ _ (node_response node) 999 (messages node.id true db)
        (service_IsPagedState true) fuel l)

  -- Over a service on an unchanging database, ls of a path that is valid once cleaned and leads
  -- to a directory prints, given fuel for one page more than the directory has children (or files
  -- below it, if recursive), the line of each of them once, in ascending order of their names,
  -- and then ends without an error; where a digest is shorter than eight bytes it panics after
  -- the lines before it. This holds if the version asked for is empty or can be parsed and has
  -- one root node, the table of names has no two rows with one parent and name and only path
  -- elements for names, and LIKE takes a percent sign for any text.
  pub ls_pages_all :
      (recursive : Bool) (fuel : ℕ)
      → length (messages node.id recursive db) ≤ fuel
      → ls_pages
          (service_client P W like index_ids db)
          (dir_request id version src recursive)
          (suc fuel)
          []
        ≡ some (finish (child_lines (sort_by msg_name (messages node.id recursive db))))
  ls_pages_all recursive fuel l = rw (messages_all node.id recursive db t) at (
      ls_pages_lem _ _ (node_response node) 999 (messages node.id recursive db)
        (service_IsPagedState recursive) fuel l)

  -- The completion of a path, for its directory: the completions among all children.
  pub complete_pages_all :
      (prefix : Str) (fuel : ℕ)
      → length (messages node.id false db) ≤ fuel
      → complete_pages
          (service_client P W like index_ids db)
          (dir_request id version src false)
          src
          prefix
          (suc fuel)
          []
          []
        ≡ some (ok (completions src prefix (sort_by msg_name (messages node.id false db))))
  complete_pages_all prefix fuel l = rw (messages_all node.id false db t) at (
      complete_pages_lem _ _ (node_response node) 999 (messages node.id false db)
        (service_IsPagedState false) src prefix fuel l)

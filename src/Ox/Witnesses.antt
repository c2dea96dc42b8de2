-- ===== src/Ox/Witnesses.antt =====
-- A database with one object for the theorems on paths, listings and the client's loops: its
-- version has the file a.txt and the file b in the directory dir.
use ocfl_index.Base.{
  ◌≡◌, refl, Bool, true, false, ◌==◌, ◌&&◌, none, some, List, [], ◌∷◌, arith, length, Result, ok,
  pos, if◌then◌else◌, All,
}
use ocfl_index.Text.{Str, bytes, str_eq, valid_utf8}
use ocfl_index.Text.Paths.{dot, clean, split, valid_elem, valid_elems, valid_path}
use ocfl_index.Text.Paths.Valid.{pointer_to}
use ocfl_index.Paging.{query, page_of, sort_by, above}
use ocfl_index.Sqlite.{IndexErr, NodeRow, Db, empty_db}
use ocfl_index.Sqlite.Nodes.{has_name}
use ocfl_index.Sqlite.Versions.{get_version}
use ocfl_index.Sqlite.Objects.{
  Parsers, listed_id, listed_rows, listed_row, root_with, node_with, inventory_with, version_named,
}
use ocfl_index.Paging.Order.{DistinctKeys}
use ocfl_index.Sqlite.Lookup.{
  version_roots, node_by_path, all_files, descend, file_rows, flat_map, names_of, find_path, expand,
  child_paths, is_on_way, next_path, id_of_path,
}
use ocfl_index.Sqlite.Lookup.Walk.{IsNameTable, walk_names}
use ocfl_index.Sqlite.Lookup.Find.{MatchesBelow, node_at, node_by_path-walk_names}
use ocfl_index.Sqlite.State.{item_name, node_info, get_object_state}
use ocfl_index.Sqlite.State.Pages.{all_children, get_object_state_lem}
use ocfl_index.Service.{Printers, numbers}
use ocfl_index.Service.Handlers.{parse_version}
use ocfl_index.Ox.{service_client}
use ocfl_index.Ox.Export.{get_full_object_state}
use ocfl_index.Ox.Ls.{dir_request, child_lines, ls_pages}
use ocfl_index.Ox.Lines.{finish}
use ocfl_index.Ox.Objects.{message_id, list_all_objects}
use ocfl_index.Ox.Reading.{msg_name}
use ocfl_index.Ox.Composed.{node_response, messages, get_full_object_state_all, ls_pages_all}
use ocfl_index.Ox.OnePage.{objects_ran}
use ocfl_index.Ox.Listing.{IsParsed, row_msgs, list_all_objects_lem}

-- LIKE for patterns whose only wildcard is a percent sign at the end.
abbrev like_start : Str → Str → Bool
like_start [] [] = true
like_start [] (d ∷ t) = false
like_start (c ∷ p) [] = c == b'%'
like_start (c ∷ p) (d ∷ t) = if c == b'%' then true else (c == d) && like_start p t

like_start-MatchesBelow : MatchesBelow like_start
like_start-MatchesBelow [] [] = refl
like_start-MatchesBelow [] (d ∷ t) = refl
like_start-MatchesBelow (c ∷ q) t = ground (arith, like_start-MatchesBelow q t)

abbrev as_text : Parsers
as_text = record { VNum = Str; Spec = Str; parse_vnum = some; parse_spec = some }

abbrev text_printers : Printers as_text
text_printers = record { num = length; print_vnum = λ v. v; print_spec = λ s. s }

abbrev no_reindex : List Str → Result IndexErr (Unit {0})
no_reindex ids = ok tt

abbrev top : NodeRow
top = record { id = 1; dir = true; sum = 170 ∷ []; size = none }

abbrev db : Db
db = record empty_db {
  roots = record { id = 1; path = bytes "o"; indexed_at = 1 } ∷ [];
  inventories =
      record {
        id = 1;
        root_id = 1;
        ocfl_id = bytes "obj";
        spec = bytes "1.0";
        digest_algorithm = bytes "sha512";
        inventory_digest = bytes "ab";
        head = bytes "v1";
        indexed_at = 0;
      }
      ∷ [];
  versions =
      record {
        inventory_id = 1;
        num = 1;
        name = bytes "v1";
        message = bytes "first";
        created = 5;
        user_name = [];
        user_address = [];
        node_id = 1;
      }
      ∷ [];
  nodes =
      top
      ∷ record { id = 2; dir = false; sum = 187 ∷ 1 ∷ 2 ∷ 3 ∷ []; size = some 3 }
      ∷ record { id = 3; dir = true; sum = 204 ∷ 1 ∷ 2 ∷ 3 ∷ []; size = none }
      ∷ record { id = 4; dir = false; sum = 221 ∷ 1 ∷ 2 ∷ 3 ∷ []; size = none }
      ∷ [];
  names =
      record { name = bytes "a.txt"; node_id = 2; parent_id = 1 }
      ∷ record { name = bytes "dir"; node_id = 3; parent_id = 1 }
      ∷ record { name = bytes "b"; node_id = 4; parent_id = 3 }
      ∷ [];
}

names-IsNameTable : IsNameTable db.names
unfolding has_name valid_elem str_eq
names-IsNameTable = record {
  distinct = (refl, (refl, (refl, tt)));
  plain = ((refl, refl), ((refl, refl), ((refl, refl), tt)));
}

root_found :
    version_roots (bytes "obj") [] db.versions db.inventories ≡ record { id = 1; path = dot } ∷ []
unfolding version_roots inventory_with str_eq
root_found = refl

valid_here : (valid_path (bytes "dir/b") ≡ true) × (valid_path (clean dot) ≡ true)
unfolding valid_path clean valid_utf8 valid_elems split str_eq
valid_here = (refl, refl)

node_by_path_example :
    node_by_path like_start (bytes "obj") [] (bytes "dir/b") db
    ≡ node_at (walk_names db.names (pointer_to (bytes "dir/b")) 1) db.nodes
node_by_path_example =
    node_by_path-walk_names like_start (bytes "obj") [] (bytes "dir/b") db 1 like_start-MatchesBelow
      names-IsNameTable root_found valid_here.0

top_walked : node_at (walk_names db.names (pointer_to (clean dot)) 1) db.nodes ≡ some top
unfolding clean split walk_names node_with str_eq
top_walked = refl

top_found : node_by_path like_start (bytes "obj") [] (clean dot) db ≡ some top
unfolding clean split node_by_path find_path expand version_roots inventory_with flat_map
    child_paths names_of is_on_way next_path id_of_path node_with str_eq
top_found = refl

get_object_state_example :
    get_object_state
      (numbers as_text text_printers)
      like_start
      (bytes "obj")
      none
      dot
      true
      (pos 1)
      []
      db
    ≡ ok (node_info top (page_of item_name 1 (query item_name 2 [] (all_children 1 true db))))
get_object_state_example =
    get_object_state_lem (numbers as_text text_printers) like_start (bytes "obj") dot none true 1 []
      db top valid_here.1 top_found refl

files_count : length (messages 1 true db) ≡ 2
unfolding messages all_children all_files descend file_rows node_with flat_map names_of
files_count = refl

no_version : parse_version as_text [] ≡ some none
unfolding parse_version
no_version = refl

get_full_object_state_example :
    get_full_object_state
      (service_client as_text text_printers like_start no_reindex db)
      3
      (bytes "obj")
      []
      dot
    ≡ some (
        ok (record (node_response top) {
          children = sort_by msg_name (messages 1 true db);
          next_page_token =
              (page_of msg_name 1000 (query msg_name 1001 [] (messages 1 true db))).next_cursor;
        }))
get_full_object_state_example =
    get_full_object_state_all as_text text_printers like_start no_reindex db (bytes "obj") [] dot
      none 1 top like_start-MatchesBelow names-IsNameTable no_version root_found valid_here.1
      top_walked refl 2 (omega (arith, files_count))

ls_pages_example :
    ls_pages
      (service_client as_text text_printers like_start no_reindex db)
      (dir_request (bytes "obj") [] dot true)
      3
      []
    ≡ some (finish (child_lines (sort_by msg_name (messages 1 true db))))
ls_pages_example =
    ls_pages_all as_text text_printers like_start no_reindex db (bytes "obj") [] dot none 1 top
      like_start-MatchesBelow names-IsNameTable no_version root_found valid_here.1 top_walked refl
      true 2 (omega (arith, files_count))

abbrev as_it_is : Str → Str
as_it_is s = s

objects_count : length (listed_rows like_start [] db.inventories db) ≡ 1
unfolding listed_rows listed_row root_with version_named get_version str_eq
objects_count = refl

rows-IsParsed :
    All
      (IsParsed as_text text_printers as_it_is as_it_is)
      (listed_rows like_start [] db.inventories db)
    × DistinctKeys listed_id (listed_rows like_start [] db.inventories db)
unfolding listed_rows listed_row root_with version_named get_version str_eq
rows-IsParsed = (((refl, refl), tt), (tt, tt))

list_all_objects_example :
    list_all_objects as_text
      (service_client as_text text_printers like_start no_reindex db)
      text_printers
      2
    ≡ some (
        objects_ran as_text text_printers (
          above message_id [] (
            sort_by message_id (
              row_msgs as_text text_printers as_it_is as_it_is
                (listed_rows like_start [] db.inventories db)))))
list_all_objects_example =
    list_all_objects_lem as_text text_printers as_it_is as_it_is like_start no_reindex db 2
      (rows-IsParsed.0) (rows-IsParsed.1) (omega (arith, objects_count))

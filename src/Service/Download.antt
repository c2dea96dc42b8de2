-- ===== src/Service/Download.antt =====
-- downloadHandler: the content of a file, found by its digest.
use ocfl_index.Base.{ℕ, Option, none, some, [], ◌∷◌, ◌++◌, Result, ok, err, panic}
use ocfl_index.Text.{Str, bytes}
use ocfl_index.Text.Paths.{path_join}
use ocfl_index.Sqlite.{Db}
use ocfl_index.Sqlite.Details.{get_content_path}

-- An open file: what can be read of it, and the error that ends the reading, if any.
pub record Content : Type 0 where
  pub body : Str
  pub error : Option Str

-- What the client receives: the status, the Content-Disposition and the body.
pub record Response : Type 0 where
  pub status : ℕ
  pub disposition : Option Str
  pub body : Str

-- http.NotFound and http.Error
abbrev pub not_found_page : Response
not_found_page = record { status = 404; disposition = none; body = bytes "404 page not found\n" }

abbrev pub server_error : Option Str → Str → Response
server_error disposition e = record {
  status = 500;
  disposition = disposition;
  body = e ++ (10 ∷ []);
}

-- `name == ""`
abbrev pub file_name : Str → Str → Str
file_name sum [] = sum
file_name sum (c ∷ name) = c ∷ name

abbrev pub attachment : Str → Str
attachment name = bytes "attachment; filename=\"" ++ name ++ bytes "\""

-- io.Copy, then http.Error: the status has been sent with the first byte of the body, if any
unfoldable pub copy_file : Str → Str → Option Str → Response
copy_file name body none = record {
  status = 200;
  disposition = some (attachment name);
  body = body;
}
copy_file name [] (some e) = server_error (some (attachment name)) e
copy_file name (c ∷ body) (some e) = record {
  status = 200;
  disposition = some (attachment name);
  body = (c ∷ body) ++ e ++ (10 ∷ []);
}

abbrev pub send_file : Str → Result Str Content → Response
unfolding copy_file
send_file name (ok f) = copy_file name f.body f.error
send_file name (err e) = server_error none e
send_file name panic = server_error none []

-- The handler: the storage root's path, OpenFile, the two parts of the URL
unfoldable pub download : Str → (Str → Result Str Content) → Str → Str → Db → Response
unfolding get_content_path path_join
download root_path open_file [] name db = not_found_page
download root_path open_file (c ∷ sum) name db = elim (get_content_path (c ∷ sum) db) [
  | ok p ↦ send_file (file_name (c ∷ sum) name) (open_file (path_join root_path p))
  | err e ↦ not_found_page
  | panic ↦ not_found_page
]

-- ===== src/Config.antt =====
-- The configuration of cmd/ocfl-index/cmd/config.go from the environment. strconv.Atoi and the
-- number of processors are arguments.
use ocfl_index.Base.{ℕ, Option, none, some, [], ◌∷◌, ℤ, pos, negsuc, ltb, if◌then◌else◌}
use ocfl_index.Text.{Str, bytes}

pub record Config : Type 0 where
  pub addr : Str
  pub driver : Str
  pub bucket : Str
  pub path : Str
  pub s3_endpoint : Str
  pub db_file : Str
  pub scan_conc : ℕ
  pub parse_conc : ℕ

-- getenvDefault, with what os.Getenv gives
abbrev pub getenv_default : Str → Str → Str
getenv_default [] def = def
getenv_default (c ∷ v) def = c ∷ v

-- A number of workers: what is no number, or below 1, gives way to the number of processors.
unfoldable pub workers : Option ℤ → ℕ → ℕ
workers none cpus = cpus
workers (some (pos n)) cpus = if ltb n 1 then cpus else n
workers (some (negsuc n)) cpus = cpus

-- NewConfig
unfoldable pub new_config : (Str → Str) → (Str → Option ℤ) → ℕ → Config
unfolding workers
new_config getenv atoi cpus = record {
  addr = getenv_default (getenv (bytes "OCFL_INDEX_LISTEN")) (bytes ":8080");
  driver = getenv_default (getenv (bytes "OCFL_INDEX_BACKEND")) (bytes "fs");
  bucket = getenv_default (getenv (bytes "OCFL_INDEX_BUCKET")) [];
  path = getenv_default (getenv (bytes "OCFL_INDEX_STOREDIR")) (bytes ".");
  s3_endpoint = getenv_default (getenv (bytes "AWS_S3_ENDPOINT")) [];
  db_file = getenv_default (getenv (bytes "OCFL_INDEX_SQLITE")) (bytes "index.sqlite");
  scan_conc =
      workers (atoi (getenv_default (getenv (bytes "OCFL_INDEX_SCANWORKERS")) (bytes "0"))) cpus;
  parse_conc =
      workers (atoi (getenv_default (getenv (bytes "OCFL_INDEX_PARSEWORKERS")) (bytes "0"))) cpus;
}

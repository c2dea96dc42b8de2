-- ===== src/Sqlite/Versions.antt =====
-- Versions: the queries GetVersion and InsertVersion, and insertVersion of tx.go. Version numbers
-- belong to package ocfl, so their type is a parameter, with their number and their text.
pub mod Again
use ocfl_index.Base.{
  ℕ, zero, suc, ◌+◌, ◌-◌, ◌*◌, ◌/◌, ◌≡◌, Bool, true, false, not, ◌&&◌, Option, none, some, List, [],
  ◌∷◌, ◌++◌, ◌==◌, leb, if◌then◌else◌, Result, ok, err, panic,
}
use ocfl_index.Text.{Str, str_eq}
use ocfl_index.Sqlite.{IndexErr, index_value, constraint, VersionRow, Db}

-- ocflv1.User and the fields of ocflv1.Version that the index keeps
pub record User : Type 0 where
  pub name : Str
  pub address : Str

pub record Version : Type 0 where
  pub message : Str
  pub created : ℕ
  pub user : Option User

-- ocfl.VNum: Num() and String(); a version number is written as a "v" before its digits
pub record VNumbers : Type 1 where
  pub VNum : Type 0
  pub num : VNum → ℕ
  pub string : VNum → Str

-- CAST(LTRIM(?2, 'v') AS INT)
unfoldable pub ltrim_v : Str → Str
ltrim_v [] = []
ltrim_v (c ∷ s) = if c == b'v' then ltrim_v s else c ∷ s

cast_from : ℕ → Str → ℕ
cast_from acc [] = acc
cast_from acc (c ∷ s) =
    let rest = cast_from (acc * 10 + (c - 48)) s in if leb b'0' c && leb c b'9' then rest else acc

unfoldable pub version_num : Str → ℕ
unfolding ltrim_v cast_from
version_num name = cast_from 0 (ltrim_v name)

-- GetVersion
unfoldable pub get_version : ℕ → ℕ → List VersionRow → Option VersionRow
get_version inv n [] = none
get_version inv n (r ∷ rs) =
    if r.inventory_id == inv && r.num == n then some r else get_version inv n rs

-- UNIQUE(inventory_id, name)
unfoldable pub has_version_name : ℕ → Str → List VersionRow → Bool
has_version_name inv name [] = false
has_version_name inv name (r ∷ rs) =
    if r.inventory_id == inv && str_eq r.name name then true else has_version_name inv name rs

-- InsertVersion: the keys are (inventory_id, num) and (inventory_id, name).
unfoldable pub add_version : VersionRow → List VersionRow → List VersionRow
add_version row [] = row ∷ []
add_version row (r ∷ rs) = r ∷ add_version row rs

unfoldable pub insert_version_row : VersionRow → Db → Result IndexErr Db
insert_version_row row db = elim (get_version row.inventory_id row.num db.versions) [
  | some _ ↦ err constraint
  | none ↦
      if has_version_name row.inventory_id row.name db.versions
      then err constraint
      else ok (record db { versions = add_version row db.versions })
]

abbrev pub user_name : Option User → Str
user_name none = []
user_name (some u) = u.name

abbrev pub user_address : Option User → Str
user_address none = []
user_address (some u) = u.address

-- The values of an indexed version against those of the inventory; times by the second.
abbrev pub unix : ℕ → ℕ
unix t = t / 1000000000

abbrev pub same_user : VersionRow → Option User → Bool
same_user row none = true
same_user row (some u) = str_eq row.user_address u.address && str_eq row.user_name u.name

unfoldable pub same_version : VersionRow → Version → ℕ → Bool
same_version row ver node =
    row.node_id == node
    && str_eq row.message ver.message
    && unix row.created == unix ver.created
    && same_user row ver.user

module _ (V : VNumbers) where
  open V use {VNum, num, string}

  abbrev pub version_row : VNum → Version → ℕ → ℕ → VersionRow
  version_row v ver inv node = record {
    inventory_id = inv;
    num = version_num (string v);
    name = string v;
    message = ver.message;
    created = ver.created;
    user_name = user_name ver.user;
    user_address = user_address ver.user;
    node_id = node;
  }

  -- insertVersion
  unfoldable pub insert_version : VNum → Version → ℕ → ℕ → Db → Result IndexErr Db
  insert_version v ver inv node db = elim (get_version inv (num v) db.versions) [
    | none ↦ insert_version_row (version_row v ver inv node) db
    | some row ↦ if same_version row ver node then ok db else err index_value
  ]

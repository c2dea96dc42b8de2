-- ===== src/PathTree/Update.antt =====
-- The operations of internal/pathtree/pathtree.go that change a tree: MkdirAll, Set, SetFile,
-- Remove and Rename.
use ocfl_index.Base.{
  ℕ, zero, suc, Bool, true, false, not, ◌&&◌, ◌||◌, none, some, List, [], ◌∷◌, if◌then◌else◌,
  length, Result, ok, err, panic,
}
use ocfl_index.Text.{Str, str_eq}
use ocfl_index.Text.Paths.{dot, cut, valid_path, path_dir, path_base}
use ocfl_index.Text.Paths.Valid.{pointer_to}
use ocfl_index.PathTree.{
  Pointer, Err, invalid_path, not_found, not_dir, relation, Node, file, dir, Entries, end, addr,
  is_dir, find, put, del, child, get, is_parent_of, at,
}

-- What a call leaves behind: the tree, the next free address, and what it returns.
pub record Done {ℓ κ} (T : Type ℓ) (A : Type κ) : Type (ℓ ⊔ κ) where
  pub node : Node T
  pub next : ℕ
  pub result : Result Err A

module _ {ℓ} {T : Type ℓ} where
  -- *node = *other: the node keeps its address.
  unfoldable pub overwrite : Node T → Node T → Node T
  overwrite node (file a v) = file (addr node) v
  overwrite node (dir a v es) = dir (addr node) v es

  -- A change through a pointer.
  unfoldable pub update_at : Pointer → (Node T → Node T) → Node T → Node T
  update_at [] f node = f node
  update_at (s ∷ ss) f (file a v) = file a v
  update_at (s ∷ ss) f (dir a v es) = elim (find s es) [
    | none ↦ dir a v es
    | some ch ↦ dir a v (put s (update_at ss f ch) es)
  ]

  abbrev pub is_dir_at : Pointer → Node T → Bool
  is_dir_at ss node = elim (at ss node) [ none ↦ false | some n ↦ is_dir n ]

  unfoldable pub put_child : Str → Node T → Node T → Node T
  put_child name ch (file a v) = file a v
  put_child name ch (dir a v es) = dir a v (put name ch es)

  unfoldable pub del_child : Str → Node T → Node T
  del_child name (file a v) = file a v
  del_child name (dir a v es) = dir a v (del name es)

-- The zero value of T is a parameter.
module _ {ℓ} {T : Type ℓ} (zero_val : T) where
  -- The child that MkdirAll goes on to, and the children once it is there.
  pub record Entered : Type ℓ where
    pub child : Node T
    pub entries : Entries T
    pub next : ℕ

  unfoldable pub enter : ℕ → Str → Entries T → Entered
  enter next name es = elim (find name es) [
    | none ↦
        let new = dir next zero_val end in
        record { child = new; entries = put name new es; next = suc next }
    | some ch ↦ record { child = ch; entries = es; next = next }
  ]

  -- The pointer that MkdirAll returns is one name longer than the one into the child.
  unfoldable pub under : Str → Result Err (List Str) → Result Err (List Str)
  under name (ok ss) = ok (name ∷ ss)
  under name (err e) = err e
  under name panic = panic

  unfoldable pub below : ℕ → T → Str → Entries T → Done T (List Str) → Done T (List Str)
  unfolding under
  below a v name es m = record {
    node = dir a v (put name m.node es);
    next = m.next;
    result = under name m.result;
  }

  -- The loop of MkdirAll; the fuel is more than the bytes of the path.
  unfoldable pub mkdir_loop : ℕ → ℕ → Str → Node T → Done T (List Str)
  unfolding enter below cut
  mkdir_loop zero next p node = record { node = node; next = next; result = panic }
  mkdir_loop (suc fuel) next p (file a v) = record {
    node = file a v;
    next = next;
    result = err not_dir;
  }
  mkdir_loop (suc fuel) next p (dir a v es) =
      let k = cut p in
      let e = enter next k.first es in
      elim k.more [
        | true ↦ below a v k.first e.entries (mkdir_loop fuel e.next k.rest e.child)
        | false ↦ record { node = dir a v e.entries; next = e.next; result = ok (k.first ∷ []) }
      ]

  unfoldable pub mkdir_all : ℕ → Str → Node T → Done T (List Str)
  mkdir_all next p node =
      if not (valid_path p)
      then record { node = node; next = next; result = err invalid_path }
      else if str_eq p dot && is_dir node
      then record { node = node; next = next; result = ok [] }
      else mkdir_loop (suc (length p)) next p node

  -- The end of Set: `parent.children[baseName] = child`, which panics if the map is nil.
  unfoldable pub assign : Str → Node T → ℕ → Node T → Result Err (List Str) → Done T (Unit {0})
  unfolding at update_at put_child
  assign base ch next node (err e) = record { node = node; next = next; result = err e }
  assign base ch next node panic = record { node = node; next = next; result = panic }
  assign base ch next node (ok ss) =
      if is_dir_at ss node
      then record { node = update_at ss (put_child base ch) node; next = next; result = ok tt }
      else record { node = node; next = next; result = panic }

  unfoldable pub set_in : Str → Node T → Done T (List Str) → Done T (Unit {0})
  unfolding assign
  set_in base ch m = assign base ch m.next m.node m.result

  unfoldable pub set : ℕ → Str → Node T → Node T → Done T (Unit {0})
  set next p ch node =
      if not (valid_path p)
      then record { node = node; next = next; result = err invalid_path }
      else if str_eq p dot
      then record { node = overwrite node ch; next = next; result = ok tt }
      else if is_parent_of node (addr ch) || is_parent_of ch (addr node)
      then record { node = node; next = next; result = err relation }
      else set_in (path_base p) ch (mkdir_all next (path_dir p) node)

  unfoldable pub set_file : ℕ → Str → T → Node T → Done T (Unit {0})
  set_file next p v node = set (suc next) p (file next v) node

  -- Remove "." : the node is reset, and what it was is returned at a new address.
  unfoldable pub cleared : Node T → Node T
  cleared (file a v) = file a zero_val
  cleared (dir a v es) = dir a zero_val end

  unfoldable pub readdress : ℕ → Node T → Node T
  readdress b (file a v) = file b v
  readdress b (dir a v es) = dir b v es

  -- The end of Remove, with the parent that Get returned.
  unfoldable pub remove_in : ℕ → Str → Str → Node T → Result Err (Node T) → Done T (Node T)
  unfolding child update_at del_child
  remove_in next d base node (err e) = record { node = node; next = next; result = err e }
  remove_in next d base node panic = record { node = node; next = next; result = panic }
  remove_in next d base node (ok parent) = elim (child base parent) [
    | none ↦ record { node = node; next = next; result = err not_found }
    | some ch ↦ record {
      node = update_at (pointer_to d) (del_child base) node;
      next = next;
      result = ok ch;
    }
  ]

  unfoldable pub remove : ℕ → Str → Node T → Done T (Node T)
  remove next p node =
      if not (valid_path p)
      then record { node = node; next = next; result = err invalid_path }
      else if str_eq p dot
      then record { node = cleared node; next = suc next; result = ok (readdress next node) }
      else remove_in next (path_dir p) (path_base p) node (get (path_dir p) node)

  -- Rename after its first Set; where the node cannot be set back the code panics.
  unfoldable pub restored : Err → Done T (Unit {0}) → Done T (Unit {0})
  restored e d = elim d.result [
    | ok _ ↦ record { node = d.node; next = d.next; result = err e }
    | err _ ↦ record { node = d.node; next = d.next; result = panic }
    | panic ↦ record { node = d.node; next = d.next; result = panic }
  ]

  unfoldable pub moved : Str → Node T → Done T (Unit {0}) → Done T (Unit {0})
  moved from sub d = elim d.result [
    | ok _ ↦ d
    | err e ↦ restored e (set d.next from sub d.node)
    | panic ↦ d
  ]

  unfoldable pub rename : ℕ → Str → Str → Node T → Done T (Unit {0})
  rename next from to node =
      let r = remove next from node in
      elim r.result [
        | ok sub ↦ moved from sub (set r.next to sub r.node)
        | err e ↦ record { node = r.node; next = r.next; result = err e }
        | panic ↦ record { node = r.node; next = r.next; result = panic }
      ]

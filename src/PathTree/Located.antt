-- ===== src/PathTree/Located.antt =====
-- The operations on valid paths, in terms of the pointers that the paths stand for.
use ocfl_index.Base.{
  ℕ, suc, ◌≡◌, refl, ◌∙◌, true, false, List, [], ◌∷◌, arith, length, ok, err, Bool-cases, inl, inr,
}
use ocfl_index.Text.{Str, str_eq, str_eq→eq, valid_utf8}
use ocfl_index.Text.Paths.{dot, split, valid_path, path_dir}
use ocfl_index.Text.Paths.Laws.{split-cons, init, last}
use ocfl_index.Text.Paths.Last.{path_base_lem}
use ocfl_index.Text.Paths.Valid.{IsPlain, pointer_to, path_dir-valid, IsPlain-valid_elems}
use ocfl_index.PathTree.{not_dir, Node, file, dir, get, at, is_dir, addr, is_parent_of}
use ocfl_index.PathTree.Update.{Done, mkdir_loop, mkdir_all, set_in, set, remove_in, remove}
use ocfl_index.PathTree.Segments.{found, get_loop_lem, mkdir_segs, mkdir_loop_lem}

module _ {ℓ} {T : Type ℓ} where
  pub get-located :
      (p : Str) (node : Node T) → valid_path p ≡ true → get p node ≡ found (at (pointer_to p) node)
  unfolding get
  get-located p node h = elim (Bool-cases (str_eq p dot)) [
    | inl e ↦ rw (h, e) (unfold at in refl)
    | inr e ↦ rw (h, e) (get_loop_lem (suc (length p)) p node (omega arith))
  ]

  pub get-plain : (p : Str) (node : Node T) → IsPlain p → get p node ≡ found (at (split p) node)
  get-plain p node h = rw (get-located p node h.valid, h.plain) refl

  -- Neither is the child a descendant of the node nor the other way round.
  pub record Unrelated (node ch : Node T) : Type 0 where
    pub below : is_parent_of node (addr ch) ≡ false
    pub above : is_parent_of ch (addr node) ≡ false

module _ {ℓ} {T : Type ℓ} (zero_val : T) where
  -- MkdirAll of a pointer: for "." the node has to be a directory.
  unfoldable pub mkdir_to : ℕ → List Str → Node T → Done T (List Str)
  mkdir_to next [] (file a v) = record { node = file a v; next = next; result = err not_dir }
  mkdir_to next [] (dir a v es) = record { node = dir a v es; next = next; result = ok [] }
  mkdir_to next (s ∷ ss) node = mkdir_segs zero_val next (s ∷ ss) node

  mkdir_all-dot :
      (next : ℕ) (node : Node T) → mkdir_all zero_val next dot node ≡ mkdir_to next [] node
  unfolding mkdir_all mkdir_to valid_path str_eq valid_utf8 is_dir mkdir_loop
  mkdir_all-dot next (file a v) = refl
  mkdir_all-dot next (dir a v es) = refl

  mkdir_to-cons :
      (next : ℕ) (p : Str) (node : Node T)
      → mkdir_segs zero_val next (split p) node ≡ mkdir_to next (split p) node
  unfolding mkdir_to
  mkdir_to-cons next p node = rw (split-cons p) refl

  pub mkdir_all-located :
      (next : ℕ) (p : Str) (node : Node T)
      → valid_path p ≡ true
      → mkdir_all zero_val next p node ≡ mkdir_to next (pointer_to p) node
  mkdir_all-located next p node h = elim (Bool-cases (str_eq p dot)) [
    | inl e ↦ rw (e, str_eq→eq p dot e) (mkdir_all-dot next node)
    | inr e ↦ rw e (
        unfold mkdir_all in
        rw (h, e)
          (mkdir_loop_lem zero_val (suc (length p)) next p node (omega arith)
            ∙ mkdir_to-cons next p node))
  ]

  pub set-located :
      (next : ℕ) (p : Str) (ch node : Node T)
      → IsPlain p
      → Unrelated node ch
      → set zero_val next p ch node
        ≡ set_in zero_val (last (split p)) ch (mkdir_to next (init (split p)) node)
  unfolding set
  set-located next p ch node h u =
      let d = path_dir-valid p h in
      rw
        (
          h.valid,
          h.plain,
          u.below,
          u.above,
          path_base_lem p (IsPlain-valid_elems h),
          mkdir_all-located next (path_dir p) node d.0,
          d.1,
        )
        refl

  pub remove-located :
      (next : ℕ) (p : Str) (node : Node T)
      → IsPlain p
      → remove zero_val next p node
        ≡ remove_in zero_val next
            (path_dir p)
            (last (split p))
            node
            (found (at (init (split p)) node))
  unfolding remove
  remove-located next p node h =
      let d = path_dir-valid p h in
      rw
        (
          h.valid,
          h.plain,
          path_base_lem p (IsPlain-valid_elems h),
          get-located (path_dir p) node d.0,
          d.1,
        )
        refl

-- ===== src/PathTree/Named.antt =====
-- Set on a tree whose directories have distinct names, each of them as it should be, and whose files
-- have values as they should be.
use ocfl_index.Base.{
  ℕ, ◌≡◌, refl, ap, ◌∙◌, ◌||◌, none, some, List, [], ◌∷◌, arith, All, Bool-cases, Option-cases, inl,
  inr, Result, ok, err, panic,
}
use ocfl_index.Text.{Str, str_eq, str_eq_sym}
use ocfl_index.Text.Paths.{dot, split, valid_path}
use ocfl_index.Text.Paths.Laws.{init, last, split-cons}
use ocfl_index.Text.Paths.Valid.{IsPlain}
use ocfl_index.PathTree.{Err, Node, file, dir, Entries, end, entry, find, put, addr, is_parent_of}
use ocfl_index.PathTree.Update.{
  Done, enter, below, overwrite, update_at, put_child, is_dir_at, assign, set_in, set,
}
use ocfl_index.PathTree.Segments.{mkdir_segs}
use ocfl_index.PathTree.Children.{find-put}
use ocfl_index.PathTree.SetGet.{mkdir_to-pointer}
use ocfl_index.PathTree.Located.{mkdir_to, Unrelated, set-located}

module _ {T : Type 0} (Q : Str → Type 0) (P : T → Type 0) where
  unfoldable mutual
    pub IsProper : Node T → Type 0
    IsProper (file a v) = P v
    IsProper (dir a v es) = AreProper es

    pub AreProper : Entries T → Type 0
    AreProper end = Unit {0}
    AreProper (entry n ch es) = (find n es ≡ none) × Q n × IsProper ch × AreProper es

  put-AreProper :
      (n : Str) (ch : Node T) (es : Entries T)
      → Q n
      → IsProper ch
      → AreProper es
      → AreProper (put n ch es)
  unfolding put AreProper find
  put-AreProper n ch end q h k = (refl, q, h, tt)
  put-AreProper n ch (entry m c es) q h k = elim (Bool-cases (str_eq m n)) [
    | inl e ↦ rw e (k.0, k.1, h, k.3)
    | inr e ↦
        let still : find m (put n ch es) ≡ none = find-put m n ch es ∙ rw (str_eq_sym n m, e) k.0 in
        rw e (still, k.1, k.2, put-AreProper n ch es q h k.3)
  ]

  find-IsProper :
      (n : Str) (ch : Node T) (es : Entries T) → AreProper es → find n es ≡ some ch → IsProper ch
  unfolding find AreProper
  find-IsProper n ch end h e = cc
  find-IsProper n ch (entry m c es) h e = elim (Bool-cases (str_eq m n)) [
    | inl f ↦ let same : c ≡ ch = ground arith in rw (← same) h.2
    | inr f ↦ find-IsProper n ch es h.3 (rw f at e)
  ]

  update_at-IsProper :
      (ss : List Str) (f : Node T → Node T) (node : Node T)
      → All Q ss
      → ((t : Node T) → IsProper t → IsProper (f t))
      → IsProper node
      → IsProper (update_at ss f node)
  unfolding update_at IsProper
  update_at-IsProper [] f node q h k = h node k
  update_at-IsProper (s ∷ ss) f (file a v) q h k = k
  update_at-IsProper (s ∷ ss) f (dir a v es) q h k = elim (Option-cases (find s es)) [
    | inl e ↦ rw (e, update_at) k
    | inr (ch, e) ↦
        rw (e, update_at)
          (put-AreProper s (update_at ss f ch) es q.0
            (update_at-IsProper ss f ch q.1 h (find-IsProper s ch es k e)) k)
  ]

  put_child-IsProper :
      (n : Str) (ch t : Node T) → Q n → IsProper ch → IsProper t → IsProper (put_child n ch t)
  unfolding put_child IsProper
  put_child-IsProper n ch (file a v) q h k = k
  put_child-IsProper n ch (dir a v es) q h k = put-AreProper n ch es q h k

  overwrite-IsProper : (node ch : Node T) → IsProper ch → IsProper (overwrite node ch)
  unfolding overwrite IsProper
  overwrite-IsProper node (file a v) h = h
  overwrite-IsProper node (dir a v es) h = h

  module _ (zero_val : T) where
    enter-IsProper :
        (next : ℕ) (s : Str) (es : Entries T)
        → Q s
        → AreProper es
        → AreProper (enter zero_val next s es).entries × IsProper (enter zero_val next s es).child
    unfolding enter IsProper
    enter-IsProper next s es q h = elim (Option-cases (find s es)) [
      | inl e ↦ rw (e, enter) (put-AreProper s (dir next zero_val end) es q tt h, tt)
      | inr (ch, e) ↦ rw (e, enter) (h, find-IsProper s ch es h e)
    ]

    mkdir_segs-IsProper :
        (next : ℕ) (ss : List Str) (node : Node T)
        → All Q ss
        → IsProper node
        → IsProper (mkdir_segs zero_val next ss node).node
    unfolding mkdir_segs below IsProper
    mkdir_segs-IsProper next [] node q h = h
    mkdir_segs-IsProper next (s ∷ ss) (file a v) q h = h
    mkdir_segs-IsProper next (s ∷ ss) (dir a v es) q h =
        let e = enter zero_val next s es in
        let entered = enter-IsProper next s es q.0 h in
        put-AreProper s (mkdir_segs zero_val e.next ss e.child).node e.entries q.0
          (mkdir_segs-IsProper e.next ss e.child q.1 entered.1) entered.0

    mkdir_to-IsProper :
        (next : ℕ) (ss : List Str) (node : Node T)
        → All Q ss
        → IsProper node
        → IsProper (mkdir_to zero_val next ss node).node
    unfolding mkdir_to IsProper
    mkdir_to-IsProper next [] (file a v) q h = h
    mkdir_to-IsProper next [] (dir a v es) q h = h
    mkdir_to-IsProper next (s ∷ ss) node q h = mkdir_segs-IsProper next (s ∷ ss) node q h

    assign-IsProper :
        (b : Str) (ch : Node T) (next : ℕ) (node : Node T) (ss : List Str)
        → Q b
        → All Q ss
        → IsProper ch
        → IsProper node
        → IsProper (assign zero_val b ch next node (ok ss)).node
    unfolding assign
    assign-IsProper b ch next node ss q qs h k = elim (Bool-cases (is_dir_at ss node)) [
      | inr e ↦ rw e k
      | inl e ↦
          rw e
            (update_at-IsProper ss (put_child b ch) node qs (λ t. put_child-IsProper b ch t q h) k)
    ]

    set_in-IsProper :
        (b : Str) (ch : Node T) (m : Done T (List Str)) (ss : List Str)
        → m.result ≡ ok ss
        → Q b
        → All Q ss
        → IsProper ch
        → IsProper m.node
        → IsProper (set_in zero_val b ch m).node
    unfolding set_in
    set_in-IsProper b ch m ss e q qs h k = rw e (assign-IsProper b ch m.next m.node ss q qs h k)

    set_in-ok :
        (b : Str) (ch : Node T) (m : Done T (List Str))
        → (set_in zero_val b ch m).result ≡ ok tt
        → (ss : List Str) × (m.result ≡ ok ss)
    unfolding set_in assign
    set_in-ok b ch m h = go m.result refl
      where
        go : (r : Result Err (List Str)) → m.result ≡ r → (ss : List Str) × (m.result ≡ ok ss)
        go (ok ss) e = (ss, e)
        go (err x) e = cc (rw (e, assign) at h)
        go panic e = cc (rw (e, assign) at h)

    All-init :
        (w : Str) (ws : List Str) → All Q (w ∷ ws) → All Q (init (w ∷ ws)) × Q (last (w ∷ ws))
    All-init w [] h = (tt, h.0)
    All-init w (v ∷ ws) h = let rest = All-init v ws h.1 in ((h.0, rest.0), rest.1)

    set_plain-IsProper :
        (next : ℕ) (p : Str) (ch node : Node T)
        → IsPlain p
        → Unrelated node ch
        → (set zero_val next p ch node).result ≡ ok tt
        → All Q (split p)
        → IsProper ch
        → IsProper node
        → IsProper (set zero_val next p ch node).node
    set_plain-IsProper next p ch node plain u e q h k =
        let m = mkdir_to zero_val next (init (split p)) node in
        let l = set-located zero_val next p ch node plain u in
        let (ss, made) = set_in-ok (last (split p)) ch m (rw l at e) in
        let same = mkdir_to-pointer zero_val next (init (split p)) node ss made in
        let both : All Q (init (split p)) × Q (last (split p)) =
          rw (split-cons p) (All-init _ _ (rw (split-cons p) at q)) in
        rw l (
          set_in-IsProper (last (split p)) ch m (init (split p)) (made ∙ ap ok same) both.1 both.0 h
            (mkdir_to-IsProper next (init (split p)) node both.0 k))

    -- A Set that succeeds, of a proper node at a path of proper names.
    pub set-IsProper :
        (next : ℕ) (p : Str) (ch node : Node T)
        → (set zero_val next p ch node).result ≡ ok tt
        → (IsPlain p → All Q (split p))
        → IsProper ch
        → IsProper node
        → IsProper (set zero_val next p ch node).node
    unfolding set
    set-IsProper next p ch node e q h k = elim (Bool-cases (valid_path p)) [
      | inr v ↦ cc (rw v at e)
      | inl v ↦ elim (Bool-cases (str_eq p dot)) [
        | inl d ↦ rw (v, d) (overwrite-IsProper node ch h)
        | inr d ↦ elim (Bool-cases (is_parent_of node (addr ch) || is_parent_of ch (addr node))) [
          | inl r ↦ cc (rw (v, d, r) at e)
          | inr r ↦
              let plain : IsPlain p = record { valid = v; plain = d } in
              set_plain-IsProper next p ch node plain
                (record { below = ground arith; above = ground arith }) e (q plain) h k
        ]
      ]
    ]

-- A Set that succeeds was given a node that is neither above nor below the tree's.
pub set_ok-Unrelated :
    {T : Type 0} (zero_val : T) (next : ℕ) (p : Str) (ch node : Node T)
    → IsPlain p
    → (set zero_val next p ch node).result ≡ ok tt
    → Unrelated node ch
unfolding set
set_ok-Unrelated zero_val next p ch node h e =
    elim (Bool-cases (is_parent_of node (addr ch) || is_parent_of ch (addr node))) [
      | inl r ↦ cc (rw (h.valid, h.plain, r) at e)
      | inr r ↦ record { below = ground arith; above = ground arith }
    ]

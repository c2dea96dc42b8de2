-- ===== src/PathTree/SetResult.antt =====
-- What Set returns, on every branch, and what it leaves when it fails.
use ocfl_index.Base.{
  ℕ, ◌≡◌, refl, ap, ◌∙◌, ◌||◌, none, some, List, [], ◌∷◌, arith, Result, ok, err, panic, Bool-cases,
  inl, inr, Option-cases, ◌≢◌,
}
use ocfl_index.Text.{Str, str_eq, str_eq_iff}
use ocfl_index.Text.Paths.{dot, split, valid_path}
use ocfl_index.Text.Paths.Laws.{init, last}
use ocfl_index.Text.Paths.Valid.{IsPlain}
use ocfl_index.PathTree.{
  Err, not_dir, Node, file, dir, Entries, end, find, put, child, at, is_dir, addr, is_parent_of,
}
use ocfl_index.PathTree.Children.{find-put, put-find}
use ocfl_index.PathTree.Update.{enter, under, below, is_dir_at, assign, set_in, set}
use ocfl_index.PathTree.Segments.{mkdir_segs}
use ocfl_index.PathTree.Located.{mkdir_to, Unrelated, set-located}

module _ {ℓ} {T : Type ℓ} where
  -- What stands on the way to a directory: nothing that hinders, a file above it (ErrNotDir), or a
  -- file in its very place (a write to a nil map).
  unfoldable pub reach : List Str → Node T → Result Err (Unit {0})
  reach [] (file a v) = panic
  reach [] (dir a v es) = ok tt
  reach (s ∷ ss) (file a v) = err not_dir
  reach (s ∷ ss) (dir a v es) = elim (find s es) [ none ↦ ok tt | some ch ↦ reach ss ch ]

  -- The root itself is checked.
  unfoldable pub set_outcome : List Str → Node T → Result Err (Unit {0})
  unfolding reach
  set_outcome [] (file a v) = err not_dir
  set_outcome [] (dir a v es) = ok tt
  set_outcome (s ∷ ss) node = reach (s ∷ ss) node

  is_dir_at-put :
      (s : Str) (ss : List Str) (a : ℕ) (v : T) (n : Node T) (es : Entries T)
      → is_dir_at (s ∷ ss) (dir a v (put s n es)) ≡ is_dir_at ss n
  unfolding at child
  is_dir_at-put s ss a v n es = ground (arith, find-put s s n es, str_eq_iff s s)

module _ {ℓ} {T : Type ℓ} (zero_val : T) where
  -- An assignment below a name.
  result-assign-under :
      (b s : Str) (ch : Node T) (nx a : ℕ) (v : T) (n : Node T) (es : Entries T)
      (r : Result Err (List Str))
      → (assign zero_val b ch nx (dir a v (put s n es)) (under zero_val s r)).result
        ≡ (assign zero_val b ch nx n r).result
  unfolding assign under
  result-assign-under b s ch nx a v n es (err e) = refl
  result-assign-under b s ch nx a v n es panic = refl
  result-assign-under b s ch nx a v n es (ok ss) = elim (Bool-cases (is_dir_at ss n)) [
    | inl e ↦ rw (e, is_dir_at-put s ss a v n es ∙ e) refl
    | inr e ↦ rw (e, is_dir_at-put s ss a v n es ∙ e) refl
  ]

  reach-new : (ss : List Str) (a : ℕ) → reach ss (dir a zero_val end) ≡ ok tt
  unfolding reach find
  reach-new [] a = refl
  reach-new (s ∷ ss) a = refl

  reach-enter :
      (next : ℕ) (s : Str) (ss : List Str) (a : ℕ) (v : T) (es : Entries T)
      → reach ss (enter zero_val next s es).child ≡ reach (s ∷ ss) (dir a v es)
  unfolding reach enter
  reach-enter next s ss a v es = elim (Option-cases (find s es)) [
    | inl f ↦ rw (f, enter, reach) (reach-new ss next)
    | inr (c, f) ↦ rw (f, enter, reach) refl
  ]

  result-mkdir_segs :
      (next nx : ℕ) (b : Str) (ch : Node T) (ss : List Str) (node : Node T)
      → let m = mkdir_segs zero_val next ss node in
        (assign zero_val b ch nx m.node m.result).result ≡ reach ss node
  unfolding mkdir_segs below
  result-mkdir_segs next nx b ch [] (file a v) = unfold assign reach at is_dir in refl
  result-mkdir_segs next nx b ch [] (dir a v es) = unfold assign reach at is_dir in refl
  result-mkdir_segs next nx b ch (s ∷ ss) (file a v) = unfold assign reach in refl
  result-mkdir_segs next nx b ch (s ∷ ss) (dir a v es) =
      let e = enter zero_val next s es in
      result-assign-under b s ch nx a v _ e.entries _
      ∙ result-mkdir_segs e.next nx b ch ss e.child
      ∙ reach-enter next s ss a v es

  result-mkdir_to :
      (next nx : ℕ) (b : Str) (ch : Node T) (ss : List Str) (node : Node T)
      → let m = mkdir_to zero_val next ss node in
        (assign zero_val b ch nx m.node m.result).result ≡ set_outcome ss node
  unfolding mkdir_to set_outcome
  result-mkdir_to next nx b ch [] (file a v) = unfold assign in refl
  result-mkdir_to next nx b ch [] (dir a v es) = unfold assign at is_dir in refl
  result-mkdir_to next nx b ch (s ∷ ss) node = result-mkdir_segs next nx b ch (s ∷ ss) node

  -- At a valid path other than ".", of a node that is neither above nor below the tree's, Set
  -- returns what stands on the way to the directory of the path: nil if nothing hinders, ErrNotDir
  -- if a file stands above that directory or the tree itself is a file, and a panic if the
  -- directory of the path is itself a file.
  pub set-result :
      (next : ℕ) (p : Str) (ch node : Node T)
      → IsPlain p
      → Unrelated node ch
      → (set zero_val next p ch node).result ≡ set_outcome (init (split p)) node
  set-result next p ch node h u =
      rw (set-located zero_val next p ch node h u)
        (unfold set_in in result-mkdir_to next _ (last (split p)) ch (init (split p)) node)

  node-assign_failed :
      (b : Str) (ch : Node T) (nx : ℕ) (node : Node T) (r : Result Err (List Str))
      → (assign zero_val b ch nx node r).result ≢ ok tt
      → (assign zero_val b ch nx node r).node ≡ node
  unfolding assign
  node-assign_failed b ch nx node (err e) h = refl
  node-assign_failed b ch nx node panic h = refl
  node-assign_failed b ch nx node (ok ss) h = elim (Bool-cases (is_dir_at ss node)) [
    | inl e ↦ absurd (h (rw e refl))
    | inr e ↦ rw e refl
  ]

  enter_found :
      (next : ℕ) (s : Str) (c : Node T) (es : Entries T)
      → find s es ≡ some c
      → enter zero_val next s es ≡ record { child = c; entries = es; next = next }
  unfolding enter
  enter_found next s c es f = rw (f, enter) refl

  reach_found :
      (s : Str) (ss : List Str) (a : ℕ) (v : T) (c : Node T) (es : Entries T)
      → find s es ≡ some c
      → reach (s ∷ ss) (dir a v es) ≡ reach ss c
  unfolding reach
  reach_found s ss a v c es f = rw (f, reach) refl

  reach_missing :
      (s : Str) (ss : List Str) (a : ℕ) (v : T) (es : Entries T)
      → find s es ≡ none
      → reach (s ∷ ss) (dir a v es) ≡ ok tt
  unfolding reach
  reach_missing s ss a v es f = rw (f, reach) refl

  put_same :
      (s : Str) (n c : Node T) (es : Entries T) → n ≡ c → find s es ≡ some c → put s n es ≡ es
  put_same s n c es e f = ap (λ x. put s x es) e ∙ put-find s c es f

  -- MkdirAll creates nothing on a way that something hinders.
  node-mkdir_segs :
      (next : ℕ) (ss : List Str) (node : Node T)
      → reach ss node ≢ ok tt
      → (mkdir_segs zero_val next ss node).node ≡ node
  unfolding mkdir_segs below
  node-mkdir_segs next [] node h = refl
  node-mkdir_segs next (s ∷ ss) (file a v) h = refl
  node-mkdir_segs next (s ∷ ss) (dir a v es) h = elim (Option-cases (find s es)) [
    | inl f ↦ absurd (h (reach_missing s ss a v es f))
    | inr (c, f) ↦ rw (enter_found next s c es f) (
        ap (dir a v) (
          put_same s _ c es (node-mkdir_segs next ss c (λ k. h (reach_found s ss a v c es f ∙ k)))
            f))
  ]

  node-mkdir_to :
      (next : ℕ) (ss : List Str) (node : Node T)
      → set_outcome ss node ≢ ok tt
      → (mkdir_to zero_val next ss node).node ≡ node
  unfolding mkdir_to set_outcome
  node-mkdir_to next [] (file a v) h = refl
  node-mkdir_to next [] (dir a v es) h = refl
  node-mkdir_to next (s ∷ ss) node h = node-mkdir_segs next (s ∷ ss) node h

  node-set_plain :
      (next : ℕ) (p : Str) (ch node : Node T)
      → IsPlain p
      → Unrelated node ch
      → (set zero_val next p ch node).result ≢ ok tt
      → (set zero_val next p ch node).node ≡ node
  node-set_plain next p ch node h u k =
      let m = mkdir_to zero_val next (init (split p)) node in
      let e = set-located zero_val next p ch node h u in
      rw e (
        unfold set_in in
        node-assign_failed (last (split p)) ch m.next m.node m.result (λ r. k (rw e r))
        ∙ node-mkdir_to next (init (split p)) node (λ r. k (set-result next p ch node h u ∙ r)))

  set_guarded :
      (next : ℕ) (p : Str) (ch node : Node T)
      → IsPlain p
      → (set zero_val next p ch node).result ≢ ok tt
      → (set zero_val next p ch node).node ≡ node
  unfolding set
  set_guarded next p ch node h k =
      elim (Bool-cases (is_parent_of node (addr ch) || is_parent_of ch (addr node))) [
        | inl e ↦ rw (h.valid, h.plain, e) refl
        | inr e ↦
            node-set_plain next p ch node h (record { below = ground arith; above = ground arith })
              k
      ]

  -- A Set that does not succeed, for whatever reason, leaves the tree as it was: no directory on
  -- the way has been made.
  pub node-set_failed :
      (next : ℕ) (p : Str) (ch node : Node T)
      → (set zero_val next p ch node).result ≢ ok tt
      → (set zero_val next p ch node).node ≡ node
  unfolding set
  node-set_failed next p ch node k = elim (Bool-cases (valid_path p)) [
    | inr e ↦ rw e refl
    | inl e ↦ elim (Bool-cases (str_eq p dot)) [
      | inl d ↦ absurd (k (rw (e, d) refl))
      | inr d ↦ set_guarded next p ch node (record { valid = e; plain = d }) k
    ]
  ]

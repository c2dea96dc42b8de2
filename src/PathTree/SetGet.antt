-- ===== src/PathTree/SetGet.antt =====
-- What Get finds after Set.
use ocfl_index.Base.{
  ℕ, ◌≡◌, refl, ap, ◌∙◌, false, some, List, [], ◌∷◌, ◌++◌, arith, Result, ok, err, panic,
  Bool-cases, inl, inr,
}
use ocfl_index.Text.{Str}
use ocfl_index.Text.Paths.{split}
use ocfl_index.Text.Paths.Laws.{init, last, split-cons}
use ocfl_index.Text.Paths.Valid.{IsPlain}
use ocfl_index.PathTree.{Err, Node, file, dir, at, get}
use ocfl_index.PathTree.Update.{Done, enter, under, below, is_dir_at, assign, set_in, set}
use ocfl_index.PathTree.Segments.{found, mkdir_segs}
use ocfl_index.PathTree.Located.{mkdir_to, Unrelated, set-located, get-plain}
use ocfl_index.PathTree.Pointers.{is_prefix, Apart, at-update-Apart, at-update_self, at-mkdir_segs}

init-last : (w : Str) (ws : List Str) → init (w ∷ ws) ++ (last (w ∷ ws) ∷ []) ≡ w ∷ ws
init-last w [] = refl
init-last w (v ∷ ws) = ap (λ r. w ∷ r) (init-last v ws)

pub split-init-last : (p : Str) → init (split p) ++ (last (split p) ∷ []) ≡ split p
split-init-last p = rw (split-cons p) (init-last _ _)

is_prefix-append :
    (q ss : List Str) (b : Str) → is_prefix q (ss ++ (b ∷ [])) ≡ false → is_prefix q ss ≡ false
is_prefix-append [] ss b h = h
is_prefix-append (x ∷ q) [] b h = refl
is_prefix-append (x ∷ q) (s ∷ ss) b h = ground (arith, is_prefix-append q ss b)

module _ {ℓ} {T : Type ℓ} (zero_val : T) where
  under-ok :
      (s : Str) (r : Result Err (List Str)) (rs : List Str)
      → under zero_val s r ≡ ok rs
      → (ss : List Str) × (r ≡ ok ss) × (rs ≡ s ∷ ss)
  unfolding under
  under-ok s (ok ss) rs h = (ss, refl, ground arith)
  under-ok s (err e) rs h = cc
  under-ok s panic rs h = cc

  -- The pointer that MkdirAll returns is the one that it was asked for.
  mkdir_segs-pointer :
      (next : ℕ) (ss : List Str) (node : Node T) (rs : List Str)
      → (mkdir_segs zero_val next ss node).result ≡ ok rs
      → rs ≡ ss
  unfolding mkdir_segs below under
  mkdir_segs-pointer next [] node rs h = ground arith
  mkdir_segs-pointer next (s ∷ ss) (file a v) rs h = cc
  mkdir_segs-pointer next (s ∷ ss) (dir a v es) rs h =
      let (ts, r, e) = under-ok s _ rs h in
      e
      ∙ ap (λ t. s ∷ t)
          (mkdir_segs-pointer (enter zero_val next s es).next ss (enter zero_val next s es).child ts
            r)

  at-mkdir_to :
      (next : ℕ) (ss : List Str) (node : Node T) (q : List Str)
      → is_prefix q ss ≡ false
      → at q (mkdir_to zero_val next ss node).node ≡ at q node
  unfolding mkdir_to
  at-mkdir_to next [] (file a v) q h = refl
  at-mkdir_to next [] (dir a v es) q h = refl
  at-mkdir_to next (s ∷ ss) node q h = at-mkdir_segs zero_val next (s ∷ ss) node q h

  pub mkdir_to-pointer :
      (next : ℕ) (ss : List Str) (node : Node T) (rs : List Str)
      → (mkdir_to zero_val next ss node).result ≡ ok rs
      → rs ≡ ss
  unfolding mkdir_to
  mkdir_to-pointer next [] (file a v) rs h = cc
  mkdir_to-pointer next [] (dir a v es) rs h = ground arith
  mkdir_to-pointer next (s ∷ ss) node rs h = mkdir_segs-pointer next (s ∷ ss) node rs h

  -- A successful assignment found a directory behind the pointer, and put the child there.
  at-assign_self :
      (b : Str) (ch : Node T) (ss : List Str) (next : ℕ) (node : Node T) (r : Result Err (List Str))
      → ((rs : List Str) → r ≡ ok rs → rs ≡ ss)
      → (assign zero_val b ch next node r).result ≡ ok tt
      → at (ss ++ (b ∷ [])) (assign zero_val b ch next node r).node ≡ some ch
  unfolding assign
  at-assign_self b ch ss next node (err e) h k = cc
  at-assign_self b ch ss next node panic h k = cc
  at-assign_self b ch ss next node (ok rs) h k = elim (Bool-cases (is_dir_at rs node)) [
    | inl e ↦ rw (e, ← h rs refl) (at-update_self rs b ch node e)
    | inr e ↦ cc (rw e at k)
  ]

  at-assign-Apart :
      (b : Str) (ch : Node T) (ss : List Str) (next : ℕ) (node : Node T) (r : Result Err (List Str))
      (q : List Str)
      → ((rs : List Str) → r ≡ ok rs → rs ≡ ss)
      → Apart (ss ++ (b ∷ [])) q
      → at q (assign zero_val b ch next node r).node ≡ at q node
  unfolding assign
  at-assign-Apart b ch ss next node (err e) q h k = refl
  at-assign-Apart b ch ss next node panic q h k = refl
  at-assign-Apart b ch ss next node (ok rs) q h k = elim (Bool-cases (is_dir_at rs node)) [
    | inl e ↦ rw e (at-update-Apart rs b ch node q (rw (h rs refl) k))
    | inr e ↦ rw e refl
  ]

  set_in_lem :
      (b : Str) (ch : Node T) (m : Done T (List Str))
      → set_in zero_val b ch m ≡ assign zero_val b ch m.next m.node m.result
  unfolding set_in
  set_in_lem b ch m = refl

  -- After a Set that succeeds at a valid path other than ".", of a node that is neither above nor
  -- below the tree's, Get of the path returns that node.
  pub get-set :
      (next : ℕ) (p : Str) (ch node : Node T)
      → IsPlain p
      → Unrelated node ch
      → (set zero_val next p ch node).result ≡ ok tt
      → get p (set zero_val next p ch node).node ≡ ok ch
  get-set next p ch node h u k =
      let m = mkdir_to zero_val next (init (split p)) node in
      let l = set-located zero_val next p ch node h u ∙ set_in_lem (last (split p)) ch m in
      let a =
        at-assign_self (last (split p)) ch (init (split p)) m.next m.node m.result
          (mkdir_to-pointer next (init (split p)) node) (rw l at k) in
      rw (get-plain p _ h, l) (ap found (rw split-init-last at a))

  -- A Set at a valid path other than ".", of a node that is neither above nor below the tree's,
  -- changes nothing, whether it succeeds or not, at a valid path other than "." that neither
  -- leads through the path set nor lies on the way to it.
  pub get-set-Apart :
      (next : ℕ) (p q : Str) (ch node : Node T)
      → IsPlain p
      → IsPlain q
      → Unrelated node ch
      → Apart (split p) (split q)
      → get q (set zero_val next p ch node).node ≡ get q node
  get-set-Apart next p q ch node h hq u apart =
      let m = mkdir_to zero_val next (init (split p)) node in
      let l = set-located zero_val next p ch node h u ∙ set_in_lem (last (split p)) ch m in
      let w : Apart (init (split p) ++ (last (split p) ∷ [])) (split q) =
        rw (split-init-last p) apart in
      rw (get-plain q _ hq, get-plain q node hq, l)
        (ap found (
          at-assign-Apart (last (split p)) ch (init (split p)) m.next m.node m.result (split q)
            (mkdir_to-pointer next (init (split p)) node) w
          ∙ at-mkdir_to next (init (split p)) node (split q)
              (is_prefix-append (split q) (init (split p)) (last (split p)) w.not_above)))

-- ===== src/PathTree/Pointers.antt =====
-- Which nodes the pointers of a tree lead to, after a change at a pointer.
use ocfl_index.Base.{
  ℕ, ◌≡◌, refl, sym, ◌∙◌, Bool, true, false, ◌&&◌, none, some, List, [], ◌∷◌, ◌++◌, arith,
  if◌then◌else◌, Bool-cases, inl, inr, Option-cases,
}
use ocfl_index.Text.{Str, str_eq, str_eq_iff, str_eq_refl}
use ocfl_index.PathTree.{Node, file, dir, Entries, end, find, put, child, at, is_dir}
use ocfl_index.PathTree.Children.{find-put}
use ocfl_index.PathTree.Update.{enter, below, update_at, is_dir_at, put_child}
use ocfl_index.PathTree.Segments.{mkdir_segs}

-- q leads to a node on the way to the node of p, or to that node.
abbrev pub is_prefix : List Str → List Str → Bool
is_prefix [] p = true
is_prefix (x ∷ q) [] = false
is_prefix (x ∷ q) (y ∷ p) = str_eq x y && is_prefix q p

-- Neither path leads through the other.
pub record Apart (p q : List Str) : Type 0 where
  pub not_above : is_prefix q p ≡ false
  pub not_below : is_prefix p q ≡ false

pub Apart-tail :
    (s x : Str) (p q : List Str) → str_eq s x ≡ true → Apart (s ∷ p) (x ∷ q) → Apart p q
Apart-tail s x p q e h = record {
  not_above = ground (arith, str_eq_iff s x, str_eq_iff x s);
  not_below = ground arith;
}

pub tail_not_above :
    (s x : Str) (ss q : List Str)
    → str_eq s x ≡ true
    → is_prefix (x ∷ q) (s ∷ ss) ≡ false
    → is_prefix q ss ≡ false
tail_not_above s x ss q e h = ground (arith, str_eq_iff s x, str_eq_iff x s)

not_prefix_nil : (ss q : List Str) → is_prefix q ss ≡ false → is_prefix q [] ≡ false
not_prefix_nil ss [] h = h
not_prefix_nil ss (x ∷ q) h = refl

module _ {ℓ} {T : Type ℓ} where
  pub at_dir :
      (x : Str) (q : List Str) (a : ℕ) (v : T) (es : Entries T)
      → at (x ∷ q) (dir a v es) ≡ elim (find x es) [ none ↦ none | some ch ↦ at q ch ]
  unfolding at
  at_dir x q a v es = refl

  -- Below a directory that gets a child by a name.
  pub at-put :
      (x s : Str) (q : List Str) (a : ℕ) (v : T) (ch : Node T) (es : Entries T)
      → at (x ∷ q) (dir a v (put s ch es))
        ≡ (if str_eq s x then at q ch else at (x ∷ q) (dir a v es))
  unfolding at child
  at-put x s q a v ch es = ground (arith, find-put x s ch es)

  pub at_found :
      (x s : Str) (q : List Str) (a : ℕ) (v : T) (c : Node T) (es : Entries T)
      → str_eq s x ≡ true
      → find s es ≡ some c
      → at (x ∷ q) (dir a v es) ≡ at q c
  unfolding at
  at_found x s q a v c es e f = ground (arith, str_eq_iff s x)

  pub at_missing :
      (x s : Str) (q : List Str) (a : ℕ) (v : T) (es : Entries T)
      → str_eq s x ≡ true
      → find s es ≡ none
      → at (x ∷ q) (dir a v es) ≡ none
  unfolding at
  at_missing x s q a v es e f = ground (arith, str_eq_iff s x)

  pub at-put_child-Apart :
      (b : Str) (ch node : Node T) (q : List Str)
      → Apart (b ∷ []) q
      → at q (put_child b ch node) ≡ at q node
  unfolding put_child
  at-put_child-Apart b ch (file a v) q h = refl
  at-put_child-Apart b ch (dir a v es) [] h = cc h.not_above
  at-put_child-Apart b ch (dir a v es) (x ∷ q) h = rw at-put (ground arith)

  -- A child that is changed under its name.
  at-put_same :
      (x s : Str) (q : List Str) (a : ℕ) (v : T) (c c' : Node T) (es : Entries T)
      → find s es ≡ some c
      → (str_eq s x ≡ true → at q c' ≡ at q c)
      → at (x ∷ q) (dir a v (put s c' es)) ≡ at (x ∷ q) (dir a v es)
  at-put_same x s q a v c c' es f h = elim (Bool-cases (str_eq s x)) [
    | inl e ↦ at-put x s q a v c' es ∙ (rw e (h e ∙ sym (at_found x s q a v c es e f)))
    | inr e ↦ at-put x s q a v c' es ∙ rw e
  ]

  -- A change at a pointer shows at no pointer apart from it.
  pub at-update-Apart :
      (ss : List Str) (b : Str) (ch node : Node T) (q : List Str)
      → Apart (ss ++ (b ∷ [])) q
      → at q (update_at ss (put_child b ch) node) ≡ at q node
  unfolding update_at
  at-update-Apart [] b ch node q h = at-put_child-Apart b ch node q h
  at-update-Apart (s ∷ ss) b ch (file a v) q h = refl
  at-update-Apart (s ∷ ss) b ch (dir a v es) [] h = cc h.not_above
  at-update-Apart (s ∷ ss) b ch (dir a v es) (x ∷ q) h = elim (Option-cases (find s es)) [
    | inl f ↦ rw (f, update_at)
    | inr (c, f) ↦
        rw (f, update_at)
          (at-put_same x s q a v c _ es f
            (λ e. at-update-Apart ss b ch c q (Apart-tail s x (ss ++ (b ∷ [])) q e h)))
  ]

  dir_below :
      (s : Str) (ss : List Str) (a : ℕ) (v : T) (c : Node T) (es : Entries T)
      → find s es ≡ some c
      → is_dir_at (s ∷ ss) (dir a v es) ≡ true
      → is_dir_at ss c ≡ true
  unfolding at
  dir_below s ss a v c es f h = ground arith

  -- What is put under a directory is found there.
  pub at-update_self :
      (ss : List Str) (b : Str) (ch node : Node T)
      → is_dir_at ss node ≡ true
      → at (ss ++ (b ∷ [])) (update_at ss (put_child b ch) node) ≡ some ch
  unfolding update_at at put_child is_dir
  at-update_self [] b ch (file a v) h = cc
  at-update_self [] b ch (dir a v es) h = at-put b b [] a v ch es ∙ rw (str_eq_refl b)
  at-update_self (s ∷ ss) b ch (file a v) h = cc
  at-update_self (s ∷ ss) b ch (dir a v es) h = elim (Option-cases (find s es)) [
    | inl f ↦ cc (rw (f, is_dir_at) at h)
    | inr (c, f) ↦
        rw (f, update_at)
          (at-put s s (ss ++ (b ∷ [])) a v _ es
            ∙ rw (str_eq_refl s) (at-update_self ss b ch c (dir_below s ss a v c es f h)))
  ]

module _ {ℓ} {T : Type ℓ} (zero_val : T) where
  at_new : (q : List Str) (a : ℕ) → is_prefix q [] ≡ false → at q (dir a zero_val end) ≡ none
  unfolding at child find
  at_new [] a h = cc
  at_new (x ∷ q) a h = refl

  at-entered :
      (next : ℕ) (x s : Str) (q : List Str) (a : ℕ) (v : T) (es : Entries T)
      → str_eq s x ≡ true
      → is_prefix q [] ≡ false
      → at q (enter zero_val next s es).child ≡ at (x ∷ q) (dir a v es)
  unfolding enter
  at-entered next x s q a v es e k = elim (Option-cases (find s es)) [
    | inl f ↦ rw (f, enter) (at_new q next k ∙ sym (at_missing x s q a v es e f))
    | inr (c, f) ↦ rw (f, enter) (sym (at_found x s q a v c es e f))
  ]

  at-entered_other :
      (next : ℕ) (x s : Str) (q : List Str) (a : ℕ) (v : T) (es : Entries T)
      → str_eq s x ≡ false
      → at (x ∷ q) (dir a v (enter zero_val next s es).entries) ≡ at (x ∷ q) (dir a v es)
  unfolding enter
  at-entered_other next x s q a v es e = elim (Option-cases (find s es)) [
    | inl f ↦ rw (f, enter) (at-put x s q a v _ es ∙ rw e)
    | inr (c, f) ↦ rw (f, enter) refl
  ]

  at-enter :
      (next : ℕ) (x s : Str) (q : List Str) (a : ℕ) (v : T) (c' : Node T) (es : Entries T)
      → let e = enter zero_val next s es in
        (str_eq s x ≡ true → at q c' ≡ at q e.child)
        → (str_eq s x ≡ true → is_prefix q [] ≡ false)
        → at (x ∷ q) (dir a v (put s c' e.entries)) ≡ at (x ∷ q) (dir a v es)
  at-enter next x s q a v c' es h k = elim (Bool-cases (str_eq s x)) [
    | inl e ↦ at-put x s q a v c' _ ∙ rw e (h e ∙ at-entered next x s q a v es e (k e))
    | inr e ↦ at-put x s q a v c' _ ∙ rw e (at-entered_other next x s q a v es e)
  ]

  -- MkdirAll changes no node but those on its way, and adds no other.
  pub at-mkdir_segs :
      (next : ℕ) (ss : List Str) (node : Node T) (q : List Str)
      → is_prefix q ss ≡ false
      → at q (mkdir_segs zero_val next ss node).node ≡ at q node
  unfolding mkdir_segs below
  at-mkdir_segs next [] node q h = refl
  at-mkdir_segs next (s ∷ ss) (file a v) q h = refl
  at-mkdir_segs next (s ∷ ss) (dir a v es) [] h = cc
  at-mkdir_segs next (s ∷ ss) (dir a v es) (x ∷ q) h =
      at-enter next x s q a v _ es
        (λ e.
          at-mkdir_segs (enter zero_val next s es).next ss (enter zero_val next s es).child q
            (tail_not_above s x ss q e h))
        (λ e. not_prefix_nil ss q (tail_not_above s x ss q e h))

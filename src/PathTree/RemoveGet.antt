-- ===== src/PathTree/RemoveGet.antt =====
-- What Remove returns, and what Get finds after it.
use ocfl_index.Base.{
  ℕ, ◌≡◌, refl, sym, ap, ◌∙◌, Bool, true, false, Option, none, some, List, [], ◌∷◌, ◌++◌, arith,
  if◌then◌else◌, Result, ok, err, panic, Bool-cases, inl, inr, Option-cases,
}
use ocfl_index.Text.{Str, str_eq}
use ocfl_index.Text.Paths.{split, path_dir}
use ocfl_index.Text.Paths.Laws.{init, last}
use ocfl_index.Text.Paths.Valid.{IsPlain, pointer_to, path_dir-valid}
use ocfl_index.PathTree.{Err, not_found, Node, file, dir, Entries, find, del, child, at, get}
use ocfl_index.PathTree.Children.{find-del}
use ocfl_index.PathTree.Update.{update_at, del_child, remove_in, remove}
use ocfl_index.PathTree.Segments.{found}
use ocfl_index.PathTree.Located.{remove-located, get-plain}
use ocfl_index.PathTree.Pointers.{is_prefix, at-put, at_found, at_missing, tail_not_above}
use ocfl_index.PathTree.SetGet.{split-init-last}

module _ {ℓ} {T : Type ℓ} where
  at-append :
      (ss : List Str) (b : Str) (node : Node T)
      → at (ss ++ (b ∷ [])) node ≡ elim (at ss node) [ none ↦ none | some n ↦ child b n ]
  unfolding at
  at-append [] b node = ground arith
  at-append (s ∷ ss) b node = elim (Option-cases (child s node)) [
    | inl f ↦ rw (f, at) refl
    | inr (c, f) ↦ rw (f, at) (at-append ss b c)
  ]

  at-del :
      (x s : Str) (q : List Str) (a : ℕ) (v : T) (es : Entries T)
      → at (x ∷ q) (dir a v (del s es)) ≡ (if str_eq s x then none else at (x ∷ q) (dir a v es))
  unfolding at child
  at-del x s q a v es = ground (arith, find-del x s es)

  if_none : (b : Bool) {o : Option (Node T)} → o ≡ none → o ≡ (if b then none else o)
  if_none true e = e
  if_none false e = refl

  at_file : (x : Str) (q : List Str) (a : ℕ) (v : T) → at (x ∷ q) (file a v) ≡ none
  unfolding at child
  at_file x q a v = refl

  missing_child :
      (x s : Str) (p q : List Str) (a : ℕ) (v : T) (es : Entries T)
      → find s es ≡ none
      → at (x ∷ q) (dir a v es)
        ≡ (if is_prefix (s ∷ p) (x ∷ q) then none else at (x ∷ q) (dir a v es))
  missing_child x s p q a v es f = elim (Bool-cases (str_eq s x)) [
    | inl e ↦ if_none _ (at_missing x s q a v es e f)
    | inr e ↦ rw e refl
  ]

  -- The two sides below a child that is there.
  below_child :
      (x s : Str) (p q : List Str) (a : ℕ) (v : T) (c c' : Node T) (es : Entries T)
      → find s es ≡ some c
      → (str_eq s x ≡ true → at q c' ≡ (if is_prefix p q then none else at q c))
      → (if str_eq s x then at q c' else at (x ∷ q) (dir a v es))
        ≡ (if is_prefix (s ∷ p) (x ∷ q) then none else at (x ∷ q) (dir a v es))
  below_child x s p q a v c c' es f h = elim (Bool-cases (str_eq s x)) [
    | inl e ↦ rw (at_found x s q a v c es e f, e) (h e)
    | inr e ↦ rw e refl
  ]

  -- After a deletion at a pointer nothing is found at it or through it, and all else as before.
  at-remove :
      (ss : List Str) (b : Str) (node : Node T) (q : List Str)
      → is_prefix q ss ≡ false
      → at q (update_at ss (del_child b) node)
        ≡ (if is_prefix (ss ++ (b ∷ [])) q then none else at q node)
  unfolding update_at del_child
  at-remove [] b (file a v) [] h = cc
  at-remove [] b (file a v) (x ∷ q) h = if_none _ (at_file x q a v)
  at-remove [] b (dir a v es) [] h = cc
  at-remove [] b (dir a v es) (x ∷ q) h = at-del x b q a v es ∙ ground arith
  at-remove (s ∷ ss) b (file a v) [] h = cc
  at-remove (s ∷ ss) b (file a v) (x ∷ q) h = if_none _ (at_file x q a v)
  at-remove (s ∷ ss) b (dir a v es) [] h = cc
  at-remove (s ∷ ss) b (dir a v es) (x ∷ q) h = elim (Option-cases (find s es)) [
    | inl f ↦ rw (f, update_at) (missing_child x s (ss ++ (b ∷ [])) q a v es f)
    | inr (c, f) ↦
        rw (f, update_at)
          (at-put x s q a v _ es
            ∙ below_child x s (ss ++ (b ∷ [])) q a v c _ es f
                (λ e. at-remove ss b c q (tail_not_above s x ss q e h)))
  ]

module _ {ℓ} {T : Type ℓ} (zero_val : T) where
  result-remove_in :
      (next : ℕ) (d base : Str) (node : Node T) (o : Option (Node T))
      → (remove_in zero_val next d base node (found o)).result
        ≡ found (elim o [ none ↦ none | some n ↦ child base n ])
  unfolding remove_in
  result-remove_in next d base node none = refl
  result-remove_in next d base node (some n) = elim (Option-cases (child base n)) [
    | inl f ↦ rw (f, remove_in) refl
    | inr (c, f) ↦ rw (f, remove_in) refl
  ]

  node-remove_in :
      (next : ℕ) (d base : Str) (node : Node T) (r : Result Err (Node T)) (sub : Node T)
      → (remove_in zero_val next d base node r).result ≡ ok sub
      → (remove_in zero_val next d base node r).node
        ≡ update_at (pointer_to d) (del_child base) node
  unfolding remove_in
  node-remove_in next d base node (err e) sub h = cc
  node-remove_in next d base node panic sub h = cc
  node-remove_in next d base node (ok n) sub h = elim (Option-cases (child base n)) [
    | inl f ↦ cc (rw (f, remove_in) at h)
    | inr (c, f) ↦ rw (f, remove_in) refl
  ]

  -- At a valid path other than ".", Remove returns exactly what Get returns, its errors included.
  pub remove-get :
      (next : ℕ) (p : Str) (node : Node T)
      → IsPlain p
      → (remove zero_val next p node).result ≡ get p node
  remove-get next p node h = rw (remove-located zero_val next p node h) (
      result-remove_in next (path_dir p) (last (split p)) node (at (init (split p)) node)
      ∙ ap found (sym (at-append (init (split p)) (last (split p)) node))
      ∙ (rw split-init-last (sym (get-plain p node h))))

  -- After a Remove that succeeds at a valid path other than ".", Get of a valid path other than
  -- "." that does not lie above the removed one finds nothing where the path leads through the
  -- removed one, and elsewhere finds what it found before.
  pub get-remove :
      (next : ℕ) (p q : Str) (node sub : Node T)
      → IsPlain p
      → IsPlain q
      → is_prefix (split q) (init (split p)) ≡ false
      → (remove zero_val next p node).result ≡ ok sub
      → get q (remove zero_val next p node).node
        ≡ (if is_prefix (split p) (split q) then err not_found else get q node)
  get-remove next p q node sub h hq above k =
      let e = remove-located zero_val next p node h in
      let n = node-remove_in next (path_dir p) (last (split p)) node _ sub (rw e at k) in
      let s = at-remove (init (split p)) (last (split p)) node (split q) above in
      rw (get-plain q _ hq, get-plain q node hq, e, n, (path_dir-valid p h).1, s, split-init-last p)
        (found-if (is_prefix (split p) (split q)) (at (split q) node))
    where
      found-if :
          (b : Bool) (o : Option (Node T))
          → found (if b then none else o) ≡ (if b then err not_found else found o)
      found-if true o = refl
      found-if false o = refl

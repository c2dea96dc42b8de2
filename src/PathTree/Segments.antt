-- ===== src/PathTree/Segments.antt =====
-- The loops of Get and MkdirAll, which cut off one element at a time, in terms of the list of
-- elements; and so the operations on valid paths.
use ocfl_index.Base.{
  ℕ, zero, suc, ◌<◌, ◌≡◌, refl, sym, ap, true, false, Option, none, some, List, [], ◌∷◌, arith,
  length, Result, ok, err, Bool-cases, inl, inr, Option-cases,
}
use ocfl_index.Text.{Str, str_eq_iff}
use ocfl_index.Text.Paths.{Cut, cut, split}
use ocfl_index.Text.Paths.Laws.{split-cons, cut-length, rest_of}
use ocfl_index.PathTree.Children.{find-put, put-find}
use ocfl_index.PathTree.Update.{Done, enter, below, mkdir_loop}
use ocfl_index.PathTree.{
  Err, not_found, not_dir, Node, file, dir, Entries, find, child, get_loop, at,
}

abbrev pub found {ℓ} : {A : Type ℓ} → Option A → Result Err A
found none = err not_found
found (some a) = ok a

module _ {ℓ} {T : Type ℓ} where
  get_step :
      (fuel : ℕ) (k : Cut) (o : Option (Node T))
      → ((ch : Node T) → k.more ≡ true → get_loop fuel k.rest ch ≡ found (at (split k.rest) ch))
      → elim o [
        | none ↦ err not_found
        | some ch ↦ elim k.more [ true ↦ get_loop fuel k.rest ch | false ↦ ok ch ]
      ]
        ≡ found (elim o [ none ↦ none | some ch ↦ at (rest_of k) ch ])
  get_step fuel k none ih = refl
  get_step fuel k (some ch) ih = elim (Bool-cases k.more) [
    | inl e ↦ rw e (ih ch e)
    | inr e ↦ rw e (unfold at in refl)
  ]

  pub get_loop_lem :
      (fuel : ℕ) (p : Str) (node : Node T)
      → length p < fuel
      → get_loop fuel p node ≡ found (at (split p) node)
  unfolding get_loop at
  get_loop_lem zero p node h = absurd (omega arith)
  get_loop_lem (suc fuel) p node h = rw (split-cons p) (
      get_step fuel (cut p) (child (cut p).first node)
        (λ ch e. get_loop_lem fuel (cut p).rest ch (omega (arith, cut-length p e))))

module _ {ℓ} {T : Type ℓ} (zero_val : T) where
  unfoldable pub mkdir_segs : ℕ → List Str → Node T → Done T (List Str)
  mkdir_segs next [] node = record { node = node; next = next; result = ok [] }
  mkdir_segs next (s ∷ ss) (file a v) = record {
    node = file a v;
    next = next;
    result = err not_dir;
  }
  mkdir_segs next (s ∷ ss) (dir a v es) =
      let e = enter zero_val next s es in
      below zero_val a v s e.entries (mkdir_segs e.next ss e.child)

  -- The child that MkdirAll goes on to is the one under that name.
  pub find-enter :
      (next : ℕ) (s : Str) (es : Entries T)
      → find s (enter zero_val next s es).entries ≡ some (enter zero_val next s es).child
  unfolding enter
  find-enter next s es = elim (Option-cases (find s es)) [
    | inl e ↦ rw (e, enter) (rw find-put (ground (arith, str_eq_iff s s)))
    | inr (ch, e) ↦ rw (e, enter) e
  ]

  mkdir_end :
      (next : ℕ) (a : ℕ) (v : T) (s : Str) (es : Entries T)
      → let e = enter zero_val next s es in
        below zero_val a v s e.entries (record { node = e.child; next = e.next; result = ok [] })
        ≡ record { node = dir a v e.entries; next = e.next; result = ok (s ∷ []) }
  unfolding below
  mkdir_end next a v s es = rw (put-find s _ _ (find-enter next s es)) refl

  mkdir_step :
      (fuel next : ℕ) (k : Cut) (a : ℕ) (v : T) (es : Entries T)
      → let e = enter zero_val next k.first es in
        (k.more ≡ true
          → mkdir_loop zero_val fuel e.next k.rest e.child
            ≡ mkdir_segs e.next (split k.rest) e.child)
        → elim k.more [
          | true ↦
              below zero_val a v k.first e.entries (mkdir_loop zero_val fuel e.next k.rest e.child)
          | false ↦ record { node = dir a v e.entries; next = e.next; result = ok (k.first ∷ []) }
        ]
          ≡ below zero_val a v k.first e.entries (mkdir_segs e.next (rest_of k) e.child)
  mkdir_step fuel next k a v es ih = elim (Bool-cases k.more) [
    | inl m ↦ rw m (ap (below zero_val a v _ _) (ih m))
    | inr m ↦ rw m (unfold mkdir_segs in sym (mkdir_end next a v k.first es))
  ]

  pub mkdir_loop_lem :
      (fuel next : ℕ) (p : Str) (node : Node T)
      → length p < fuel
      → mkdir_loop zero_val fuel next p node ≡ mkdir_segs next (split p) node
  unfolding mkdir_loop mkdir_segs
  mkdir_loop_lem zero next p node h = absurd (omega arith)
  mkdir_loop_lem (suc fuel) next p (file a v) h = rw (split-cons p) refl
  mkdir_loop_lem (suc fuel) next p (dir a v es) h = rw (split-cons p) (
      mkdir_step fuel next (cut p) a v es
        (λ m. mkdir_loop_lem fuel _ (cut p).rest _ (omega (arith, cut-length p m))))

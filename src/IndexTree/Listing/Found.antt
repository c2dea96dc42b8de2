-- ===== src/IndexTree/Listing/Found.antt =====
-- The listing that dirDigests hashes for a directory, looked up.
use ocfl_index.Base.{
  ℕ, ◌≡◌, refl, sym, ap, ◌∙◌, true, false, Option, none, some, List, [], ◌∷◌, map, All, Bool-cases,
  inl, inr, if◌then◌else◌,
}
use mathlib.Core.Option
use ocfl_index.Text.{Str, str_lt, str_eq, str_eq→eq, str_eq_sym}
use ocfl_index.Text.Paths.Laws.{no_slash}
use ocfl_index.Paging.{insert_by, sort_by}
use ocfl_index.Paging.Order.{All-sort_by, DistinctKeys}
use ocfl_index.Paging.Maps.{map-sort_by}
use ocfl_index.PathTree.{Node, file, dir, Entries, end, entry, find, val, is_dir}
use ocfl_index.PathTree.Named.{IsProper, AreProper}
use ocfl_index.IndexTree.{
  IndexingVal, name_of, digest_line, line_name, concat_lines, dir_digests, digest_entries,
  digest_lines,
}
use ocfl_index.IndexTree.Listing.{
  Key, node_key, lines, look_up, read_with, AreBytes, no_break, IsWellNamed, AreWellNamed,
  hashed_listing, Reads, ReadsAll,
}
use ocfl_index.IndexTree.Listing.Lines.{look_up-line}

-- The first key with a name.
assoc : Str → List (Str × Key) → Option Key
assoc m [] = none
assoc m (p ∷ ps) = if str_eq p.0 m then some p.1 else assoc m ps

abbrev key_name : Str × Key → Str
key_name p = p.0

assoc-insert_by :
    (m : Str) (p : Str × Key) (ps : List (Str × Key))
    → All (λ q. str_eq p.0 q.0 ≡ false) ps
    → assoc m (insert_by key_name p ps) ≡ assoc m (p ∷ ps)
unfolding assoc insert_by
assoc-insert_by m p [] h = refl
assoc-insert_by m p (q ∷ ps) h = elim (Bool-cases (str_lt p.0 q.0)) [
  | inl e ↦ rw e refl
  | inr e ↦ elim (Bool-cases (str_eq q.0 m)) [
    | inr f ↦ rw (e, f) (assoc-insert_by m p ps h.1)
    | inl f ↦
        let other : str_eq p.0 m ≡ false = rw (str_eq→eq q.0 m f) at h.0 in rw (e, f, other) refl
  ]
]

assoc-sort_by :
    (m : Str) (ps : List (Str × Key))
    → DistinctKeys key_name ps
    → assoc m (sort_by key_name ps) ≡ assoc m ps
unfolding assoc sort_by
assoc-sort_by m [] h = refl
assoc-sort_by m (p ∷ ps) h =
    assoc-insert_by m p (sort_by key_name ps)
      (All-sort_by key_name (λ q. str_eq p.0 q.0 ≡ false) ps h.0)
    ∙ ap (λ o. if str_eq p.0 m then some p.1 else o) (assoc-sort_by m ps h.1)

-- A line with its name.
abbrev line_of : Str × Key → Str × Str
line_of p = (p.0, digest_line p.1.1 (line_name p.0 p.1.0))

abbrev IsLine : Str × Key → Type 0
IsLine p = (no_slash p.0 ≡ true) × (no_break p.0 ≡ true) × AreBytes p.1.1

look_up-listing :
    (m : Str) (ps : List (Str × Key))
    → All IsLine ps
    → look_up m (lines (concat_lines (map line_of ps))) ≡ assoc m ps
unfolding look_up lines concat_lines assoc
look_up-listing m [] h = refl
look_up-listing m (p ∷ ps) h =
    look_up-line m p.0 p.1 (concat_lines (map line_of ps)) h.0.0 h.0.1 h.0.2
    ∙ ap (λ o. if str_eq p.0 m then some p.1 else o) (look_up-listing m ps h.1)

module _ (hash : Str → List ℕ) where
  -- The children of a directory with their digests.
  keys : Entries IndexingVal → List (Str × Key)
  keys end = []
  keys (entry n ch es) = (n, node_key (dir_digests hash ch)) ∷ keys es

  line-key :
      (n : Str) (ch : Node IndexingVal)
      → line_of (n, node_key (dir_digests hash ch))
        ≡ (n, digest_line (val (dir_digests hash ch)).sum (line_name n (is_dir ch)))
  unfolding dir_digests is_dir
  line-key n (file a v) = refl
  line-key n (dir a v es) = refl

  lines-keys : (es : Entries IndexingVal) → digest_lines hash es ≡ map line_of (keys es)
  unfolding digest_lines keys
  lines-keys end = refl
  lines-keys (entry n ch es) = rw (line-key n ch, lines-keys es) refl

  find-keys :
      (m : Str) (es : Entries IndexingVal)
      → Option.map node_key (find m (digest_entries hash es)) ≡ assoc m (keys es)
  unfolding find digest_entries assoc keys
  find-keys m end = refl
  find-keys m (entry n ch es) = elim (Bool-cases (str_eq n m)) [
    | inl e ↦ rw e refl
    | inr e ↦ rw e (find-keys m es)
  ]

  others_differ :
      (n : Str) (es : Entries IndexingVal)
      → find n es ≡ none
      → All (λ q. str_eq n q.0 ≡ false) (keys es)
  unfolding find keys
  others_differ n end h = tt
  others_differ n (entry m ch es) h = elim (Bool-cases (str_eq m n)) [
    | inl e ↦ cc (rw e at h)
    | inr e ↦ (str_eq_sym n m ∙ e, others_differ n es (rw e at h))
  ]

  keys-DistinctKeys : (es : Entries IndexingVal) → AreWellNamed es → DistinctKeys key_name (keys es)
  unfolding keys AreProper
  keys-DistinctKeys end h = tt
  keys-DistinctKeys (entry n ch es) h = (others_differ n es h.0, keys-DistinctKeys es h.3)

  module _ (unhash : List ℕ → Str) where
    key-AreBytes :
        (t : Node IndexingVal)
        → IsWellNamed t
        → Reads hash unhash t
        → AreBytes (node_key (dir_digests hash t)).1
    unfolding dir_digests IsProper Reads
    key-AreBytes (file a v) h r = h
    key-AreBytes (dir a v es) h r = r.1

    keys-IsLine :
        (es : Entries IndexingVal)
        → AreWellNamed es
        → ReadsAll hash unhash es
        → All IsLine (keys es)
    unfolding keys AreProper ReadsAll
    keys-IsLine end h r = tt
    keys-IsLine (entry n ch es) h r =
        ((h.1.0.1, h.1.1, key-AreBytes ch h.2 r.0), keys-IsLine es h.3 r.1)

    -- The listing of a directory, looked up.
    pub read_with-find :
        (es : Entries IndexingVal) (m : Str)
        → AreWellNamed es
        → ReadsAll hash unhash es
        → unhash (hash (hashed_listing hash unhash es)) ≡ hashed_listing hash unhash es
        → read_with unhash (hash (hashed_listing hash unhash es)) m
          ≡ Option.map node_key (find m (digest_entries hash es))
    unfolding read_with
    read_with-find es m h r e =
        let sorted = sort_by key_name (keys es) in
        ap (λ t. look_up m (lines t))
          (e
            ∙ ap (λ ls. concat_lines (sort_by (name_of {A = Str}) ls)) (lines-keys es)
            ∙ ap concat_lines
                (sym (map-sort_by line_of key_name (name_of {A = Str}) (λ p. refl) (keys es))))
        ∙ look_up-listing m sorted (All-sort_by key_name IsLine (keys es) (keys-IsLine es h r))
        ∙ assoc-sort_by m (keys es) (keys-DistinctKeys es h)
        ∙ sym (find-keys m es)

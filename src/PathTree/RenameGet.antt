-- ===== src/PathTree/RenameGet.antt =====
-- What Get finds after Rename.
use ocfl_index.Base.{ℕ, ◌≡◌, ◌≢◌, ◌⊎◌, refl, ◌∙◌, Result, ok, err, panic, inl, inr}
use ocfl_index.Text.{Str}
use ocfl_index.Text.Paths.Valid.{IsPlain}
use ocfl_index.PathTree.{Err, Node, get}
use ocfl_index.PathTree.Update.{Done, set, remove, restored, moved, rename}
use ocfl_index.PathTree.Located.{Unrelated}
use ocfl_index.PathTree.SetGet.{get-set}
use ocfl_index.PathTree.SetResult.{node-set_failed}
use ocfl_index.PathTree.RemoveGet.{remove-get}

Result-cases : (r : Result Err (Unit {0})) → (r ≡ ok tt) ⊎ (((e : Err) × (r ≡ err e)) ⊎ (r ≡ panic))
Result-cases (ok tt) = inl refl
Result-cases (err e) = inr (inl (e, refl))
Result-cases panic = inr (inr refl)

module _ {ℓ} {T : Type ℓ} (zero_val : T) where
  rename_lem :
      (next : ℕ) (from to : Str) (node sub : Node T)
      → IsPlain from
      → get from node ≡ ok sub
      → let r = remove zero_val next from node in
        rename zero_val next from to node
        ≡ moved zero_val from sub (set zero_val r.next to sub r.node)
  unfolding rename
  rename_lem next from to node sub h g = rw (remove-get zero_val next from node h ∙ g, rename) refl

  restored_not_ok : (e : Err) (d : Done T (Unit {0})) → (restored zero_val e d).result ≢ ok tt
  unfolding restored
  restored_not_ok e d h = elim (Result-cases d.result) [
    | inl k ↦ cc (rw (k, restored) at h)
    | inr (inl (f, k)) ↦ cc (rw (k, restored) at h)
    | inr (inr k) ↦ cc (rw (k, restored) at h)
  ]

  moved_ok :
      (from : Str) (sub : Node T) (d : Done T (Unit {0}))
      → (moved zero_val from sub d).result ≡ ok tt
      → (d.result ≡ ok tt) × ((moved zero_val from sub d).node ≡ d.node)
  unfolding moved
  moved_ok from sub d h = elim (Result-cases d.result) [
    | inl k ↦ (k, rw (k, moved) refl)
    | inr (inl (e, k)) ↦
        absurd (restored_not_ok e (set zero_val d.next from sub d.node) (rw (k, moved) at h))
    | inr (inr k) ↦ cc (rw (k, moved) at h)
  ]

  -- After a Rename that succeeds, between valid paths other than "." and of a node that is neither
  -- above nor below what Remove leaves, Get finds at the new path what it found at the old one.
  pub get-rename :
      (next : ℕ) (from to : Str) (node sub : Node T)
      → IsPlain from
      → IsPlain to
      → get from node ≡ ok sub
      → Unrelated (remove zero_val next from node).node sub
      → (rename zero_val next from to node).result ≡ ok tt
      → get to (rename zero_val next from to node).node ≡ ok sub
  get-rename next from to node sub h k g u succeeds =
      let r = remove zero_val next from node in
      let l = rename_lem next from to node sub h g in
      let m = moved_ok from sub (set zero_val r.next to sub r.node) (rw l at succeeds) in
      rw (l, m.1) (get-set zero_val r.next to sub r.node k u m.0)

  restored_err :
      (e f : Err) (d : Done T (Unit {0}))
      → (restored zero_val e d).result ≡ err f
      → (d.result ≡ ok tt) × ((restored zero_val e d).node ≡ d.node)
  unfolding restored
  restored_err e f d h = elim (Result-cases d.result) [
    | inl k ↦ (k, rw (k, restored) refl)
    | inr (inl (g, k)) ↦ cc (rw (k, restored) at h)
    | inr (inr k) ↦ cc (rw (k, restored) at h)
  ]

  moved_err :
      (from : Str) (sub : Node T) (d : Done T (Unit {0})) (f : Err)
      → (moved zero_val from sub d).result ≡ err f
      → (d.result ≢ ok tt)
        × (((set zero_val d.next from sub d.node).result ≡ ok tt)
            × ((moved zero_val from sub d).node ≡ (set zero_val d.next from sub d.node).node))
  unfolding moved
  moved_err from sub d f h = elim (Result-cases d.result) [
    | inl k ↦ cc (rw (k, moved) at h)
    | inr (inl (e, k)) ↦
        let b = restored_err e f (set zero_val d.next from sub d.node) (rw (k, moved) at h) in
        (λ o. cc (o, k), (b.0, rw (k, moved) b.1))
    | inr (inr k) ↦ cc (rw (k, moved) at h)
  ]

  -- A Rename from a valid path other than ".", of a node that is there and is neither above nor
  -- below what Remove leaves, has put the node back if it returns an error: Get finds at the old
  -- path what it found before.
  pub get-rename_failed :
      (next : ℕ) (from to : Str) (node sub : Node T) (e : Err)
      → IsPlain from
      → get from node ≡ ok sub
      → Unrelated (remove zero_val next from node).node sub
      → (rename zero_val next from to node).result ≡ err e
      → get from (rename zero_val next from to node).node ≡ ok sub
  get-rename_failed next from to node sub e h g u failed =
      let r = remove zero_val next from node in
      let d = set zero_val r.next to sub r.node in
      let l = rename_lem next from to node sub h g in
      let m = moved_err from sub d e (rw l at failed) in
      let same = node-set_failed zero_val r.next to sub r.node m.0 in
      rw (l, m.1.1) (get-set zero_val d.next from sub d.node h (rw same u) m.1.0)

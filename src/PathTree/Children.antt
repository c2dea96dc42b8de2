-- ===== src/PathTree/Children.antt =====
-- The laws of a children map.
use ocfl_index.Base.{◌≡◌, refl, none, some, arith, if◌then◌else◌}
use ocfl_index.Text.{Str, str_eq, str_eq_iff}
use ocfl_index.PathTree.{Node, Entries, end, entry, find, put, del}

module _ {ℓ} {T : Type ℓ} where
  pub find-put :
      (j k : Str) (ch : Node T) (es : Entries T)
      → find j (put k ch es) ≡ (if str_eq k j then some ch else find j es)
  unfolding find put
  find-put j k ch end = refl
  find-put j k ch (entry n x es) =
      ground (arith, find-put j k ch es, str_eq_iff n k, str_eq_iff n j, str_eq_iff k j)

  pub find-del :
      (j k : Str) (es : Entries T) → find j (del k es) ≡ (if str_eq k j then none else find j es)
  unfolding find del
  find-del j k end = ground arith
  find-del j k (entry n x es) =
      ground (arith, find-del j k es, str_eq_iff n k, str_eq_iff n j, str_eq_iff k j)

  -- Writing back what is there changes nothing.
  pub put-find : (k : Str) (ch : Node T) (es : Entries T) → find k es ≡ some ch → put k ch es ≡ es
  unfolding find put
  put-find k ch end h = ground arith
  put-find k ch (entry n x es) h = ground (arith, put-find k ch es, str_eq_iff n k)

  -- The second write to a name wins.
  pub put-put : (k : Str) (x y : Node T) (es : Entries T) → put k x (put k y es) ≡ put k x es
  unfolding put
  put-put k x y end = ground (arith, str_eq_iff k k)
  put-put k x y (entry n z es) = ground (arith, put-put k x y es, str_eq_iff n k, str_eq_iff k k)

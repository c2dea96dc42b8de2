-- ===== src/Paging/Keys.antt =====
-- Lists of distinct keys, under maps and joins, and keys that are not empty.
use ocfl_index.Base.{◌≡◌, refl, ap, ◌∙◌, true, false, List, [], ◌∷◌, ◌++◌, map, All, All-append}
use ocfl_index.Text.{Str, str_lt, str_eq}
use ocfl_index.Paging.{above}
use ocfl_index.Paging.Order.{DistinctKeys}

pub All-map {ℓ κ μ ν} :
    {A : Type ℓ} {B : Type κ} (P : A → Type μ) (Q : B → Type ν) (f : A → B)
    → ((x : A) → P x → Q (f x))
    → (xs : List A) → All P xs
    → All Q (map f xs)
All-map P Q f g [] h = tt
All-map P Q f g (x ∷ xs) h = (g x h.0, All-map P Q f g xs h.1)

pub All-any {ℓ μ} : {A : Type ℓ} (P : A → Type μ) → ((x : A) → P x) → (xs : List A) → All P xs
All-any P g [] = tt
All-any P g (x ∷ xs) = (g x, All-any P g xs)

pub All-imp {ℓ μ ν} :
    {A : Type ℓ} (P : A → Type μ) (Q : A → Type ν)
    → ((x : A) → P x → Q x)
    → (xs : List A) → All P xs
    → All Q xs
All-imp P Q g [] h = tt
All-imp P Q g (x ∷ xs) h = (g x h.0, All-imp P Q g xs h.1)

module _ {ℓ} {A : Type ℓ} (key : A → Str) where
  pub above_nil : (xs : List A) → All (λ x. str_lt [] (key x) ≡ true) xs → above key [] xs ≡ xs
  unfolding above
  above_nil [] h = refl
  above_nil (x ∷ xs) h = rw h.0 (ap (λ r. x ∷ r) (above_nil xs h.1))

  pub DistinctKeys-append :
      (xs ys : List A)
      → DistinctKeys key xs
      → DistinctKeys key ys
      → All (λ x. All (λ y. str_eq (key x) (key y) ≡ false) ys) xs
      → DistinctKeys key (xs ++ ys)
  DistinctKeys-append [] ys hx hy c = hy
  DistinctKeys-append (x ∷ xs) ys hx hy c = (
    All-append (λ y. str_eq (key x) (key y) ≡ false) xs ys hx.0 c.0,
    DistinctKeys-append xs ys hx.1 hy c.1,
  )

  pub DistinctKeys-map {κ} :
      {B : Type κ} (f : A → B) (key' : B → Str)
      → ((x y : A) → str_eq (key' (f x)) (key' (f y)) ≡ str_eq (key x) (key y))
      → (xs : List A) → DistinctKeys key xs
      → DistinctKeys key' (map f xs)
  DistinctKeys-map f key' keeps [] d = tt
  DistinctKeys-map f key' keeps (x ∷ xs) d = (
    All-map _ (λ y. str_eq (key' (f x)) (key' y) ≡ false) f (λ y e. keeps x y ∙ e) xs d.0,
    DistinctKeys-map f key' keeps xs d.1,
  )

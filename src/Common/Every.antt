-- ===== src/Common/Every.antt =====
-- The laws of `all`, and of the two filters in a row.
use guru_alt.Common.Lists.{all, keep}
use guru_alt.Common.Sort.{insert, sort}
use mathlib.Core.Path.{◌≡◌, refl}
use mathlib.Core.Bool.{Bool, true, ◌&&◌}
use mathlib.Core.List.{List, [], ◌∷◌, map}
use native.Mathlib.Omega.{arith}

module _ {ℓ} {A : Type ℓ} (p q : A → Bool) where
  pub all-keep : (xs : List A) → ((x : A) → q x ≡ true → p x ≡ true) → all p (keep q xs) ≡ true
  all-keep [] h = refl
  all-keep (x ∷ xs) h = ground (arith, h x, all-keep xs h)

  pub keep-keep :
      (xs : List A) → ((x : A) → p x ≡ true → q x ≡ true) → keep p (keep q xs) ≡ keep p xs
  keep-keep [] h = refl
  keep-keep (x ∷ xs) h = ground (arith, h x, keep-keep xs h)

  pub all_mono :
      (xs : List A) → ((x : A) → p x ≡ true → q x ≡ true) → all p xs ≡ true → all q xs ≡ true
  all_mono [] h e = refl
  all_mono (x ∷ xs) h e = ground (arith, h x, all_mono xs h)

  pub all-keep_both : (xs : List A) → all q xs ≡ true → all q (keep p xs) ≡ true
  all-keep_both [] h = refl
  all-keep_both (x ∷ xs) h = ground (arith, all-keep_both xs)

module _ {ℓ} {A : Type ℓ} (p : A → Bool) where
  pub all-map {κ} :
      {B : Type κ} (f : B → A) (xs : List B) → all p (map f xs) ≡ all (λ x. p (f x)) xs
  all-map f [] = refl
  all-map f (x ∷ xs) = rw (all-map f xs)

  all-insert :
      (before : A → A → Bool) (x : A) (xs : List A) → all p (insert before x xs) ≡ (p x && all p xs)
  all-insert before x [] = refl
  all-insert before x (y ∷ ys) = ground (arith, all-insert before x ys)

  pub all-sort : (before : A → A → Bool) (xs : List A) → all p (sort before xs) ≡ all p xs
  unfolding sort
  all-sort before [] = refl
  all-sort before (x ∷ xs) =
      ground (arith, all-sort before xs, all-insert before x (sort before xs))

pub map-map {ℓ κ μ} :
    {A : Type ℓ} {B : Type κ} {C : Type μ} (f : B → C) (g : A → B) (xs : List A)
    → map f (map g xs) ≡ map (λ x. f (g x)) xs
map-map f g [] = refl
map-map f g (x ∷ xs) = rw (map-map f g xs)

-- ===== src/Common/Any.antt =====
-- The laws of `any`, and what a stable sort keeps.
use guru_alt.Common.Tests.{Bool-cases}
use guru_alt.Common.Lists.{any, keep}
use guru_alt.Common.Sort.{insert, sort}
use mathlib.Core.Path.{◌≡◌, refl}
use mathlib.Core.Logic.{inl, inr}
use mathlib.Core.Bool.{Bool, true, false, ◌&&◌, ◌||◌}
use mathlib.Core.List.{List, [], ◌∷◌, ◌++◌, map}
use native.Mathlib.Omega.{arith}

module _ {ℓ} {A : Type ℓ} (p : A → Bool) where
  pub any-append : (xs ys : List A) → any p (xs ++ ys) ≡ (any p xs || any p ys)
  any-append [] ys = refl
  any-append (x ∷ xs) ys = ground (arith, any-append xs ys)

  pub any-map {κ} :
      {B : Type κ} (f : B → A) (xs : List B) → any p (map f xs) ≡ any (λ x. p (f x)) xs
  any-map f [] = refl
  any-map f (x ∷ xs) = rw (any-map f xs)

  any-insert :
      (before : A → A → Bool) (x : A) (xs : List A) → any p (insert before x xs) ≡ (p x || any p xs)
  any-insert before x [] = refl
  any-insert before x (y ∷ ys) = ground (arith, any-insert before x ys)

  pub any-sort : (before : A → A → Bool) (xs : List A) → any p (sort before xs) ≡ any p xs
  unfolding sort
  any-sort before [] = refl
  any-sort before (x ∷ xs) =
      ground (arith, any-sort before xs, any-insert before x (sort before xs))

  pub any-keep-false : (q : A → Bool) (xs : List A) → any p xs ≡ false → any p (keep q xs) ≡ false
  any-keep-false q [] h = refl
  any-keep-false q (x ∷ xs) h = ground (arith, any-keep-false q xs)

  pub any_none : (xs : List A) → ((x : A) → p x ≡ false) → any p xs ≡ false
  any_none [] h = refl
  any_none (x ∷ xs) h = ground (arith, h x, any_none xs h)

module _ {ℓ} {A : Type ℓ} (p q : A → Bool) where
  pub any_same : (xs : List A) → ((x : A) → p x ≡ q x) → any p xs ≡ any q xs
  any_same [] h = refl
  any_same (x ∷ xs) h = ground (arith, h x, any_same xs h)

  pub any_mono :
      (xs : List A) → ((x : A) → p x ≡ true → q x ≡ true) → any p xs ≡ true → any q xs ≡ true
  any_mono [] h e = e
  any_mono (x ∷ xs) h e = ground (arith, h x, any_mono xs h)

  pub any-keep-true :
      (xs : List A)
      → ((x : A) → p x ≡ true → q x ≡ true)
      → any p xs ≡ true
      → any p (keep q xs) ≡ true
  any-keep-true [] h e = e
  any-keep-true (x ∷ xs) h e = ground (arith, h x, any-keep-true xs h)

-- Neighbours stand in the order `before`.
abbrev pub ascending {ℓ} : {A : Type ℓ} → (A → A → Bool) → List A → Bool
ascending before [] = true
ascending before (x ∷ []) = true
ascending before (x ∷ y ∷ ys) = before x y && ascending before (y ∷ ys)

module _ {ℓ} {A : Type ℓ} (before : A → A → Bool)
    (total : (x y : A) → before x y ≡ false → before y x ≡ true) where
  ascending-insert_under :
      (y x : A) (ys : List A)
      → before y x ≡ true
      → ascending before (y ∷ ys) ≡ true
      → ascending before (insert before x ys) ≡ true
      → ascending before (y ∷ insert before x ys) ≡ true
  ascending-insert_under y x [] a b c = ground arith
  ascending-insert_under y x (z ∷ zs) a b c = ground arith

  ascending-tail :
      (x : A) (xs : List A) → ascending before (x ∷ xs) ≡ true → ascending before xs ≡ true
  ascending-tail x [] h = refl
  ascending-tail x (y ∷ ys) h = ground arith

  ascending-insert :
      (x : A) (xs : List A)
      → ascending before xs ≡ true
      → ascending before (insert before x xs) ≡ true
  ascending-insert x [] h = refl
  ascending-insert x (y ∷ ys) h = elim (Bool-cases (before x y)) [
    | inl here ↦ ground arith
    | inr past ↦ rw past (
        ascending-insert_under y x ys (total x y past) h
          (ascending-insert x ys (ascending-tail y ys h)))
  ]

  pub ascending-sort : (xs : List A) → ascending before (sort before xs) ≡ true
  unfolding sort
  ascending-sort [] = refl
  ascending-sort (x ∷ xs) = ascending-insert x (sort before xs) (ascending-sort xs)

pub ascending_mono {ℓ} :
    {A : Type ℓ} (p q : A → A → Bool) (xs : List A)
    → ((x y : A) → p x y ≡ true → q x y ≡ true)
    → ascending p xs ≡ true
    → ascending q xs ≡ true
ascending_mono p q [] h e = refl
ascending_mono p q (x ∷ []) h e = refl
ascending_mono p q (x ∷ y ∷ ys) h e = ground (arith, h x y, ascending_mono p q (y ∷ ys) h)

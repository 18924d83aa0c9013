-- ===== src/Common/Lists.antt =====
-- Lists measured by native numbers, under the library's names, and membership as a Boolean test.
use Prim.Native.Nat.{ℕ, suc, ◌+◌, ◌≤◌}
use mathlib.Core.Path.{◌≡◌, refl}
use mathlib.Core.Bool.{Bool, true, false, ◌&&◌, ◌||◌}
use mathlib.Core.List.{List, [], ◌∷◌, ◌++◌}
use native.Mathlib.Omega.{arith}
use guru_alt.Common.Tests.{◌==◌, if◌then◌else◌, Bool-cases}
use mathlib.Core.Logic.{inl, inr}

module _ {ℓ} {A : Type ℓ} where
  abbrev pub length : List A → ℕ
  length [] = 0
  length (x ∷ xs) = suc (length xs)

  pub length-append : (xs ys : List A) → length (xs ++ ys) ≡ length xs + length ys
  length-append [] ys = omega arith
  length-append (x ∷ xs) ys = omega (arith, length-append xs ys)

  -- `[x for x in xs if p(x)]`
  abbrev pub keep : (A → Bool) → List A → List A
  keep p [] = []
  keep p (x ∷ xs) = if p x then x ∷ keep p xs else keep p xs

  -- `any(p(x) for x in xs)` and `all(p(x) for x in xs)`
  abbrev pub any : (A → Bool) → List A → Bool
  any p [] = false
  any p (x ∷ xs) = p x || any p xs

  abbrev pub all : (A → Bool) → List A → Bool
  all p [] = true
  all p (x ∷ xs) = p x && all p xs

  -- How many elements fit.
  abbrev pub tally : (A → Bool) → List A → ℕ
  tally p [] = 0
  tally p (x ∷ xs) = if p x then suc (tally p xs) else tally p xs

  pub tally-keep : (p q : A → Bool) (xs : List A) → tally p (keep q xs) ≤ tally p xs
  tally-keep p q [] = omega arith
  tally-keep p q (x ∷ xs) = ground (arith, tally-keep p q xs)

  -- `P` holds of every element.
  abbrev pub All {κ} : (A → Type κ) → List A → Type κ
  All P [] = Unit
  All P (x ∷ xs) = P x × All P xs

pub All-map {ℓ κ μ} :
    {A : Type ℓ} {P : A → Type κ} {Q : A → Type μ}
    → ((x : A) → P x → Q x)
    → (xs : List A) → All P xs
    → All Q xs
All-map f [] h = tt
All-map f (x ∷ xs) h = (f x h.0, All-map f xs h.1)

-- What `keep` leaves fits, and has what every element had.
pub All-keep {ℓ κ} :
    {A : Type ℓ} (P : A → Type κ) (q : A → Bool) (xs : List A)
    → All P xs
    → All (λ x. (q x ≡ true) × P x) (keep q xs)
All-keep P q [] h = tt
All-keep P q (x ∷ xs) h = elim (Bool-cases (q x)) [
  | inl fits ↦ rw fits ((fits, h.0), All-keep P q xs h.1)
  | inr misfit ↦ rw misfit (All-keep P q xs h.1)
]

-- The lists have one length, and `R` relates the elements at each place.
abbrev pub Pairs {ℓ κ} : {A : Type ℓ} {B : Type κ} → (A → B → Type 0) → List A → List B → Type 0
Pairs R [] [] = Unit
Pairs R (x ∷ xs) (y ∷ ys) = R x y × Pairs R xs ys
Pairs R _ _ = ⊥

-- `a in xs`
abbrev pub elem : ℕ → List ℕ → Bool
elem a [] = false
elem a (x ∷ xs) = x == a || elem a xs

pub elem-append : (a : ℕ) (xs ys : List ℕ) → elem a (xs ++ ys) ≡ (elem a xs || elem a ys)
elem-append a [] ys = refl
elem-append a (x ∷ xs) ys = ground (arith, elem-append a xs ys)

-- No element stands in the list twice.
abbrev pub Distinct : List ℕ → Type 0
Distinct [] = Unit
Distinct (x ∷ xs) = (elem x xs ≡ false) × Distinct xs

-- A set is a list in which each element stands once, `set(xs)`.
abbrev pub to_set : List ℕ → List ℕ
to_set [] = []
to_set (x ∷ xs) = if elem x xs then to_set xs else x ∷ to_set xs

pub elem-to_set : (a : ℕ) (xs : List ℕ) → elem a (to_set xs) ≡ elem a xs
elem-to_set a [] = refl
elem-to_set a (x ∷ xs) = ground (arith, elem-to_set a xs)

pub to_set-Distinct : (xs : List ℕ) → Distinct (to_set xs)
to_set-Distinct [] = tt
to_set-Distinct (x ∷ xs) = ground (arith, to_set-Distinct xs, elem-to_set x xs)

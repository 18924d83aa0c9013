-- ===== src/Common/Sort.antt =====
-- Python's stable sort, counting, and lists that hold each element once.
use guru_alt.Common.Tests.{ltb, leb, ◌==◌, ==_iff, if◌then◌else◌, Bool-cases}
use guru_alt.Common.Lists.{length, elem, elem-append, Distinct}
use Prim.Native.Nat.{ℕ, suc, ◌≤◌}
use mathlib.Core.Path.{◌≡◌, refl, ap}
use mathlib.Core.Logic.{inl, inr}
use mathlib.Core.Bool.{Bool, true, false, ◌&&◌, ◌||◌}
use mathlib.Core.List.{List, [], ◌∷◌, ◌++◌}
use native.Mathlib.Omega.{arith}

module _ {ℓ} {A : Type ℓ} where
  -- `before x y`: the key of `x` is at most the key of `y`.
  abbrev pub insert : (A → A → Bool) → A → List A → List A
  insert before x [] = x ∷ []
  insert before x (y ∷ ys) = if before x y then x ∷ y ∷ ys else y ∷ insert before x ys

  -- `sorted(xs, key=…)`: an element stays before a later one of the same key.
  unfoldable pub sort : (A → A → Bool) → List A → List A
  sort before [] = []
  sort before (x ∷ xs) = insert before x (sort before xs)

abbrev pub count : ℕ → List ℕ → ℕ
count a [] = 0
count a (x ∷ xs) = if x == a then suc (count a xs) else count a xs

pub elem-insert :
    (before : ℕ → ℕ → Bool) (a x : ℕ) (xs : List ℕ)
    → elem a (insert before x xs) ≡ (x == a || elem a xs)
elem-insert before a x [] = refl
elem-insert before a x (y ∷ ys) = ground (arith, elem-insert before a x ys)

pub elem-sort : (before : ℕ → ℕ → Bool) (a : ℕ) (xs : List ℕ) → elem a (sort before xs) ≡ elem a xs
unfolding sort
elem-sort before a [] = refl
elem-sort before a (x ∷ xs) =
    ground (arith, elem-sort before a xs, elem-insert before a x (sort before xs))

insert-Distinct :
    (before : ℕ → ℕ → Bool) (x : ℕ) (xs : List ℕ)
    → elem x xs ≡ false
    → Distinct xs
    → Distinct (insert before x xs)
insert-Distinct before x [] h d = (refl, tt)
insert-Distinct before x (y ∷ ys) h d =
    ground (arith, elem-insert before y x ys, insert-Distinct before x ys)

pub sort-Distinct : (before : ℕ → ℕ → Bool) (xs : List ℕ) → Distinct xs → Distinct (sort before xs)
unfolding sort
sort-Distinct before [] d = tt
sort-Distinct before (x ∷ xs) d =
    insert-Distinct before x (sort before xs) (ground (arith, elem-sort before x xs))
      (sort-Distinct before xs d.1)

pub append-Distinct :
    (xs ys : List ℕ)
    → Distinct xs
    → Distinct ys
    → ((a : ℕ) → elem a xs ≡ true → elem a ys ≡ false)
    → Distinct (xs ++ ys)
append-Distinct [] ys dx dy apart = dy
append-Distinct (x ∷ xs) ys dx dy apart = (
  ground (arith, elem-append x xs ys, apart x (ground arith)),
  append-Distinct xs ys dx.1 dy (λ a h. apart a (ground arith)),
)

-- The list without the first occurrence of `a`.
abbrev erase : ℕ → List ℕ → List ℕ
erase a [] = []
erase a (x ∷ xs) = if x == a then xs else x ∷ erase a xs

length-erase : (a : ℕ) (xs : List ℕ) → elem a xs ≡ true → suc (length (erase a xs)) ≡ length xs
length-erase a [] h = cc
length-erase a (x ∷ xs) h = ground (arith, length-erase a xs)

elem-erase_ne :
    (a b : ℕ) (xs : List ℕ) → (b == a) ≡ false → elem a xs ≡ true → elem a (erase b xs) ≡ true
elem-erase_ne a b [] n h = h
elem-erase_ne a b (x ∷ xs) n h = ground (arith, elem-erase_ne a b xs n)

-- A list with no repetition is no longer than one that holds all its elements.
pub length-le_of_Distinct :
    (xs ys : List ℕ)
    → Distinct xs
    → ((a : ℕ) → elem a xs ≡ true → elem a ys ≡ true)
    → length xs ≤ length ys
length-le_of_Distinct [] ys d sub = omega arith
length-le_of_Distinct (x ∷ xs) ys d sub = omega (
  arith,
  length-erase x ys (sub x (ground arith)),
  length-le_of_Distinct xs (erase x ys) d.1
      (λ a h. elem-erase_ne a x ys (apart a h) (sub a (ground arith))),
)
  where
    apart : (a : ℕ) → elem a xs ≡ true → (x == a) ≡ false
    apart a h = elim (Bool-cases (x == a)) [
      | inl same ↦
          let e : x ≡ a = (==_iff x a).0 same in ground (arith, ap (λ (k : ℕ). elem k xs) e, d.0)
      | inr other ↦ other
    ]

-- Tuples of three numbers, compared as Python compares them.
abbrev pub lex_le : ℕ × ℕ × ℕ → ℕ × ℕ × ℕ → Bool
lex_le (a, b, c) (a', b', c') = ltb a a' || (a == a' && (ltb b b' || (b == b' && leb c c')))

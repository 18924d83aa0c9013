-- ===== src/Plan/Step/Horizon.antt =====
-- `horizon_extension` of app/learning/lesson_plan.py, which keeps a bounded number of open steps in
-- front of the learner. Its `room` is a difference that may be negative, and a slice up to a
-- negative end leaves out that many of the last.
use guru_alt.Common.{
  ℕ, zero, suc, ◌+◌, ◌-◌, ◌≤◌, ◌<◌, ◌≡◌, refl, ap, sym, subst, ==_iff, ◌∙◌, Bool, true, false, not,
  ◌&&◌, inl, inr, List, [], ◌∷◌, arith, ◌==◌, leb, length, keep, elem, if◌then◌else◌, Bool-cases,
}
use guru_alt.Common.Int.{ℤ, pos, negsuc}
use guru_alt.Plan.Step.{Step, is_new, is_done}

-- `xs[:n]` for an `n` that is not negative
unfoldable pub take : ℕ → List ℕ → List ℕ
take zero xs = []
take (suc n) [] = []
take (suc n) (x ∷ xs) = x ∷ take n xs

abbrev pub planned : List Step → List ℕ
planned [] = []
planned (s ∷ steps) = if is_new s.step_type then s.kc_id ∷ planned steps else planned steps

abbrev pub open_steps : List Step → ℕ
open_steps steps = length (keep (λ s. is_new s.step_type && not (is_done s.status)) steps)

-- `xs[:n]`
abbrev slice_to : ℤ → List ℕ → List ℕ
slice_to (pos n) xs = take n xs
slice_to (negsuc n) xs = take (length xs - suc n) xs

abbrev difference : ℕ → ℕ → ℤ
difference a b = if leb b a then pos (a - b) else negsuc (b - a - 1)

abbrev at_most_zero : ℤ → Bool
at_most_zero (pos n) = n == 0
at_most_zero (negsuc n) = true

unfoldable pub horizon_extension : List ℕ → List Step → ℕ → List ℕ
unfolding take
horizon_extension objective steps max_open_steps =
    let room = difference max_open_steps (open_steps steps) in
    if at_most_zero room
    then []
    else slice_to room (keep (λ kc_id. not (elem kc_id (planned steps))) objective)

no_room : (cap used : ℕ) → leb cap used ≡ true → at_most_zero (difference cap used) ≡ true
no_room cap used full = elim (Bool-cases (leb used cap)) [
  | inl equal ↦ rw equal (ground (arith, full))
  | inr above ↦ rw above refl
]

with_room :
    (cap used : ℕ)
    → leb cap used ≡ false
    → (difference cap used ≡ pos (cap - used)) × ((cap - used == 0) ≡ false)
with_room cap used free = ground (arith, free)

pub length-take_le : (n : ℕ) (xs : List ℕ) → length (take n xs) ≤ n
unfolding take
length-take_le zero xs = omega arith
length-take_le (suc n) [] = omega arith
length-take_le (suc n) (x ∷ xs) = omega (arith, length-take_le n xs)

pub elem-take : (a n : ℕ) (xs : List ℕ) → elem a (take n xs) ≡ true → elem a xs ≡ true
unfolding take
elem-take a zero xs h = cc
elem-take a (suc n) [] h = h
elem-take a (suc n) (x ∷ xs) h = ground (arith, elem-take a n xs)

elem-unplanned :
    (a : ℕ) (steps : List Step) (xs : List ℕ)
    → elem a (keep (λ kc_id. not (elem kc_id (planned steps))) xs) ≡ true
    → (elem a xs ≡ true) × (elem a (planned steps) ≡ false)
elem-unplanned a steps [] h = cc
elem-unplanned a steps (x ∷ xs) h = elim (Bool-cases (x == a)) [
  | inl same ↦
      let e : x ≡ a = (==_iff x a).0 same in
      elim (Bool-cases (elem x (planned steps))) [
        | inl old ↦ let ih = elem-unplanned a steps xs (ground arith) in (ground arith, ih.1)
        | inr fresh ↦ (ground arith, ap (λ (k : ℕ). elem k (planned steps)) (sym e) ∙ fresh)
      ]
  | inr other ↦ let ih = elem-unplanned a steps xs (ground arith) in (ground (arith, ih.0), ih.1)
]

take_all_planned :
    (n : ℕ) (steps : List Step) (xs : List ℕ)
    → take (suc n) (keep (λ kc_id. not (elem kc_id (planned steps))) xs) ≡ []
    → (a : ℕ) → elem a xs ≡ true
    → elem a (planned steps) ≡ true
unfolding take
take_all_planned n steps [] e a h = cc
take_all_planned n steps (x ∷ xs) e a h = elim (Bool-cases (elem x (planned steps))) [
  | inr fresh ↦ absurd (ground arith)
  | inl old ↦ elim (Bool-cases (x == a)) [
    | inl same ↦ ap (λ (k : ℕ). elem k (planned steps)) (sym ((==_iff x a).0 same)) ∙ old
    | inr other ↦ take_all_planned n steps xs (rw old at e) a (ground arith)
  ]
]

-- The extension adds nothing to a plan that has as many open steps as the cap or more, and never
-- takes one with fewer above the cap. It holds only components of the objective that have no new
-- step yet. Where there is room and nothing is added, every component of the objective has its
-- step: the plan reaches the end of the goal.
pub horizon_extension_lem :
    (objective : List ℕ) (steps : List Step) (max_open_steps : ℕ)
    → (max_open_steps ≤ open_steps steps → horizon_extension objective steps max_open_steps ≡ [])
      × (open_steps steps ≤ max_open_steps
          → open_steps steps + length (horizon_extension objective steps max_open_steps)
            ≤ max_open_steps)
      × ((a : ℕ)
          → elem a (horizon_extension objective steps max_open_steps) ≡ true
          → (elem a objective ≡ true) × (elem a (planned steps) ≡ false))
      × (open_steps steps < max_open_steps
          → horizon_extension objective steps max_open_steps ≡ []
          → (a : ℕ) → elem a objective ≡ true
          → elem a (planned steps) ≡ true)
unfolding horizon_extension
horizon_extension_lem objective steps max_open_steps =
    elim (Bool-cases (leb max_open_steps (open_steps steps))) [
      | inl full ↦
          rw (no_room max_open_steps (open_steps steps) full)
            ((λ h. refl), (λ h. omega arith), (λ a h. cc), (λ h e a m. absurd (ground arith)))
      | inr room ↦
          let fresh = keep (λ kc_id. not (elem kc_id (planned steps))) objective in
          let (is_pos, positive) = with_room max_open_steps (open_steps steps) room in
          rw (is_pos, positive)
            (
              (λ h. absurd (ground arith)),
              (λ h. omega (arith, length-take_le (max_open_steps - open_steps steps) fresh)),
              (λ a h. elem-unplanned a steps objective (elem-take a _ fresh h)),
              (λ h e a m.
                  take_all_planned (max_open_steps - open_steps steps - 1) steps objective
                    (subst (λ n. take n fresh ≡ [])
                      {y = suc (max_open_steps - open_steps steps - 1)} (omega arith) e)
                    a m),
            )
    ]

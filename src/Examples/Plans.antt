-- ===== src/Examples/Plans.antt =====
-- A plan with a mastered component, an offered detour and a closed step.
use guru_alt.Common.{
  ℕ, ◌+◌, ◌≤◌, ◌<◌, ◌≡◌, ◌⊎◌, refl, Bool, true, false, none, some, List, [], ◌∷◌, ◌++◌, ◌==◌,
  length, elem, any, map,
}
use guru_alt.Common.Sort.{sort}
use guru_alt.Common.Any.{ascending}
use guru_alt.Plan.Step.{
  was_skipped, Step, bare_step, new, detour, pending, active, done, proposed, skipped, guided,
  diagnosed, is_proposed,
}
use guru_alt.Plan.Step.Horizon.{horizon_extension, horizon_extension_lem, open_steps, planned}
use guru_alt.Plan.Revise.{
  Inputs, accept, skip, settle, moot, insert_all, retire_review, new_reviews, add_reviews, by_key,
  renumber, deactivate, activate, arrange, gather, hint, revise_steps, open_on, decide_detour,
}
use guru_alt.Plan.Revise.Focus.{focused, focused-revise_steps, goes_before, ascending-revise_steps}
use guru_alt.Plan.Revise.Evidence.{
  outstanding, revise_steps-mastered, closed_with, revise_steps-closed,
}
use guru_alt.Plan.Revise.Reviews.{reviews, revise_steps-reviews}
use guru_alt.Plan.Revise.Decide.{FirstOpen, decide_detour-cases}

abbrev inputs : Inputs
inputs = record {
  mastered = 1 ∷ [];
  due_reviews = 7 ∷ [];
  scaffolding = record {
    target_difficulty = none;
    hint_density = some "low";
    preferred_item_type = some "mcq";
  };
  detour = some (record {
    prereq_kc_id = 5;
    blocked_kc_id = 2;
    reason = diagnosed;
    consecutive_failures = 1;
    source_subject_id = none;
    source_subject_name = none;
  });
  external_detours = [];
  guidance = guided;
  disproved = [];
  provisional = [];
  retention_checks = [];
  transfer_checks = [];
  now = 100;
}

abbrev steps : List Step
steps =
    bare_step 1 0 new active
    ∷ bare_step 2 1 new pending
    ∷ bare_step 3 2 new skipped
    ∷ bare_step 4 3 detour proposed
    ∷ []

program : Unit {0}
unfolding settle moot insert_all retire_review new_reviews add_reviews by_key sort renumber
    deactivate activate arrange gather hint revise_steps
program = tt

-- The detour first, then the review, the open step, and the closed steps.
revise_steps-order : map (λ s. s.kc_id) (revise_steps inputs steps) ≡ 5 ∷ 7 ∷ 2 ∷ 1 ∷ 3 ∷ []
unfolding program
revise_steps-order = refl

revise_steps-statuses :
    map (λ s. s.status) (revise_steps inputs steps)
    ≡ active ∷ pending ∷ pending ∷ done ∷ skipped ∷ []
unfolding program
revise_steps-statuses = refl

focused-revise_steps_example : focused (revise_steps inputs steps) ≡ true
focused-revise_steps_example = focused-revise_steps inputs steps

ascending-revise_steps_example : ascending goes_before (revise_steps inputs steps) ≡ true
ascending-revise_steps_example = ascending-revise_steps inputs steps

revise_steps-mastered_example : any (outstanding (1 ∷ [])) (revise_steps inputs steps) ≡ false
revise_steps-mastered_example = revise_steps-mastered inputs steps

abbrev third : Step → Bool
third s = s.kc_id == 3

revise_steps-closed_example :
    any (closed_with inputs third (λ s n. refl)) (revise_steps inputs steps) ≡ true
revise_steps-closed_example = revise_steps-closed inputs third (λ s n. refl) steps refl

revise_steps-reviews_example : any (reviews 7) (revise_steps inputs steps) ≡ elem 7 (7 ∷ [])
revise_steps-reviews_example = revise_steps-reviews inputs steps 7

decide_detour-cases_example :
    ((any (open_on 4) steps ≡ false) × (decide_detour 4 accept 9 steps ≡ none))
    ⊎ ((f : FirstOpen 4 steps) × (((accept ≡ accept)
            × (is_proposed f.step.status ≡ false)
            × (decide_detour 4 accept 9 steps ≡ none))
          ⊎ (((accept ≡ accept)
                × (is_proposed f.step.status ≡ true)
                × (decide_detour 4 accept 9 steps
                    ≡ some (
                        f.front
                        ++ record f.step { status = pending; opened_at = some 9 } ∷ f.rest)))
              ⊎ ((accept ≡ skip)
                  × (decide_detour 4 accept 9 steps
                      ≡ some (
                          f.front
                          ++ record f.step { status = skipped; detour_outcome = some was_skipped }
                            ∷ f.rest))))))
decide_detour-cases_example = decide_detour-cases 4 9 accept steps

horizon_extension_example :
    (3 ≤ open_steps steps → horizon_extension (1 ∷ 2 ∷ 8 ∷ []) steps 3 ≡ [])
    × (open_steps steps ≤ 3
        → open_steps steps + length (horizon_extension (1 ∷ 2 ∷ 8 ∷ []) steps 3) ≤ 3)
    × ((a : ℕ)
        → elem a (horizon_extension (1 ∷ 2 ∷ 8 ∷ []) steps 3) ≡ true
        → (elem a (1 ∷ 2 ∷ 8 ∷ []) ≡ true) × (elem a (planned steps) ≡ false))
    × (open_steps steps < 3
        → horizon_extension (1 ∷ 2 ∷ 8 ∷ []) steps 3 ≡ []
        → (a : ℕ) → elem a (1 ∷ 2 ∷ 8 ∷ []) ≡ true
        → elem a (planned steps) ≡ true)
horizon_extension_example = horizon_extension_lem (1 ∷ 2 ∷ 8 ∷ []) steps 3

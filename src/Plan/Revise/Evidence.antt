-- ===== src/Plan/Revise/Evidence.antt =====
-- What evidence does to a plan: mastery closes steps and detours, a pass disproves a detour.
use guru_alt.Common.{
  ℕ, ◌≡◌, refl, ◌∙◌, Bool, true, false, not, ◌&&◌, List, [], ◌∷◌, arith, any, elem, map,
}
use guru_alt.Common.Any.{
  any-map, any_same, any_none, any_mono, any-append, any-keep-false, any-keep-true,
}
use guru_alt.Plan.Step.{Step, Detour, Guidance, is_review, is_closed}
use guru_alt.Plan.Revise.{
  Inputs, settle, moot, detour_step, insert_detour, insert_all, triggers, retire_review,
  new_reviews, covered, add_reviews, deactivate, hint, gather, revise_steps,
}
use guru_alt.Plan.Revise.Steady.{IsSteady, any-revise_steps}

-- An open new step or detour of a mastered component.
abbrev pub outstanding : List ℕ → Step → Bool
outstanding mastered s =
    not (is_closed s.status) && not (is_review s.step_type) && elem s.kc_id mastered

outstanding-IsSteady : (i : Inputs) (mastered : List ℕ) → IsSteady i (outstanding mastered)
unfolding deactivate hint
outstanding-IsSteady i mastered = record {
  on_order = λ s n. refl;
  on_deactivate = λ s. ground arith;
  on_active = λ s h. ground arith;
  on_hint = λ s. ground arith;
}

settle-outstanding : (m d : List ℕ) (s : Step) → outstanding m (settle m d s) ≡ false
unfolding settle
settle-outstanding m d s = ground arith

module _ (g : Guidance) (now : ℕ) (m : List ℕ) (settled : List Step) where
  insert_detour-outstanding :
      (t : Detour) (xs : List Step)
      → any (outstanding m) xs ≡ false
      → any (outstanding m) (insert_detour g now m settled t xs) ≡ false
  unfolding insert_detour
  insert_detour-outstanding t xs h =
      ground (arith, any-append (outstanding m) xs (detour_step g now t ∷ []))

  insert_all-outstanding :
      (ts : List Detour) (xs : List Step)
      → any (outstanding m) xs ≡ false
      → any (outstanding m) (insert_all g now m settled ts xs) ≡ false
  unfolding insert_all
  insert_all-outstanding [] xs h = h
  insert_all-outstanding (t ∷ ts) xs h =
      insert_all-outstanding ts _ (insert_detour-outstanding t xs h)

retire-outstanding :
    (m due : List ℕ) (s : Step) → outstanding m (retire_review due s) ≡ outstanding m s
unfolding retire_review
retire-outstanding m due s = ground arith

new_reviews-outstanding :
    (m covers due : List ℕ) → any (outstanding m) (new_reviews covers due) ≡ false
unfolding new_reviews
new_reviews-outstanding m covers [] = refl
new_reviews-outstanding m covers (k ∷ due) =
    ground (arith, new_reviews-outstanding m covers due, new_reviews-outstanding m (k ∷ covers) due)

add_reviews-outstanding :
    (m due : List ℕ) (xs : List Step)
    → any (outstanding m) (add_reviews due xs) ≡ any (outstanding m) xs
unfolding add_reviews
add_reviews-outstanding m due xs =
    let kept = map (retire_review due) xs in
    any-append (outstanding m) kept (new_reviews (covered kept) due)
    ∙ ground (
      arith,
      new_reviews-outstanding m (covered kept) due,
      any-map (outstanding m) (retire_review due) xs
          ∙ any_same (λ s. outstanding m (retire_review due s)) (outstanding m) xs
              (retire-outstanding m due),
    )

-- After a revision no new step and no detour of a mastered component is open, whatever the plan
-- and the triggers were.
pub revise_steps-mastered :
    (i : Inputs) (steps : List Step) → any (outstanding i.mastered) (revise_steps i steps) ≡ false
unfolding gather
revise_steps-mastered i steps =
    let settled = map (settle i.mastered i.disproved) steps in
    any-revise_steps i (outstanding i.mastered) (outstanding-IsSteady i i.mastered) steps
    ∙ add_reviews-outstanding i.mastered i.due_reviews _
    ∙ insert_all-outstanding i.guidance i.now i.mastered settled
        (triggers i.detour i.external_detours) _
        (any-keep-false (outstanding i.mastered) (λ s. not (moot settled s)) settled
          (any-map (outstanding i.mastered) (settle i.mastered i.disproved) steps
            ∙ any_none _ steps (settle-outstanding i.mastered i.disproved)))

-- Closed steps are never reopened or lost: `q` is any test that does not look at the number.
module _ (i : Inputs) (q : Step → Bool)
    (q_order : (s : Step) (n : ℕ) → q (record s { order = n }) ≡ q s) where
  abbrev pub closed_with : Step → Bool
  closed_with s = is_closed s.status && q s

  closed_with-IsSteady : IsSteady i closed_with
  unfolding deactivate hint
  closed_with-IsSteady = record {
    on_order = λ s n. ground (arith, q_order s n);
    on_deactivate = λ s. ground arith;
    on_active = λ s h. ground arith;
    on_hint = λ s. ground arith;
  }

  insert_all-closed :
      (settled : List Step) (ts : List Detour) (xs : List Step)
      → any closed_with xs ≡ true
      → any closed_with (insert_all i.guidance i.now i.mastered settled ts xs) ≡ true
  unfolding insert_all insert_detour
  insert_all-closed settled [] xs h = h
  insert_all-closed settled (t ∷ ts) xs h =
      insert_all-closed settled ts (insert_detour i.guidance i.now i.mastered settled t xs)
        (ground (arith, any-append closed_with xs (detour_step i.guidance i.now t ∷ [])))

  closed-settle :
      (s : Step) → closed_with s ≡ true → closed_with (settle i.mastered i.disproved s) ≡ true
  unfolding settle
  closed-settle s h = ground arith

  closed-moot :
      (settled : List Step) (s : Step) → closed_with s ≡ true → not (moot settled s) ≡ true
  unfolding moot
  closed-moot settled s h = ground arith

  closed-retire :
      (s : Step) → closed_with s ≡ true → closed_with (retire_review i.due_reviews s) ≡ true
  unfolding retire_review
  closed-retire s h = ground arith

  add_reviews-closed :
      (xs : List Step)
      → any closed_with xs ≡ true
      → any closed_with (add_reviews i.due_reviews xs) ≡ true
  unfolding add_reviews
  add_reviews-closed xs h =
      let kept = map (retire_review i.due_reviews) xs in
      any-append closed_with kept (new_reviews (covered kept) i.due_reviews)
      ∙ ground (
        arith,
        any-map closed_with (retire_review i.due_reviews) xs
            ∙ any_mono closed_with (λ s. closed_with (retire_review i.due_reviews s)) xs
                closed-retire h,
      )

  -- A closed step of the plan is in the revised plan too, closed and unchanged but for its number.
  pub revise_steps-closed :
      (steps : List Step)
      → any closed_with steps ≡ true
      → any closed_with (revise_steps i steps) ≡ true
  unfolding gather
  revise_steps-closed steps h =
      let settled = map (settle i.mastered i.disproved) steps in
      let settled_closed =
        any-map closed_with (settle i.mastered i.disproved) steps
        ∙ any_mono closed_with (λ s. closed_with (settle i.mastered i.disproved s)) steps
            closed-settle h in
      let left_closed = insert_all-closed settled (triggers i.detour i.external_detours) _ (
        any-keep-true closed_with (λ s. not (moot settled s)) settled (closed-moot settled)
          settled_closed) in
      any-revise_steps i closed_with closed_with-IsSteady steps ∙ add_reviews-closed _ left_closed

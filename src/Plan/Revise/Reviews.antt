-- ===== src/Plan/Revise/Reviews.antt =====
-- The review steps of a revised plan are the reviews that are due.
use guru_alt.Common.{
  ℕ, ◌≡◌, refl, ◌∙◌, Bool, true, not, ◌&&◌, inl, inr, List, [], ◌∷◌, arith, ◌==◌, ==_iff, ap, any,
  elem, map, Bool-cases,
}
use guru_alt.Common.Any.{any-append}
use guru_alt.Plan.Step.{Step}
use guru_alt.Plan.Revise.{
  Inputs, open_review, retire_review, new_reviews, covered, add_reviews, deactivate, hint, gather,
  revise_steps,
}
use guru_alt.Plan.Revise.Steady.{IsSteady, any-revise_steps}

-- An open review of the component.
abbrev pub reviews : ℕ → Step → Bool
reviews kc_id s = open_review s && s.kc_id == kc_id

reviews-IsSteady : (i : Inputs) (kc_id : ℕ) → IsSteady i (reviews kc_id)
unfolding deactivate hint
reviews-IsSteady i kc_id = record {
  on_order = λ s n. refl;
  on_deactivate = λ s. ground arith;
  on_active = λ s h. ground arith;
  on_hint = λ s. ground arith;
}

any-covered : (kc_id : ℕ) (xs : List Step) → any (reviews kc_id) xs ≡ elem kc_id (covered xs)
any-covered kc_id [] = refl
any-covered kc_id (s ∷ xs) = ground (arith, any-covered kc_id xs)

any-new_reviews :
    (kc_id : ℕ) (covers due : List ℕ)
    → any (reviews kc_id) (new_reviews covers due) ≡ (elem kc_id due && not (elem kc_id covers))
unfolding new_reviews
any-new_reviews kc_id covers [] = refl
any-new_reviews kc_id covers (d ∷ due) = elim (Bool-cases (d == kc_id)) [
  | inl same ↦
      let e : d ≡ kc_id = (==_iff d kc_id).0 same in
      ground (
        arith,
        any-new_reviews kc_id covers due,
        any-new_reviews kc_id (d ∷ covers) due,
        ap (λ (k : ℕ). elem k covers) e,
      )
  | inr other ↦
      ground (arith, any-new_reviews kc_id covers due, any-new_reviews kc_id (d ∷ covers) due)
]

covered-due :
    (kc_id : ℕ) (due : List ℕ) (xs : List Step)
    → elem kc_id (covered (map (retire_review due) xs)) ≡ true
    → elem kc_id due ≡ true
unfolding retire_review
covered-due kc_id due [] h = cc
covered-due kc_id due (s ∷ xs) h = elim (Bool-cases (s.kc_id == kc_id)) [
  | inl same ↦
      let e : s.kc_id ≡ kc_id = (==_iff s.kc_id kc_id).0 same in
      ground (arith, covered-due kc_id due xs, ap (λ (k : ℕ). elem k due) e)
  | inr other ↦ ground (arith, covered-due kc_id due xs)
]

add_reviews-exact :
    (kc_id : ℕ) (due : List ℕ) (xs : List Step)
    → any (reviews kc_id) (add_reviews due xs) ≡ elem kc_id due
unfolding add_reviews
add_reviews-exact kc_id due xs =
    let kept = map (retire_review due) xs in
    any-append (reviews kc_id) kept (new_reviews (covered kept) due)
    ∙ ground (
      arith,
      any-covered kc_id kept,
      any-new_reviews kc_id (covered kept) due,
      covered-due kc_id due xs,
    )

-- After a revision a component has an open review exactly if its review is due.
pub revise_steps-reviews :
    (i : Inputs) (steps : List Step) (kc_id : ℕ)
    → any (reviews kc_id) (revise_steps i steps) ≡ elem kc_id i.due_reviews
unfolding gather
revise_steps-reviews i steps kc_id =
    any-revise_steps i (reviews kc_id) (reviews-IsSteady i kc_id) steps
    ∙ add_reviews-exact kc_id i.due_reviews _

-- ===== src/Plan/Revise/Steady.antt =====
-- What the last phases of a revision keep: sorting, numbering, choosing the active step and the
-- hints change no property of a step that does not look at these.
use guru_alt.Common.{ℕ, suc, ◌≡◌, refl, ◌∙◌, Bool, false, ◌||◌, List, [], ◌∷◌, arith, any, map}
use guru_alt.Common.Sort.{sort}
use guru_alt.Common.Any.{any-map, any_same, any-sort}
use guru_alt.Plan.Step.{Step, active, is_closed, is_proposed}
use guru_alt.Plan.Revise.{
  Inputs, by_key, renumber, deactivate, activate, hint, gather, arrange, revise_steps,
}

pub record IsSteady (i : Inputs) (p : Step → Bool) : Type 0 where
  pub on_order : (s : Step) (n : ℕ) → p (record s { order = n }) ≡ p s
  pub on_deactivate : (s : Step) → p (deactivate s) ≡ p s
  pub on_active :
      (s : Step)
      → (is_closed s.status || is_proposed s.status) ≡ false
      → p (record s { status = active }) ≡ p s
  pub on_hint : (s : Step) → p (hint i s) ≡ p s

module _ (i : Inputs) (p : Step → Bool) (steady : IsSteady i p) where
  any-renumber : (n : ℕ) (xs : List Step) → any p (renumber n xs) ≡ any p xs
  unfolding renumber
  any-renumber n [] = refl
  any-renumber n (s ∷ xs) = ground (arith, any-renumber (suc n) xs, steady.on_order s n)

  any-activate : (xs : List Step) → any p (activate xs) ≡ any p xs
  unfolding activate
  any-activate [] = refl
  any-activate (s ∷ xs) = ground (arith, any-activate xs, steady.on_active s)

  pub any-revise_steps : (steps : List Step) → any p (revise_steps i steps) ≡ any p (gather i steps)
  unfolding revise_steps arrange
  any-revise_steps steps =
      let sorted = sort (by_key i.due_reviews (gather i steps)) (gather i steps) in
      let shown = map deactivate (renumber 0 sorted) in
      any-map p (hint i) (activate shown)
      ∙ any_same (λ s. p (hint i s)) p (activate shown) steady.on_hint
      ∙ any-activate shown
      ∙ any-map p deactivate (renumber 0 sorted)
      ∙ any_same (λ s. p (deactivate s)) p (renumber 0 sorted) steady.on_deactivate
      ∙ any-renumber 0 sorted
      ∙ any-sort p (by_key i.due_reviews (gather i steps)) (gather i steps)

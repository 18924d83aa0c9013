-- ===== src/Plan/Revise/Decide.antt =====
-- What the learner's answer to a detour changes.
use guru_alt.Common.{
  ℕ, ◌≡◌, refl, ap, ◌∙◌, true, false, ◌⊎◌, inl, inr, Option, none, some, List, [], ◌∷◌, ◌++◌, arith,
  any, ◌>>=◌, Bool-cases,
}
use guru_alt.Plan.Step.{Step, pending, skipped, was_skipped, is_proposed}
use guru_alt.Plan.Revise.{Decision, accept, skip, answer, open_on, decide_open, decide_detour}

-- The first open detour to the component, with what stands before and behind it.
pub record FirstOpen (kc_id : ℕ) (steps : List Step) : Type 0 where
  pub front : List Step
  pub step : Step
  pub rest : List Step
  pub split : steps ≡ front ++ step ∷ rest
  pub none_before : any (open_on kc_id) front ≡ false
  pub is_open : open_on kc_id step ≡ true

find_open :
    (kc_id : ℕ) (steps : List Step) → (any (open_on kc_id) steps ≡ false) ⊎ FirstOpen kc_id steps
find_open kc_id [] = inl refl
find_open kc_id (s ∷ steps) = elim (Bool-cases (open_on kc_id s)) [
  | inl here ↦ inr (record {
    front = [];
    step = s;
    rest = steps;
    split = refl;
    none_before = refl;
    is_open = here;
  })
  | inr past ↦ elim (find_open kc_id steps) [
    | inl missing ↦ inl (ground arith)
    | inr f ↦ inr (record {
      front = s ∷ f.front;
      step = f.step;
      rest = f.rest;
      split = ap (λ (l : List Step). s ∷ l) f.split;
      none_before = ground (arith, f.none_before);
      is_open = f.is_open;
    })
  ]
]

module _ (kc_id now : ℕ) (decision : Decision) where
  decide-missing :
      (steps : List Step)
      → any (open_on kc_id) steps ≡ false
      → decide_detour kc_id decision now steps ≡ none
  unfolding decide_detour
  decide-missing [] h = refl
  decide-missing (s ∷ steps) h = ground (arith, decide-missing steps)

  decide-split :
      (front rest : List Step) (s : Step)
      → any (open_on kc_id) front ≡ false
      → open_on kc_id s ≡ true
      → decide_detour kc_id decision now (front ++ s ∷ rest)
        ≡ (decide_open decision now s >>= λ s'. some (front ++ s' ∷ rest))
  unfolding decide_detour
  decide-split [] rest s h o = rw o
  decide-split (f ∷ front) rest s h o = elim (Bool-cases (open_on kc_id f)) [
    | inl bad ↦ absurd (ground arith)
    | inr past ↦
        rw (past, decide-split front rest s (ground arith) o) (push (decide_open decision now s))
  ]
    where
      push :
          (o' : Option Step)
          → ((o' >>= λ s'. some (front ++ s' ∷ rest)) >>= λ l. some (f ∷ l))
            ≡ (o' >>= λ s'. some (f ∷ (front ++ s' ∷ rest)))
      push none = refl
      push (some s') = refl

-- A decision is refused exactly if no detour to the component is open, or if the first open one is
-- accepted without being an offer. Otherwise that one step alone is changed: accepted it becomes
-- pending and is stamped with the moment, skipped it is closed with that outcome.
pub decide_detour-cases :
    (kc_id now : ℕ) (decision : Decision) (steps : List Step)
    → ((any (open_on kc_id) steps ≡ false) × (decide_detour kc_id decision now steps ≡ none))
      ⊎ ((f : FirstOpen kc_id steps) × (((decision ≡ accept)
              × (is_proposed f.step.status ≡ false)
              × (decide_detour kc_id decision now steps ≡ none))
            ⊎ (((decision ≡ accept)
                  × (is_proposed f.step.status ≡ true)
                  × (decide_detour kc_id decision now steps
                      ≡ some (
                          f.front
                          ++ record f.step { status = pending; opened_at = some now } ∷ f.rest)))
                ⊎ ((decision ≡ skip)
                    × (decide_detour kc_id decision now steps
                        ≡ some (
                            f.front
                            ++ record f.step { status = skipped; detour_outcome = some was_skipped }
                              ∷ f.rest))))))
unfolding decide_open answer
decide_detour-cases kc_id now decision steps = elim (find_open kc_id steps) [
  | inl missing ↦ inl (missing, decide-missing kc_id now decision steps missing)
  | inr f ↦ inr (
    f,
    verdict decision f (
        ap (decide_detour kc_id decision now) f.split
        ∙ decide-split kc_id now decision f.front f.rest f.step f.none_before f.is_open),
  )
]
  where
    verdict :
        (d : Decision) (f : FirstOpen kc_id steps)
        → decide_detour kc_id d now steps
          ≡ (decide_open d now f.step >>= λ s'. some (f.front ++ s' ∷ f.rest))
        → ((d ≡ accept)
            × (is_proposed f.step.status ≡ false)
            × (decide_detour kc_id d now steps ≡ none))
          ⊎ (((d ≡ accept)
                × (is_proposed f.step.status ≡ true)
                × (decide_detour kc_id d now steps
                    ≡ some (
                        f.front
                        ++ record f.step { status = pending; opened_at = some now } ∷ f.rest)))
              ⊎ ((d ≡ skip)
                  × (decide_detour kc_id d now steps
                      ≡ some (
                          f.front
                          ++ record f.step { status = skipped; detour_outcome = some was_skipped }
                            ∷ f.rest))))
    verdict accept f e = elim (Bool-cases (is_proposed f.step.status)) [
      | inl offer ↦ inr (inl (refl, offer, rw offer at e))
      | inr taken ↦ inl (refl, taken, rw taken at e)
    ]
    verdict skip f e = inr (inr (refl, e))

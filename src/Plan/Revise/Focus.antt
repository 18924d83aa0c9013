-- ===== src/Plan/Revise/Focus.antt =====
-- The shape of a revised plan: numbered from 0, in buckets, with one step to work on.
use guru_alt.Common.{
  ℕ, suc, ◌≡◌, refl, ap, ◌∙◌, Bool, true, false, not, ◌&&◌, ◌||◌, inl, inr, List, [], ◌∷◌, arith,
  ◌==◌, ==_self, leb, if◌then◌else◌, any, map, Bool-cases,
}
use guru_alt.Common.Sort.{sort, lex_le}
use guru_alt.Common.Any.{any-map, any_same, any_none, ascending, ascending-sort, ascending_mono}
use guru_alt.Plan.Step.{Step, is_active, is_closed, is_proposed, is_detour, is_review, is_external}
use guru_alt.Plan.Revise.{
  Inputs, bucket, sort_key, by_key, renumber, deactivate, activate, hint, gather, arrange,
  revise_steps,
}

abbrev pub active_step : Step → Bool
active_step s = is_active s.status

-- The first step that is neither closed nor an offer is active, and no other step is.
abbrev pub focused : List Step → Bool
focused [] = true
focused (s ∷ steps) =
    if is_closed s.status || is_proposed s.status
    then focused steps
    else is_active s.status && not (any active_step steps)

focused-activate :
    (steps : List Step) → any active_step steps ≡ false → focused (activate steps) ≡ true
unfolding activate
focused-activate [] h = refl
focused-activate (s ∷ steps) h = ground (arith, focused-activate steps)

status-hint : (i : Inputs) (s : Step) → (hint i s).status ≡ s.status
unfolding hint
status-hint i s = ground arith

any_active-hint :
    (i : Inputs) (steps : List Step) → any active_step (map (hint i) steps) ≡ any active_step steps
any_active-hint i steps =
    any-map active_step (hint i) steps
    ∙ any_same (λ s. active_step (hint i s)) active_step steps (λ s. ap is_active (status-hint i s))

focused-hint : (i : Inputs) (steps : List Step) → focused (map (hint i) steps) ≡ focused steps
focused-hint i [] = refl
focused-hint i (s ∷ steps) =
    ground (arith, status-hint i s, focused-hint i steps, any_active-hint i steps)

deactivate-inactive : (s : Step) → active_step (deactivate s) ≡ false
unfolding deactivate
deactivate-inactive s = ground arith

pub idle : (l : List Step) → any active_step (map deactivate l) ≡ false
idle l =
    any-map active_step deactivate l
    ∙ any_none (λ s. active_step (deactivate s)) l deactivate-inactive

-- After a revision the first step that is neither closed nor an offer is active, and it is the only
-- active step of the plan.
pub focused-revise_steps : (i : Inputs) (steps : List Step) → focused (revise_steps i steps) ≡ true
unfolding revise_steps arrange
focused-revise_steps i steps =
    let sorted = renumber 0 (sort (by_key i.due_reviews (gather i steps)) (gather i steps)) in
    focused-hint i (activate (map deactivate sorted))
    ∙ focused-activate (map deactivate sorted) (idle sorted)

-- The steps are numbered upwards from `n`, and their buckets do not fall.
abbrev pub numbered : ℕ → List Step → Bool
numbered n [] = true
numbered n (s ∷ steps) = s.order == n && numbered (suc n) steps

abbrev bucket_le : Step → Step → Bool
bucket_le a b = leb (bucket a) (bucket b)

-- A detour of the subject that the learner has taken up.
abbrev pub is_taken : Step → Bool
is_taken s =
    is_detour s.step_type
    && not (is_closed s.status)
    && not (is_proposed s.status)
    && not (is_external s.detour_reason)

abbrev pub is_open_review : Step → Bool
is_open_review s = is_review s.step_type && not (is_closed s.status)

-- What may stand directly in front of what.
abbrev pub goes_before : Step → Step → Bool
goes_before a b =
    (not (is_taken b) || is_taken a)
    && (not (is_open_review b) || is_taken a || is_open_review a)
    && (not (is_closed a.status) || is_closed b.status)

bucket_le-goes_before : (a b : Step) → bucket_le a b ≡ true → goes_before a b ≡ true
unfolding bucket
bucket_le-goes_before a b h = ground (arith, h)

-- `f` keeps the place of each step of a list: its number, and its bucket.
abbrev SamePlaces : List Step → List Step → Type 0
SamePlaces [] [] = Unit
SamePlaces (a ∷ xs) (b ∷ ys) = (a.order ≡ b.order) × (bucket a ≡ bucket b) × SamePlaces xs ys
SamePlaces _ _ = ⊥

numbered-SamePlaces : (n : ℕ) (xs ys : List Step) → SamePlaces xs ys → numbered n xs ≡ numbered n ys
numbered-SamePlaces n [] [] h = refl
numbered-SamePlaces n [] (b ∷ ys) h = absurd h
numbered-SamePlaces n (a ∷ xs) [] h = absurd h
numbered-SamePlaces n (a ∷ xs) (b ∷ ys) h =
    ground (arith, h.0, numbered-SamePlaces (suc n) xs ys h.2)

ascending-SamePlaces :
    (xs ys : List Step) → SamePlaces xs ys → ascending bucket_le xs ≡ ascending bucket_le ys
ascending-SamePlaces [] [] h = refl
ascending-SamePlaces [] (b ∷ ys) h = absurd h
ascending-SamePlaces (a ∷ xs) [] h = absurd h
ascending-SamePlaces (a ∷ []) (b ∷ []) h = refl
ascending-SamePlaces (a ∷ []) (b ∷ c ∷ ys) h = absurd h.2
ascending-SamePlaces (a ∷ c ∷ xs) (b ∷ []) h = absurd h.2
ascending-SamePlaces (a ∷ c ∷ xs) (b ∷ d ∷ ys) h =
    ground (arith, h.1, h.2.1, ascending-SamePlaces (c ∷ xs) (d ∷ ys) h.2)

SamePlaces-refl : (xs : List Step) → SamePlaces xs xs
SamePlaces-refl [] = tt
SamePlaces-refl (a ∷ xs) = (refl, refl, SamePlaces-refl xs)

SamePlaces-map :
    (f : Step → Step)
    → ((s : Step) → ((f s).order ≡ s.order) × (bucket (f s) ≡ bucket s))
    → (xs : List Step) → SamePlaces (map f xs) xs
SamePlaces-map f h [] = tt
SamePlaces-map f h (a ∷ xs) = ((h a).0, (h a).1, SamePlaces-map f h xs)

SamePlaces-activate : (xs : List Step) → any active_step xs ≡ false → SamePlaces (activate xs) xs
unfolding activate
SamePlaces-activate [] h = tt
SamePlaces-activate (s ∷ xs) h = elim (Bool-cases (is_closed s.status || is_proposed s.status)) [
  | inl skip ↦ rw skip (refl, refl, SamePlaces-activate xs (ground arith))
  | inr work ↦ rw work (refl, unfold bucket in ground arith, SamePlaces-refl xs)
]

deactivate-place :
    (s : Step) → ((deactivate s).order ≡ s.order) × (bucket (deactivate s) ≡ bucket s)
unfolding deactivate bucket
deactivate-place s = (ground arith, ground arith)

hint-place : (i : Inputs) (s : Step) → ((hint i s).order ≡ s.order) × (bucket (hint i s) ≡ bucket s)
unfolding hint bucket
hint-place i s = (ground arith, ground arith)

numbered-renumber : (n : ℕ) (xs : List Step) → numbered n (renumber n xs) ≡ true
unfolding renumber
numbered-renumber n [] = refl
numbered-renumber n (s ∷ xs) = ground (arith, ==_self n, numbered-renumber (suc n) xs)

bucket-order : (s : Step) (n : ℕ) → bucket (record s { order = n }) ≡ bucket s
unfolding bucket
bucket-order s n = refl

ascending-renumber :
    (n : ℕ) (xs : List Step) → ascending bucket_le (renumber n xs) ≡ ascending bucket_le xs
unfolding renumber
ascending-renumber n [] = refl
ascending-renumber n (a ∷ []) = refl
ascending-renumber n (a ∷ b ∷ xs) =
    ground (arith, bucket-order a n, bucket-order b (suc n), ascending-renumber (suc n) (b ∷ xs))

lex_total : (a b : ℕ × ℕ × ℕ) → lex_le a b ≡ false → lex_le b a ≡ true
lex_total (a, b, c) (a', b', c') h = ground arith

lex-fst : (a b : ℕ × ℕ × ℕ) → lex_le a b ≡ true → leb a.0 b.0 ≡ true
lex-fst (a, b, c) (a', b', c') h = ground arith

sort_key-bucket :
    (due : List ℕ) (steps : List Step) (s : Step) → (sort_key due steps s).0 ≡ bucket s
unfolding sort_key
sort_key-bucket due steps s = ground arith

by_key-bucket_le :
    (due : List ℕ) (steps : List Step) (a b : Step)
    → by_key due steps a b ≡ true
    → bucket_le a b ≡ true
by_key-bucket_le due steps a b h =
    rw (← sort_key-bucket due steps a, ← sort_key-bucket due steps b)
      (lex-fst (sort_key due steps a) (sort_key due steps b) (unfold by_key in h))

sorted_buckets :
    (due : List ℕ) (steps : List Step) → ascending bucket_le (sort (by_key due steps) steps) ≡ true
sorted_buckets due steps =
    ascending_mono (by_key due steps) bucket_le (sort (by_key due steps) steps)
      (by_key-bucket_le due steps)
      (ascending-sort (by_key due steps)
        (λ a b h. unfold by_key in lex_total (sort_key due steps a) (sort_key due steps b) h) steps)

-- The steps as they stand before the last three loops.
abbrev placed : Inputs → List Step → List Step
placed i steps = renumber 0 (sort (by_key i.due_reviews (gather i steps)) (gather i steps))

module _ (i : Inputs) (steps : List Step) where
  -- After a revision the steps are numbered from 0 in the order of the list.
  numbered-revise_steps : numbered 0 (revise_steps i steps) ≡ true
  unfolding revise_steps arrange
  numbered-revise_steps =
      numbered-SamePlaces 0 _ _
        (SamePlaces-map (hint i) (hint-place i) (activate (map deactivate (placed i steps))))
      ∙ numbered-SamePlaces 0 _ _
          (SamePlaces-activate (map deactivate (placed i steps)) (idle (placed i steps)))
      ∙ numbered-SamePlaces 0 _ _ (SamePlaces-map deactivate deactivate-place (placed i steps))
      ∙ numbered-renumber 0 _

  in_buckets : ascending bucket_le (revise_steps i steps) ≡ true
  unfolding revise_steps arrange
  in_buckets =
      ascending-SamePlaces _ _
        (SamePlaces-map (hint i) (hint-place i) (activate (map deactivate (placed i steps))))
      ∙ ascending-SamePlaces _ _
          (SamePlaces-activate (map deactivate (placed i steps)) (idle (placed i steps)))
      ∙ ascending-SamePlaces _ _ (SamePlaces-map deactivate deactivate-place (placed i steps))
      ∙ ascending-renumber 0 _
      ∙ sorted_buckets i.due_reviews (gather i steps)

  -- After a revision each step and the next one are in order: an accepted detour of the subject
  -- stands only behind another, an open review only behind one of these or another open review, and
  -- a closed step only in front of another.
  pub ascending-revise_steps : ascending goes_before (revise_steps i steps) ≡ true
  ascending-revise_steps =
      ascending_mono bucket_le goes_before (revise_steps i steps) bucket_le-goes_before in_buckets

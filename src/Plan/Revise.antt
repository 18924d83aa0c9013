-- ===== src/Plan/Revise.antt =====
-- `revise_steps` and `decide_detour` of app/learning/lesson_plan.py, phase by phase: each phase of
-- the function body is one function here, and `revise_steps` composes them in the source's order.
pub mod Focus
pub mod Steady
pub mod Evidence
pub mod Reviews
pub mod Decide
use guru_alt.Common.{
  ℕ, zero, suc, ◌+◌, Bool, true, false, not, ◌&&◌, ◌||◌, Option, none, some, List, [], ◌∷◌, ◌++◌,
  ◌==◌, if◌then◌else◌, keep, any, length, elem, map, ◌>>=◌,
}
use guru_alt.Common.Sort.{sort, lex_le}
use Prim.Native.String.{String}
use guru_alt.Plan.Step.{
  StepType, StepStatus, Guidance, DetourOutcome, Reason, Step, Detour, ScaffoldingHints, new,
  review, detour, pending, active, done, proposed, skipped, guided, exploration, was_mastered,
  was_disproved, was_skipped, external, is_new, is_review, is_detour, is_done, is_active,
  is_proposed, is_closed, is_open_detour, is_external, is_some, bare_step,
}

-- What a revision is given. `detour` is the list of at most one trigger, and `now` the moment that
-- is stamped on what it inserts.
pub record Inputs : Type 0 where
  pub mastered : List ℕ
  pub due_reviews : List ℕ
  pub scaffolding : ScaffoldingHints
  pub detour : Option Detour
  pub external_detours : List Detour
  pub guidance : Guidance
  pub disproved : List ℕ
  pub provisional : List ℕ
  pub retention_checks : List ℕ
  pub transfer_checks : List ℕ
  pub now : ℕ

abbrev pub external_step : Step → Bool
external_step s = is_detour s.step_type && is_external s.detour_reason

-- The first loop: what evidence closes.
unfoldable pub settle : List ℕ → List ℕ → Step → Step
settle mastered disproved s =
    if is_closed s.status
    then s
    else if is_new s.step_type
    then (if elem s.kc_id mastered then record s { status = done } else s)
    else if is_detour s.step_type
    then (if elem s.kc_id mastered
        then record s { status = done; detour_outcome = some was_mastered }
        else if not (is_proposed s.status)
            && elem s.kc_id disproved
            && is_some s.opened_at
            && not (external_step s)
        then record s { status = done; detour_outcome = some was_disproved }
        else s)
    else s

-- `blocked_status.get(kc)`: the last new step of the component wins, as in a dict comprehension.
unfoldable pub blocked_status : List Step → ℕ → Option StepStatus
blocked_status [] kc_id = none
blocked_status (s ∷ steps) kc_id =
    let later = blocked_status steps kc_id in
    if is_some later
    then later
    else if is_new s.step_type && s.kc_id == kc_id
    then some s.status
    else none

-- `blocked_status.get(kc, "done")`, also where there is no component to ask for.
unfoldable pub status_or_done : List Step → Option ℕ → StepStatus
unfolding blocked_status
status_or_done steps none = done
status_or_done steps (some kc_id) = elim (blocked_status steps kc_id) [ none ↦ done | some st ↦ st ]

-- The filter: an offer, or an external detour, whose blocked step is done or gone.
unfoldable pub moot : List Step → Step → Bool
unfolding status_or_done
moot settled s =
    is_detour s.step_type
    && (is_proposed s.status || (external_step s && not (is_closed s.status)))
    && is_done (status_or_done settled s.detour_for)

abbrev pub is_exploration : Guidance → Bool
is_exploration exploration = true
is_exploration guided = false

abbrev pub is_external_reason : Reason → Bool
is_external_reason external = true
is_external_reason _ = false

-- The step that `_insert` makes for a trigger.
unfoldable pub detour_step : Guidance → ℕ → Detour → Step
detour_step guidance now t =
    let s =
      bare_step t.prereq_kc_id 0 detour (if is_exploration guidance then proposed else pending) in
    record s {
      detour_for = some t.blocked_kc_id;
      detour_reason = some t.reason;
      offered_at = some now;
      opened_at = if is_exploration guidance then none else some now;
      source_subject_id = t.source_subject_id;
      source_subject_name = if is_some t.source_subject_id then t.source_subject_name else none;
    }

-- `_insert`
unfoldable pub insert_detour : Guidance → ℕ → List ℕ → List Step → Detour → List Step → List Step
unfolding status_or_done detour_step
insert_detour guidance now mastered settled t steps =
    if is_external_reason t.reason && is_closed (status_or_done settled (some t.blocked_kc_id))
    then steps
    else if any (λ s. is_detour s.step_type && is_open_detour s.status && s.kc_id == t.prereq_kc_id)
          steps
        || elem t.prereq_kc_id mastered
    then steps
    else steps ++ detour_step guidance now t ∷ []

unfoldable pub insert_all : Guidance → ℕ → List ℕ → List Step → List Detour → List Step → List Step
unfolding insert_detour
insert_all guidance now mastered settled [] steps = steps
insert_all guidance now mastered settled (t ∷ ts) steps =
    insert_all guidance now mastered settled ts
      (insert_detour guidance now mastered settled t steps)

abbrev pub triggers : Option Detour → List Detour → List Detour
triggers none externals = externals
triggers (some t) externals = t ∷ externals

abbrev pub open_review : Step → Bool
open_review s = is_review s.step_type && not (is_closed s.status)

-- An open review that is no longer due is over.
unfoldable pub retire_review : List ℕ → Step → Step
retire_review due s =
    if open_review s && not (elem s.kc_id due) then record s { status = done } else s

-- The components of the open reviews that are left, which are all due.
abbrev pub covered : List Step → List ℕ
covered [] = []
covered (s ∷ steps) = if open_review s then s.kc_id ∷ covered steps else covered steps

-- One new review for each due component without one, in the order of `due`.
unfoldable pub new_reviews : List ℕ → List ℕ → List Step
new_reviews done_ids [] = []
new_reviews done_ids (kc_id ∷ due) =
    if elem kc_id done_ids
    then new_reviews done_ids due
    else bare_step kc_id 0 review pending ∷ new_reviews (kc_id ∷ done_ids) due

unfoldable pub add_reviews : List ℕ → List Step → List Step
add_reviews due steps =
    let kept = map (retire_review due) steps in kept ++ new_reviews (covered kept) due

-- `review_rank.get(kc, len(due_order))`: the last place of the component wins.
unfoldable pub review_rank : List ℕ → ℕ → Option ℕ
review_rank [] kc_id = none
review_rank (d ∷ due) kc_id = elim (review_rank due kc_id) [
  | some i ↦ some (suc i)
  | none ↦ if d == kc_id then some 0 else none
]

-- `blocked_order.get(kc)`
unfoldable pub blocked_order : List Step → ℕ → Option ℕ
blocked_order [] kc_id = none
blocked_order (s ∷ steps) kc_id =
    let later = blocked_order steps kc_id in
    if is_some later
    then later
    else if is_new s.step_type && s.kc_id == kc_id
    then some s.order
    else none

abbrev pub or_else {ℓ} : {A : Type ℓ} → Option A → A → A
or_else none d = d
or_else (some a) d = a

abbrev pub ask {ℓ} : {A : Type ℓ} → (ℕ → Option A) → Option ℕ → Option A
ask f none = none
ask f (some k) = f k

unfoldable pub bucket : Step → ℕ
bucket s =
    if is_closed s.status
    then 3
    else if is_detour s.step_type && not (is_proposed s.status) && not (external_step s)
    then 0
    else if is_review s.step_type
    then 1
    else 2

-- The whole sort key. Inside a bucket the source compares numbers, or pairs in bucket 2 alone: a
-- number stands as a pair that ends in 0.
unfoldable pub sort_key : List ℕ → List Step → Step → ℕ × ℕ × ℕ
unfolding bucket review_rank blocked_order
sort_key due steps s =
    if not (is_closed s.status) && is_review s.step_type
    then (bucket s, or_else (review_rank due s.kc_id) (length due), 0)
    else if is_proposed s.status || (external_step s && not (is_closed s.status))
    then (bucket s, or_else (ask (blocked_order steps) s.detour_for) s.order, 0)
    else if bucket s == 2
    then (bucket s, s.order, 1)
    else (bucket s, s.order, 0)

unfoldable pub by_key : List ℕ → List Step → Step → Step → Bool
unfolding sort_key
by_key due steps a b = lex_le (sort_key due steps a) (sort_key due steps b)

unfoldable pub renumber : ℕ → List Step → List Step
renumber i [] = []
renumber i (s ∷ steps) = record s { order = i } ∷ renumber (suc i) steps

unfoldable pub deactivate : Step → Step
deactivate s = if is_active s.status then record s { status = pending } else s

-- The first step that is neither closed nor an offer becomes active.
unfoldable pub activate : List Step → List Step
activate [] = []
activate (s ∷ steps) =
    let rest = activate steps in
    if is_closed s.status || is_proposed s.status
    then s ∷ rest
    else record s { status = active } ∷ steps

-- The last loop: what an open step is taught with.
unfoldable pub hint : Inputs → Step → Step
hint i s =
    if is_closed s.status
    then s
    else (let retention = is_review s.step_type && elem s.kc_id i.retention_checks in
        record s {
          target_difficulty = i.scaffolding.target_difficulty;
          hint_density = i.scaffolding.hint_density;
          preferred_item_type =
              if is_detour s.step_type && not (external_step s)
              then some "short"
              else i.scaffolding.preferred_item_type;
          check_first = some (elem s.kc_id i.provisional);
          retention_check = some retention;
          transfer_check =
              some (is_review s.step_type && elem s.kc_id i.transfer_checks && not retention);
        })

-- The steps as the sort finds them.
unfoldable pub gather : Inputs → List Step → List Step
gather i steps =
    let settled = map (settle i.mastered i.disproved) steps in
    let left = keep (λ s. not (moot settled s)) settled in
    add_reviews i.due_reviews
      (insert_all i.guidance i.now i.mastered settled (triggers i.detour i.external_detours) left)

-- The steps in their new order, with the one to work on.
unfoldable pub arrange : List ℕ → List Step → List Step
arrange due steps = activate (map deactivate (renumber 0 (sort (by_key due steps) steps)))

unfoldable pub revise_steps : Inputs → List Step → List Step
revise_steps i steps = map (hint i) (arrange i.due_reviews (gather i steps))

pub data Decision : Type 0 where
  accept skip : Decision

unfoldable pub answer : Decision → ℕ → Step → Step
answer accept now s = record s { status = pending; opened_at = some now }
answer skip now s = record s { status = skipped; detour_outcome = some was_skipped }

abbrev pub open_on : ℕ → Step → Bool
open_on kc_id s = is_detour s.step_type && is_open_detour s.status && s.kc_id == kc_id

-- What the decision makes of an open detour; `none` is an accepted one that is no offer.
unfoldable pub decide_open : Decision → ℕ → Step → Option Step
unfolding answer
decide_open accept now s = if is_proposed s.status then some (answer accept now s) else none
decide_open skip now s = some (answer skip now s)

-- `none` is `DetourNotOpen`. The first open detour to the component is the one that is decided.
unfoldable pub decide_detour : ℕ → Decision → ℕ → List Step → Option (List Step)
unfolding decide_open
decide_detour kc_id decision now [] = none
decide_detour kc_id decision now (s ∷ steps) =
    let rest = decide_detour kc_id decision now steps in
    if open_on kc_id s
    then (decide_open decision now s >>= λ s'. some (s' ∷ steps))
    else (rest >>= λ steps'. some (s ∷ steps'))

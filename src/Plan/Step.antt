-- ===== src/Plan/Step.antt =====
-- The plan's data of app/learning/lesson_plan.py: `StepDict`, `Detour` and `ScaffoldingHints`, and
-- the plain functions over a list of steps. A component is a number, also where the source keeps
-- its id as text. A key that may be absent is an option, so is a moment, and a difficulty is a
-- number that the planner only copies. The functions that the source writes out as tests on the
-- three literal types are the Boolean tests here.
pub mod Horizon
use guru_alt.Common.{
  ℕ, suc, ◌+◌, ◌-◌, Bool, true, false, not, ◌&&◌, ◌||◌, Option, none, some, List, [], ◌∷◌, ◌==◌,
  if◌then◌else◌, leb, keep, length, elem,
}
use Prim.Native.String.{String}

pub data StepType : Type 0 where
  new review detour : StepType

pub data StepStatus : Type 0 where
  pending active done proposed skipped : StepStatus

pub data Guidance : Type 0 where
  guided exploration : Guidance

pub data DetourOutcome : Type 0 where
  was_mastered was_disproved was_skipped : DetourOutcome

pub data Reason : Type 0 where
  diagnosed repeated_failure external : Reason

pub record Step : Type 0 where
  pub kc_id : ℕ
  pub order : ℕ
  pub step_type : StepType
  pub status : StepStatus
  pub target_difficulty : Option ℕ
  pub hint_density : Option String
  pub preferred_item_type : Option String
  pub detour_for : Option ℕ
  pub detour_reason : Option Reason
  pub opened_at : Option ℕ
  pub offered_at : Option ℕ
  pub detour_outcome : Option DetourOutcome
  pub source_subject_id : Option ℕ
  pub source_subject_name : Option String
  pub check_first : Option Bool
  pub retention_check : Option Bool
  pub transfer_check : Option Bool

pub record Detour : Type 0 where
  pub prereq_kc_id : ℕ
  pub blocked_kc_id : ℕ
  pub reason : Reason
  pub consecutive_failures : ℕ
  pub source_subject_id : Option ℕ
  pub source_subject_name : Option String

pub record ScaffoldingHints : Type 0 where
  pub target_difficulty : Option ℕ
  pub hint_density : Option String
  pub preferred_item_type : Option String

abbrev pub is_new : StepType → Bool
is_new new = true
is_new _ = false

abbrev pub is_review : StepType → Bool
is_review review = true
is_review _ = false

abbrev pub is_detour : StepType → Bool
is_detour detour = true
is_detour _ = false

abbrev pub is_done : StepStatus → Bool
is_done done = true
is_done _ = false

abbrev pub is_active : StepStatus → Bool
is_active active = true
is_active _ = false

abbrev pub is_proposed : StepStatus → Bool
is_proposed proposed = true
is_proposed _ = false

-- `status in CLOSED`
abbrev pub is_closed : StepStatus → Bool
is_closed done = true
is_closed skipped = true
is_closed _ = false

-- `status in OPEN_DETOUR_STATUSES`
abbrev pub is_open_detour : StepStatus → Bool
is_open_detour pending = true
is_open_detour active = true
is_open_detour proposed = true
is_open_detour _ = false

abbrev pub is_external : Option Reason → Bool
is_external (some external) = true
is_external _ = false

abbrev pub is_some {ℓ} : {A : Type ℓ} → Option A → Bool
is_some none = false
is_some (some a) = true

-- A step as `StepDict(…)` makes it from the seven keys that are always there.
abbrev pub bare_step : ℕ → ℕ → StepType → StepStatus → Step
bare_step kc_id order step_type status = record {
  kc_id = kc_id;
  order = order;
  step_type = step_type;
  status = status;
  target_difficulty = none;
  hint_density = none;
  preferred_item_type = none;
  detour_for = none;
  detour_reason = none;
  opened_at = none;
  offered_at = none;
  detour_outcome = none;
  source_subject_id = none;
  source_subject_name = none;
  check_first = none;
  retention_check = none;
  transfer_check = none;
}

abbrev pub initial_from : ℕ → List ℕ → List Step
initial_from i [] = []
initial_from i (kc_id ∷ rest) = bare_step kc_id i new pending ∷ initial_from (suc i) rest

unfoldable pub build_initial_steps : List ℕ → List Step
build_initial_steps kc_order = initial_from 0 kc_order

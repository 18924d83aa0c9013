-- ===== src/Erasure.antt =====
-- Erasure of what a learner leaves: `delete_learner` and `erase_learner` for the object store, the
-- provider and the saved threads, the queue of refused erasures and its retries, of
-- app/services/retention.py, with `is_blob_referenced` and `unreference_blob` of
-- app/services/ingestion.py. The stores may refuse; `refuses` says for which keys they do.
pub mod Account
pub mod Objects
pub mod Rows
pub mod Identity
pub mod Queue
pub mod Settled
pub mod Retry
use guru_alt.Common.{
  ℕ, ◌+◌, ◌*◌, ◌^◌, Bool, true, false, not, ◌&&◌, ◌||◌, Option, none, some, List, [], ◌∷◌, ◌++◌,
  map, keep, any, elem, ◌==◌, leb, ltb, if◌then◌else◌,
}

pub data ErasureKind : Type 0 where
  blob identity checkpoint : ErasureKind

pub record PendingErasure : Type 0 where
  pub kind : ErasureKind
  pub target : ℕ
  pub attempts : ℕ
  pub next_attempt_at : ℕ

-- The columns of a source that name stored bytes.
pub record SourceBlob : Type 0 where
  pub id : ℕ
  pub learner_id : ℕ
  pub blob_key : Option ℕ

-- The account at the provider is named by the learner's row.
pub record LearnerRow : Type 0 where
  pub id : ℕ
  pub auth_subject : Option ℕ

-- A conversation, or the session of an onboarding.
pub record OwnedRow : Type 0 where
  pub id : ℕ
  pub learner_id : ℕ

-- What is held: the rows of learners, of what has a saved thread, and of sources; the keys in the
-- object store, the accounts at the provider, the saved threads, and the queue.
pub record Stores : Type 0 where
  pub learners : List LearnerRow
  pub conversations : List OwnedRow
  pub onboarding_sessions : List OwnedRow
  pub sources : List SourceBlob
  pub objects : List ℕ
  pub identities : List ℕ
  pub threads : List ℕ
  pub pending : List PendingErasure

abbrev pub same_kind : ErasureKind → ErasureKind → Bool
same_kind blob blob = true
same_kind identity identity = true
same_kind checkpoint checkpoint = true
same_kind _ _ = false

abbrev pub names_blob : ℕ → SourceBlob → Bool
names_blob key s = elim s.blob_key [ none ↦ false | some k ↦ k == key ]

-- `excluding`: a source that does not count.
abbrev pub counts : Option ℕ → SourceBlob → Bool
counts none s = true
counts (some id) s = not (s.id == id)

unfoldable pub is_blob_referenced : ℕ → Option ℕ → List SourceBlob → Bool
is_blob_referenced key excluding sources = any (λ s. names_blob key s && counts excluding s) sources

pub data Deleted : Type 0 where
  referenced refused : Deleted
  deleted : List ℕ → Deleted

abbrev pub without : ℕ → List ℕ → List ℕ
without key objects = keep (λ k. not (k == key)) objects

unfoldable pub unreference_blob : (ℕ → Bool) → ℕ → Option ℕ → List SourceBlob → List ℕ → Deleted
unreference_blob refuses key excluding sources objects =
    if is_blob_referenced key excluding sources
    then referenced
    else if refuses key
    then refused
    else deleted (without key objects)

abbrev pub is_of : ErasureKind → ℕ → PendingErasure → Bool
is_of kind target p = same_kind p.kind kind && p.target == target

-- A row for the target that is there already stays as it is.
unfoldable pub queue_erasure : ℕ → ErasureKind → ℕ → List PendingErasure → List PendingErasure
queue_erasure now kind target pending =
    if any (is_of kind target) pending
    then pending
    else record { kind = kind; target = target; attempts = 0; next_attempt_at = now } ∷ pending

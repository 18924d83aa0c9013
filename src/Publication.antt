-- ===== src/Publication.antt =====
-- Publication of a subject, app/services/publication.py: the rows of app/models/publication.py,
-- app/models/knowledge.py and app/models/assessment.py that it reads or writes, and the snapshot. A
-- text that is only copied is a number; so is a weight. A dict of the snapshot is a record, so that
-- all its keys are there, as `snapshot_of` writes them. The links of an item stand in the item.
pub mod Snapshot
pub mod Copy
pub mod Review
use guru_alt.Common.{ℕ, Bool, Option, List}

pub record Learner : Type 0 where
  pub id : ℕ
  pub handle : ℕ

pub record SubjectRow : Type 0 where
  pub id : ℕ
  pub slug : ℕ
  pub name : ℕ
  pub description : Option ℕ
  pub owner_learner_id : Option ℕ
  pub private_source_derived : Bool
  pub publication_id : Option ℕ
  pub superseded_by_id : Option ℕ
  pub withdrawn_at : Option ℕ
  pub withdrawn_reason : Option (List ℕ)

pub record TopicRow : Type 0 where
  pub id : ℕ
  pub subject_id : ℕ
  pub slug : ℕ
  pub name : ℕ
  pub description : Option ℕ

pub record KcRow : Type 0 where
  pub id : ℕ
  pub topic_id : ℕ
  pub slug : ℕ
  pub name : ℕ
  pub description : Option ℕ
  pub concept_id : Option ℕ

pub record EdgeRow : Type 0 where
  pub prereq_kc_id : ℕ
  pub kc_id : ℕ
  pub weight : ℕ

pub data AssessmentVisibility : Type 0 where
  private curated : AssessmentVisibility

pub record RubricRow : Type 0 where
  pub id : ℕ
  pub visibility : AssessmentVisibility
  pub owner_learner_id : Option ℕ
  pub kc_id : ℕ
  pub name : Option ℕ
  pub criteria : ℕ

pub record Link : Type 0 where
  pub kc_id : ℕ
  pub weight : ℕ

pub record ItemRow : Type 0 where
  pub id : ℕ
  pub visibility : AssessmentVisibility
  pub owner_learner_id : Option ℕ
  pub item_type : ℕ
  pub stem : ℕ
  pub answer_key : Option ℕ
  pub difficulty : ℕ
  pub rubric_id : Option ℕ
  pub origin : ℕ
  pub author_learner_id : Option ℕ
  pub kc_links : List Link

-- The entries of a snapshot.
pub record TopicEntry : Type 0 where
  pub id : ℕ
  pub slug : ℕ
  pub name : ℕ
  pub description : Option ℕ

pub record KcEntry : Type 0 where
  pub id : ℕ
  pub topic_id : ℕ
  pub slug : ℕ
  pub name : ℕ
  pub description : Option ℕ

pub record ItemEntry : Type 0 where
  pub id : ℕ
  pub item_type : ℕ
  pub stem : ℕ
  pub answer_key : Option ℕ
  pub difficulty : ℕ
  pub rubric_id : Option ℕ
  pub origin : ℕ
  pub kc_weights : List Link

pub record RubricEntry : Type 0 where
  pub id : ℕ
  pub kc_id : ℕ
  pub name : Option ℕ
  pub criteria : ℕ

pub record SnapshotOf : Type 0 where
  pub name : ℕ
  pub description : Option ℕ
  pub topics : List TopicEntry
  pub kcs : List KcEntry
  pub edges : List EdgeRow
  pub items : List ItemEntry
  pub rubrics : List RubricEntry

pub data PublicationStatus : Type 0 where
  pending approved rejected cancelled : PublicationStatus

pub record PublicationRow : Type 0 where
  pub id : ℕ
  pub source_subject_id : Option ℕ
  pub author_id : Option ℕ
  pub author_handle : Option ℕ
  pub status : PublicationStatus
  pub author_note : Option ℕ
  pub snapshot : SnapshotOf
  pub reviewer_id : Option ℕ
  pub reviewer_handle : Option ℕ
  pub reviewed_at : Option ℕ
  pub review_note : Option (List ℕ)
  pub excluded_item_ids : List ℕ
  pub published_subject_id : Option ℕ

-- The tables, and the id that the next new row of any table gets.
pub record Database : Type 0 where
  pub subjects : List SubjectRow
  pub topics : List TopicRow
  pub kcs : List KcRow
  pub edges : List EdgeRow
  pub items : List ItemRow
  pub rubrics : List RubricRow
  pub publications : List PublicationRow
  pub next_id : ℕ

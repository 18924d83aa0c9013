-- ===== src/Accounts.antt =====
-- Sessions and accounts: app/services/auth.py, `suspend` and `reinstate` of
-- app/services/accounts.py, and `request_deletion` and `restore_account` of
-- app/services/retention.py. A token is a number, and `security.token_fingerprint` is an argument.
-- A time is a number of seconds.
pub mod Sessions
pub mod Life
pub mod Ended
pub mod SignedOut
pub mod Purge
use guru_alt.Common.{
  ℕ, Bool, true, false, not, ◌&&◌, ◌||◌, Option, none, some, List, [], ◌∷◌, ◌==◌, leb,
  if◌then◌else◌,
}

pub record Learner : Type 0 where
  pub id : ℕ
  pub is_admin : Bool
  pub suspended_at : Option ℕ
  pub deletion_requested_at : Option ℕ
  pub deletion_due_at : Option ℕ

pub record LearnerSession : Type 0 where
  pub id : ℕ
  pub learner_id : ℕ
  pub token_hash : ℕ
  pub expires_at : ℕ
  pub last_used_at : ℕ
  pub revoked_at : Option ℕ
  pub impersonated_by_id : Option ℕ

pub record Impersonation : Type 0 where
  pub session_id : ℕ
  pub ended_at : Option ℕ

pub record Tables : Type 0 where
  pub learners : List Learner
  pub sessions : List LearnerSession
  pub impersonations : List Impersonation

abbrev pub is_null : Option ℕ → Bool
is_null none = true
is_null (some n) = false

abbrev pub learner_at : ℕ → List Learner → Option Learner
learner_at id [] = none
learner_at id (l ∷ learners) = if l.id == id then some l else learner_at id learners

abbrev pub session_of : ℕ → List LearnerSession → Option LearnerSession
session_of hash [] = none
session_of hash (s ∷ sessions) = if s.token_hash == hash then some s else session_of hash sessions

-- Expired or revoked.
abbrev pub is_over : ℕ → LearnerSession → Bool
is_over now s = not (is_null s.revoked_at) || leb s.expires_at now

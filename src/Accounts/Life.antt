-- ===== src/Accounts/Life.antt =====
-- What requests and jobs do to sessions and accounts, one after the other.
use guru_alt.Common.{ℕ, ◌≤◌, ◌≡◌, Bool, true, false, not, ◌&&◌, Option, List, ◌∷◌, elem, any, ◌==◌}
use guru_alt.Accounts.{LearnerSession, Tables, is_over}
use guru_alt.Accounts.Sessions.{
  revoke_all, purge_expired, done, suspend, reinstate, request_deletion, restore_account, issue,
  begin, resolve_session, revoke,
}

pub record World : Type 0 where
  pub tables : Tables
  pub now : ℕ
  -- The fingerprints of the tokens that were ever handed out.
  pub issued : List ℕ

abbrev pub with_tables : World → Tables → World
with_tables w t = record w { tables = t }

-- A row with the fingerprint authenticates no more.
abbrev pub may_live : ℕ → ℕ → LearnerSession → Bool
may_live now hash s = s.token_hash == hash && not (is_over now s)

module _ (fingerprint : ℕ → ℕ) where
  -- What any request or job may do next. A new token is random, and its fingerprint is new.
  pub data Step : World → World → Type 0 where
    waits : {w : World} (later : ℕ) → w.now ≤ later → Step w (record w { now = later })
    issues :
        {w : World} (ttl id learner_id token : ℕ)
        → elem (fingerprint token) w.issued ≡ false
        → Step w (record w {
          tables = issue fingerprint w.now ttl id learner_id token w.tables;
          issued = fingerprint token ∷ w.issued;
        })
    begins :
        {w : World} (ttl id admin learner_id reason token : ℕ) (t : Tables)
        → elem (fingerprint token) w.issued ≡ false
        → begin fingerprint w.now ttl id admin learner_id reason token w.tables ≡ done t
        → Step w (record w { tables = t; issued = fingerprint token ∷ w.issued })
    resolves :
        {w : World} (impersonation_enabled : Bool) (token : Option ℕ)
        → Step w (
            with_tables w
              (resolve_session fingerprint w.now impersonation_enabled token w.tables).0)
    revokes :
        {w : World} (token : ℕ) → Step w (with_tables w (revoke fingerprint w.now token w.tables))
    revokes_all :
        {w : World} (learner_id : ℕ) → Step w (with_tables w (revoke_all w.now learner_id w.tables))
    purges :
        {w : World} (horizon : ℕ) → Step w (with_tables w (purge_expired w.now horizon w.tables))
    suspends :
        {w : World} (actor : Option ℕ) (learner_id reason : ℕ) (t : Tables)
        → suspend w.now actor learner_id reason w.tables ≡ done t
        → Step w (with_tables w t)
    reinstates :
        {w : World} (learner_id : ℕ) (t : Tables)
        → reinstate learner_id w.tables ≡ done t
        → Step w (with_tables w t)
    requests_deletion :
        {w : World} (account_recovery_days learner_id : ℕ) (t : Tables)
        → request_deletion w.now account_recovery_days learner_id w.tables ≡ done t
        → Step w (with_tables w t)
    restores :
        {w : World} (learner_id : ℕ) (t : Tables)
        → restore_account learner_id w.tables ≡ done t
        → Step w (with_tables w t)

  pub data Later (w : World) : World → Type 0 where
    here : Later w w
    next : {w₁ w₂ : World} → Later w w₁ → Step w₁ w₂ → Later w w₂

  -- The token was handed out and has no session that lives.
  pub record IsEnded (token : ℕ) (w : World) : Type 0 where
    pub known : elem (fingerprint token) w.issued ≡ true
    pub ended : any (may_live w.now (fingerprint token)) w.tables.sessions ≡ false

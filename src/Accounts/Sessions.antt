-- ===== src/Accounts/Sessions.antt =====
-- The operations on sessions, and those on an account that end its sessions.
use guru_alt.Common.{
  ℕ, ◌+◌, ◌*◌, Bool, false, not, ◌&&◌, ◌||◌, Option, none, some, List, ◌∷◌, map, keep, elem, ◌==◌,
  leb, ltb, if◌then◌else◌,
}
use guru_alt.Accounts.{
  Learner, LearnerSession, Impersonation, Tables, is_null, learner_at, session_of, is_over,
}

abbrev pub last_used_resolution : ℕ
last_used_resolution = 300

pub record Authenticated : Type 0 where
  pub learner : Learner
  pub impersonated_by_id : Option ℕ
  pub session_id : ℕ

-- The session `id` of a learner, for a visit on behalf of `impersonated_by`.
abbrev pub new_session : ℕ → ℕ → ℕ → ℕ → ℕ → Option ℕ → LearnerSession
new_session id learner_id hash now ttl impersonated_by = record {
  id = id;
  learner_id = learner_id;
  token_hash = hash;
  expires_at = now + ttl;
  last_used_at = now;
  revoked_at = none;
  impersonated_by_id = impersonated_by;
}

abbrev pub may_visit : Option Learner → Bool
may_visit none = false
may_visit (some admin) = admin.is_admin && is_null admin.suspended_at

abbrev pub admits : Bool → List Learner → Option ℕ → Learner → Bool
admits impersonation_enabled learners none l = is_null l.suspended_at
admits impersonation_enabled learners (some admin) l =
    impersonation_enabled && may_visit (learner_at admin learners)

abbrev pub update_sessions :
    (LearnerSession → Bool)
    → (LearnerSession → LearnerSession)
    → List LearnerSession
    → List LearnerSession
update_sessions p f sessions = map (λ s. if p s then f s else s) sessions

abbrev pub used : ℕ → LearnerSession → LearnerSession
used now s = record s { last_used_at = now }

abbrev pub touch : ℕ → LearnerSession → Tables → Tables
touch now s t =
    if leb (s.last_used_at + last_used_resolution) now
    then record t { sessions = update_sessions (λ r. r.id == s.id) (used now) t.sessions }
    else t

abbrev pub resolve_learner :
    Tables → ℕ → Bool → LearnerSession → Option Learner → Tables × Option Authenticated
resolve_learner t now impersonation_enabled s none = (t, none)
resolve_learner t now impersonation_enabled s (some l) =
    let who : Authenticated = record {
      learner = l;
      impersonated_by_id = s.impersonated_by_id;
      session_id = s.id;
    } in
    if admits impersonation_enabled t.learners s.impersonated_by_id l
    then (touch now s t, some who)
    else (t, none)

abbrev pub resolve_row : Tables → ℕ → Bool → Option LearnerSession → Tables × Option Authenticated
resolve_row t now impersonation_enabled none = (t, none)
resolve_row t now impersonation_enabled (some s) =
    if is_over now s
    then (t, none)
    else resolve_learner t now impersonation_enabled s (learner_at s.learner_id t.learners)

-- The ids of the sessions that an update ends, and the records of the visits among them.
abbrev pub session_ids : List LearnerSession → List ℕ
session_ids sessions = map (λ (s : LearnerSession). s.id) sessions

abbrev pub close_impersonations : ℕ → List ℕ → List Impersonation → List Impersonation
close_impersonations now ids records =
    map
      (λ (r : Impersonation).
        if elem r.session_id ids && is_null r.ended_at then record r { ended_at = some now } else r)
      records

abbrev pub revoked : ℕ → LearnerSession → LearnerSession
revoked now s = record s { revoked_at = some now }

abbrev pub end_sessions : ℕ → (LearnerSession → Bool) → Tables → Tables
end_sessions now p t = record t {
  sessions = update_sessions p (revoked now) t.sessions;
  impersonations = close_impersonations now (session_ids (keep p t.sessions)) t.impersonations;
}

abbrev pub is_live_of : ℕ → LearnerSession → Bool
is_live_of learner_id s = s.learner_id == learner_id && is_null s.revoked_at

unfoldable pub revoke_all : ℕ → ℕ → Tables → Tables
revoke_all now learner_id t = end_sessions now (is_live_of learner_id) t

abbrev pub is_long_revoked : ℕ → Option ℕ → Bool
is_long_revoked horizon none = false
is_long_revoked horizon (some at_) = leb at_ horizon

-- `horizon`: the time before which a revoked session is not kept.
unfoldable pub purge_expired : ℕ → ℕ → Tables → Tables
purge_expired now horizon t = record t {
  sessions =
      keep (λ s. not (leb s.expires_at now || is_long_revoked horizon s.revoked_at)) t.sessions;
}

pub data Refusal : Type 0 where
  reason_required cannot_suspend_self cannot_impersonate_self no_such_learner already_suspended
        not_suspended not_pending :
      Refusal

pub data Result : Type 0 where
  done : Tables → Result
  refused : Refusal → Result

abbrev pub update_learner : ℕ → (Learner → Learner) → Tables → Tables
update_learner id f t = record t {
  learners = map (λ (l : Learner). if l.id == id then f l else l) t.learners;
}

abbrev pub min_reason_length : ℕ
min_reason_length = 8

abbrev pub is_actor : Option ℕ → ℕ → Bool
is_actor none id = false
is_actor (some actor) id = actor == id

abbrev pub is_own_live : ℕ → LearnerSession → Bool
is_own_live learner_id s =
    s.learner_id == learner_id && is_null s.impersonated_by_id && is_null s.revoked_at

abbrev pub suspend_row : ℕ → ℕ → Tables → Option Learner → Result
suspend_row now learner_id t none = refused no_such_learner
suspend_row now learner_id t (some l) =
    if not (is_null l.suspended_at)
    then refused already_suspended
    else done (record (update_learner learner_id (λ l. record l { suspended_at = some now }) t) {
      sessions = update_sessions (is_own_live learner_id) (revoked now) t.sessions;
    })

-- `actor`: the administrator, when it is a learner; `reason`: the length of the stripped text.
unfoldable pub suspend : ℕ → Option ℕ → ℕ → ℕ → Tables → Result
suspend now actor learner_id reason t =
    if ltb reason min_reason_length
    then refused reason_required
    else if is_actor actor learner_id
    then refused cannot_suspend_self
    else suspend_row now learner_id t (learner_at learner_id t.learners)

abbrev pub reinstate_row : ℕ → Tables → Option Learner → Result
reinstate_row learner_id t none = refused no_such_learner
reinstate_row learner_id t (some l) =
    if is_null l.suspended_at
    then refused not_suspended
    else done (update_learner learner_id (λ l. record l { suspended_at = none }) t)

unfoldable pub reinstate : ℕ → Tables → Result
reinstate learner_id t = reinstate_row learner_id t (learner_at learner_id t.learners)

-- A day has 86400 seconds.
abbrev pub with_deletion : ℕ → ℕ → Learner → Learner
with_deletion now account_recovery_days l =
    if is_null l.deletion_due_at
    then record l {
      deletion_requested_at = some now;
      deletion_due_at = some (now + account_recovery_days * 86400);
    }
    else l

abbrev pub request_row : ℕ → ℕ → ℕ → Tables → Option Learner → Result
request_row now account_recovery_days learner_id t none = refused no_such_learner
request_row now account_recovery_days learner_id t (some l) = done (
    revoke_all now learner_id
      (update_learner learner_id (with_deletion now account_recovery_days) t))

unfoldable pub request_deletion : ℕ → ℕ → ℕ → Tables → Result
request_deletion now account_recovery_days learner_id t =
    request_row now account_recovery_days learner_id t (learner_at learner_id t.learners)

abbrev pub restore_row : ℕ → Tables → Option Learner → Result
restore_row learner_id t none = refused no_such_learner
restore_row learner_id t (some l) =
    if is_null l.deletion_due_at
    then refused not_pending
    else done (
        update_learner learner_id
          (λ l. record l { deletion_requested_at = none; deletion_due_at = none }) t)

unfoldable pub restore_account : ℕ → Tables → Result
restore_account learner_id t = restore_row learner_id t (learner_at learner_id t.learners)

module _ (fingerprint : ℕ → ℕ) where
  unfoldable pub issue : ℕ → ℕ → ℕ → ℕ → ℕ → Tables → Tables
  issue now ttl id learner_id token t = record t {
    sessions = new_session id learner_id (fingerprint token) now ttl none ∷ t.sessions;
  }

  abbrev pub begin_row : ℕ → ℕ → ℕ → ℕ → ℕ → Tables → Option Learner → Result
  begin_row now ttl id admin token t none = refused no_such_learner
  begin_row now ttl id admin token t (some l) = done (record t {
    sessions = new_session id l.id (fingerprint token) now ttl (some admin) ∷ t.sessions;
    impersonations = record { session_id = id; ended_at = none } ∷ t.impersonations;
  })

  -- A visit of an administrator: its session and its record.
  unfoldable pub begin : ℕ → ℕ → ℕ → ℕ → ℕ → ℕ → ℕ → Tables → Result
  begin now ttl id admin learner_id reason token t =
      if ltb reason min_reason_length
      then refused reason_required
      else if learner_id == admin
      then refused cannot_impersonate_self
      else begin_row now ttl id admin token t (learner_at learner_id t.learners)

  -- A missing token authenticates no one.
  unfoldable pub resolve_session : ℕ → Bool → Option ℕ → Tables → Tables × Option Authenticated
  resolve_session now impersonation_enabled none t = (t, none)
  resolve_session now impersonation_enabled (some token) t =
      resolve_row t now impersonation_enabled (session_of (fingerprint token) t.sessions)

  unfoldable pub revoke : ℕ → ℕ → Tables → Tables
  revoke now token t =
      end_sessions now (λ s. s.token_hash == fingerprint token && is_null s.revoked_at) t

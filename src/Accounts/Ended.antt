-- ===== src/Accounts/Ended.antt =====
-- A session that has ended stays ended, whatever is done to the accounts later.
use guru_alt.Common.{
  ℕ, ◌+◌, ◌≤◌, ◌≡◌, inl, inr, refl, ap, subst, Bool, true, false, Option, none, some, List, [], ◌∷◌,
  elem, any, arith, ◌==◌, ==_iff, leb, ltb, Bool-cases,
}
use guru_alt.Common.Any.{any-keep-false}
use guru_alt.Accounts.{Learner, LearnerSession, Tables, is_null, learner_at, session_of, is_over}
use guru_alt.Accounts.Sessions.{
  update_sessions, used, touch, admits, resolve_learner, resolve_row, revoked, end_sessions,
  is_own_live, revoke_all, purge_expired, Result, done, refused, last_used_resolution,
  min_reason_length, is_actor, suspend, suspend_row, reinstate, reinstate_row, request_deletion,
  request_row, restore_account, restore_row, issue, begin, begin_row, resolve_session, revoke,
}
use guru_alt.Accounts.Life.{
  World, may_live, Step, waits, issues, begins, resolves, revokes, revokes_all, purges, suspends,
  reinstates, requests_deletion, restores, Later, here, next, IsEnded,
}

module _ (fingerprint : ℕ → ℕ) where
  any-update :
      (now hash : ℕ) (p : LearnerSession → Bool) (f : LearnerSession → LearnerSession)
      (sessions : List LearnerSession)
      → ((s : LearnerSession) → may_live now hash (f s) ≡ true → may_live now hash s ≡ true)
      → any (may_live now hash) sessions ≡ false
      → any (may_live now hash) (update_sessions p f sessions) ≡ false
  any-update now hash p f [] fewer h = h
  any-update now hash p f (s ∷ sessions) fewer h =
      ground (arith, fewer s, any-update now hash p f sessions fewer)

  any_later :
      (now later hash : ℕ) (sessions : List LearnerSession)
      → now ≤ later
      → any (may_live now hash) sessions ≡ false
      → any (may_live later hash) sessions ≡ false
  any_later now later hash [] after h = h
  any_later now later hash (s ∷ sessions) after h =
      ground (arith, any_later now later hash sessions after)

  ended_session_of :
      (now hash : ℕ) (t : Tables) (impersonation_enabled : Bool) (sessions : List LearnerSession)
      → any (may_live now hash) sessions ≡ false
      → (resolve_row t now impersonation_enabled (session_of hash sessions)).1 ≡ none
  ended_session_of now hash t impersonation_enabled [] h = refl
  ended_session_of now hash t impersonation_enabled (s ∷ sessions) h =
      elim (Bool-cases (s.token_hash == hash)) [
        | inl hit ↦ let over : is_over now s ≡ true = ground (arith, hit, h) in rw (hit, over) refl
        | inr miss ↦
            rw miss (ended_session_of now hash t impersonation_enabled sessions (ground (arith, h)))
      ]

  any-resolve_row :
      (now hash : ℕ) (impersonation_enabled : Bool) (t : Tables) (o : Option LearnerSession)
      → any (may_live now hash) t.sessions ≡ false
      → any (may_live now hash) (resolve_row t now impersonation_enabled o).0.sessions ≡ false
  any-resolve_row now hash impersonation_enabled t none h = h
  any-resolve_row now hash impersonation_enabled t (some s) h = elim (Bool-cases (is_over now s)) [
    | inl over ↦ rw over h
    | inr live ↦ rw live (go (learner_at s.learner_id t.learners))
  ]
    where
      touched : any (may_live now hash) (touch now s t).sessions ≡ false
      touched = elim (Bool-cases (leb (s.last_used_at + last_used_resolution) now)) [
        | inl stale ↦ rw stale (any-update now hash _ (used now) t.sessions (λ r e. e) h)
        | inr fresh ↦ rw fresh h
      ]

      go :
          (o : Option Learner)
          → any (may_live now hash) (resolve_learner t now impersonation_enabled s o).0.sessions
            ≡ false
      go none = h
      go (some l) =
          elim (Bool-cases (admits impersonation_enabled t.learners s.impersonated_by_id l)) [
            | inl in_ ↦ rw in_ touched
            | inr out_ ↦ rw out_ h
          ]

  any-end_sessions :
      (now hash : ℕ) (p : LearnerSession → Bool) (t : Tables)
      → any (may_live now hash) t.sessions ≡ false
      → any (may_live now hash) (end_sessions now p t).sessions ≡ false
  any-end_sessions now hash p t h =
      any-update now hash p (revoked now) t.sessions (λ s e. ground (arith, e)) h

  -- What an operation leaves, when it is granted.
  abbrev Kept : ℕ → ℕ → Result → Type 0
  Kept now hash (done t) = any (may_live now hash) t.sessions ≡ false
  Kept now hash (refused r) = Unit

  suspend_row-Kept :
      (now hash learner_id : ℕ) (t : Tables) (o : Option Learner)
      → any (may_live now hash) t.sessions ≡ false
      → Kept now hash (suspend_row now learner_id t o)
  suspend_row-Kept now hash learner_id t none h = tt
  suspend_row-Kept now hash learner_id t (some l) h = elim (Bool-cases (is_null l.suspended_at)) [
    | inl active ↦ rw active (
        any-update now hash (is_own_live learner_id) (revoked now) t.sessions
          (λ s e. ground (arith, e)) h)
    | inr already ↦ rw already tt
  ]

  suspend-Kept :
      (now hash : ℕ) (actor : Option ℕ) (learner_id reason : ℕ) (t : Tables)
      → any (may_live now hash) t.sessions ≡ false
      → Kept now hash (suspend now actor learner_id reason t)
  unfolding suspend
  suspend-Kept now hash actor learner_id reason t h =
      elim (Bool-cases (ltb reason min_reason_length)) [
        | inl short ↦ rw short tt
        | inr long ↦ elim (Bool-cases (is_actor actor learner_id)) [
          | inl self ↦ rw (long, self) tt
          | inr another ↦
              rw (long, another)
                (suspend_row-Kept now hash learner_id t (learner_at learner_id t.learners) h)
        ]
      ]

  begin_row-Kept :
      (now hash ttl id admin token : ℕ) (t : Tables) (o : Option Learner)
      → (fingerprint token == hash) ≡ false
      → any (may_live now hash) t.sessions ≡ false
      → Kept now hash (begin_row fingerprint now ttl id admin token t o)
  begin_row-Kept now hash ttl id admin token t none other h = tt
  begin_row-Kept now hash ttl id admin token t (some l) other h = ground (arith, other, h)

  begin-Kept :
      (now hash ttl id admin learner_id reason token : ℕ) (t : Tables)
      → (fingerprint token == hash) ≡ false
      → any (may_live now hash) t.sessions ≡ false
      → Kept now hash (begin fingerprint now ttl id admin learner_id reason token t)
  unfolding begin
  begin-Kept now hash ttl id admin learner_id reason token t other h =
      elim (Bool-cases (ltb reason min_reason_length)) [
        | inl short ↦ rw short tt
        | inr long ↦ elim (Bool-cases (learner_id == admin)) [
          | inl self ↦ rw (long, self) tt
          | inr another ↦
              rw (long, another)
                (begin_row-Kept now hash ttl id admin token t (learner_at learner_id t.learners)
                  other h)
        ]
      ]

  reinstate_row-Kept :
      (now hash learner_id : ℕ) (t : Tables) (o : Option Learner)
      → any (may_live now hash) t.sessions ≡ false
      → Kept now hash (reinstate_row learner_id t o)
  reinstate_row-Kept now hash learner_id t none h = tt
  reinstate_row-Kept now hash learner_id t (some l) h = elim (Bool-cases (is_null l.suspended_at)) [
    | inl active ↦ rw active tt
    | inr held ↦ rw held h
  ]

  restore_row-Kept :
      (now hash learner_id : ℕ) (t : Tables) (o : Option Learner)
      → any (may_live now hash) t.sessions ≡ false
      → Kept now hash (restore_row learner_id t o)
  restore_row-Kept now hash learner_id t none h = tt
  restore_row-Kept now hash learner_id t (some l) h =
      elim (Bool-cases (is_null l.deletion_due_at)) [
        | inl active ↦ rw active tt
        | inr pending ↦ rw pending h
      ]

  request_row-Kept :
      (now hash days learner_id : ℕ) (t : Tables) (o : Option Learner)
      → any (may_live now hash) t.sessions ≡ false
      → Kept now hash (request_row now days learner_id t o)
  unfolding revoke_all
  request_row-Kept now hash days learner_id t none h = tt
  request_row-Kept now hash days learner_id t (some l) h =
      any-update now hash _ (revoked now) t.sessions (λ s e. ground (arith, e)) h

  other_token :
      (token token' : ℕ) (issued : List ℕ)
      → elem (fingerprint token) issued ≡ true
      → elem (fingerprint token') issued ≡ false
      → (fingerprint token' == fingerprint token) ≡ false
  other_token token token' issued known new =
      elim (Bool-cases (fingerprint token' == fingerprint token)) [
        | inl same ↦ absurd (
            ground (
              arith,
              known,
              new,
              ap (λ a. elem a issued) ((==_iff (fingerprint token') (fingerprint token)).0 same),
            ))
        | inr other ↦ other
      ]

  Step-IsEnded :
      {w w' : World} (token : ℕ)
      → Step fingerprint w w'
      → IsEnded fingerprint token w
      → IsEnded fingerprint token w'
  unfolding issue resolve_session revoke revoke_all purge_expired reinstate restore_account
      request_deletion
  Step-IsEnded token (waits {w = w} later after) e = record {
    known = e.known;
    ended = any_later w.now later (fingerprint token) w.tables.sessions after e.ended;
  }
  Step-IsEnded token (issues {w = w} ttl id learner_id token' new) e =
      let other = other_token token token' w.issued e.known new in
      record { known = ground (arith, e.known); ended = ground (arith, other, e.ended) }
  Step-IsEnded token (begins {w = w} ttl id admin learner_id reason token' t new done_) e =
      let other = other_token token token' w.issued e.known new in
      record {
        known = ground (arith, e.known);
        ended = subst (Kept w.now (fingerprint token)) done_ (
            begin-Kept w.now (fingerprint token) ttl id admin learner_id reason token' w.tables
              other e.ended);
      }
  Step-IsEnded token (resolves {w = w} impersonation_enabled none) e = e
  Step-IsEnded token (resolves {w = w} impersonation_enabled (some other)) e = record {
    known = e.known;
    ended = any-resolve_row w.now (fingerprint token) impersonation_enabled w.tables _ e.ended;
  }
  Step-IsEnded token (revokes {w = w} other) e = record {
    known = e.known;
    ended = any-end_sessions w.now (fingerprint token) _ w.tables e.ended;
  }
  Step-IsEnded token (revokes_all {w = w} learner_id) e = record {
    known = e.known;
    ended = any-end_sessions w.now (fingerprint token) _ w.tables e.ended;
  }
  Step-IsEnded token (purges {w = w} horizon) e = record {
    known = e.known;
    ended = any-keep-false (may_live w.now (fingerprint token)) _ w.tables.sessions e.ended;
  }
  Step-IsEnded token (suspends {w = w} actor learner_id reason t done_) e = record {
    known = e.known;
    ended =
        subst (Kept w.now (fingerprint token)) done_
          (suspend-Kept w.now (fingerprint token) actor learner_id reason w.tables e.ended);
  }
  Step-IsEnded token (reinstates {w = w} learner_id t done_) e = record {
    known = e.known;
    ended =
        subst (Kept w.now (fingerprint token)) done_
          (reinstate_row-Kept w.now (fingerprint token) learner_id w.tables _ e.ended);
  }
  Step-IsEnded token (requests_deletion {w = w} days learner_id t done_) e = record {
    known = e.known;
    ended =
        subst (Kept w.now (fingerprint token)) done_
          (request_row-Kept w.now (fingerprint token) days learner_id w.tables _ e.ended);
  }
  Step-IsEnded token (restores {w = w} learner_id t done_) e = record {
    known = e.known;
    ended =
        subst (Kept w.now (fingerprint token)) done_
          (restore_row-Kept w.now (fingerprint token) learner_id w.tables _ e.ended);
  }

  -- A token that was handed out and has no living session never authenticates again, whatever is
  -- issued, resolved, purged, suspended, reinstated, restored or visited later.
  pub Later-IsEnded :
      {w w' : World} (token : ℕ) (impersonation_enabled : Bool)
      → IsEnded fingerprint token w
      → Later fingerprint w w'
      → IsEnded fingerprint token w'
        × ((resolve_session fingerprint w'.now impersonation_enabled (some token) w'.tables).1
            ≡ none)
  unfolding resolve_session
  Later-IsEnded {w = w} token impersonation_enabled e here = (
    e,
    ended_session_of w.now (fingerprint token) w.tables impersonation_enabled w.tables.sessions
        e.ended,
  )
  Later-IsEnded token impersonation_enabled e (next {w₂ = w₂} path s) =
      let after = Step-IsEnded token s (Later-IsEnded token impersonation_enabled e path).0 in
      (
        after,
        ended_session_of w₂.now (fingerprint token) w₂.tables impersonation_enabled
            w₂.tables.sessions after.ended,
      )

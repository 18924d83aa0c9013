-- ===== src/Accounts/SignedOut.antt =====
-- Signing out, suspension and a request for deletion end sessions for good.
use guru_alt.Common.{
  ℕ, ◌≡◌, inl, inr, refl, subst, Bool, true, false, not, ◌&&◌, Option, none, some, List, [], ◌∷◌,
  elem, any, arith, ◌==◌, ltb, Bool-cases,
}
use guru_alt.Accounts.{Learner, LearnerSession, Tables, is_null, learner_at}
use guru_alt.Accounts.Sessions.{
  update_sessions, revoked, is_live_of, is_own_live, revoke_all, Result, done, refused, suspend,
  suspend_row, min_reason_length, is_actor, request_deletion, request_row, resolve_session, revoke,
}
use guru_alt.Accounts.Life.{World, with_tables, Later, may_live, IsEnded}
use guru_alt.Accounts.Ended.{Later-IsEnded}

-- Each session with the fingerprint is one of those.
abbrev pub all_are : (LearnerSession → Bool) → ℕ → List LearnerSession → Bool
all_are own hash sessions = not (any (λ s. s.token_hash == hash && not (own s)) sessions)

abbrev pub is_of : ℕ → LearnerSession → Bool
is_of learner_id s = s.learner_id == learner_id

abbrev pub is_own_of : ℕ → LearnerSession → Bool
is_own_of learner_id s = s.learner_id == learner_id && is_null s.impersonated_by_id

any-revoked :
    (now hash : ℕ) (own p : LearnerSession → Bool) (sessions : List LearnerSession)
    → ((s : LearnerSession) → own s ≡ true → is_null s.revoked_at ≡ true → p s ≡ true)
    → all_are own hash sessions ≡ true
    → any (may_live now hash) (update_sessions p (revoked now) sessions) ≡ false
any-revoked now hash own p [] all_ mine = refl
any-revoked now hash own p (s ∷ sessions) all_ mine =
    ground (arith, all_ s, any-revoked now hash own p sessions all_, mine)

module _ (fingerprint : ℕ → ℕ) where
  -- What ends the session of a token: signing out, signing out everywhere, a suspension of the
  -- learner whose own session it is, or a request to delete the account.
  pub data SignsOut (token : ℕ) (w : World) : World → Type 0 where
    revokes : SignsOut token w (with_tables w (revoke fingerprint w.now token w.tables))
    revokes_all :
        (learner_id : ℕ)
        → all_are (is_of learner_id) (fingerprint token) w.tables.sessions ≡ true
        → SignsOut token w (with_tables w (revoke_all w.now learner_id w.tables))
    suspends :
        (actor : Option ℕ) (learner_id reason : ℕ) (t : Tables)
        → all_are (is_own_of learner_id) (fingerprint token) w.tables.sessions ≡ true
        → suspend w.now actor learner_id reason w.tables ≡ done t
        → SignsOut token w (with_tables w t)
    requests_deletion :
        (account_recovery_days learner_id : ℕ) (t : Tables)
        → all_are (is_of learner_id) (fingerprint token) w.tables.sessions ≡ true
        → request_deletion w.now account_recovery_days learner_id w.tables ≡ done t
        → SignsOut token w (with_tables w t)

  abbrev Ended : ℕ → ℕ → Result → Type 0
  Ended now hash (done t) = any (may_live now hash) t.sessions ≡ false
  Ended now hash (refused r) = Unit

  suspend_row-Ended :
      (now hash learner_id : ℕ) (t : Tables) (o : Option Learner)
      → all_are (is_own_of learner_id) hash t.sessions ≡ true
      → Ended now hash (suspend_row now learner_id t o)
  suspend_row-Ended now hash learner_id t none mine = tt
  suspend_row-Ended now hash learner_id t (some l) mine =
      elim (Bool-cases (is_null l.suspended_at)) [
        | inl active ↦ rw active (
            any-revoked now hash (is_own_of learner_id) (is_own_live learner_id) t.sessions
              (λ s a b. ground (arith, a, b)) mine)
        | inr already ↦ rw already tt
      ]

  suspend-Ended :
      (now hash : ℕ) (actor : Option ℕ) (learner_id reason : ℕ) (t : Tables)
      → all_are (is_own_of learner_id) hash t.sessions ≡ true
      → Ended now hash (suspend now actor learner_id reason t)
  unfolding suspend
  suspend-Ended now hash actor learner_id reason t mine =
      elim (Bool-cases (ltb reason min_reason_length)) [
        | inl short ↦ rw short tt
        | inr long ↦ elim (Bool-cases (is_actor actor learner_id)) [
          | inl self ↦ rw (long, self) tt
          | inr another ↦
              rw (long, another)
                (suspend_row-Ended now hash learner_id t (learner_at learner_id t.learners) mine)
        ]
      ]

  revoke_all-ended :
      (now hash learner_id : ℕ) (t : Tables)
      → all_are (is_of learner_id) hash t.sessions ≡ true
      → any (may_live now hash) (revoke_all now learner_id t).sessions ≡ false
  unfolding revoke_all
  revoke_all-ended now hash learner_id t mine =
      any-revoked now hash (is_of learner_id) (is_live_of learner_id) t.sessions
        (λ s a b. ground (arith, a, b)) mine

  request_row-Ended :
      (now hash days learner_id : ℕ) (t : Tables) (o : Option Learner)
      → all_are (is_of learner_id) hash t.sessions ≡ true
      → Ended now hash (request_row now days learner_id t o)
  unfolding revoke_all
  request_row-Ended now hash days learner_id t none mine = tt
  request_row-Ended now hash days learner_id t (some l) mine =
      any-revoked now hash (is_of learner_id) (is_live_of learner_id) t.sessions
        (λ s a b. ground (arith, a, b)) mine

  any-revoke :
      (now hash : ℕ) (sessions : List LearnerSession)
      → any (may_live now hash) (
          update_sessions
            (λ s. s.token_hash == hash && is_null s.revoked_at)
            (revoked now)
            sessions)
        ≡ false
  any-revoke now hash [] = refl
  any-revoke now hash (s ∷ sessions) = ground (arith, any-revoke now hash sessions)

  SignsOut-IsEnded :
      (token : ℕ) {w w' : World}
      → elem (fingerprint token) w.issued ≡ true
      → SignsOut token w w'
      → IsEnded fingerprint token w'
  unfolding revoke request_deletion
  SignsOut-IsEnded token {w = w} known revokes = record {
    known = known;
    ended = any-revoke w.now (fingerprint token) w.tables.sessions;
  }
  SignsOut-IsEnded token {w = w} known (revokes_all learner_id mine) = record {
    known = known;
    ended = revoke_all-ended w.now (fingerprint token) learner_id w.tables mine;
  }
  SignsOut-IsEnded token {w = w} known (suspends actor learner_id reason t mine done_) = record {
    known = known;
    ended =
        subst (Ended w.now (fingerprint token)) done_
          (suspend-Ended w.now (fingerprint token) actor learner_id reason w.tables mine);
  }
  SignsOut-IsEnded token {w = w} known (requests_deletion days learner_id t mine done_) = record {
    known = known;
    ended = subst (Ended w.now (fingerprint token)) done_ (
        request_row-Ended w.now (fingerprint token) days learner_id w.tables
          (learner_at learner_id w.tables.learners) mine);
  }

  -- Once a token is signed out, alone or everywhere, or its learner is suspended or asks for
  -- deletion, it never authenticates again, whatever is issued, visited, reinstated, restored or
  -- purged later. A suspension ends the own sessions of the learner, and a visit by an
  -- administrator is not one.
  pub SignsOut-for_good :
      {w w' w'' : World} (token : ℕ) (impersonation_enabled : Bool)
      → elem (fingerprint token) w.issued ≡ true
      → SignsOut token w w'
      → Later fingerprint w' w''
      → (resolve_session fingerprint w''.now impersonation_enabled (some token) w''.tables).1 ≡ none
  SignsOut-for_good token impersonation_enabled known out path =
      (Later-IsEnded fingerprint token impersonation_enabled (SignsOut-IsEnded token known out)
        path).1

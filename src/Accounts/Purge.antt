-- ===== src/Accounts/Purge.antt =====
-- The purge of old sessions changes no answer.
use guru_alt.Common.{
  ℕ, ◌≤◌, ◌≡◌, inl, inr, refl, sym, ap, ◌∙◌, Bool, true, false, not, ◌||◌, Option, none, some, List,
  [], ◌∷◌, map, keep, elem, arith, ◌==◌, ==_iff, leb, Bool-cases, Distinct,
}
use guru_alt.Accounts.{Learner, LearnerSession, Tables, learner_at, session_of, is_over}
use guru_alt.Accounts.Sessions.{
  admits, resolve_learner, resolve_row, is_long_revoked, purge_expired, resolve_session,
}

abbrev pub hashes : List LearnerSession → List ℕ
hashes sessions = map (λ (s : LearnerSession). s.token_hash) sessions

abbrev is_stale : ℕ → ℕ → LearnerSession → Bool
is_stale now horizon s = leb s.expires_at now || is_long_revoked horizon s.revoked_at

session_of-none :
    (hash : ℕ) (p : LearnerSession → Bool) (sessions : List LearnerSession)
    → elem hash (hashes sessions) ≡ false
    → session_of hash (keep p sessions) ≡ none
session_of-none hash p [] h = refl
session_of-none hash p (s ∷ sessions) h = ground (arith, session_of-none hash p sessions)

-- The answer does not depend on the other sessions.
resolve_learner_answer :
    (now : ℕ) (enabled : Bool) (t : Tables) (others : List LearnerSession) (s : LearnerSession)
    (o : Option Learner)
    → (resolve_learner (record t { sessions = others }) now enabled s o).1
      ≡ (resolve_learner t now enabled s o).1
resolve_learner_answer now enabled t others s none = refl
resolve_learner_answer now enabled t others s (some l) =
    elim (Bool-cases (admits enabled t.learners s.impersonated_by_id l)) [
      | inl in_ ↦ rw in_ refl
      | inr out_ ↦ rw out_ refl
    ]

resolve_row_answer :
    (now : ℕ) (enabled : Bool) (t : Tables) (others : List LearnerSession)
    (o : Option LearnerSession)
    → (resolve_row (record t { sessions = others }) now enabled o).1
      ≡ (resolve_row t now enabled o).1
resolve_row_answer now enabled t others none = refl
resolve_row_answer now enabled t others (some s) = elim (Bool-cases (is_over now s)) [
  | inl over ↦ rw over refl
  | inr live ↦
      rw live (resolve_learner_answer now enabled t others s (learner_at s.learner_id t.learners))
]

purged_row :
    (now later horizon hash : ℕ) (enabled : Bool) (t : Tables) (sessions : List LearnerSession)
    → now ≤ later
    → Distinct (hashes sessions)
    → (resolve_row t later enabled
        (session_of hash (keep (λ s. not (is_stale now horizon s)) sessions))).1
      ≡ (resolve_row t later enabled (session_of hash sessions)).1
purged_row now later horizon hash enabled t [] after distinct = refl
purged_row now later horizon hash enabled t (s ∷ sessions) after distinct =
    elim (Bool-cases (s.token_hash == hash)) [
      | inl hit ↦ elim (Bool-cases (is_stale now horizon s)) [
        | inl stale ↦
            let over : is_over later s ≡ true = ground (arith, stale) in
            let gone : elem hash (hashes sessions) ≡ false =
              ap (λ a. elem a (hashes sessions)) (sym ((==_iff s.token_hash hash).0 hit))
              ∙ distinct.0 in
            rw
              (
                stale,
                hit,
                session_of-none hash (λ x. not (is_stale now horizon x)) sessions gone,
                over,
              )
              refl
        | inr fresh ↦ rw (fresh, hit) refl
      ]
      | inr miss ↦ elim (Bool-cases (is_stale now horizon s)) [
        | inl stale ↦
            rw (stale, miss) (purged_row now later horizon hash enabled t sessions after distinct.1)
        | inr fresh ↦
            rw (fresh, miss) (purged_row now later horizon hash enabled t sessions after distinct.1)
      ]
    ]

module _ (fingerprint : ℕ → ℕ) where
  -- A purge changes the answer to no token, then or later: with or without it, every token
  -- authenticates the same learner in the same way or no one. Fingerprints are unique.
  pub resolve_session-purge_expired :
      (now later horizon : ℕ) (impersonation_enabled : Bool) (token : Option ℕ) (t : Tables)
      → now ≤ later
      → Distinct (hashes t.sessions)
      → (resolve_session fingerprint later impersonation_enabled token
          (purge_expired now horizon t)).1
        ≡ (resolve_session fingerprint later impersonation_enabled token t).1
  unfolding resolve_session purge_expired
  resolve_session-purge_expired now later horizon enabled none t after distinct = refl
  resolve_session-purge_expired now later horizon enabled (some token) t after distinct =
      resolve_row_answer later enabled t _ _
      ∙ purged_row now later horizon (fingerprint token) enabled t t.sessions after distinct

-- ===== src/Examples/Accounts.antt =====
-- A learner is suspended and reinstated, and old sessions are purged.
use guru_alt.Common.{ℕ, ◌+◌, ◌≡◌, refl, false, none, some, [], ◌∷◌, arith}
use guru_alt.Accounts.{Learner, LearnerSession, Tables}
use guru_alt.Accounts.Sessions.{
  new_session, done, suspend, reinstate, resolve_session, purge_expired,
}
use guru_alt.Accounts.Life.{World, with_tables, here, next, reinstates}
use guru_alt.Accounts.SignedOut.{suspends, SignsOut-for_good}
use guru_alt.Accounts.Purge.{resolve_session-purge_expired}

abbrev fingerprint : ℕ → ℕ
fingerprint token = token + 1000

abbrev learner : Learner
learner = record {
  id = 7;
  is_admin = false;
  suspended_at = none;
  deletion_requested_at = none;
  deletion_due_at = none;
}

abbrev its_session : LearnerSession
its_session = new_session 1 7 1042 100 86400 none

abbrev signed_in : World
signed_in = record {
  tables = record { learners = learner ∷ []; sessions = its_session ∷ []; impersonations = [] };
  now = 200;
  issued = 1042 ∷ [];
}

abbrev suspended : Tables
suspended = record signed_in.tables {
  learners = record learner { suspended_at = some 200 } ∷ [];
  sessions = record its_session { revoked_at = some 200 } ∷ [];
}

abbrev reinstated : Tables
reinstated = record suspended { learners = learner ∷ [] }

suspend-granted : suspend 200 (some 1) 7 20 signed_in.tables ≡ done suspended
unfolding suspend
suspend-granted = refl

reinstate-granted : reinstate 7 suspended ≡ done reinstated
unfolding reinstate
reinstate-granted = refl

-- The token authenticates before the suspension.
resolve_session-signed_in :
    (resolve_session fingerprint 200 false (some 42) signed_in.tables).1
    ≡ some (record { learner = learner; impersonated_by_id = none; session_id = 1 })
unfolding resolve_session
resolve_session-signed_in = refl

SignsOut-for_good_example : (resolve_session fingerprint 200 false (some 42) reinstated).1 ≡ none
SignsOut-for_good_example =
    SignsOut-for_good fingerprint {w = signed_in} {w' = with_tables signed_in suspended}
      {w'' = with_tables signed_in reinstated} 42 false refl
      (suspends (some 1) 7 20 suspended refl suspend-granted)
      (next here (reinstates 7 reinstated reinstate-granted))

abbrev two_sessions : Tables
two_sessions = record signed_in.tables {
  sessions =
      record its_session { revoked_at = some 150 } ∷ new_session 2 7 1043 120 86400 none ∷ [];
}

resolve_session-purge_expired_example :
    (resolve_session fingerprint 300 false (some 43) (purge_expired 250 200 two_sessions)).1
    ≡ (resolve_session fingerprint 300 false (some 43) two_sessions).1
resolve_session-purge_expired_example =
    resolve_session-purge_expired fingerprint 250 300 200 false (some 43) two_sessions (omega arith)
      (refl, (refl, tt))

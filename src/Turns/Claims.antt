-- ===== src/Turns/Claims.antt =====
-- `claim`, `TurnClaim.release` and `is_active` of app/services/turn_lock.py. The world is the lock
-- server, the sets `_fallback` of all processes, as pairs of process and conversation, and the
-- claims that are held.
use guru_alt.Common.{
  ℕ, Bool, true, false, not, ◌&&◌, Option, none, some, List, ◌∷◌, ◌==◌, keep, any, if◌then◌else◌,
}
use guru_alt.Turns.Keys.{lock_namespace, lock_key, as_int4}
use guru_alt.Turns.Server.{LockServer, Held}

pub record Claim : Type 0 where
  pub process : ℕ
  pub conversation_id : ℕ
  pub connection : Option ℕ

-- What the database gives: no connection, a connection whose query fails, or a session.
pub data Attempt : Type 0 where
  no_connection : Attempt
  query_failed : Attempt
  connected : ℕ → Attempt

abbrev pub is_session : ℕ → Option ℕ → Bool
is_session s none = false
is_session s (some t) = t == s

abbrev pub is_local : Option ℕ → Bool
is_local none = true
is_local (some s) = false

abbrev pub is_pair : ℕ → ℕ → ℕ × ℕ → Bool
is_pair process conversation_id (p, k) = p == process && k == conversation_id

-- The claim has that session, or is one of that process with no session on that conversation.
abbrev pub is_claim : Claim → Claim → Bool
is_claim c d = elim c.connection [
  | some s ↦ is_session s d.connection
  | none ↦ is_local d.connection && d.process == c.process && d.conversation_id == c.conversation_id
]

module _ (S : LockServer) where
  open S use {State, held, try_lock, unlock, unlock_all}

  pub record World : Type 0 where
    pub server : State
    pub fallback : List (ℕ × ℕ)
    pub claims : List Claim

  unfoldable pub claim : World → ℕ → ℕ → Attempt → World × Option Claim
  claim w process conversation_id no_connection =
      if any (is_pair process conversation_id) w.fallback
      then (w, none)
      else (let c : Claim = record {
        process = process;
        conversation_id = conversation_id;
        connection = none;
      } in
          (
            record w { fallback = (process, conversation_id) ∷ w.fallback; claims = c ∷ w.claims },
            some c,
          ))
  claim w process conversation_id query_failed = (w, none)
  claim w process conversation_id (connected s) =
      let (after, is_taken) =
        try_lock w.server s (as_int4 lock_namespace) (as_int4 (lock_key conversation_id)) in
      if is_taken
      then (let c : Claim = record {
        process = process;
        conversation_id = conversation_id;
        connection = some s;
      } in
          (record w { server = after; claims = c ∷ w.claims }, some c))
      else (record w { server = after }, none)

  -- `unlocks`: whether the query to unlock succeeds; a failure is logged and passed over.
  abbrev pub release_by : World → Claim → Bool → Option ℕ → World
  release_by w c unlocks none = record w {
    fallback = keep (λ e. not (is_pair c.process c.conversation_id e)) w.fallback;
    claims = keep (λ d. not (is_claim c d)) w.claims;
  }
  release_by w c unlocks (some s) = record w {
    server =
        if unlocks
        then unlock w.server s (as_int4 lock_namespace) (as_int4 (lock_key c.conversation_id))
        else w.server;
    claims = keep (λ d. not (is_claim c d)) w.claims;
  }

  unfoldable pub release : World → Claim → Bool → World
  release w c unlocks = release_by w c unlocks c.connection

  -- The process of a claim dies, and with it the turn and its connection: the server drops what the
  -- session holds. A connection that is lost under a turn that runs on is not this.
  abbrev pub end_by : World → Claim → Option ℕ → World
  end_by w c none = release_by w c true none
  end_by w c (some s) = record w {
    server = unlock_all w.server s;
    claims = keep (λ d. not (is_claim c d)) w.claims;
  }

  unfoldable pub end_claim : World → Claim → World
  end_claim w c = end_by w c c.connection

  abbrev is_held : Held → Bool
  is_held none = false
  is_held (some h) = true

  -- `readable`: whether `pg_locks` can be read.
  unfoldable pub is_active : World → ℕ → ℕ → Bool → Bool
  is_active w process conversation_id readable =
      if any (is_pair process conversation_id) w.fallback
      then true
      else if readable
      then is_held (held w.server lock_namespace (lock_key conversation_id))
      else true

-- ===== src/Turns/Exclusive.antt =====
-- One turn at a time: what holds of the claims in every reached world.
use guru_alt.Common.{
  ℕ, ◌≤◌, ◌≡◌, refl, ap, ◌∙◌, Bool, true, false, not, ◌&&◌, inl, inr, Option, none, some, List, [],
  ◌∷◌, arith, ◌==◌, ==_iff, any, all, tally, All, Bool-cases,
}
use guru_alt.Common.Int.{ℤ}
use guru_alt.Turns.Keys.{lock_namespace, lock_key}
use guru_alt.Turns.Server.{LockServer, Held, may_take}
use guru_alt.Turns.Claims.{Claim, is_session, is_local, is_pair, World}

abbrev pub on_key : ℕ → Claim → Bool
on_key key c = not (is_local c.connection) && lock_key c.conversation_id == key

abbrev pub is_fallback : ℕ → ℕ → Claim → Bool
is_fallback process conversation_id c =
    is_local c.connection && c.process == process && c.conversation_id == conversation_id

abbrev pub is_free : ℕ → Claim → Bool
is_free s c = not (is_session s c.connection)

abbrev pub HeldBy : Held → ℕ → Type 0
HeldBy h s = (n : ℕ) × (h ≡ some (s, n))

module _ (S : LockServer) where
  open S use {
    State, held, try_lock, unlock, unlock_all, try_lock_answer, try_lock_held, unlock_held,
    unlock_all_held,
  }

  abbrev pub HoldsKey : State → ℕ → Option ℕ → Type 0
  HoldsKey st key none = Unit
  HoldsKey st key (some s) = HeldBy (held st lock_namespace key) s

  -- The session of a claim holds the lock of its conversation.
  abbrev pub Holds : State → Claim → Type 0
  Holds st c = HoldsKey st (lock_key c.conversation_id) c.connection

  pub record IsExclusive (w : World S) : Type 0 where
    pub holds : All (Holds w.server) w.claims
    pub single : (key : ℕ) → tally (on_key key) w.claims ≤ 1
    pub alone :
        (process conversation_id : ℕ) → tally (is_fallback process conversation_id) w.claims ≤ 1
    pub noted :
        (process conversation_id : ℕ)
        → any (is_pair process conversation_id) w.fallback ≡ false
        → tally (is_fallback process conversation_id) w.claims ≡ 0

  HoldsKey-taken :
      (st : State) (s key : ℕ) (connection : Option ℕ)
      → HoldsKey st key connection
      → may_take s (held st lock_namespace key) ≡ true
      → not (is_session s connection) ≡ true
      → is_local connection ≡ true
  HoldsKey-taken st s key none h t f = refl
  HoldsKey-taken st s key (some o) (n, e) t f = ground arith

  -- A session that no claim has is refused the lock that a claim holds.
  pub no_holder :
      (st : State) (s key : ℕ) (claims : List Claim)
      → All (Holds st) claims
      → all (is_free s) claims ≡ true
      → may_take s (held st lock_namespace key) ≡ true
      → tally (on_key key) claims ≡ 0
  no_holder st s key [] h f t = refl
  no_holder st s key (c ∷ claims) h f t = elim (Bool-cases (lock_key c.conversation_id == key)) [
    | inl hit ↦
        let same : lock_key c.conversation_id ≡ key =
          (==_iff (lock_key c.conversation_id) key).0 hit in
        ground (
          arith,
          HoldsKey-taken st s (lock_key c.conversation_id) c.connection h.0
              (ap (λ (k : ℕ). may_take s (held st lock_namespace k)) same ∙ t) (ground arith),
          no_holder st s key claims h.1 (ground arith) t,
        )
    | inr miss ↦ ground (arith, no_holder st s key claims h.1 (ground arith) t)
  ]

  -- What a session does to the server leaves the locks of the other sessions.
  abbrev pub Spares : State → State → ℕ → Type 0
  Spares st st' s =
      (key o n : ℕ)
      → held st lock_namespace key ≡ some (o, n)
      → (o == s) ≡ false
      → held st' lock_namespace key ≡ some (o, n)

  HoldsKey-Spares :
      (st st' : State) (s key : ℕ) (connection : Option ℕ)
      → Spares st st' s
      → not (is_session s connection) ≡ true
      → HoldsKey st key connection
      → HoldsKey st' key connection
  HoldsKey-Spares st st' s key none spares f h = tt
  HoldsKey-Spares st st' s key (some o) spares f (n, e) = (n, spares key o n e (ground arith))

  pub Holds-Spares :
      (st st' : State) (s : ℕ) (claims : List Claim)
      → Spares st st' s
      → all (is_free s) claims ≡ true
      → All (Holds st) claims
      → All (Holds st') claims
  Holds-Spares st st' s [] spares f h = tt
  Holds-Spares st st' s (c ∷ claims) spares f h = (
    HoldsKey-Spares st st' s (lock_key c.conversation_id) c.connection spares (ground arith) h.0,
    Holds-Spares st st' s claims spares (ground arith) h.1,
  )

  pub try_lock-Spares : (st : State) (s : ℕ) (c o : ℤ) → Spares st (try_lock st s c o).0 s
  try_lock-Spares st s c o key owner n e other =
      ground (arith, try_lock_held st s c o lock_namespace key)

  pub unlock-Spares : (st : State) (s : ℕ) (c o : ℤ) → Spares st (unlock st s c o) s
  unlock-Spares st s c o key owner n e other =
      ground (arith, unlock_held st s c o lock_namespace key)

  pub unlock_all-Spares : (st : State) (s : ℕ) → Spares st (unlock_all st s) s
  unlock_all-Spares st s key owner n e other =
      ground (arith, unlock_all_held st s lock_namespace key)

-- ===== src/Turns/Server.antt =====
-- The advisory locks of PostgreSQL, as its manual documents them, of which the code's calls are:
-- `pg_try_advisory_lock`, `pg_advisory_unlock`, `pg_advisory_unlock_all`, and the view `pg_locks`.
-- A session holds a lock alone, as often as it has taken it.
use guru_alt.Common.{ℕ, suc, ◌-◌, ◌≡◌, Bool, true, ◌&&◌, Option, none, some, ◌==◌, if◌then◌else◌}
use guru_alt.Common.Int.{ℤ}
use guru_alt.Turns.Keys.{oid}

-- Who holds a lock, and how many times.
abbrev pub Held : Type 0
Held = Option (ℕ × ℕ)

abbrev pub may_take : ℕ → Held → Bool
may_take session none = true
may_take session (some (owner, times)) = owner == session

abbrev pub taken : ℕ → Held → Held
taken session none = some (session, 1)
taken session (some (owner, times)) =
    if owner == session then some (owner, suc times) else some (owner, times)

abbrev pub let_go : ℕ → Held → Held
let_go session none = none
let_go session (some (owner, times)) =
    if owner == session
    then (if times == 1 then none else some (owner, times - 1))
    else some (owner, times)

abbrev pub dropped : ℕ → Held → Held
dropped session none = none
dropped session (some (owner, times)) = if owner == session then none else some (owner, times)

pub record LockServer : Type 1 where
  pub State : Type 0
  pub held : State → ℕ → ℕ → Held
  pub try_lock : State → ℕ → ℤ → ℤ → State × Bool
  pub unlock : State → ℕ → ℤ → ℤ → State
  pub unlock_all : State → ℕ → State
  pub try_lock_answer :
      (st : State) (s : ℕ) (c o : ℤ) → (try_lock st s c o).1 ≡ may_take s (held st (oid c) (oid o))
  pub try_lock_held :
      (st : State) (s : ℕ) (c o : ℤ) (a b : ℕ)
      → held (try_lock st s c o).0 a b
        ≡ (if oid c == a && oid o == b then taken s (held st a b) else held st a b)
  pub unlock_held :
      (st : State) (s : ℕ) (c o : ℤ) (a b : ℕ)
      → held (unlock st s c o) a b
        ≡ (if oid c == a && oid o == b then let_go s (held st a b) else held st a b)
  pub unlock_all_held :
      (st : State) (s : ℕ) (a b : ℕ) → held (unlock_all st s) a b ≡ dropped s (held st a b)

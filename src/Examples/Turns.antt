-- ===== src/Examples/Turns.antt =====
-- Locks kept as a function from keys to holders, two turns on one conversation, and ingest jobs.
use guru_alt.Common.{
  tally, ℕ, ◌≡◌, ◌^◌, ◌%◌, refl, true, false, ◌&&◌, none, some, [], arith, ◌==◌, if◌then◌else◌,
}
use guru_alt.Turns.Keys.{lock_key, as_int4, oid, IsInt4, learner_key, oid-as_int4}
use guru_alt.Turns.Server.{LockServer, Held, may_take, taken, let_go, dropped}
use guru_alt.Turns.Claims.{connected, no_connection, World, claim, is_active}
use guru_alt.Turns.Exclusive.{on_key, IsExclusive}
use guru_alt.Turns.OneTurn.{
  Reached, start, step, claims_turn, Reached-IsExclusive, is_active-Reached,
}
use guru_alt.Turns.Slots.{take}
use guru_alt.Turns.Jobs.{Exact, take-Exact}

abbrev server : LockServer
server = record {
  State = ℕ → ℕ → Held;
  held = λ st a b. st a b;
  try_lock = λ st s c o. (
    λ a b. if oid c == a && oid o == b then taken s (st a b) else st a b,
    may_take s (st (oid c) (oid o)),
  );
  unlock = λ st s c o. λ a b. if oid c == a && oid o == b then let_go s (st a b) else st a b;
  unlock_all = λ st s. λ a b. dropped s (st a b);
  try_lock_answer = λ st s c o. refl;
  try_lock_held = λ st s c o a b. refl;
  unlock_held = λ st s c o a b. refl;
  unlock_all_held = λ st s a b. refl;
}

abbrev nothing : World server
nothing = record { server = λ a b. none; fallback = []; claims = [] }

abbrev one_turn : World server
one_turn = (claim server nothing 1 4000000007 (connected 5)).0

-- A second process is refused while the first turn runs.
claim-twice : (claim server one_turn 2 4000000007 (connected 6)).1 ≡ none
unfolding claim lock_key as_int4
claim-twice = refl

-- The server drops the lock of a connection that is lost. The turn does not notice and runs on, and
-- a second process gets the lock.
abbrev lost : World server
lost = record one_turn { server = server.unlock_all one_turn.server 5 }

claim-lost :
    (claim server lost 2 4000000007 (connected 6)).1
    ≡ some (record { process = 2; conversation_id = 4000000007; connection = some 6 })
unfolding claim lock_key as_int4
claim-lost = refl

one_turn_reached : Reached server one_turn
one_turn_reached =
    step (start {w = nothing} refl) (claims_turn {w = nothing} 1 4000000007 (connected 5) refl)

Reached-IsExclusive_example : IsExclusive server one_turn
Reached-IsExclusive_example = Reached-IsExclusive server one_turn_reached

one_turn_tally : tally (on_key (lock_key 4000000007)) one_turn.claims ≡ 1
unfolding claim lock_key as_int4
one_turn_tally = refl

is_active-Reached_example : is_active server one_turn 2 4000000007 false ≡ true
is_active-Reached_example =
    is_active-Reached server {w = one_turn} 2 4000000007 false one_turn_reached one_turn_tally

-- A turn that runs without a database is not seen once the database is back.
claim-overlap :
    ((claim server nothing 1 7 no_connection).1
      ≡ some (record { process = 1; conversation_id = 7; connection = none }))
    × ((claim server (claim server nothing 1 7 no_connection).0 1 7 (connected 5)).1
        ≡ some (record { process = 1; conversation_id = 7; connection = some 5 }))
unfolding claim lock_key as_int4
claim-overlap = (refl, refl)

oid-as_int4_example : IsInt4 (as_int4 4000000007) × (oid (as_int4 4000000007) ≡ 4000000007)
oid-as_int4_example = oid-as_int4 4000000007 (omega arith)

abbrev slot : ℕ
slot = 3

abbrev low : ℕ
low = 7 % 2 ^ 28

same_slot : learner_key 268435463 3 ≡ learner_key 7 3
unfolding learner_key
same_slot = refl

take-Exact_example : Exact server (λ a b. none) 5 7 4 2 (take server (λ a b. none) 5 7 4 2)
take-Exact_example =
    take-Exact server (λ a b. none) 5 7 4 2 (λ a b. refl) (omega arith) (omega arith)

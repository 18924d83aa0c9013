-- ===== src/Turns/OneTurn.antt =====
-- Claims, releases and deaths of all processes, in any order, never give one lock to two turns, as
-- long as a turn that runs keeps its connection.
use guru_alt.Common.{
  All-map, All-keep, tally, tally-keep, ℕ, suc, ◌≡◌, refl, sym, ap, subst, ◌∙◌, Bool, true, false,
  not, ◌&&◌, ◌⊎◌, inl, inr, Option, none, some, List, [], ◌∷◌, arith, ◌==◌, ==_iff, ==_self, keep,
  any, all, All, all-keep, if◌then◌else◌, Bool-cases, Option-cases,
}
use guru_alt.Common.Int.{ℤ}
use guru_alt.Turns.Keys.{lock_namespace, lock_key, as_int4, oid, oid-lock_key}
use guru_alt.Turns.Server.{LockServer, Held, may_take, taken}
use guru_alt.Turns.Claims.{
  Claim, Attempt, no_connection, query_failed, connected, is_pair, is_claim, World, claim, release,
  release_by, end_claim, end_by, is_active,
}
use guru_alt.Turns.Exclusive.{
  on_key, is_fallback, is_free, HeldBy, HoldsKey, Holds, IsExclusive, no_holder, Spares,
  Holds-Spares, try_lock-Spares, unlock-Spares, unlock_all-Spares,
}

all_free :
    (s : ℕ) (c : Claim) (claims : List Claim)
    → c.connection ≡ some s
    → all (is_free s) (keep (λ d. not (is_claim c d)) claims) ≡ true
all_free s c claims e = all-keep _ _ claims (λ d h. ground arith)

any_other :
    (p k p' k' : ℕ) (pairs : List (ℕ × ℕ))
    → any (is_pair p' k') (keep (λ e. not (is_pair p k e)) pairs) ≡ false
    → (p == p' && k == k') ≡ false
    → any (is_pair p' k') pairs ≡ false
any_other p k p' k' [] h n = refl
any_other p k p' k' ((a, b) ∷ pairs) h n = ground (arith, any_other p k p' k' pairs)

tally_removed :
    (c : Claim) (p k : ℕ) (claims : List Claim)
    → c.connection ≡ none
    → (c.process == p && c.conversation_id == k) ≡ true
    → tally (is_fallback p k) (keep (λ d. not (is_claim c d)) claims) ≡ 0
tally_removed c p k [] e h = refl
tally_removed c p k (d ∷ claims) e h = ground (arith, tally_removed c p k claims e h)

namespace_key : oid (as_int4 lock_namespace) ≡ lock_namespace
unfolding as_int4
namespace_key = refl

module _ (S : LockServer) where
  open S use {
    State, held, try_lock, unlock, unlock_all, try_lock_answer, try_lock_held, unlock_held,
    unlock_all_held,
  }

  abbrev pub IsFresh : List Claim → Attempt → Type 0
  IsFresh claims (connected s) = all (is_free s) claims ≡ true
  IsFresh claims _ = Unit

  -- A claim on a session that no running turn has, a release, or the end of a turn with its
  -- process. A turn that runs keeps its connection in each of them.
  pub data Step : World S → World S → Type 0 where
    claims_turn :
        {w : World S} (process conversation_id : ℕ) (attempt : Attempt)
        → IsFresh w.claims attempt
        → Step w (claim S w process conversation_id attempt).0
    releases : {w : World S} (c : Claim) (unlocks : Bool) → Step w (release S w c unlocks)
    ends : {w : World S} (c : Claim) → Step w (end_claim S w c)

  -- The worlds that come of one without claims.
  pub data Reached : World S → Type 0 where
    start : {w : World S} → w.claims ≡ [] → Reached w
    step : {w w' : World S} → Reached w → Step w w' → Reached w'

  shrink-IsExclusive :
      (w : World S) (st : State) (s : ℕ) (c : Claim)
      → c.connection ≡ some s
      → Spares S w.server st s
      → IsExclusive S w
      → IsExclusive S (record w { server = st; claims = keep (λ d. not (is_claim c d)) w.claims })
  shrink-IsExclusive w st s c e spares inv = record {
    holds =
        Holds-Spares S w.server st s (keep (λ d. not (is_claim c d)) w.claims) spares
          (all_free s c w.claims e)
          (All-map (λ c h. h.1) _ (All-keep (Holds S w.server) _ w.claims inv.holds));
    single = λ key.
        omega (arith, tally-keep (on_key key) (λ d. not (is_claim c d)) w.claims, inv.single key);
    alone = λ p k.
        omega
          (arith, tally-keep (is_fallback p k) (λ d. not (is_claim c d)) w.claims, inv.alone p k);
    noted = λ p k h.
        omega
          (arith, tally-keep (is_fallback p k) (λ d. not (is_claim c d)) w.claims, inv.noted p k h);
  }

  forget-IsExclusive :
      (w : World S) (c : Claim)
      → c.connection ≡ none
      → IsExclusive S w
      → IsExclusive S (record w {
        fallback = keep (λ e. not (is_pair c.process c.conversation_id e)) w.fallback;
        claims = keep (λ d. not (is_claim c d)) w.claims;
      })
  forget-IsExclusive w c e inv = record {
    holds = All-map (λ c h. h.1) _ (All-keep (Holds S w.server) _ w.claims inv.holds);
    single = λ key.
        omega (arith, tally-keep (on_key key) (λ d. not (is_claim c d)) w.claims, inv.single key);
    alone = λ p k.
        omega
          (arith, tally-keep (is_fallback p k) (λ d. not (is_claim c d)) w.claims, inv.alone p k);
    noted = λ p k h. elim (Bool-cases (c.process == p && c.conversation_id == k)) [
      | inl mine ↦ tally_removed c p k w.claims e mine
      | inr other ↦ omega (
        arith,
        tally-keep (is_fallback p k) (λ d. not (is_claim c d)) w.claims,
        inv.noted p k (any_other c.process c.conversation_id p k w.fallback h other),
      )
    ];
  }

  claim_local-IsExclusive :
      (w : World S) (p k : ℕ) → IsExclusive S w → IsExclusive S (claim S w p k no_connection).0
  unfolding claim
  claim_local-IsExclusive w p k inv = elim (Bool-cases (any (is_pair p k) w.fallback)) [
    | inl busy ↦ rw busy inv
    | inr fresh ↦ rw fresh (record {
      holds = (tt, inv.holds);
      single = λ key. inv.single key;
      alone = λ a b. elim (Bool-cases (p == a && k == b)) [
        | inl hit ↦
            let e : p ≡ a = ground arith in
            let f : k ≡ b = ground arith in
            let pair =
              ap (λ (x : ℕ). any (is_pair x k) w.fallback) e
              ∙ ap (λ (y : ℕ). any (is_pair a y) w.fallback) f in
            ground (arith, inv.noted a b (sym pair ∙ fresh))
        | inr other ↦ ground (arith, inv.alone a b)
      ];
      noted = λ a b h. ground (arith, inv.noted a b);
    })
  ]

  unlocked-Spares :
      (st : State) (s : ℕ) (c o : ℤ) (unlocks : Bool)
      → Spares S st (if unlocks then unlock st s c o else st) s
  unlocked-Spares st s c o true = unlock-Spares S st s c o
  unlocked-Spares st s c o false = λ key owner n e other. e

  -- The server's answer to a claim, in the key that the code hands over.
  try_key :
      (st : State) (s k : ℕ)
      → (try_lock st s (as_int4 lock_namespace) (as_int4 (lock_key k))).1
        ≡ may_take s (held st lock_namespace (lock_key k))
  try_key st s k =
      try_lock_answer st s (as_int4 lock_namespace) (as_int4 (lock_key k))
      ∙ (ap (λ a. may_take s (held st a (oid (as_int4 (lock_key k))))) namespace_key
          ∙ ap (λ a. may_take s (held st lock_namespace a)) (oid-lock_key k))

  try_key_held :
      (st : State) (s k : ℕ)
      → held
          (try_lock st s (as_int4 lock_namespace) (as_int4 (lock_key k))).0
          lock_namespace
          (lock_key k)
        ≡ taken s (held st lock_namespace (lock_key k))
  try_key_held st s k = ground (
    arith,
    try_lock_held st s (as_int4 lock_namespace) (as_int4 (lock_key k)) lock_namespace (lock_key k),
    namespace_key,
    oid-lock_key k,
    ==_self lock_namespace,
    ==_self (lock_key k),
  )

  taken_by : (s : ℕ) (h : Held) → may_take s h ≡ true → HeldBy (taken s h) s
  taken_by s none t = (1, refl)
  taken_by s (some (o, n)) t = (suc n, ground arith)

  claim_connected-IsExclusive :
      (w : World S) (p k s : ℕ)
      → all (is_free s) w.claims ≡ true
      → IsExclusive S w
      → IsExclusive S (claim S w p k (connected s)).0
  unfolding claim
  claim_connected-IsExclusive w p k s fresh inv =
      let st = (try_lock w.server s (as_int4 lock_namespace) (as_int4 (lock_key k))).0 in
      let spares = try_lock-Spares S w.server s (as_int4 lock_namespace) (as_int4 (lock_key k)) in
      let kept = Holds-Spares S w.server st s w.claims spares fresh inv.holds in
      elim (Bool-cases (try_lock w.server s (as_int4 lock_namespace) (as_int4 (lock_key k))).1) [
        | inl got ↦
            let may = sym (try_key w.server s k) ∙ got in
            let (n, mine) = taken_by s (held w.server lock_namespace (lock_key k)) may in
            let free = no_holder S w.server s (lock_key k) w.claims inv.holds fresh may in
            rw got (record {
              holds = ((n, try_key_held w.server s k ∙ mine), kept);
              single = λ key. elim (Bool-cases (lock_key k == key)) [
                | inl hit ↦ ground (
                  arith,
                  free,
                  ap (λ (x : ℕ). tally (on_key x) w.claims) ((==_iff (lock_key k) key).0 hit),
                )
                | inr miss ↦ ground (arith, inv.single key)
              ];
              alone = λ a b. ground (arith, inv.alone a b);
              noted = λ a b h. ground (arith, inv.noted a b h);
            })
        | inr refused ↦ rw refused (record {
          holds = kept;
          single = λ key. inv.single key;
          alone = λ a b. inv.alone a b;
          noted = λ a b h. inv.noted a b h;
        })
      ]

  release_by-IsExclusive :
      (w : World S) (c : Claim) (unlocks : Bool) (connection : Option ℕ)
      → c.connection ≡ connection
      → IsExclusive S w
      → IsExclusive S (release_by S w c unlocks connection)
  release_by-IsExclusive w c unlocks none e inv = forget-IsExclusive w c e inv
  release_by-IsExclusive w c unlocks (some s) e inv =
      shrink-IsExclusive w
        (if unlocks
          then unlock w.server s (as_int4 lock_namespace) (as_int4 (lock_key c.conversation_id))
          else w.server)
        s c e
        (unlocked-Spares w.server s (as_int4 lock_namespace) (as_int4 (lock_key c.conversation_id))
          unlocks)
        inv

  end_by-IsExclusive :
      (w : World S) (c : Claim) (connection : Option ℕ)
      → c.connection ≡ connection
      → IsExclusive S w
      → IsExclusive S (end_by S w c connection)
  end_by-IsExclusive w c none e inv = forget-IsExclusive w c e inv
  end_by-IsExclusive w c (some s) e inv =
      shrink-IsExclusive w (unlock_all w.server s) s c e (unlock_all-Spares S w.server s) inv

  Step-IsExclusive : {w w' : World S} → Step w w' → IsExclusive S w → IsExclusive S w'
  unfolding release end_claim
  Step-IsExclusive (claims_turn {w = w} p k no_connection fresh) inv =
      claim_local-IsExclusive w p k inv
  Step-IsExclusive (claims_turn {w = w} p k query_failed fresh) inv = unfold claim in inv
  Step-IsExclusive (claims_turn {w = w} p k (connected s) fresh) inv =
      claim_connected-IsExclusive w p k s fresh inv
  Step-IsExclusive (releases {w = w} c unlocks) inv =
      release_by-IsExclusive w c unlocks c.connection refl inv
  Step-IsExclusive (ends {w = w} c) inv = end_by-IsExclusive w c c.connection refl inv

  -- In every world that is reached by steps under which no running turn loses its connection,
  -- whatever processes claimed, released, failed to unlock or died with their turns, at most one
  -- turn on a database lock runs for each lock key, its session holds the lock, and at most one
  -- turn without a database runs for each process and conversation.
  pub Reached-IsExclusive : {w : World S} → Reached w → IsExclusive S w
  Reached-IsExclusive (start {w = w} no_one) = record {
    holds = subst (All (Holds S w.server)) (sym no_one) tt;
    single = λ key. ground (arith, ap (tally (on_key key)) no_one);
    alone = λ p k. ground (arith, ap (tally (is_fallback p k)) no_one);
    noted = λ p k h. ap (tally (is_fallback p k)) no_one;
  }
  Reached-IsExclusive (step before s) = Step-IsExclusive s (Reached-IsExclusive before)

  is_active_held :
      (st : State) (key : ℕ) (claims : List Claim)
      → All (Holds S st) claims
      → (tally (on_key key) claims ≡ 0) ⊎ ((s : ℕ) × HeldBy (held st lock_namespace key) s)
  is_active_held st key [] h = inl refl
  is_active_held st key (c ∷ claims) h = elim (Option-cases c.connection) [
    | inl on_its_own ↦ elim (is_active_held st key claims h.1) [
      | inl nobody ↦ inl (ground arith)
      | inr holder ↦ inr holder
    ]
    | inr (s, e) ↦ elim (Bool-cases (lock_key c.conversation_id == key)) [
      | inl hit ↦
          let (n, mine) = subst (HoldsKey S st (lock_key c.conversation_id)) e h.0 in
          inr (
            s,
            (
              n,
              ap (held st lock_namespace) (sym ((==_iff (lock_key c.conversation_id) key).0 hit))
                  ∙ mine,
            ),
          )
      | inr miss ↦ elim (is_active_held st key claims h.1) [
        | inl nobody ↦ inl (ground arith)
        | inr holder ↦ inr holder
      ]
    ]
  ]

  -- A turn that runs on a database lock, and keeps its connection, is reported as running by every
  -- process, whether the view of the locks can be read or not.
  pub is_active-Reached :
      {w : World S} (process conversation_id : ℕ) (readable : Bool)
      → Reached w
      → (tally (on_key (lock_key conversation_id)) w.claims ≡ 1)
      → is_active S w process conversation_id readable ≡ true
  unfolding is_active
  is_active-Reached {w = w} process conversation_id readable r one =
      elim (is_active_held w.server (lock_key conversation_id) w.claims
        (Reached-IsExclusive r).holds) [
          | inl nobody ↦ absurd (omega arith)
          | inr (s, (n, e)) ↦ elim (Bool-cases (any (is_pair process conversation_id) w.fallback)) [
            | inl here ↦ rw here refl
            | inr elsewhere ↦ ground arith
          ]
        ]

-- ===== src/Turns/Slots.antt =====
-- `take` and `IngestSlots.release` of app/services/ingest_slots.py: one of the global slots and one
-- of the learner's, each an advisory lock.
use guru_alt.Common.{
  ℕ, zero, suc, ◌+◌, ◌^◌, ◌≤◌, ◌<◌, ◌≡◌, refl, sym, ap, ◌∙◌, Bool, true, false, ◌&&◌, inl, inr,
  Option, none, some, arith, ◌==◌, ==_iff, if◌then◌else◌, Bool-cases,
}
use guru_alt.Turns.Keys.{
  global_namespace, learner_namespace, learner_key, as_int4, oid, oid-as_int4,
}
use guru_alt.Turns.Server.{LockServer, Held, may_take, taken}

abbrev pub is_holder : ℕ → Held → Bool
is_holder s none = false
is_holder s (some (o, n)) = o == s

module _ (S : LockServer) where
  open S use {State, held, try_lock, unlock_all, try_lock_answer, try_lock_held, unlock_all_held}

  -- The slots from `i` on, `rest` of them: the first one that the session gets, and the server
  -- then.
  abbrev pub first_slot : ℕ → ℕ → (ℕ → ℕ) → ℕ → ℕ → State → State × Option ℕ
  first_slot s namespace key i zero st = (st, none)
  first_slot s namespace key i (suc rest) st =
      let attempt = try_lock st s (as_int4 namespace) (as_int4 (key i)) in
      let next = first_slot s namespace key (i + 1) rest attempt.0 in
      if attempt.1 then (attempt.0, some i) else next

  abbrev pub both_or_none : ℕ → State × Option ℕ → State × Bool
  both_or_none s (st, some j) = (st, true)
  both_or_none s (st, none) = (unlock_all st s, false)

  abbrev pub second_slot : ℕ → ℕ → ℕ → State × Option ℕ → State × Bool
  second_slot s learner_id per_learner (st, none) = (unlock_all st s, false)
  second_slot s learner_id per_learner (st, some i) =
      both_or_none s (first_slot s learner_namespace (learner_key learner_id) 0 per_learner st)

  -- The session is a new connection. The answer is whether it has both slots.
  unfoldable pub take : State → ℕ → ℕ → (max_jobs per_learner : ℕ) → State × Bool
  take st s learner_id max_jobs per_learner =
      second_slot s learner_id per_learner (first_slot s global_namespace (λ i. i) 0 max_jobs st)

  -- The locks are those of `st`, but for one that the session has taken.
  abbrev pub Takes : State → State → ℕ → ℕ → ℕ → Type 0
  Takes st st' s namespace key =
      (a b : ℕ)
      → held st' a b ≡ (if namespace == a && key == b then taken s (held st a b) else held st a b)

  abbrev pub Same : State → State → Type 0
  Same st st' = (a b : ℕ) → held st' a b ≡ held st a b

  try_slot :
      (st : State) (s n k : ℕ)
      → n < 2 ^ 32
      → k < 2 ^ 32
      → ((try_lock st s (as_int4 n) (as_int4 k)).1 ≡ may_take s (held st n k))
        × Takes st (try_lock st s (as_int4 n) (as_int4 k)).0 s n k
  try_slot st s n k hn hk =
      let a = (oid-as_int4 n hn).1 in
      let b = (oid-as_int4 k hk).1 in
      (
        try_lock_answer st s (as_int4 n) (as_int4 k)
            ∙ (ap (λ x. may_take s (held st x (oid (as_int4 k)))) a
                ∙ ap (λ y. may_take s (held st n y)) b),
        λ c d. ground (arith, a, b, try_lock_held st s (as_int4 n) (as_int4 k) c d),
      )

  taken_refused : (s : ℕ) (h : Held) → may_take s h ≡ false → taken s h ≡ h
  taken_refused s none r = absurd (ground arith)
  taken_refused s (some (o, n)) r = ground arith

  taken-Same :
      (st st' : State) (s n k : ℕ)
      → Takes st st' s n k
      → may_take s (held st n k) ≡ false
      → Same st st'
  taken-Same st st' s n k takes r a b = elim (Bool-cases (n == a && k == b)) [
    | inl hit ↦
        let ea : n ≡ a = ground arith in
        let eb : k ≡ b = ground arith in
        let full =
          ap (λ x. may_take s (held st x b)) (sym ea)
          ∙ (ap (λ y. may_take s (held st n y)) (sym eb) ∙ r) in
        ground (arith, takes a b, taken_refused s (held st a b) full)
    | inr miss ↦ ground (arith, takes a b)
  ]

  pub data Search (s namespace : ℕ) (key : ℕ → ℕ) (i rest : ℕ) (st : State)
      : State × Option ℕ → Type 0 where
    found :
        {st' : State} (j : ℕ)
        → i ≤ j
        → j < i + rest
        → may_take s (held st namespace (key j)) ≡ true
        → Takes st st' s namespace (key j)
        → Search s namespace key i rest st (st', some j)
    full :
        {st' : State}
        → ((j : ℕ) → i ≤ j → j < i + rest → may_take s (held st namespace (key j)) ≡ false)
        → Same st st'
        → Search s namespace key i rest st (st', none)

  next-Search :
      (s n : ℕ) (key : ℕ → ℕ) (i rest : ℕ) (st st' : State) (r : State × Option ℕ)
      → may_take s (held st n (key i)) ≡ false
      → Same st st'
      → Search s n key (i + 1) rest st' r
      → Search s n key i (suc rest) st r
  next-Search s n key i rest st st' r no_ same (found j lo hi may takes) =
      found j (omega arith) (omega arith) (ap (may_take s) (sym (same n (key j))) ∙ may)
        (λ a b. ground (arith, takes a b, same a b))
  next-Search s n key i rest st st' r no_ same (full all_ same') =
      full
        (λ j lo hi. elim (Bool-cases (i == j)) [
          | inl here ↦ ap (λ k. may_take s (held st n (key k))) (sym ((==_iff i j).0 here)) ∙ no_
          | inr later ↦ ap (may_take s) (sym (same n (key j))) ∙ all_ j (ground arith) (omega arith)
        ])
        (λ a b. same' a b ∙ same a b)

  pub first_slot-Search :
      (s n : ℕ) (key : ℕ → ℕ) (i rest : ℕ) (st : State)
      → n < 2 ^ 32
      → ((j : ℕ) → j < i + rest → key j < 2 ^ 32)
      → Search s n key i rest st (first_slot s n key i rest st)
  first_slot-Search s n key i zero st hn hk = full (λ j lo hi. absurd (omega arith)) (λ a b. refl)
  first_slot-Search s n key i (suc rest) st hn hk =
      let (answer, takes) = try_slot st s n (key i) hn (hk i (omega arith)) in
      elim (Bool-cases (try_lock st s (as_int4 n) (as_int4 (key i))).1) [
        | inl got ↦ rw got (found i (omega arith) (omega arith) (sym answer ∙ got) takes)
        | inr refused ↦
            let next = (try_lock st s (as_int4 n) (as_int4 (key i))).0 in
            let no_ = sym answer ∙ refused in
            rw refused (
              next-Search s n key i rest st next (first_slot s n key (i + 1) rest next) no_
                (taken-Same st next s n (key i) takes no_)
                (first_slot-Search s n key (i + 1) rest next hn (λ j h. hk j (omega arith))))
      ]

-- ===== src/Turns/Jobs.antt =====
-- `take` is exact: a job gets one slot of each kind, or the server is left as it was and one kind
-- is full.
use guru_alt.Common.{
  ℕ, ◌^◌, ◌≤◌, ◌<◌, ◌≡◌, refl, Bool, true, false, ◌&&◌, ◌||◌, ◌⊎◌, inl, inr, Option, none, some,
  arith, ◌==◌, ==_self,
}
use guru_alt.Turns.Keys.{global_namespace, learner_namespace, learner_key, learner_key_unique}
use guru_alt.Turns.Server.{LockServer, Held, may_take, taken, dropped}
use guru_alt.Turns.Slots.{
  is_holder, both_or_none, second_slot, take, Takes, Same, Search, found, full, first_slot,
  first_slot-Search,
}

taken_new :
    (s : ℕ) (h : Held) → is_holder s h ≡ false → may_take s h ≡ true → taken s h ≡ some (s, 1)
taken_new s none f m = refl
taken_new s (some (o, n)) f m = absurd (ground arith)

dropped-taken : (s : ℕ) (h : Held) → is_holder s h ≡ false → dropped s (taken s h) ≡ h
dropped-taken s none f = ground (arith, ==_self s)
dropped-taken s (some (o, n)) f = ground arith

dropped_same : (s : ℕ) (h : Held) → is_holder s h ≡ false → dropped s h ≡ h
dropped_same s none f = refl
dropped_same s (some (o, n)) f = ground arith

learner_key_fits : (l j : ℕ) → j < 16 → learner_key l j < 2 ^ 32
learner_key_fits l j h = (learner_key_unique l l j j h h refl).0

module _ (S : LockServer) where
  open S use {State, held, unlock_all, unlock_all_held}

  -- The session holds nothing.
  abbrev pub IsNew : State → ℕ → Type 0
  IsNew st s = (a b : ℕ) → is_holder s (held st a b) ≡ false

  -- One global slot and one of the learner's, and no other lock, are the session's now.
  pub record Taken (st st' : State) (s l max_jobs per_learner : ℕ) : Type 0 where
    pub i : ℕ
    pub j : ℕ
    pub is_global : i < max_jobs
    pub is_learners : j < per_learner
    pub global : held st' global_namespace i ≡ some (s, 1)
    pub learners : held st' learner_namespace (learner_key l j) ≡ some (s, 1)
    pub others :
        (a b : ℕ)
        → ((global_namespace == a && i == b) || (learner_namespace == a && learner_key l j == b))
          ≡ false
        → held st' a b ≡ held st a b

  abbrev pub AllTaken : State → ℕ → ℕ → (ℕ → ℕ) → ℕ → Type 0
  AllTaken st s namespace key count =
      (j : ℕ) → j < count → may_take s (held st namespace (key j)) ≡ false

  abbrev pub Exact : State → ℕ → ℕ → ℕ → ℕ → State × Bool → Type 0
  Exact st s l max_jobs per_learner (st', got) =
      ((got ≡ true) × Taken st st' s l max_jobs per_learner)
      ⊎ ((got ≡ false)
          × Same S st st'
          × (AllTaken st s global_namespace (λ i. i) max_jobs
              ⊎ AllTaken st s learner_namespace (learner_key l) per_learner))

  second-Exact :
      (st st₁ : State) (s l max_jobs per_learner i : ℕ) (r : State × Option ℕ)
      → IsNew st s
      → i < max_jobs
      → may_take s (held st global_namespace i) ≡ true
      → Takes S st st₁ s global_namespace i
      → Search S s learner_namespace (learner_key l) 0 per_learner st₁ r
      → Exact st s l max_jobs per_learner (both_or_none S s r)
  second-Exact st st₁ s l max_jobs per_learner i r new hi may takes
        (found {st' = st'} j lo hj may' takes') =
      inl (
        refl,
        record {
          i = i;
          j = j;
          is_global = hi;
          is_learners = omega arith;
          global = ground (
            arith,
            takes' global_namespace i,
            takes global_namespace i,
            ==_self global_namespace,
            ==_self i,
            taken_new s (held st global_namespace i) (new global_namespace i) may,
          );
          learners = ground (
            arith,
            takes' learner_namespace (learner_key l j),
            takes learner_namespace (learner_key l j),
            ==_self learner_namespace,
            ==_self (learner_key l j),
            taken_new s (held st learner_namespace (learner_key l j))
                (new learner_namespace (learner_key l j)),
          );
          others = λ a b h. ground (arith, takes' a b, takes a b);
        },
      )
  second-Exact st st₁ s l max_jobs per_learner i r new hi may takes (full {st' = st'} all_ same) =
      inr (
        refl,
        (λ a b. ground (
          arith,
          unlock_all_held st' s a b,
          same a b,
          takes a b,
          dropped-taken s (held st a b) (new a b),
          dropped_same s (held st a b) (new a b),
        )),
        inr (λ j h.
            ground (arith, all_ j (omega arith), takes learner_namespace (learner_key l j))),
      )

  first-Exact :
      (st : State) (s l max_jobs per_learner : ℕ) (r : State × Option ℕ)
      → IsNew st s
      → per_learner ≤ 16
      → Search S s global_namespace (λ i. i) 0 max_jobs st r
      → Exact st s l max_jobs per_learner (second_slot S s l per_learner r)
  first-Exact st s l max_jobs per_learner r new fits (found {st' = st'} i lo hi may takes) =
      second-Exact st st' s l max_jobs per_learner i
        (first_slot S s learner_namespace (learner_key l) 0 per_learner st') new (omega arith) may
        takes
        (first_slot-Search S s learner_namespace (learner_key l) 0 per_learner st' (omega arith)
          (λ j h. learner_key_fits l j (omega arith)))
  first-Exact st s l max_jobs per_learner r new fits (full {st' = st'} all_ same) = inr (
    refl,
    (λ a b.
        ground
          (arith, unlock_all_held st' s a b, same a b, dropped_same s (held st a b) (new a b))),
    inl (λ j h. all_ j (omega arith) (omega arith)),
  )

  -- A job on a new connection gets one free global slot and one free slot of its learner and no
  -- other lock, or it gets none, every lock is held as before, and all global slots or all of the
  -- learner's are held by others. A learner has at most sixteen slots.
  pub take-Exact :
      (st : State) (s l max_jobs per_learner : ℕ)
      → IsNew st s
      → per_learner ≤ 16
      → max_jobs ≤ 2 ^ 32
      → Exact st s l max_jobs per_learner (take S st s l max_jobs per_learner)
  unfolding take
  take-Exact st s l max_jobs per_learner new fits small =
      first-Exact st s l max_jobs per_learner
        (first_slot S s global_namespace (λ i. i) 0 max_jobs st) new fits
        (first_slot-Search S s global_namespace (λ i. i) 0 max_jobs st (omega arith)
          (λ j h. omega arith))

-- ===== src/Erasure/Retry.antt =====
-- `_backoff`, `_retry_one` and `retry_erasures`. `recorded` says for which rows the database takes
-- what `_retry_one` commits: one that it does not take is as it was, and the pass goes on.
pub mod Carried
pub mod Passes
use guru_alt.Common.{
  least, ℕ, zero, suc, ◌+◌, ◌*◌, ◌^◌, ◌≤◌, ◌≡◌, inl, inr, refl, ap, ◌∙◌, Bool, true, false, not,
  ◌&&◌, none, List, [], ◌∷◌, map, keep, any, arith, ==_self, leb, ltb, if◌then◌else◌, Bool-cases,
  branch,
}
use guru_alt.Common.Any.{any-sort, any-keep-false, any_same}
use guru_alt.Common.Sort.{sort}
use guru_alt.Erasure.{
  ErasureKind, blob, identity, checkpoint, PendingErasure, Stores, Deleted, referenced, refused,
  deleted, without, unreference_blob, is_of, same_kind,
}
use guru_alt.Erasure.Account.{Outside, refuses_identity}

-- In seconds: at most a day.
abbrev pub backoff : ℕ → ℕ
backoff attempts = least (60 * 2 ^ least attempts 11) 86400

abbrev pub postponed : ℕ → PendingErasure → PendingErasure
postponed now p = record p {
  attempts = suc p.attempts;
  next_attempt_at = now + backoff (suc p.attempts);
}

-- The row is removed, or tried again later.
abbrev pub resolve : PendingErasure → Stores → Stores
resolve row st = record st { pending = keep (λ p. not (is_of row.kind row.target p)) st.pending }

abbrev pub postpone : ℕ → PendingErasure → Stores → Stores
postpone now row st = record st {
  pending = map (λ p. if is_of row.kind row.target p then postponed now p else p) st.pending;
}

abbrev pub retry_blob : ℕ → PendingErasure → Stores → Deleted → Stores
retry_blob now row st referenced = resolve row st
retry_blob now row st refused = postpone now row st
retry_blob now row st (deleted left) = resolve row (record st { objects = left })

abbrev pub retry_kind : Outside → ℕ → PendingErasure → Stores → ErasureKind → Stores
retry_kind out now row st blob =
    retry_blob now row st
      (unreference_blob out.refuses_object row.target none st.sources st.objects)
retry_kind out now row st checkpoint =
    if out.refuses_thread row.target
    then postpone now row st
    else resolve row (record st { threads = without row.target st.threads })
retry_kind out now row st identity =
    if refuses_identity out.provider row.target
    then postpone now row st
    else resolve row (record st { identities = without row.target st.identities })

unfoldable pub retry_one : Outside → ℕ → PendingErasure → Stores → Stores
retry_one out now row st = retry_kind out now row st row.kind

abbrev pub is_due : ℕ → PendingErasure → Bool
is_due now p = leb p.next_attempt_at now

abbrev pub Recorded : Type 0
Recorded = ErasureKind → ℕ → Bool

-- One turn of the loop: after a failed commit the row is rolled back, and what the stores have
-- deleted stays deleted.
abbrev pub retry_row : Outside → Recorded → ℕ → PendingErasure → Stores → Stores
retry_row out recorded now row st =
    let tried = retry_one out now row st in
    if recorded row.kind row.target then tried else record tried { pending = st.pending }

abbrev pub retry_rows : Outside → Recorded → ℕ → List PendingErasure → Stores → Stores
retry_rows out recorded now [] st = st
retry_rows out recorded now (row ∷ rows) st =
    retry_rows out recorded now rows (retry_row out recorded now row st)

unfoldable pub retry_erasures : Outside → Recorded → ℕ → Stores → Stores
retry_erasures out recorded now st =
    retry_rows out recorded now
      (sort (λ a b. leb a.next_attempt_at b.next_attempt_at) (keep (is_due now) st.pending)) st

pow_pos : (n : ℕ) → 1 ≤ 2 ^ n
pow_pos zero = omega arith
pow_pos (suc n) = omega (arith, pow_pos n)

-- A refused erasure is tried again after a minute at least and a day at most, and never sooner
-- after more refusals.
pub backoff_bounds :
    (attempts : ℕ)
    → (60 ≤ backoff attempts)
      × (backoff attempts ≤ 86400)
      × (backoff attempts ≤ backoff (suc attempts))
backoff_bounds attempts = elim (Bool-cases (leb (suc attempts) 11)) [
  | inl few ↦
      let few_now : leb attempts 11 ≡ true = ground (arith, few) in
      let double : 2 ^ suc attempts ≡ 2 * 2 ^ attempts = omega arith in
      rw (few, few_now) (ground (arith, double, pow_pos attempts))
  | inr many ↦
      let cap : least attempts 11 ≡ 11 = ground (arith, many) in
      let cap_next : least (suc attempts) 11 ≡ 11 = ground (arith, many) in
      rw (cap, cap_next) (omega arith, omega arith, omega arith)
]

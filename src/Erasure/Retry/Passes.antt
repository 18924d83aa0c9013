-- ===== src/Erasure/Retry/Passes.antt =====
-- What a pass of `retry_erasures` leaves in the queue.
use guru_alt.Common.{ℕ, ◌+◌, ◌≡◌, Bool, false, not, ◌&&◌, List, map, keep, any, ltb, if◌then◌else◌}
use guru_alt.Erasure.{PendingErasure, Stores, is_of}
use guru_alt.Erasure.Retry.{postponed, Recorded, is_due}

-- A due row that can be recorded and that none of the rows to come is for.
abbrev is_missed : Recorded → ℕ → List PendingErasure → PendingErasure → Bool
is_missed recorded now rows p =
    is_due now p
    && recorded p.kind p.target
    && not (any (λ (q : PendingErasure). is_of q.kind q.target p) rows)

-- What a try of one row does to the queue.
data Tried (recorded : Recorded) (now : ℕ) (row : PendingErasure) (before : List PendingErasure)
    : Stores → Type 0 where
  removed :
      {st : Stores}
      → st.pending ≡ keep (λ p. not (is_of row.kind row.target p)) before
      → Tried recorded now row before st
  delayed :
      {st : Stores}
      → st.pending ≡ map (λ p. if is_of row.kind row.target p then postponed now p else p) before
      → Tried recorded now row before st
  unrecorded :
      {st : Stores}
      → recorded row.kind row.target ≡ false
      → st.pending ≡ before
      → Tried recorded now row before st

abbrev pub is_beyond : ℕ → PendingErasure → Bool
is_beyond now p = ltb (now + 86400) p.next_attempt_at

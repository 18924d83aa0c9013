-- ===== src/Turns/Keys.antt =====
-- The keys of the advisory locks: `lock_key`, `_as_int4` and `learner_key`. An id is the number of
-- its UUID, below 2 ^ 128.
use guru_alt.Common.{ℕ, ◌+◌, ◌-◌, ◌*◌, ◌%◌, ◌^◌, ◌<◌, ◌≡◌, arith, leb, if◌then◌else◌}
use guru_alt.Common.Int.{ℤ, pos, negsuc}

abbrev pub lock_namespace : ℕ
lock_namespace = 0x47555255

abbrev pub global_namespace : ℕ
global_namespace = 0x494E4753

abbrev pub learner_namespace : ℕ
learner_namespace = 0x494E474C

unfoldable pub lock_key : ℕ → ℕ
lock_key conversation_id = conversation_id % 2 ^ 32

-- `value - (1 << 32)` is negative, -(2 ^ 32 - value).
unfoldable pub as_int4 : ℕ → ℤ
as_int4 value = if leb (2 ^ 31) value then negsuc (2 ^ 32 - value - 1) else pos value

-- The low four bits of the shifted learner are 0, so that `|` adds a slot below 16.
unfoldable pub learner_key : ℕ → ℕ → ℕ
learner_key learner_id slot = learner_id % 2 ^ 28 * 16 + slot

-- An `int4` read as an `oid`, the same 32 bits.
abbrev pub oid : ℤ → ℕ
oid (pos n) = n
oid (negsuc n) = 2 ^ 32 - 1 - n

abbrev pub IsInt4 : ℤ → Type 0
IsInt4 (pos n) = n < 2 ^ 31
IsInt4 (negsuc n) = n < 2 ^ 31

-- Every unsigned 32-bit key is handed over in the range of an `int4`, and read back as an `oid` it
-- is the key again.
pub oid-as_int4 :
    (value : ℕ) → value < 2 ^ 32 → IsInt4 (as_int4 value) × (oid (as_int4 value) ≡ value)
unfolding as_int4
oid-as_int4 value h = ground arith

pub oid-lock_key :
    (conversation_id : ℕ) → oid (as_int4 (lock_key conversation_id)) ≡ lock_key conversation_id
unfolding lock_key
oid-lock_key conversation_id = (oid-as_int4 (conversation_id % 2 ^ 32) (omega arith)).1

-- Up to sixteen slots of a learner have keys that fit, and two slots share a key only if they are
-- the same slot of learners that agree in 28 bits.
pub learner_key_unique :
    (l m i j : ℕ)
    → i < 16
    → j < 16
    → learner_key l i ≡ learner_key m j
    → (learner_key l i < 2 ^ 32) × (i ≡ j) × (l % 2 ^ 28 ≡ m % 2 ^ 28)
unfolding learner_key
learner_key_unique l m i j hi hj e = omega arith

-- ===== src/Turns.antt =====
-- The locks of a running turn and of an ingest job, app/services/turn_lock.py and
-- app/services/ingest_slots.py, over the advisory locks of the database.
pub mod Keys
pub mod Server
pub mod Claims
pub mod Exclusive
pub mod OneTurn
pub mod Slots
pub mod Jobs

-- ===== src/Persist.antt =====
-- backend/include/persist: the records of the event journal and its ring.
pub mod Event
pub mod Line
pub mod Journal
pub mod JournalRing
pub mod Replay

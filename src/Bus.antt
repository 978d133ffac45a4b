-- ===== src/Bus.antt =====
-- The message bus of the repository, backend/include/bus and backend/modules/bus.
pub mod SpscRing
pub mod Crc
pub mod Protocol
pub mod Topic

-- ===== src/Client.antt =====
-- The client library (stgclient).
pub mod Allocate
pub mod ProcessQueue

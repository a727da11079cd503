-- ===== src/Net.antt =====
-- The remoting layer (stgnet).
pub mod Frame

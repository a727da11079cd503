-- ===== src/Common.antt =====
-- Code that the client, the broker and the store share (stgcommon).
pub mod Flags

-- ===== src/Store.antt =====
-- The store (stgstorelog).
pub mod Buffer
pub mod MapedFile
pub mod OffsetByTime
pub mod MessageStore
pub mod FileQueue
pub mod Properties
pub mod Address
pub mod Append
pub mod Check
pub mod CommitLog
pub mod LogReads
pub mod ConsumeQueue
pub mod Recovery
pub mod IndexHeader
pub mod IndexFile

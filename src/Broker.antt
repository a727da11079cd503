-- ===== src/Broker.antt =====
-- The broker (stgbroker).
pub mod Lock
pub mod Offsets
pub mod TopicConfig
pub mod PullHold
pub mod Producers
pub mod SubscriptionGroup

-- ===== src/Tests.antt =====
-- The theorems at concrete inputs.
mod NetTests
mod ClientTests
mod BrokerTests
mod RegistryTests
mod IndexTests
mod LogTests
mod FileTests
mod TopicTests
mod StoreTests
mod TableTests

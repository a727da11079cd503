-- ===== src/Registry.antt =====
-- The name server (stgregistry).
pub mod KvConfig
pub mod RouteInfo

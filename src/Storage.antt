-- ===== src/Storage.antt =====
-- internal/storage: the registry of services, pipeline runs and chunk runs.
pub mod Types
pub mod Limit
pub mod Interface
pub mod Memory
pub mod Bolt

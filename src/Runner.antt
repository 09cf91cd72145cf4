-- ===== src/Runner.antt =====
-- internal/runner: the supervision of a pipeline run.
pub mod Stream
pub mod Delivery
pub mod Group
pub mod Lifecycle
pub mod Startup
pub mod Wiring
pub mod Enrich
pub mod Failure

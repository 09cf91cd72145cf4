-- ===== src/Pipeline.antt =====
-- Pipeline files: what a loaded pipeline must be.
pub mod Model
pub mod ApiVersion
pub mod Loader
pub mod Resolve

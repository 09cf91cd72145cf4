-- ===== src/ComponentRegistry.antt =====
-- The part of internal/registry that names an image.
pub mod Reference

-- ===== src/ControlPlane.antt =====
-- internal/api/control_plane.go: the control plane server.
pub mod State
pub mod Registry
pub mod Janitor
pub mod Runs
pub mod Chunks
pub mod Wrapper
pub mod Embedded
pub mod Mirror

-- ===== src/Proto.antt =====
-- The messages of the control plane (proto/control_plane.pb.go) and of the flow-proto module, as far
-- as the code reads or writes them.
pub mod Enums
pub mod Messages

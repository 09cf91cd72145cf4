-- ===== src/Core.antt =====
-- internal/core: the graph of processors that moves events over buffered channels inside the program.
pub mod Dag
pub mod Graph

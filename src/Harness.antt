-- ===== src/Harness.antt =====
-- internal/harness: the nodes and the clients that record histories.
pub mod Nodes
pub mod Client
pub mod Invoke
pub mod Runner
pub mod Faults
pub mod Workload
pub mod Phases
pub mod Run
pub mod Main
mod Tests

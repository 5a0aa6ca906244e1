-- ===== src/Harness/Phases.antt =====
-- internal/harness/run.go: the phases of a run, and what they have in common.
pub mod Keys
pub mod SelfTest
pub mod Reset
pub mod Smoke
pub mod Contention
pub mod Durability
pub mod Minority
pub mod Chaos
pub mod Convergence
pub mod Final

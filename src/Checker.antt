-- ===== src/Checker.antt =====
-- internal/checker: the register model that histories are checked against, and the check.
pub mod Model
pub mod Operations
pub mod Describe
pub mod Linearizable
pub mod Step
pub mod Horizon
pub mod Record
pub mod Kept
pub mod Carry
pub mod Complete
pub mod Partition
pub mod Check
pub mod Sound
pub mod Scan
mod Tests

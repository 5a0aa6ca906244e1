-- ===== src/Contract.antt =====
-- The contract between the server's responses and the outcomes that clients record: README.md, the
-- table of errors.
pub mod Definite
pub mod Guard
pub mod Unapplied
pub mod Cluster
pub mod Bodies
pub mod Attempt
pub mod Paths
pub mod Wire
pub mod Status
mod Tests

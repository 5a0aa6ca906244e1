-- ===== src/Server.antt =====
-- internal/server: the configuration of a node and its HTTP API.
pub mod Node
pub mod Start
pub mod Http
pub mod Status
mod Tests

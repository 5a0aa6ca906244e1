-- ===== src/Kv.antt =====
-- internal/kv: the replicated state machine.
pub mod Command
pub mod Spec
pub mod Fsm
mod Tests

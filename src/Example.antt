-- ===== src/Example.antt =====
-- src/example: the programs that call an agent.
pub mod Client
pub mod Node
pub mod Secured
mod Tests

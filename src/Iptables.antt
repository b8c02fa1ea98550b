-- ===== src/Iptables.antt =====
-- iptables.go: the chains and rules of the security groups.
pub mod Client
pub mod Effect
pub mod Chain
pub mod Rules
pub mod Setup
pub mod Add
pub mod Handlers
pub mod Guard
pub mod Preserves
pub mod Memory
pub mod Tests
pub mod Reports

-- ===== src/Agent.antt =====
-- The agent: its small handlers, its service, and its start.
pub mod OsBrick
pub mod Service
pub mod Reports
pub mod Setup
pub mod Registered
pub mod Opened
pub mod Preserves
pub mod Run
pub mod Started
pub mod Tests
mod Small

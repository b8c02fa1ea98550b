-- ===== src/Go.antt =====
-- The parts of the Go language and its standard library that the agent's code uses.
pub mod Error
pub mod Text
pub mod Int
pub mod Hex
pub mod Template
pub mod Bits
pub mod Space
pub mod Action
pub mod Reports
pub mod Outcome
pub mod Keeps
pub mod Moves
pub mod Assoc
pub mod Triple
pub mod Net

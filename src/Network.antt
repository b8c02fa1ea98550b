-- ===== src/Network.antt =====
-- bridge.go and vlan.go: bridges, the interfaces on them, and VLAN interfaces.
pub mod Netlink
pub mod Address
pub mod Veth
pub mod Handlers
pub mod Reports
pub mod Lawful
pub mod Preserves
pub mod Bridge
pub mod Vlan
mod Tests

-- ===== src/Dhcp.antt =====
-- dhcp/dhcpd.go: the DHCP server.
pub mod Packet
pub mod Response
pub mod Server
pub mod Routes
pub mod Lease
pub mod Panics
pub mod Loop
pub mod Address
pub mod Replies
pub mod Refine
pub mod Answers
pub mod Live
pub mod Tests
mod Script

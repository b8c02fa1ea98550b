-- ===== src/Vm.antt =====
-- virtual_machine.go and util.go: virtual machines by libvirt.
pub mod Libvirt
pub mod Templates
pub mod Uuid
pub mod Handlers
pub mod Pinning
pub mod Reports
pub mod Lawful
pub mod Added
pub mod Preserves
pub mod Attributes
pub mod States
pub mod Tests

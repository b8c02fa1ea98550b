-- ===== src/Cpu.antt =====
-- cpu.go: the NUMA nodes of the host, parsed from the kernel's cpulist files.
pub mod Node
pub mod CoreId
pub mod Parse
pub mod Host
mod Tests

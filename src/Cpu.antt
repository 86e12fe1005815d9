-- ===== src/Cpu.antt =====
-- Platform/ARC/Library/CpuLib and Platform/ARC/Include/Common/Cpu.h.
pub mod Reg
pub mod Cache
pub mod Stubs

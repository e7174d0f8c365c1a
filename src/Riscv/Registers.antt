-- ===== src/Riscv/Registers.antt =====
-- The registers of kernel/src/arch/riscv/registers.rs that the kernel computes with.
pub mod SstatusFlags
pub mod Sstatus
pub mod Satp

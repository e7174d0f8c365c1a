-- ===== src/Riscv.antt =====
-- The side of the kernel that faces the processor, kernel/src/arch/riscv/: registers, traps and system calls.
pub mod Registers
pub mod Hart
pub mod Syscall
pub mod Trap
pub mod Sbi

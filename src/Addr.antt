-- ===== src/Addr.antt =====
-- Addresses: kernel/src/mm/addr.rs, kernel/src/mm/addr/, kernel/src/arch/riscv/addr.rs.
mod Tests
pub mod Align
pub mod Phys
pub mod Virt

-- ===== src/Mmu.antt =====
-- Page tables: kernel/src/arch/riscv/mmu.rs under the default feature sv39.
pub mod Entry
pub mod Space
pub mod Lookup
pub mod Tree
pub mod Ranges
pub mod Copy
pub mod Walker
pub mod BumpFrames
mod Tests

-- ===== src/Drivers.antt =====
-- The device drivers of kernel/src/drivers/.
pub mod Virtq
pub mod Blkdev

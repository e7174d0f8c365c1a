-- ===== src/Mmu/Entry/SegmentFlags.antt =====
-- The flags of `SegmentFlags` of kernel/src/proc/elf/mod.rs.
use rv.Base.{ℕ}

abbrev pub r : ℕ
r = 1

abbrev pub w : ℕ
w = 2

abbrev pub x : ℕ
x = 4

-- ===== src/Mmu/Entry/Tests.antt =====
-- Entries of the kernel's page tables.
use rv.Base.{◌^◌, ◌%◌, ◌≡◌, ◌≢◌, arith}
use rv.Mmu.Entry.{get_ppn, set_ppn, flags}
use rv.Mmu.Entry.Fields.{set_ppn-truncates}

-- The page at 2 ^ 38.
set_ppn-truncates_example :
    (set_ppn 0xef (2 ^ 26) ≡ set_ppn 0xef (2 ^ 26 % 2 ^ 26))
    × (get_ppn (set_ppn 0xef (2 ^ 26)) ≡ 2 ^ 26 % 2 ^ 26)
    × (get_ppn (set_ppn 0xef (2 ^ 26)) ≢ 2 ^ 26)
    × (flags (set_ppn 0xef (2 ^ 26)) ≡ flags 0xef)
set_ppn-truncates_example =
    set_ppn-truncates 0xef (2 ^ 26) (omega arith) (omega arith) (omega arith)

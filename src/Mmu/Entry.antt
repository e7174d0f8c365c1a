-- ===== src/Mmu/Entry.antt =====
-- `EntryFlags`, `Entry` and `PageSize` of kernel/src/arch/riscv/mmu.rs. An entry is its 64 bits.
pub mod EntryFlags
pub mod SegmentFlags
pub mod Fields
pub mod Write
pub mod Links
mod Tests
use rv.Base.{
  ℕ, zero, suc, ◌+◌, ◌-◌, ◌*◌, ◌/◌, ◌^◌, bit_and, bit_or, Bool, true, false, not, Option, none,
  some,
}
use rv.Base.{◌==◌, if◌then◌else◌}
use rv.Base.Word.{complement}

abbrev pub page_shift : ℕ
page_shift = 12

abbrev pub page_size : ℕ
page_size = 2 ^ page_shift

abbrev pub page_levels : ℕ
page_levels = 3

abbrev pub pte_ppn_mask : ℕ
pte_ppn_mask = 0x3ff_ffff

abbrev pub pte_ppn_offset : ℕ
pte_ppn_offset = 10

abbrev pub contains : ℕ → ℕ → Bool
contains e f = bit_and e f == f

abbrev pub intersects : ℕ → ℕ → Bool
intersects e f = not (bit_and e f == 0)

abbrev pub Entry : Type 0
Entry = ℕ

abbrev pub empty : Entry
empty = 0

unfoldable pub is_valid : Entry → Bool
is_valid e = contains e EntryFlags.valid

unfoldable pub is_user : Entry → Bool
is_user e = contains e EntryFlags.user

unfoldable pub is_leaf : Entry → Bool
is_leaf e = intersects e EntryFlags.rwx

unfoldable pub flags : Entry → ℕ
flags e = bit_and e EntryFlags.all

unfoldable pub set_flags : Entry → ℕ → Entry
set_flags e f = bit_or e f

-- `inner.remove(RWXUG); inner |= flags`
unfoldable pub write_flags : Entry → ℕ → Entry
write_flags e f = bit_or (bit_and e (complement EntryFlags.rwxug)) f

unfoldable pub get_ppn : Entry → ℕ
get_ppn e = bit_and (e / 2 ^ pte_ppn_offset) pte_ppn_mask

unfoldable pub set_ppn : Entry → ℕ → Entry
set_ppn e ppn =
    bit_or (bit_and e (complement (pte_ppn_mask * 2 ^ pte_ppn_offset)))
      (bit_and ppn pte_ppn_mask * 2 ^ pte_ppn_offset)

pub data PageSize : Type 0 where
  kb mb gb : PageSize

unfoldable pub to_table_level : PageSize → ℕ
to_table_level kb = 0
to_table_level mb = 1
to_table_level gb = 2

unfoldable pub from_table_level : ℕ → Option PageSize
from_table_level lvl =
    if lvl == 0 then some kb else if lvl == 1 then some mb else if lvl == 2 then some gb else none

unfoldable pub size : PageSize → ℕ
size kb = 0x1000
size mb = 0x20_0000
size gb = 0x4000_0000

-- `EntryFlags::from_segment_flags`
unfoldable pub from_segment_flags : ℕ → ℕ
from_segment_flags seg =
    let f0 = if contains seg SegmentFlags.r then EntryFlags.read else 0 in
    let f1 = if contains seg SegmentFlags.w then bit_or f0 EntryFlags.write else f0 in
    if contains seg SegmentFlags.x then bit_or f1 EntryFlags.exec else f1

-- ===== src/Addr/Phys.antt =====
-- `PhysAddr` of kernel/src/mm/addr/phys.rs, with its RISC-V part in kernel/src/arch/riscv/addr.rs
-- under the default feature sv39. The type wraps a `usize`: an address is a number.
-- `none` is the `Err(InvalidAddrError)` of `try_new`.
pub mod Fields
use rv.Base.{ℕ, ◌*◌, ◌/◌, ◌%◌, ◌^◌, bit_and, Bool, Option, none, some}
use rv.Base.{Run, unwrap, ◌>>=◌, ◌==◌, if◌then◌else◌}
use rv.Base.Word
use rv.Base.Word.{usize_mod}
use rv.Addr.Align

abbrev pub PhysAddr : Type 0
PhysAddr = ℕ

abbrev pub try_new : ℕ → Option PhysAddr
try_new a = if a / 2 ^ 56 == 0 then some a else none

abbrev pub new : ℕ → Run PhysAddr
new a = unwrap (try_new a)

-- `Add` and `Sub`, for a `PhysAddr` or a `usize` on the right.
abbrev pub add : PhysAddr → ℕ → Run PhysAddr
add a b = Word.add a b >>= new

abbrev pub sub : PhysAddr → ℕ → Run PhysAddr
sub a b = Word.sub a b >>= new

abbrev pub align_up : PhysAddr → ℕ → Run PhysAddr
align_up a align = Align.align_up a align >>= new

abbrev pub align_down : PhysAddr → ℕ → Run PhysAddr
align_down a align = Align.align_down a align >>= new

abbrev pub is_aligned : PhysAddr → ℕ → Run Bool
is_aligned a align = Align.is_aligned a align

-- A left shift drops the bits that leave the word.
unfoldable pub from_ppn : ℕ → Run PhysAddr
from_ppn ppn = new (ppn * 2 ^ 12 % usize_mod)

unfoldable pub new_truncated : ℕ → PhysAddr
new_truncated a = a * 2 ^ 8 % usize_mod / 2 ^ 8

unfoldable pub page_offset : PhysAddr → ℕ
page_offset a = bit_and a 0xfff

unfoldable pub page_index : PhysAddr → ℕ
page_index a = bit_and (a / 2 ^ 12) 0xfff_ffff_ffff

unfoldable pub ppn0 : PhysAddr → ℕ
ppn0 a = bit_and (a / 2 ^ 12) 0x1ff

unfoldable pub ppn1 : PhysAddr → ℕ
ppn1 a = bit_and (a / 2 ^ 21) 0x1ff

unfoldable pub ppn2 : PhysAddr → ℕ
ppn2 a = bit_and (a / 2 ^ 30) 0x3ff_ffff

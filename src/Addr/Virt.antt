-- ===== src/Addr/Virt.antt =====
-- `VirtAddr` of kernel/src/mm/addr/virt.rs, with its RISC-V part in kernel/src/arch/riscv/addr.rs
-- under the default feature sv39. The type wraps a `usize`: an address is a number.
-- `none` is the `Err(InvalidAddrError)` of `try_new`.
pub mod Canonical
use rv.Base.{ℕ, ◌+◌, ◌-◌, ◌*◌, ◌/◌, ◌%◌, ◌^◌, bit_and, Bool, ◌||◌, Option, none, some}
use rv.Base.{Run, unwrap, ◌>>=◌, ◌==◌, ltb, if◌then◌else◌}
use rv.Base.Word
use rv.Base.Word.{usize_mod}
use rv.Addr.Align

abbrev pub VirtAddr : Type 0
VirtAddr = ℕ

-- `x as isize >> k`: the sign bit is repeated.
abbrev pub arith_shr : ℕ → ℕ → ℕ
arith_shr x k = if ltb x (2 ^ 63) then x / 2 ^ k else usize_mod - 2 ^ 64 / 2 ^ k + x / 2 ^ k

-- `((addr << 25) as isize >> 25) as usize`
unfoldable pub new_truncated : ℕ → VirtAddr
new_truncated a = arith_shr (a * 2 ^ 25 % usize_mod) 25

unfoldable pub try_new : ℕ → Option VirtAddr
unfolding new_truncated
try_new a =
    let top = a / 2 ^ 38 in
    if top == 0 || top == 0x3ff_ffff
    then some a
    else if top == 1
    then some (new_truncated a)
    else none

unfoldable pub new : ℕ → Run VirtAddr
unfolding try_new
new a = unwrap (try_new a)

-- `Add` and `Sub`, for a `VirtAddr` or a `usize` on the right.
unfoldable pub add : VirtAddr → ℕ → Run VirtAddr
unfolding new
add a b = Word.add a b >>= new

unfoldable pub sub : VirtAddr → ℕ → Run VirtAddr
unfolding new
sub a b = Word.sub a b >>= new

unfoldable pub align_up : VirtAddr → ℕ → Run VirtAddr
unfolding new
align_up a align = Align.align_up a align >>= new

unfoldable pub align_down : VirtAddr → ℕ → Run VirtAddr
unfolding new
align_down a align = Align.align_down a align >>= new

abbrev pub is_aligned : VirtAddr → ℕ → Run Bool
is_aligned a align = Align.is_aligned a align

unfoldable pub page_offset : VirtAddr → ℕ
page_offset a = bit_and a 0xfff

unfoldable pub page_index : VirtAddr → ℕ
page_index a = bit_and (a / 2 ^ 12) 0x7ff_ffff

unfoldable pub vpn0 : VirtAddr → ℕ
vpn0 a = bit_and (a / 2 ^ 12) 0x1ff

unfoldable pub vpn1 : VirtAddr → ℕ
vpn1 a = bit_and (a / 2 ^ 21) 0x1ff

unfoldable pub vpn2 : VirtAddr → ℕ
vpn2 a = bit_and (a / 2 ^ 30) 0x1ff
